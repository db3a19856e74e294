-- ===== src/Input/Filter.antt =====
-- What is included and excluded: `cmd_input_allowed` of src/core/com.c.
use fcom.Prelude.{
  ℕ, ◌≡◌, inl, inr, refl, Bool, true, false, not, ◌&&◌, List, [], ◌∷◌, if◌then◌else◌, arith,
  Bool-cases,
}
use fcom.Prelude.Memory.{Bytes}
use fcom.Input.{Cominfo, InputKind, is_empty, takes_dir, any_matches, input_allowed}

-- Some pattern is as the test says.
pub data Some (test : Bytes → Bool) : List Bytes → Type 0 where
  here : {p : Bytes} {ps : List Bytes} → test p ≡ true → Some test (p ∷ ps)
  there : {p : Bytes} {ps : List Bytes} → Some test ps → Some test (p ∷ ps)

-- No pattern is.
pub data NoneIs (test : Bytes → Bool) : List Bytes → Type 0 where
  nil : NoneIs test []
  cons : {p : Bytes} {ps : List Bytes} → test p ≡ false → NoneIs test ps → NoneIs test (p ∷ ps)

any_matches-Some :
    (wildcard : Bytes → Bytes → Bool) (ps : List Bytes) (name : Bytes)
    → any_matches wildcard ps name ≡ true
    → Some (λ p. wildcard p name) ps
unfolding any_matches
any_matches-Some wildcard [] name e = absurd (ground arith)
any_matches-Some wildcard (p ∷ ps) name e = elim (Bool-cases (wildcard p name)) [
  | inl t ↦ here t
  | inr f ↦ there (any_matches-Some wildcard ps name (ground arith))
]

any_matches-NoneIs :
    (wildcard : Bytes → Bytes → Bool) (ps : List Bytes) (name : Bytes)
    → any_matches wildcard ps name ≡ false
    → NoneIs (λ p. wildcard p name) ps
unfolding any_matches
any_matches-NoneIs wildcard [] name e = nil
any_matches-NoneIs wildcard (p ∷ ps) name e = elim (Bool-cases (wildcard p name)) [
  | inl t ↦ absurd (ground arith)
  | inr f ↦ cons f (any_matches-NoneIs wildcard ps name (ground arith))
]

is_empty-nil : (ps : List Bytes) → is_empty ps ≡ true → ps ≡ []
is_empty-nil [] e = refl
is_empty-nil (p ∷ ps) e = absurd (ground arith)

module _ {Fd : Type 0} (wildcard : Bytes → Bytes → Bool) (is_dir : Bytes → Bool) where
  -- The patterns that include files let the name through: there are none, or one matches, or it is
  -- the name of a directory.
  pub data LetsThrough (c : Cominfo Fd) (name : Bytes) (kind : InputKind) : Type 0 where
    no_patterns : c.include ≡ [] → LetsThrough c name kind
    a_directory : takes_dir is_dir c name kind ≡ true → LetsThrough c name kind
    included : Some (λ p. wildcard p name) c.include → LetsThrough c name kind

  pub data Verdict (c : Cominfo Fd) (name : Bytes) (kind : InputKind) : ℕ → Type 0 where
    allowed :
        LetsThrough c name kind → NoneIs (λ p. wildcard p name) c.exclude → Verdict c name kind 0
    not_included :
        is_empty c.include ≡ false
        → takes_dir is_dir c name kind ≡ false
        → NoneIs (λ p. wildcard p name) c.include
        → Verdict c name kind 1
    excluded :
        LetsThrough c name kind → Some (λ p. wildcard p name) c.exclude → Verdict c name kind 2

  Verdict-of_test :
      (c : Cominfo Fd) (name : Bytes) (kind : InputKind)
      → LetsThrough c name kind
      → (b : Bool) → any_matches wildcard c.exclude name ≡ b
      → Verdict c name kind (if b then 2 else 0)
  Verdict-of_test c name kind k true e = excluded k (any_matches-Some wildcard c.exclude name e)
  Verdict-of_test c name kind k false e = allowed k (any_matches-NoneIs wildcard c.exclude name e)

  -- The name of a file is allowed where there are no patterns to include or one matches, and none
  -- to exclude matches; where there are patterns to include and none matches the code is 1,
  -- whatever is excluded, and where else one excludes it the code is 2. The name of a directory
  -- is only excluded.
  pub Verdict-input_allowed :
      (c : Cominfo Fd) (name : Bytes) (kind : InputKind)
      → Verdict c name kind (input_allowed wildcard is_dir c name kind)
  unfolding input_allowed
  Verdict-input_allowed c name kind =
      by_test (is_empty c.include) (takes_dir is_dir c name kind)
        (any_matches wildcard c.include name) refl refl refl
    where
      code : ℕ
      code = if any_matches wildcard c.exclude name then 2 else 0

      through : LetsThrough c name kind → Verdict c name kind code
      through k = Verdict-of_test c name kind k (any_matches wildcard c.exclude name) refl

      by_test :
          (e d m : Bool)
          → is_empty c.include ≡ e
          → takes_dir is_dir c name kind ≡ d
          → any_matches wildcard c.include name ≡ m
          → Verdict c name kind (if not e && not d then (if m then code else 1) else code)
      by_test true d m e1 e2 e3 = through (no_patterns (is_empty-nil c.include e1))
      by_test false true m e1 e2 e3 = through (a_directory e2)
      by_test false false true e1 e2 e3 =
          through (included (any_matches-Some wildcard c.include name e3))
      by_test false false false e1 e2 e3 =
          not_included e1 e2 (any_matches-NoneIs wildcard c.include name e3)
