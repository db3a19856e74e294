-- ===== src/Input/Lists.antt =====
-- The names of a list, which `input_names_read` of src/core/com.c adds to the tree.
use fcom.Prelude.{
  ℕ, zero, suc, ◌≡◌, ◌≤◌, refl, sym, ◌∙◌, ap, Bool, true, false, not, ◌&&◌, ◌==◌, Option, none,
  some, List, [], ◌∷◌, ◌++◌, append-nil, append_assoc, arith, length, length-append, subst,
}
use fcom.Prelude.Memory.{Bytes}
use fcom.Input.{Source}
use fcom.Input.Next.{Tree, Sources, add_all, add_name, add_names, input_names_read, read_list}
use fcom.Input.Walk.{within, Preorder}

abbrev pub has_no_lf : Bytes → Bool
has_no_lf [] = true
has_no_lf (b ∷ s) = not (b == b'\n') && has_no_lf s

-- Lines, each with its line feed, and what follows the last of them.
abbrev pub lines_text : List Bytes → Bytes → Bytes
lines_text [] last = last
lines_text (l ∷ ls) last = l ++ (b'\n' ∷ lines_text ls last)

pub data AllLines : List Bytes → Type 0 where
  nil : AllLines []
  cons : {l : Bytes} {ls : List Bytes} → has_no_lf l ≡ true → AllLines ls → AllLines (l ∷ ls)

-- What ffbase documents of `ffstr_splitby`: the text is split at the first of these bytes, and
-- without one there is nothing after it.
pub record Splits (o : Sources) : Type 1 where
  pub split_line :
      (l rest : Bytes) → has_no_lf l ≡ true → o.splitby (l ++ (b'\n' ∷ rest)) b'\n' ≡ (l, rest)
  pub split_last : (l : Bytes) → has_no_lf l ≡ true → o.splitby l b'\n' ≡ (l, [])

pub within-append :
    (p : Bytes) (xs ys : List Bytes) → within p (xs ++ ys) ≡ within p xs ++ within p ys
within-append p [] ys = refl
within-append p (x ∷ xs) ys = ap (λ z. (p, x) ∷ z) (within-append p xs ys)

module _ (t : Tree) (o : Sources) (l : Preorder t) where
  open o use {trimwhite, splitby, reads, Fd}
  open l use {pending, added}

  -- A name, if it is not empty, before others.
  abbrev pub kept : Bytes → List Bytes → List Bytes
  kept [] ns = ns
  kept (b ∷ x) ns = (b ∷ x) ∷ ns

  -- The name of what follows the last line feed, if it is not empty.
  abbrev last_name : Bytes → List Bytes
  last_name [] = []
  last_name (b ∷ x) = kept (trimwhite (b ∷ x)) []

  -- The names of lines: what is not white of each, if there is any.
  abbrev pub names_of : List Bytes → Bytes → List Bytes
  names_of [] last = last_name last
  names_of (x ∷ xs) last = kept (trimwhite x) (names_of xs last)

  -- The names are added at the end of the tree's root.
  pub record Adds (s : t.State) (xs : List Bytes) (r : t.State × Bool) : Type 0 where
    pub state : t.State
    pub result : r ≡ (state, true)
    pub after : pending state ≡ pending s ++ within [] xs

  Adds-cons :
      (s s1 : t.State) (x : Bytes) (xs : List Bytes) (r r' : t.State × Bool)
      → r' ≡ r
      → pending s1 ≡ pending s ++ (([], x) ∷ [])
      → Adds s1 xs r
      → Adds s (x ∷ xs) r'
  Adds-cons s s1 x xs r r' e p k = record {
    state = k.state;
    result = e ∙ k.result;
    after =
        k.after
        ∙ ap (λ z. z ++ within [] xs) p
        ∙ append_assoc (pending s) (([], x) ∷ []) (within [] xs);
  }

  pub Adds-add_all : (xs : List Bytes) (s : t.State) → Adds s xs (add_all t o xs s)
  unfolding add_all
  Adds-add_all [] s = record { state = s; result = refl; after = sym (append-nil (pending s)) }
  Adds-add_all (x ∷ xs) s =
      let (s1, e, p) = added s x in
      Adds-cons s s1 x xs (add_all t o xs s1) _
        (ap (λ r. elim r [ none ↦ (s, false) | some s' ↦ add_all t o xs s' ]) e) p
        (Adds-add_all xs s1)

  -- The loop of `input_names_read`, after a line.
  abbrev after_line : ℕ → Bytes → t.State → Option t.State → t.State × Bool
  after_line fuel rest s none = (s, false)
  after_line fuel rest s (some s') = add_names t o fuel rest s'

  Adds-kept :
      (y : Bytes) (ns : List Bytes) (fuel : ℕ) (rest : Bytes) (s : t.State)
      → ((s1 : t.State) → Adds s1 ns (add_names t o fuel rest s1))
      → Adds s (kept y ns) (after_line fuel rest s (add_name t o s y))
  Adds-kept [] ns fuel rest s ih = ih s
  Adds-kept (b ∷ x) ns fuel rest s ih =
      let (s1, e, p) = added s (b ∷ x) in
      Adds-cons s s1 (b ∷ x) ns (add_names t o fuel rest s1) _ (ap (after_line fuel rest s) e) p
        (ih s1)

  module _ (sp : Splits o) where
    open sp use {split_line, split_last}

    add_names-line :
        (n : ℕ) (x rest : Bytes) (s : t.State)
        → has_no_lf x ≡ true
        → add_names t o (suc n) (x ++ (b'\n' ∷ rest)) s
          ≡ after_line n rest s (add_name t o s (trimwhite x))
    unfolding add_names
    add_names-line n [] rest s e =
        ap (λ r. after_line n r.1 s (add_name t o s (trimwhite r.0))) (split_line [] rest e)
    add_names-line n (b ∷ x) rest s e =
        ap (λ r. after_line n r.1 s (add_name t o s (trimwhite r.0))) (split_line (b ∷ x) rest e)

    Adds-nothing : (n : ℕ) (s : t.State) → Adds s [] (add_names t o n [] s)
    unfolding add_names
    Adds-nothing zero s = record { state = s; result = refl; after = sym (append-nil (pending s)) }
    Adds-nothing (suc n) s = record {
      state = s;
      result = refl;
      after = sym (append-nil (pending s));
    }

    -- What follows the last line feed.
    Adds-last :
        (last : Bytes) (n : ℕ) (s : t.State)
        → has_no_lf last ≡ true
        → length last ≤ n
        → Adds s (last_name last) (add_names t o n last s)
    unfolding add_names
    Adds-last [] n s e le = Adds-nothing n s
    Adds-last (b ∷ x) zero s e le = absurd (omega (arith, le))
    Adds-last (b ∷ x) (suc n) s e le =
        subst (Adds s (last_name (b ∷ x)))
          (sym
            (ap (λ r. after_line n r.1 s (add_name t o s (trimwhite r.0))) (split_last (b ∷ x) e)))
          (Adds-kept (trimwhite (b ∷ x)) [] n [] s (Adds-nothing n))

    Adds-add_names :
        (ls : List Bytes) (last : Bytes) (n : ℕ) (s : t.State)
        → AllLines ls
        → has_no_lf last ≡ true
        → length (lines_text ls last) ≤ n
        → Adds s (names_of ls last) (add_names t o n (lines_text ls last) s)
    Adds-add_names [] last n s k z le = Adds-last last n s z le
    Adds-add_names (x ∷ ls) last zero s k z le =
        absurd (omega (arith, length-append x (b'\n' ∷ lines_text ls last)))
    Adds-add_names (x ∷ ls) last (suc n) s (cons e k) z le =
        subst (Adds s (names_of (x ∷ ls) last)) (sym (add_names-line n x (lines_text ls last) s e))
          (Adds-kept (trimwhite x) (names_of ls last) n (lines_text ls last) s λ s1.
            Adds-add_names ls last n s1 k z
              (omega (arith, length-append x (b'\n' ∷ lines_text ls last))))

    -- A list of lines, however it is read, adds what is not white of each line that has any, also of
    -- a last one that no line feed ends.
    pub Adds-input_names_read :
        (fd : Source Fd) (ls : List Bytes) (last : Bytes) (s : t.State)
        → AllLines ls
        → has_no_lf last ≡ true
        → read_list (reads fd) [] ≡ some (lines_text ls last)
        → Adds s (names_of ls last) (input_names_read t o fd s)
    unfolding input_names_read
    Adds-input_names_read fd ls last s k z e =
        subst
          (λ r.
            Adds s (names_of ls last)
              (elim r [ none ↦ (s, false) | some d ↦ add_names t o (length d) d s ]))
          (sym e) (Adds-add_names ls last (length (lines_text ls last)) s k z (omega arith))
