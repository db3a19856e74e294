-- ===== src/Input/Tests.antt =====
-- Input names of src/core/com.c over a small tree of directories.
use fcom.Prelude.{
  Option, ◌&&◌, ℕ, ◌≡◌, refl, ap, ◌∙◌, Bool, true, false, none, some, List, [], ◌∷◌, ◌++◌, ◌==◌,
  if◌then◌else◌, arith, length,
}
use fcom.Prelude.Memory.{Bytes}
use fcom.Input.{Cominfo, ia_file, standard_input, any_matches, input_allowed}
use fcom.Input.Next.{Tree, Sources, read_list}
use fcom.Input.Walk.{Pending, within, Preorder, nothing, a_file, a_directory, list_inputs}
use fcom.Input.Lists.{has_no_lf, lines_text, nil, cons}
use fcom.Input.Start.{a_list, fresh, list_inputs-fresh}
use fcom.Input.Filter.{Verdict, Verdict-input_allowed}

abbrev waiting : Tree
waiting = record {
  State = Pending;
  add = λ s x. some (s ++ (([], x) ∷ []));
  next_entry = λ b s. elim s [
    | [] ↦ none
    | z ∷ ps ↦ some (record { path = z.0; name = z.1; outer = none; second = none }, ps)
  ];
  attach = λ s p xs. within p xs ++ s;
}

waiting-ended : (s : Pending) → s ≡ [] → waiting.next_entry false s ≡ none
waiting-ended s e = ap (waiting.next_entry false) e

abbrev waiting_preorder : Preorder waiting
waiting_preorder = record {
  pending = λ s. s;
  added = λ s x. (s ++ (([], x) ∷ []), refl, refl);
  ended = waiting-ended;
  advanced = λ s path name ps e. (
    record { path = path; name = name; outer = none; second = none },
    ps,
    ap (waiting.next_entry false) e,
    refl,
    refl,
    refl,
    λ p xs. refl,
  );
}

abbrev split_at : Bytes → ℕ → Bytes × Bytes
split_at [] b = ([], [])
split_at (c ∷ s) b = let r = split_at s b in if c == b then ([], s) else (c ∷ r.0, r.1)

-- "d", which holds "f"
abbrev is_directory : Bytes → Bool
is_directory [] = false
is_directory (b ∷ []) = b == b'd'
is_directory (b ∷ c ∷ s) = false

-- The descriptor of a directory
abbrev opened : Bytes → Option ℕ
opened name = some (length name)

-- The list of names is "a", an empty line and "d" without a line feed, in two pieces.
abbrev sources : Sources
sources = record {
  Fd = ℕ;
  scan = λ name fd. elim fd [
    | none ↦ none
    | some n ↦ if is_directory name && n == length name then some ((b'f' ∷ []) ∷ []) else none
  ];
  reads = λ fd. some (b'a' ∷ b'\n' ∷ []) ∷ some (b'\n' ∷ b'd' ∷ []) ∷ some [] ∷ [];
  splitby = split_at;
  trimwhite = λ x. x;
}

split_at-line :
    (l rest : Bytes) → has_no_lf l ≡ true → split_at (l ++ (b'\n' ∷ rest)) b'\n' ≡ (l, rest)
split_at-line [] rest e = refl
split_at-line (b ∷ l) rest e =
    let other : (b == b'\n') ≡ false = ground arith in
    ap (λ r. if b == b'\n' then ([], l ++ (b'\n' ∷ rest)) else (b ∷ r.0, r.1))
      (split_at-line l rest (ground arith))
    ∙ ap (λ x. if x then ([], l ++ (b'\n' ∷ rest)) else (b ∷ l, rest)) other

split_at-last : (l : Bytes) → has_no_lf l ≡ true → split_at l b'\n' ≡ (l, [])
split_at-last [] e = refl
split_at-last (b ∷ l) e =
    let other : (b == b'\n') ≡ false = ground arith in
    ap (λ r. if b == b'\n' then ([], l) else (b ∷ r.0, r.1)) (split_at-last l (ground arith))
    ∙ ap (λ x. if x then ([], l) else (b ∷ l, [])) other

abbrev lines : List Bytes
lines = (b'a' ∷ []) ∷ [] ∷ []

read_lines : read_list (sources.reads standard_input) [] ≡ some (lines_text lines (b'd' ∷ []))
unfolding read_list
read_lines = refl

-- The input name is "b".
list_inputs-fresh_example :
    list_inputs sources is_directory opened waiting 5 (
      fresh waiting sources waiting_preorder
        (record { split_line = split_at-line; split_last = split_at-last })
        is_directory
        opened
        []
        ((b'b' ∷ []) ∷ [])
        (some standard_input))
    ≡ some ((b'b' ∷ []) ∷ (b'a' ∷ []) ∷ (b'd' ∷ []) ∷ (b'd' ∷ b'/' ∷ b'f' ∷ []) ∷ [], none)
list_inputs-fresh_example =
    list_inputs-fresh waiting sources waiting_preorder
      (record { split_line = split_at-line; split_last = split_at-last }) is_directory opened 5 []
      ((b'b' ∷ []) ∷ []) ((b'a' ∷ []) ∷ (b'd' ∷ []) ∷ [])
      ((b'b' ∷ []) ∷ (b'a' ∷ []) ∷ (b'd' ∷ []) ∷ (b'd' ∷ b'/' ∷ b'f' ∷ []) ∷ [])
      (some standard_input) (a_list lines (b'd' ∷ []) (cons refl (cons refl nil)) refl read_lines)
      (a_file refl (a_file refl (a_directory refl refl (a_file refl nothing) nothing)))
      (omega arith) refl

abbrev filters : Cominfo ℕ
filters = record {
  stdin = false;
  input = [];
  input_fd = none;
  include = (b'a' ∷ []) ∷ [];
  exclude = (b'b' ∷ []) ∷ [];
  buffer_size = 0;
}

Verdict-input_allowed_example :
    Verdict (λ p name. length p == length name) is_directory filters (b'c' ∷ []) ia_file 2
unfolding input_allowed any_matches
Verdict-input_allowed_example =
    Verdict-input_allowed (λ p name. length p == length name) is_directory filters (b'c' ∷ [])
      ia_file
