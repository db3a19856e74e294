-- ===== src/Input/Walk.antt =====
-- What an operation is given that asks `cmd_input_next` of src/core/com.c for names until there are
-- no more, and hands each directory back to `cmd_input_dir`.
use fcom.Prelude.{
  ℕ, zero, suc, ◌≡◌, ◌<◌, refl, sym, ◌∙◌, ap, Bool, true, false, Option, none, some, List, [], ◌∷◌,
  ◌++◌, append_assoc, if◌then◌else◌, arith, length, subst,
}
use fcom.Prelude.Memory.{Bytes}
use fcom.Input.Next.{
  Visit, Tree, Sources, Cmd, RInput, input_error, no_more, input_ok, joined, full_name, base,
  input_next, input_dir, next_name, and_then,
}

-- An entry that waits in the tree: the path of its block and its name.
abbrev pub Pending : Type 0
Pending = List (Bytes × Bytes)

abbrev pub within : Bytes → List Bytes → Pending
within path [] = []
within path (x ∷ xs) = (path, x) ∷ within path xs

-- What ffbase documents of its tree: the root's entries come in their order, and those of a block
-- that is attached to an entry come next after it.
pub record Preorder (t : Tree) : Type 1 where
  pub pending : t.State → Pending
  pub added :
      (s : t.State) (x : Bytes)
      → (s' : t.State) × (t.add s x ≡ some s') × (pending s' ≡ pending s ++ (([], x) ∷ []))
  pub ended : (s : t.State) → pending s ≡ [] → t.next_entry false s ≡ none
  pub advanced :
      (s : t.State) (path name : Bytes) (ps : Pending)
      → pending s ≡ (path, name) ∷ ps
      → (v : Visit) × (s' : t.State) × (t.next_entry false s ≡ some (v, s'))
        × (v.path ≡ path)
        × (v.name ≡ name)
        × (pending s' ≡ ps)
        × ((p : Bytes) (xs : List Bytes) → pending (t.attach s' p xs) ≡ within p xs ++ ps)

-- `descriptor` is what the operation passes to `cmd_input_dir` for a directory, if it passes any.
module _ (o : Sources) (is_directory : Bytes → Bool) (descriptor : Bytes → Option o.Fd) where
  open o use {scan, Fd}

  -- The names of entries and of all that is below them, each directory before what it holds; where
  -- that does not end there are none.
  pub data Listed : Pending → List Bytes → Type 0 where
    nothing : Listed [] []
    a_file :
        {path name : Bytes} {ps : Pending} {xs : List Bytes}
        → is_directory (joined path name) ≡ false
        → Listed ps xs
        → Listed ((path, name) ∷ ps) (joined path name ∷ xs)
    a_directory :
        {path name : Bytes} {ps : Pending} {names below xs : List Bytes}
        → is_directory (joined path name) ≡ true
        → scan (joined path name) (descriptor (joined path name)) ≡ some names
        → Listed (within (joined path name) names) below
        → Listed ps xs
        → Listed ((path, name) ∷ ps) (joined path name ∷ (below ++ xs))

  Listed-append :
      {ps qs : Pending} {xs ys : List Bytes}
      → Listed ps xs
      → Listed qs ys
      → Listed (ps ++ qs) (xs ++ ys)
  Listed-append nothing m = m
  Listed-append (a_file e l) m = a_file e (Listed-append l m)
  Listed-append {qs = qs} {ys = ys}
        (a_directory {path = path} {name = name} {ps = ps} {below = below} {xs = xs} e d l r) m =
      subst (λ z. Listed ((path, name) ∷ (ps ++ qs)) (joined path name ∷ z))
        (sym (append_assoc below xs ys)) (a_directory e d l (Listed-append r m))

  module _ (t : Tree) where
    -- The name again is one of a directory.
    abbrev pub descend : Cmd t o → Bytes → Cmd t o
    descend c name = if is_directory name then input_dir t o c (descriptor name) else c

    -- The names, and the descriptor that the command still holds after them.
    abbrev pub Inputs : Type 0
    Inputs = List Bytes × Option Fd

    abbrev pub cons_name : Bytes → Option Inputs → Option Inputs
    cons_name x none = none
    cons_name x (some (xs, d)) = some (x ∷ xs, d)

    -- What is done with what `input_next` returned.
    abbrev pub then_list : (Cmd t o → Option Inputs) → Cmd t o × RInput → Option Inputs
    then_list rest (c, input_error) = none
    then_list rest (c, no_more) = some ([], c.ftree_dir)
    then_list rest (c, input_ok name dir) = cons_name name (rest (descend c name))

    -- The names, up to the end: `none` is an error, or that the fuel has run out.
    unfoldable pub list_inputs : ℕ → Cmd t o → Option Inputs
    list_inputs zero c = none
    list_inputs (suc fuel) c = then_list (λ c1. list_inputs fuel c1) (input_next t o false c)

  module _ (t : Tree) (l : Preorder t) where
    open l use {pending, added, ended, advanced}

    -- A command past its first call.
    abbrev settled : t.State → Bytes → Bool → Option Fd → List Bytes → Cmd t o
    settled s name dir fd xs = record {
      input = xs;
      input_fd = none;
      tree = s;
      ftree_name = name;
      ftree_dir = fd;
      is_dir = dir;
      set_ftree = true;
    }

    -- A name is given, and the rest are.
    abbrev named :
        ℕ → t.State → Bytes → Option Fd → List Bytes → Option (Visit × t.State) → Option (Inputs t)
    named n s name fd inputs r =
        then_list t (λ c. list_inputs t n c)
          (elim r [
            | none ↦ (settled s name false fd inputs, no_more)
            | some (v, s') ↦ (
              settled s' (full_name t o v) false fd inputs,
              input_ok (full_name t o v) (base t o v),
            )
          ])

    list_inputs-named :
        (n : ℕ) (s : t.State) (name : Bytes) (fd : Option Fd) (inputs : List Bytes)
        → list_inputs t (suc n) (settled s name false fd inputs)
          ≡ named n s name fd inputs (t.next_entry false s)
    unfolding list_inputs input_next
    list_inputs-named n s name fd inputs = refl

    -- A directory that was handed back is read first.
    list_inputs-dir :
        (n : ℕ) (s : t.State) (name : Bytes) (inputs names : List Bytes)
        → scan name (descriptor name) ≡ some names
        → list_inputs t n (settled s name true (descriptor name) inputs)
          ≡ list_inputs t n (settled (t.attach s name names) name false none inputs)
    unfolding list_inputs input_next
    list_inputs-dir zero s name inputs names e = refl
    list_inputs-dir (suc n) s name inputs names e =
        ap
          (λ r.
            then_list t (λ c. list_inputs t n c)
              (and_then t o
                (elim r [
                  | none ↦ (settled s name false none inputs, false)
                  | some xs ↦ (settled (t.attach s name xs) name false none inputs, true)
                ])
                (next_name t o false)))
          e

    full_name-joined :
        (v : Visit) (path name : Bytes)
        → v.path ≡ path
        → v.name ≡ name
        → full_name t o v ≡ joined path name
    full_name-joined v path name p n = ap (λ x. joined x v.name) p ∙ ap (λ x. joined path x) n

    -- A call that gives a name, which is one of a directory or is not.
    list_inputs-name :
        (n : ℕ) (s s' : t.State) (name path x : Bytes) (fd : Option Fd) (inputs : List Bytes)
        (v : Visit) (b : Bool)
        → t.next_entry false s ≡ some (v, s')
        → v.path ≡ path
        → v.name ≡ x
        → is_directory (joined path x) ≡ b
        → let c = settled s' (joined path x) false fd inputs in
          list_inputs t (suc n) (settled s name false fd inputs)
          ≡ cons_name t
              (joined path x)
              (list_inputs t n (if b then input_dir t o c (descriptor (joined path x)) else c))
    list_inputs-name n s s' name path x fd inputs v b q p1 p2 f =
        let c = settled s' (joined path x) false fd inputs in
        list_inputs-named n s name fd inputs
        ∙ ap (named n s name fd inputs) q
        ∙ ap (λ y. cons_name t y (list_inputs t n (descend t (settled s' y false fd inputs) y)))
            (full_name-joined v path x p1 p2)
        ∙ ap
            (λ b.
              cons_name t (joined path x)
                (list_inputs t n (if b then input_dir t o c (descriptor (joined path x)) else c)))
            f

    pub list_inputs-Listed :
        (n : ℕ) (ps : Pending) (xs : List Bytes) (s : t.State) (name : Bytes) (inputs : List Bytes)
        → Listed ps xs
        → length xs < n
        → pending s ≡ ps
        → list_inputs t n (settled s name false none inputs) ≡ some (xs, none)
    list_inputs-Listed zero ps xs s name inputs k lt e = absurd (omega arith)
    list_inputs-Listed (suc n) _ _ s name inputs nothing lt e =
        list_inputs-named n s name none inputs ∙ ap (named n s name none inputs) (ended s e)
    list_inputs-Listed (suc n) _ _ s name inputs
          (a_file {path = path} {name = x} {ps = ps} {xs = xs} f k) lt e =
        let (v, s', q, p1, p2, p3, below) = advanced s path x ps e in
        list_inputs-name n s s' name path x none inputs v false q p1 p2 f
        ∙ ap (cons_name t (joined path x))
            (list_inputs-Listed n ps xs s' (joined path x) inputs k (omega arith) p3)
    list_inputs-Listed (suc n) _ _ s name inputs
          (a_directory {path = path} {name = x} {ps = ps} {names = names} {below = ys} {xs = xs} f d
            k r)
          lt e =
        let (v, s', q, p1, p2, p3, below) = advanced s path x ps e in
        let dir = joined path x in
        list_inputs-name n s s' name path x none inputs v true q p1 p2 f
        ∙ ap (cons_name t dir) (
            list_inputs-dir n s' dir inputs names d
            ∙ list_inputs-Listed n (within dir names ++ ps) (ys ++ xs) (t.attach s' dir names) dir
                inputs (Listed-append k r) (omega arith) (below dir names))
