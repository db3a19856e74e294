-- ===== src/Input/Start.antt =====
-- All the names that an operation gets from `cmd_input_next` of src/core/com.c, from its first call.
use fcom.Prelude.{
  ℕ, zero, suc, ◌≡◌, ◌<◌, refl, sym, ◌∙◌, ap, Bool, true, false, Option, none, some, List, [], ◌++◌,
  append-nil, arith, length,
}
use fcom.Prelude.Memory.{Bytes}
use fcom.Input.{Source}
use fcom.Input.Next.{
  Tree, Sources, Cmd, RInput, next_name, and_then, with_dir, with_names, read_names, read_list,
  input_next,
}
use fcom.Input.Walk.{within, Preorder, Listed, then_list, list_inputs, list_inputs-Listed}
use fcom.Input.Lists.{
  has_no_lf, lines_text, AllLines, Splits, within-append, names_of, Adds-add_all,
  Adds-input_names_read,
}

module _ (t : Tree) (o : Sources) (l : Preorder t) (sp : Splits o) (is_directory : Bytes → Bool)
    (descriptor : Bytes → Option o.Fd) where
  open o use {reads, Fd}
  open l use {pending}

  -- The names that the list of names gives, if there is one.
  pub data FromList : Option (Source Fd) → List Bytes → Type 0 where
    no_list : FromList none []
    a_list :
        {fd : Source Fd} (ls : List Bytes) (last : Bytes)
        → AllLines ls
        → has_no_lf last ≡ true
        → read_list (reads fd) [] ≡ some (lines_text ls last)
        → FromList (some fd) (names_of t o l ls last)

  -- As `cmd_create` and the arguments leave it.
  abbrev pub fresh : t.State → List Bytes → Option (Source Fd) → Cmd t o
  fresh s inputs fd = record {
    input = inputs;
    input_fd = fd;
    tree = s;
    ftree_name = [];
    ftree_dir = none;
    is_dir = false;
    set_ftree = false;
  }

  abbrev begun : t.State → List Bytes → Cmd t o
  begun s inputs = record (fresh s inputs none) { set_ftree = true }

  begins :
      (s : t.State) (inputs names : List Bytes) (fd : Option (Source Fd))
      → FromList fd names
      → (s2 : t.State) × (input_next t o false (fresh s inputs fd)
          ≡ input_next t o false (begun s2 inputs))
        × (pending s2 ≡ (pending s ++ within [] inputs) ++ within [] names)
  unfolding input_next
  begins s inputs names fd from =
      let k = Adds-add_all t o l inputs s in
      let first : t.State × Bool → Cmd t o × RInput = λ r.
        and_then t o (record (fresh r.0 inputs fd) { set_ftree = true }, r.1)
          λ c1.
            and_then t o (with_names t o c1)
              λ c2. and_then t o (with_dir t o c2) (next_name t o false) in
      let (s2, e, p) = named k.state fd from in
      (s2, ap first k.result ∙ e, p ∙ ap (λ z. z ++ within [] names) k.after)
    where
      second : t.State → Option (Source Fd) → t.State × Bool → Cmd t o × RInput
      second s1 fd r =
          and_then t o (read_names t o (record (fresh s1 inputs fd) { set_ftree = true }) r)
            λ c2. and_then t o (with_dir t o c2) (next_name t o false)

      named :
          (s1 : t.State) (fd : Option (Source Fd)) {names : List Bytes}
          → FromList fd names
          → (s2 : t.State) × (and_then t o
                (with_names t o (record (fresh s1 inputs fd) { set_ftree = true }))
                (λ c2. and_then t o (with_dir t o c2) (next_name t o false))
              ≡ input_next t o false (begun s2 inputs))
            × (pending s2 ≡ pending s1 ++ within [] names)
      named s1 none no_list = (s1, refl, sym (append-nil (pending s1)))
      named s1 (some fd) (a_list ls last k z e) =
          let a = Adds-input_names_read t o l sp fd ls last s1 k z e in
          (a.state, ap (second s1 (some fd)) a.result, a.after)

  -- From the first call on: the names that input_next gives, where each directory is handed back,
  -- by its name or by a descriptor, are the input names and then those of the lines of the list,
  -- if there is one, the last of which needs no line feed, each directory before all that is
  -- below it; then there are no more, and each descriptor has been taken by the read of its
  -- directory. The tree of names starts empty, and what is below the names ends.
  pub list_inputs-fresh :
      (n : ℕ) (s : t.State) (inputs names xs : List Bytes) (fd : Option (Source Fd))
      → FromList fd names
      → Listed o is_directory descriptor (within [] (inputs ++ names)) xs
      → length xs < n
      → pending s ≡ []
      → list_inputs o is_directory descriptor t n (fresh s inputs fd) ≡ some (xs, none)
  unfolding list_inputs
  list_inputs-fresh zero s inputs names xs fd from k lt e = absurd (omega arith)
  list_inputs-fresh (suc n) s inputs names xs fd from k lt e =
      let (s2, q, p) = begins s inputs names fd from in
      ap (then_list o is_directory descriptor t (λ c. list_inputs o is_directory descriptor t n c))
        q
      ∙ list_inputs-Listed o is_directory descriptor t l (suc n) (within [] (inputs ++ names)) xs s2
          [] inputs k lt
          (p
            ∙ ap (λ z. (z ++ within [] inputs) ++ within [] names) e
            ∙ sym (within-append [] inputs names))
