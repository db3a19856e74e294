-- ===== src/Input/Next.antt =====
-- `cmd_input_next` and `cmd_input_dir` of src/core/com.c. The tree of names with its cursor is
-- ffbase's fntree, and directories are read by ffsys: both are parameters.
use fcom.Prelude.{
  ℕ, zero, suc, Bool, true, false, Option, none, some, List, [], ◌∷◌, ◌++◌, if◌then◌else◌, length,
}
use fcom.Prelude.Memory.{Bytes}
use fcom.Input.{Source}

-- An entry at the cursor: the path of its block, its name, and of the blocks that the cursor is in
-- the paths of the first two.
pub record Visit : Type 0 where
  pub path : Bytes
  pub name : Bytes
  pub outer : Option Bytes
  pub second : Option Bytes

-- The tree of names: `fntree_add` to its root, `fntree_cur_next_r_ctx` or `fntree_cur_next_r`, and
-- `fntree_attach` of a block with this path and these names to the entry at the cursor.
pub record Tree : Type 1 where
  pub State : Type 0
  pub add : State → Bytes → Option State
  pub next_entry : (dirs_first : Bool) → State → Option (Visit × State)
  pub attach : State → Bytes → List Bytes → State

-- What is read of files: the names in a directory, by its name or its descriptor; the data of a list
-- of names, of which a read fails where it is `none` and an empty one is the end; and two functions
-- of ffbase on strings.
pub record Sources : Type 1 where
  pub Fd : Type 0
  pub scan : Bytes → Option Fd → Option (List Bytes)
  pub reads : Source Fd → List (Option Bytes)
  pub splitby : Bytes → ℕ → Bytes × Bytes
  pub trimwhite : Bytes → Bytes

-- The loop of `input_names_read` that reads the data, after the data so far.
unfoldable pub read_list : List (Option Bytes) → Bytes → Option Bytes
read_list [] data_read = some data_read
read_list (none ∷ cs) data_read = none
read_list (some [] ∷ cs) data_read = some data_read
read_list (some (b ∷ d) ∷ cs) data_read = read_list cs (data_read ++ (b ∷ d))

abbrev pub joined : Bytes → Bytes → Bytes
joined [] name = name
joined (b ∷ p) name = (b ∷ p) ++ (b'/' ∷ name)

-- `enum FCOM_COM_RINPUT`, with the name and the base directory.
pub data RInput : Type 0 where
  input_error no_more : RInput
  input_ok : Bytes → Option Bytes → RInput

module _ (t : Tree) (o : Sources) where
  open o use {Fd, scan, reads, splitby, trimwhite}

  -- The fields of `struct cmd` for input names.
  pub record Cmd : Type 0 where
    pub input : List Bytes
    pub input_fd : Option (Source Fd)
    pub tree : t.State
    pub ftree_name : Bytes
    pub ftree_dir : Option Fd
    pub is_dir : Bool  -- isdir
    pub set_ftree : Bool

  -- Names added to the tree one after another: false where one is not added.
  unfoldable pub add_all : List Bytes → t.State → t.State × Bool
  add_all [] s = (s, true)
  add_all (x ∷ xs) s = elim (t.add s x) [ none ↦ (s, false) | some s' ↦ add_all xs s' ]

  -- A name of the list, if it is not empty.
  abbrev pub add_name : t.State → Bytes → Option t.State
  add_name s [] = some s
  add_name s (b ∷ x) = t.add s (b ∷ x)

  -- The loop of `input_names_read` over the names; the data are shorter after each.
  unfoldable pub add_names : ℕ → Bytes → t.State → t.State × Bool
  add_names fuel [] s = (s, true)
  add_names zero (b ∷ view) s = (s, false)
  add_names (suc fuel) (b ∷ view) s =
      let (line, rest) = splitby (b ∷ view) b'\n' in
      elim (add_name s (trimwhite line)) [ none ↦ (s, false) | some s' ↦ add_names fuel rest s' ]

  -- `input_names_read`
  unfoldable pub input_names_read : Source Fd → t.State → t.State × Bool
  unfolding read_list
  input_names_read fd s = elim (read_list (reads fd) []) [
    | none ↦ (s, false)
    | some d ↦ add_names (length d) d s
  ]

  -- The first part of `cmd_input_next`: false is FCOM_COM_RINPUT_ERR.
  abbrev pub with_input : Cmd → Cmd × Bool
  with_input c =
      let (s, success) = add_all c.input c.tree in
      if c.set_ftree then (c, true) else (record c { set_ftree = true; tree = s }, success)

  abbrev pub read_names : Cmd → t.State × Bool → Cmd × Bool
  read_names c (s, true) = (record c { tree = s; input_fd = none }, true)
  read_names c (s, false) = (record c { tree = s }, false)

  -- The second part
  abbrev pub with_names : Cmd → Cmd × Bool
  with_names c = elim c.input_fd [
    | none ↦ (c, true)
    | some fd ↦ read_names c (input_names_read fd c.tree)
  ]

  -- The third part: the directory is read by its descriptor, if there is one.
  abbrev pub with_dir : Cmd → Cmd × Bool
  with_dir c =
      let c' = record c { is_dir = false; ftree_dir = none } in
      let names = scan c.ftree_name c.ftree_dir in
      if c.is_dir
      then (elim names [
        | none ↦ (c', false)
        | some xs ↦ (record c' { tree = t.attach c.tree c.ftree_name xs }, true)
      ])
      else (c, true)

  -- The name of an entry, with its path.
  abbrev pub full_name : Visit → Bytes
  full_name v = joined v.path v.name

  -- The base directory of an entry.
  abbrev pub base : Visit → Option Bytes
  base v = elim v.outer [
    | none ↦ none
    | some b ↦ elim v.second [ some p ↦ some p | none ↦ some v.path ]
  ]

  -- The last part
  abbrev pub next_name : Bool → Cmd → Cmd × RInput
  next_name dirs_first c = elim (t.next_entry dirs_first c.tree) [
    | none ↦ (c, no_more)
    | some (v, s) ↦
        (record c { tree = s; ftree_name = full_name v }, input_ok (full_name v) (base v))
  ]

  -- A part after another.
  abbrev pub and_then : Cmd × Bool → (Cmd → Cmd × RInput) → Cmd × RInput
  and_then (c, true) f = f c
  and_then (c, false) f = (c, input_error)

  -- `cmd_input_next`
  unfoldable pub input_next : Bool → Cmd → Cmd × RInput
  input_next dirs_first c =
      and_then (with_input c)
        λ c1. and_then (with_names c1) λ c2. and_then (with_dir c2) (next_name dirs_first)

  -- `cmd_input_dir`, on Linux
  abbrev pub input_dir : Cmd → Option Fd → Cmd
  input_dir c d = record c { is_dir = true; ftree_dir = d }
