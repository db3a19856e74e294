-- ===== src/Input.antt =====
-- The input names of an operation, src/core/com.c: the arguments that name them, the list of names
-- that '@' reads, and what is included and excluded.
pub mod Next
pub mod Walk
pub mod Lists
pub mod Start
pub mod Filter
mod Tests
use fcom.Prelude.{
  ℕ, zero, suc, Bool, true, false, not, ◌&&◌, Option, none, some, List, [], ◌∷◌, ◌++◌, ◌==◌, ◌%◌,
  ◌^◌, if◌then◌else◌, length,
}
use fcom.Prelude.Memory.{Bytes}

-- A file that names are read from: the standard input or a file.
pub data Source (Fd : Type 0) : Type 0 where
  standard_input : Source Fd
  list_file : Fd → Source Fd

-- The fields of `struct fcom_cominfo` that the arguments set.
pub record Cominfo (Fd : Type 0) : Type 0 where
  pub stdin : Bool
  pub input : List Bytes
  pub input_fd : Option (Source Fd)
  pub include : List Bytes
  pub exclude : List Bytes
  pub buffer_size : ℕ

module _ {Fd : Type 0} where
  -- The end of `args_input`
  abbrev pub push_input : Cominfo Fd → Bytes → Cominfo Fd
  push_input c s = record c { input = c.input ++ (s ∷ []) }

  -- The name after '@' in `args_input`, where no list is open yet; `open_list` is `fffile_open`.
  abbrev pub open_names : (Bytes → Option Fd) → Cominfo Fd → Bytes → Option (Cominfo Fd)
  open_names open_list c [] = some (record c { input_fd = some standard_input })
  open_names open_list c (b ∷ s) = elim (open_list (b ∷ s)) [
    | none ↦ none
    | some fd ↦ some (record c { input_fd = some (list_file fd) })
  ]

  abbrev pub at_names : (Bytes → Option Fd) → Cominfo Fd → Bytes → Option (Cominfo Fd)
  at_names open_list c s = elim c.input_fd [ some fd ↦ none | none ↦ open_names open_list c s ]

  -- `args_input`: `none` is FFCMDARG_ERROR.
  unfoldable pub args_input : (Bytes → Option Fd) → Cominfo Fd → Bytes → Option (Cominfo Fd)
  args_input open_list c [] = some (push_input (record c { stdin = true }) [])
  args_input open_list c (b ∷ s) =
      if b == b'-'
      then none
      else if b == b'@'
      then at_names open_list c s
      else some (push_input c (b ∷ s))

  -- `args_include`
  abbrev pub args_include : Cominfo Fd → Bytes → Cominfo Fd
  args_include c s = record c { include = c.include ++ (s ∷ []) }

  -- `args_exclude`
  abbrev pub args_exclude : Cominfo Fd → Bytes → Cominfo Fd
  args_exclude c s = record c { exclude = c.exclude ++ (s ∷ []) }

  -- `args_buffer`, of which the number has 64 bits and the field 32.
  abbrev pub args_buffer : Cominfo Fd → ℕ → Option (Cominfo Fd)
  args_buffer c n = if n == 0 then none else some (record c { buffer_size = n % 2 ^ 32 })

-- `enum FCOM_COM_IA`
pub data InputKind : Type 0 where
  ia_file ia_dir ia_auto : InputKind

abbrev pub is_empty : List Bytes → Bool
is_empty [] = true
is_empty (x ∷ xs) = false

-- A loop of `cmd_input_allowed`; `wildcard` is `ffs_wildcard`, without regard to the case.
unfoldable pub any_matches : (Bytes → Bytes → Bool) → List Bytes → Bytes → Bool
any_matches wildcard [] name = false
any_matches wildcard (p ∷ ps) name = if wildcard p name then true else any_matches wildcard ps name

module _ {Fd : Type 0} where
  -- Whether the name is that of a directory; `is_dir` asks for the file's attributes.
  abbrev pub takes_dir : (Bytes → Bool) → Cominfo Fd → Bytes → InputKind → Bool
  takes_dir is_dir c name ia_file = false
  takes_dir is_dir c name ia_dir = true
  takes_dir is_dir c name ia_auto = not (is_empty c.include) && is_dir name

  -- `cmd_input_allowed`: 1 is that no pattern includes the name, 2 that one excludes it.
  unfoldable pub input_allowed :
      (Bytes → Bytes → Bool) → (Bytes → Bool) → Cominfo Fd → Bytes → InputKind → ℕ
  unfolding any_matches
  input_allowed wildcard is_dir c name kind =
      let excluded = if any_matches wildcard c.exclude name then 2 else 0 in
      if not (is_empty c.include) && not (takes_dir is_dir c name kind)
      then (if any_matches wildcard c.include name then excluded else 1)
      else excluded
