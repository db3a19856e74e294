-- ===== src/Copy.antt =====
-- The operation `copy` of src/fs/copy.c with copy-output.h, copy-verify.h and copy-crypt.h: its
-- state, and the parts that a copy of one file goes through.
pub mod Crypt
pub mod Verify
pub mod Output
pub mod Run
pub mod Reach
pub mod Progress
pub mod Rounds
pub mod Data
pub mod Check
pub mod Whole
pub mod Codes
pub mod Overwrite
pub mod Names
mod Tests
use fcom.Prelude.{
  ℕ, ◌+◌, ◌%◌, ◌^◌, Bool, true, false, not, ◌&&◌, ◌||◌, Option, none, some, List, [], ◌∷◌,
  if◌then◌else◌,
}
use fcom.Prelude.Memory.{Bytes}
use fcom.Services.{Services, Info, OpenFlags, for_read}

-- The settings of a run: those of `struct copy`, and those of `fcom_cominfo` that it reads.
pub record Settings : Type 0 where
  pub encrypt : Bytes
  pub decrypt : Bytes
  pub verify : Bool
  pub print_md5 : Bool
  pub preserve_date : Bool
  pub rename_source : Bool
  pub replace_date : Bool
  pub update : Bool
  pub write_into : Bool
  pub stdin : Bool
  pub stdout : Bool
  pub test : Bool
  pub overwrite : Bool
  pub directio : Bool
  pub recursive : Bool
  pub chdir : Bytes
  pub output : Bytes

-- The cases of the switch of `copy_run`
pub data Stage : Type 0 where
  i_src i_open_out i_read i_crypt i_write i_rd_done i_verify i_done : Stage

-- `struct copy`, without the settings; an object that is NULL is `none`.
pub record Copy (s : Services) : Type 0 where
  pub st : Stage
  pub data_buf : Bytes  -- data
  pub name : Bytes
  pub basename : Bytes
  pub iname : Bytes
  pub fi : Info
  pub in_off : ℕ
  pub nfiles : ℕ
  pub aes_obj : Option s.Cipher
  pub aes_iv : Bytes
  pub aes_in : Bytes
  pub aes_iv_out : Bool
  pub aes_iv_in : Bool
  pub o_state : ℕ
  pub o_total : ℕ
  pub o_off : ℕ
  pub o_name : Bytes
  pub o_name_tmp : Bytes
  pub o_fi : Info
  pub del_on_close : Bool
  pub md5_obj : Option s.Hash
  pub md5_result_r : Bytes

abbrev pub is_empty : Bytes → Bool
is_empty [] = true
is_empty (c ∷ s) = false

-- An offset moved on, as a 64-bit word.
abbrev pub add64 : ℕ → ℕ → ℕ
add64 off n = (off + n) % 2 ^ 64

-- The rest of `args_parse`, after the options themselves; `none` is an error.
unfoldable pub args_parse : Settings → Option Settings
args_parse a =
    if is_empty a.chdir && is_empty a.output
    then none
    else (let update = if a.stdout then false else a.update in
        some
          (record a { preserve_date = true; update = update; overwrite = a.overwrite || update }))

-- `fcom_file_cominfo_flags_o` of src/fcom.h
abbrev pub flags_o : Settings → OpenFlags
flags_o a = record {
  access = for_read;
  createnew = not a.overwrite;
  create_trunc = a.overwrite;
  stdin = false;
  stdout = a.stdout;
  directio = a.directio;
  fakewrite = a.test;
  no_prealloc = false;
  nofollow = false;
  readahead = false;
}
