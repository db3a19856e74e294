-- ===== src/Services.antt =====
-- What src/fs/copy.c takes from the core through `fcom_file` and `fcom_command` of src/fcom.h, and
-- from modules and libraries that are not in the repository: hashes, ciphers, paths, system calls.
use fcom.Prelude.{
  ℕ, ◌+◌, ◌≤◌, ◌<◌, ◌≡◌, ◌⊎◌, refl, arith, Bool, true, false, Option, some, [], ◌++◌, length,
}
use fcom.Prelude.Memory.{Bytes, Memory, slice, copy}

-- The two file objects of the operation.
pub data Handle : Type 0 where
  input output : Handle

-- The access of `enum FCOM_FILE_OPEN`, its lowest two bits.
pub data Access : Type 0 where
  for_read for_write for_readwrite : Access

-- The other bits of `enum FCOM_FILE_OPEN`.
pub record OpenFlags : Type 0 where
  pub access : Access
  pub createnew : Bool
  pub create_trunc : Bool
  pub stdin : Bool
  pub stdout : Bool
  pub directio : Bool
  pub fakewrite : Bool
  pub no_prealloc : Bool
  pub nofollow : Bool
  pub readahead : Bool

-- `fffileinfo`, as far as it is read.
pub record Info : Type 0 where
  pub is_dir : Bool
  pub is_link : Bool
  pub attr : ℕ
  pub size : ℕ
  pub mtime : ℕ

-- What `fcom_file.read` returns, FCOM_FILE_OK with its data.
pub data Chunk : Type 0 where
  chunk : Bytes → Chunk
  at_end : Chunk
  no_chunk : Chunk  -- FCOM_FILE_ASYNC
  failed : Chunk

-- What `fcom_file.write` returns: FCOM_FILE_OK, FCOM_FILE_ASYNC and FCOM_FILE_ERR.
pub data Stored : Type 0 where
  stored stores_later not_stored : Stored

-- It is not FCOM_FILE_ERR.
abbrev pub succeeds : Stored → Bool
succeeds stored = true
succeeds stores_later = true
succeeds not_stored = false

pub stored-succeeds :
    (r : Stored) → (r ≡ stored) ⊎ (r ≡ not_stored) → succeeds r ≡ true → r ≡ stored
stored-succeeds stored k e = refl
stored-succeeds stores_later k e = ground arith
stored-succeeds not_stored k e = ground arith

-- `enum FCOM_FILE_BEH`
pub data Behaviour : Type 0 where
  seq random trunc_prealloc : Behaviour

-- A `Bool` of a result is whether the call succeeded.
pub record Services : Type 1 where
  pub State : Type 0
  pub Hash : Type 0
  pub Cipher : Type 0
  pub is_stopped : State → Bool  -- the flag that a signal sets
  -- fcom_command
  pub input_next : State → State × Option (Bytes × Bytes)  -- a name and its base
  pub input_allowed : State → Bytes → Bool → Bool  -- whether it returns 0
  pub input_dir : State → State
  pub run_trash : State → Bytes → State
  -- fcom_file
  pub open_file : State → Handle → Bytes → OpenFlags → State × Bool
  pub info : State → Handle → State × Option Info
  pub read : State → Handle → ℕ → State × Chunk
  pub write : State → Handle → Bytes → ℕ → State × Stored
  pub trunc : State → Handle → ℕ → State × Bool
  pub behaviour : State → Handle → Behaviour → State
  pub attr_set : State → Handle → ℕ → State
  pub mtime_set : State → Handle → ℕ → State
  pub close : State → Handle → State
  pub destroy : State → Handle → State
  pub del : State → Bytes → State
  pub dir_create : State → Bytes → State × Bool
  pub slink : State → Bytes → Bytes → OpenFlags → State × Bool
  -- ffbase and ffsys
  pub readlink : State → Bytes → Option Bytes
  pub info_path : State → Bytes → Option Info
  pub set_mtime_path : State → Bytes → ℕ → State × Bool
  pub rename : State → Bytes → Bytes → State × Bool
  pub split_name : Bytes → Bytes  -- ffpath_splitpath: the part after the last slash
  pub normalize : Bytes → Bytes  -- ffpath_normalize
  -- fcom_hash "md5.fcom_md5", "crypto.sha256", fcom_aes
  pub md5_create : Hash
  pub md5_update : Hash → Bytes → Hash
  pub md5_fin : Hash → Bytes
  pub sha256 : Bytes → Bytes
  pub random : State → State × Bytes  -- core->random(): the four bytes of a number
  pub aes_create : Bytes → Option Cipher
  pub aes_process : Cipher → Bytes → Bytes → Option (Cipher × Bytes × Bytes)  -- data and IV

-- File objects that never answer FCOM_FILE_ASYNC, by the bytes behind them: a read gives bytes from
-- the offset on, one at least, and the end is where the offset is not below the size; a write that
-- succeeds, which is not one of --test, puts its data down at the offset, of this object only.
pub record ReadsWrites (s : Services) : Type 0 where
  pub size : s.State → Handle → ℕ
  pub content : s.State → Handle → Memory
  pub read_now :
      (w : s.State) (h : Handle) (off : ℕ)
      → ((d : Bytes) × ((s.read w h off).1 ≡ chunk d))
        ⊎ ((s.read w h off).1 ≡ at_end)
        ⊎ ((s.read w h off).1 ≡ failed)
  pub write_now :
      (w : s.State) (d : Bytes) (off : ℕ)
      → ((s.write w output d off).1 ≡ stored) ⊎ ((s.write w output d off).1 ≡ not_stored)
  pub read_within :
      (w : s.State) (h : Handle) (off : ℕ) (d : Bytes)
      → (s.read w h off).1 ≡ chunk d
      → (0 < length d) × (off + length d ≤ size w h)
  pub read_slice :
      (w : s.State) (h : Handle) (off : ℕ) (d : Bytes)
      → (s.read w h off).1 ≡ chunk d
      → d ≡ slice (content w h) off (length d)
  pub read_end : (w : s.State) (h : Handle) (off : ℕ) → (s.read w h off).1 ≡ at_end → size w h ≤ off
  pub content_read :
      (w : s.State) (h g : Handle) (off : ℕ) → content (s.read w h off).0 g ≡ content w g
  pub size_read : (w : s.State) (h g : Handle) (off : ℕ) → size (s.read w h off).0 g ≡ size w g
  pub content_write :
      (w : s.State) (d : Bytes) (off : ℕ)
      → (s.write w output d off).1 ≡ stored
      → content (s.write w output d off).0 output ≡ copy (content w output) off d
  pub source_write :
      (w : s.State) (d : Bytes) (off : ℕ)
      → content (s.write w output d off).0 input ≡ content w input
  pub source_size_write :
      (w : s.State) (d : Bytes) (off : ℕ) → size (s.write w output d off).0 input ≡ size w input

-- A hash of what it is fed in turn.
pub record Hashes (s : Services) : Type 0 where
  pub fed : s.Hash → Bytes
  pub digest : Bytes → Bytes
  pub fed_create : fed s.md5_create ≡ []
  pub fed_update : (h : s.Hash) (d : Bytes) → fed (s.md5_update h d) ≡ fed h ++ d
  pub fin_digest : (h : s.Hash) → s.md5_fin h ≡ digest (fed h)

-- What FCOM_FILE_CREATE_TRUNC documents: a file that is opened with it is empty.
pub record Truncates (s : Services) : Type 0 where
  pub size_opened :
      (w : s.State) (name : Bytes) (f : OpenFlags) (i : Info)
      → f.create_trunc ≡ true
      → f.fakewrite ≡ false
      → (s.open_file w output name f).1 ≡ true
      → (s.info (s.open_file w output name f).0 output).1 ≡ some i
      → i.size ≡ 0
