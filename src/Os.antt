-- ===== src/Os.antt =====
-- What the file object takes from the operating system and from the ffbase library, neither of
-- which is in the repository: system calls on one open descriptor, and alignment of numbers.
use fcom.Prelude.{
  ℕ, ◌+◌, ◌≤◌, ◌<◌, get_or, ◌≡◌, ◌⊎◌, inl, inr, refl, Bool, length, take, if◌then◌else◌, ltb,
}
use fcom.Prelude.Memory.{Bytes, Memory, at, copy}

-- What a call returns: a value, or a negative number with or without EAGAIN.
pub data Io (A : Type 0) : Type 0 where
  done : A → Io A
  again : Io A
  failed : Io A

-- To split on a result and keep the equation.
pub Io-cases : {A : Type 0} (r : Io A) → (r ≡ again) ⊎ (r ≡ failed) ⊎ ((a : A) × (r ≡ done a))
Io-cases again = inl refl
Io-cases failed = inr (inl refl)
Io-cases (done a) = inr (inr (a, refl))

pub record Platform : Type 1 where
  pub State : Type 0
  pub write_at : State → Bytes → ℕ → State × Io ℕ  -- fffile_writeat
  pub pipe_write : State → Bytes → State × Io ℕ  -- ffpipe_write
  pub read_at : State → ℕ → ℕ → State × Io Bytes  -- fffile_readat: capacity and offset
  pub pipe_read : State → ℕ → State × Io Bytes  -- ffpipe_read
  pub trunc : State → ℕ → State × Bool  -- fffile_trunc: true is success
  pub align_floor2 : ℕ → ℕ → ℕ  -- ffint_align_floor2
  pub align_ceil2 : ℕ → ℕ → ℕ  -- ffint_align_ceil2
  pub align_power2 : ℕ → ℕ  -- ffint_align_power2

-- What pwrite() and ftruncate() document, on the bytes of the file: a write puts down a prefix of
-- its data, not empty if there are any, and a failed one nothing; a truncation keeps the bytes
-- below the new size and makes all above it read as zero.
pub record Posix (p : Platform) : Type 0 where
  pub content : p.State → Memory
  pub count_le :
      (s : p.State) (d : Bytes) (off n : ℕ) → (p.write_at s d off).1 ≡ done n → n ≤ length d
  pub count_pos :
      (s : p.State) (d : Bytes) (off n : ℕ) → (p.write_at s d off).1 ≡ done n → 0 < length d → 0 < n
  pub content_done :
      (s : p.State) (d : Bytes) (off n : ℕ)
      → (p.write_at s d off).1 ≡ done n
      → content (p.write_at s d off).0 ≡ copy (content s) off (take n d)
  pub content_trunc :
      (s : p.State) (n i : ℕ)
      → at (content (p.trunc s n).0) i ≡ (if ltb i n then at (content s) i else 0)
  pub le-align_power2 : (n : ℕ) → n ≤ p.align_power2 n

-- A platform on which each write takes all its data, as on a regular file with room on the disk.
pub record WritesAll (p : Platform) : Type 0 where
  pub write_all : (s : p.State) (d : Bytes) (off : ℕ) → (p.write_at s d off).1 ≡ done (length d)

-- What pread() documents: it returns bytes of the file from the offset on, at most as many as
-- asked for. An aligned offset is not past the one it comes from.
pub record PosixRead (p : Platform) : Type 0 where
  pub content : p.State → Memory
  pub data_le :
      (s : p.State) (n off : ℕ) (d : Bytes) → (p.read_at s n off).1 ≡ done d → length d ≤ n
  pub data_at :
      (s : p.State) (n off : ℕ) (d : Bytes) (i : ℕ)
      → (p.read_at s n off).1 ≡ done d
      → i < length d
      → get_or d i 0 ≡ at (content s) (off + i)
  pub content_read : (s : p.State) (n off : ℕ) → content (p.read_at s n off).0 ≡ content s
  pub align_floor2-le : (n a : ℕ) → p.align_floor2 n a ≤ n
