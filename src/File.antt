-- ===== src/File.antt =====
-- The buffered file object of src/core/file.c, `fcom_file`: its state, and the write path
-- `f_write`, `file_flush`, `fw_cache`, `fw_write`, `file_write`, `file_trunc` on UNIX.
pub mod Read
pub mod Kernel
pub mod Flush
pub mod Write
pub mod History
pub mod Close
pub mod Leftover
mod Tests
use fcom.Prelude.{
  ℕ, zero, suc, ◌+◌, ◌-◌, ◌*◌, ◌%◌, ◌^◌, max, Bool, true, false, not, ◌&&◌, Option, none, some,
  List, [], ◌∷◌, ◌++◌, ltb, leb, ◌==◌, if◌then◌else◌, length, take, drop, replicate, set, get_or,
}
use fcom.Prelude.Memory.{Bytes}
use fcom.Prelude.Memory
use fcom.FileBuf
use fcom.FileBuf.{FileBuf, BufSet}
use fcom.Os.{Platform, Io, done, again, failed}

-- `enum FCOM_FILE_RET`
pub data Ret : Type 0 where
  ok eof async err : Ret

-- The bits of `enum FCOM_FILE_OPEN` that are tested below.
pub record Flags : Type 0 where
  pub stdin : Bool
  pub stdout : Bool
  pub directio : Bool
  pub fakewrite : Bool
  pub no_prealloc : Bool
  pub nocache : Bool
  pub write : Bool  -- FCOM_FILE_WRITE | FCOM_FILE_READWRITE

-- `struct file`, without names, times and statistics; `fd` is the platform's state.
pub record File : Type 0 where
  pub flags : Flags
  pub buffer_size : ℕ
  pub bufset : BufSet
  pub size : ℕ
  pub cur_off : ℕ
  pub w_write : Bool
  pub wbuf : FileBuf  -- wcache.buf
  pub user_data : Bytes  -- wcache.user_data
  pub continued : Bool  -- wcache.continued
  pub w_buf : Bytes  -- w.buf
  pub w_off : ℕ  -- w.off
  pub prealloc : ℕ  -- w.prealloc
  pub w_async : Bool  -- w.async

abbrev pub align : ℕ
align = 4 * 1024

-- An offset argument: `none` is -1.
abbrev pub at_offset : Option ℕ → ℕ → ℕ
at_offset none cur = cur
at_offset (some off) cur = off

-- The buffer as `f->wcache.buf.len = 0; f->wcache.buf.off = 0;` leave it.
abbrev pub emptied : FileBuf → FileBuf
emptied b = record b { len = 0; off = 0 }

-- What stands for a buffer past the end of the set; `Read.IsCoherent` rules it out.
abbrev pub no_buf : FileBuf
no_buf = record { len = 0; mem = Memory.memory (λ i. 0); off = 0 }

-- `fw_cache`: what it returns is `none` for FCOM_FILE_OK, and the chunk to write for -1.
unfoldable pub fw_cache : File → Bytes → Option ℕ → File × Option (Bytes × ℕ)
fw_cache f input uoff =
    let d = if f.continued then f.user_data else input in
    let off = if f.continued then f.cur_off else at_offset uoff f.cur_off in
    let user = if f.continued then [] else f.user_data in
    let w = FileBuf.write f.wbuf f.buffer_size d off in
    let cur = off + (length d - length w.rest) in
    elim w.out [
      | none ↦ (record f { continued = false; user_data = user; wbuf = w.buf; cur_off = cur }, none)
      | some chunk ↦ (
        record f { continued = true; user_data = w.rest; wbuf = emptied w.buf; cur_off = cur },
        some chunk,
      )
    ]

-- What `file_open` makes of the object of a file that was closed; the descriptor is apart.
unfoldable pub file_open : Flags → File → File
file_open how f = record f {
  flags =
      if how.stdin
      then how
      else if how.stdout
      then record how { write = true; no_prealloc = true }
      else how;
  bufset = FileBuf.reset f.bufset;
  size = 0;
  prealloc = 0;
  cur_off = 0;
}

module _ (p : Platform) where
  open p use {
    State, write_at, pipe_write, read_at, pipe_read, trunc, align_floor2, align_ceil2, align_power2,
  }

  -- The end of `f_write`: a write of `len` bytes, `full` of them data, gave this result.
  abbrev pub finish_write : File → State × Io ℕ → ℕ → ℕ → ℕ → File × State × Io ℕ
  finish_write f (s, again) off full len = (f, s, again)
  finish_write f (s, failed) off full len = (f, s, failed)
  finish_write f (s, done n) off full len =
      let r = if ltb full n then full else n in
      (record f { size = max f.size (off + r); prealloc = max f.prealloc (off + len) }, s, done r)

  -- A pipe: `len = r`.
  abbrev pub finish_pipe : File → State × Io ℕ → ℕ → File × State × Io ℕ
  finish_pipe f (s, again) off = (f, s, again)
  finish_pipe f (s, failed) off = (f, s, failed)
  finish_pipe f (s, done n) off = finish_write f (s, done n) off n n

  -- `f_write`. With FCOM_FILE_DIRECTIO it also puts the zeros into the memory after the data, which is
  -- past the length of the buffer or of what the caller gave: that change is left out.
  unfoldable pub f_write : File → State → Bytes → ℕ → File × State × Io ℕ
  f_write f s d off =
      if f.flags.stdout
      then (if off == f.size then finish_pipe f (pipe_write s d) off else (f, s, failed))
      else (let len = if f.flags.directio then align_ceil2 (length d) align else length d in
          finish_write f (write_at s (d ++ replicate (len - length d) 0) off) off (length d) len)

  -- The loop of `file_flush`, on fuel; the result is `none` where that runs out.
  flush_loop : ℕ → File → State → Bytes → ℕ → File × State × Option Ret
  flush_loop zero f s d off = (f, s, none)
  flush_loop (suc fuel) f s [] off = (record f { wbuf = emptied f.wbuf }, s, some ok)
  flush_loop (suc fuel) f s (x ∷ d) off =
      let (f', s', r) = f_write f s (x ∷ d) off in
      elim r [
        | done n ↦ flush_loop fuel f' s' (drop n (x ∷ d)) (off + n)
        | again ↦ (f', s', some async)
        | failed ↦ (f', s', some err)
      ]

  -- `file_flush`: a round writes a byte at least, so one round more than there are bytes is enough.
  unfoldable pub file_flush : File → State → File × State × Option Ret
  unfolding flush_loop
  file_flush f s = flush_loop (suc f.wbuf.len) f s (Memory.slice f.wbuf.mem 0 f.wbuf.len) f.wbuf.off

  -- The preallocation of `fw_write`.
  unfoldable pub preallocate : File → State → ℕ → File × State
  preallocate f s end =
      if not f.flags.no_prealloc && ltb f.prealloc end
      then (let n = align_power2 end in
          let (s', success) = trunc s n in
          (
            record f {
              prealloc = n;
              flags = record (f.flags) {
                no_prealloc = if success then f.flags.no_prealloc else true;
              };
            },
            s',
          ))
      else (f, s)

  -- `fw_write`: what it returns is `none` for -1. Its caller passes no offset of -1.
  unfoldable pub fw_write : File → State → Bytes → ℕ → File × State × Option Ret
  unfolding preallocate f_write
  fw_write f s input uoff =
      let d = if f.w_async then f.w_buf else input in
      let off = if f.w_async then f.w_off else uoff in
      let buf = if f.w_async then [] else f.w_buf in
      let (f1, s1) = preallocate (record f { w_async = false; w_buf = buf }) s (off + length d) in
      let (f2, s2, r) = f_write f1 s1 d off in
      elim r [
        | again ↦ (record f2 { w_buf = d; w_async = true; w_off = off }, s2, some async)
        | failed ↦ (f2, s2, some err)
        | done n ↦
            if n == length d
            then (record f2 { w_off = off + n }, s2, none)
            else (record f2 { w_off = off + n; w_buf = drop n d; w_async = true }, s2, some async)
      ]

  -- The loop of `file_write`, on fuel.
  write_loop : ℕ → File → State → Bytes → Option ℕ → File × State × Option Ret
  write_loop zero f s d off = (f, s, none)
  write_loop (suc fuel) f s d off = elim f.w_write [
    | false ↦
        let (f', chunk) = fw_cache f d off in
        elim chunk [
          | none ↦ (f', s, some ok)
          | some (out, woff) ↦ write_loop fuel (record f' { w_write = true }) s out (some woff)
        ]
    | true ↦
        let (f', s', r) = fw_write f s d (at_offset off f.cur_off) in
        elim r [
          | some ret ↦ (f', s', some ret)
          | none ↦ write_loop fuel (record f' { w_write = false }) s' [] off
        ]
  ]

  -- `file_write`. The loop caches and writes by turns, and ends after three turns of the cache.
  unfoldable pub file_write : File → State → Bytes → Option ℕ → File × State × Option Ret
  unfolding fw_cache fw_write write_loop
  file_write f s d uoff =
      if f.flags.fakewrite
      then (f, s, some ok)
      else if f.flags.nocache
      then (let off = at_offset uoff f.cur_off in
          let (f', s', r) = fw_write (record f { cur_off = off + length d }) s d off in
          elim r [ some ret ↦ (f', s', some ret) | none ↦ (f', s', some ok) ])
      else write_loop 6 f s d uoff

  -- `file_trunc`
  unfoldable pub file_trunc : File → State → Option ℕ → File × State
  file_trunc f s usize =
      let size = at_offset usize f.cur_off in
      let (s', success) = trunc s size in
      (
        record f {
          prealloc = size;
          flags = record (f.flags) { no_prealloc = if success then f.flags.no_prealloc else true };
        },
        s',
      )

  -- `prealloc_trunc`
  unfoldable pub prealloc_trunc : File → State → File × State
  prealloc_trunc f s =
      if leb f.prealloc f.size
      then (f, s)
      else (let (s', success) = trunc s f.size in
          (if success then record f { prealloc = f.size } else f, s'))

  -- `file_behaviour` with FCOM_FBEH_TRUNC_PREALLOC, of which `file_close` does the same: what
  -- `file_flush` returns is dropped.
  unfoldable pub flush_and_trunc : File → State → File × State
  flush_and_trunc f s = let (f', s', r) = file_flush f s in prealloc_trunc f' s'

  -- `file_close` of an open descriptor
  unfoldable pub file_close : File → State → File × State
  file_close f s = if f.flags.write then flush_and_trunc f s else (f, s)

  -- The end of `file_read`, from the label `done:` on. `ffstr_shift` takes the length below 0, in
  -- 64 bits, where the offset is past the data of the buffer.
  abbrev pub finish_read : File → State → FileBuf → ℕ → File × State × Bytes × Ret
  finish_read f s b off =
      let n = (b.len + 2 ^ 64 - (off - b.off)) % 2 ^ 64 in
      (
        record f { cur_off = b.off + b.len },
        s,
        Memory.slice b.mem (off - b.off) n,
        if n == 0 then eof else ok,
      )

  -- A read of the platform, at `offset`, into the buffer number `i` of the set.
  abbrev pub fill_buf : File → State × Io Bytes → FileBuf → ℕ → ℕ → ℕ → File × State × Bytes × Ret
  fill_buf f (s, again) b i offset off = (f, s, [], async)
  fill_buf f (s, failed) b i offset off = (f, s, [], err)
  fill_buf f (s, done d) b i offset off =
      let b' = record b { off = offset; len = length d; mem = Memory.copy b.mem 0 d } in
      finish_read
        (record f {
          size = if ltb (length d) f.buffer_size then offset + length d else f.size;
          bufset = record (f.bufset) { bufs = set f.bufset.bufs i b' };
        })
        s b' off

  -- `file_read`: on a cache miss the next buffer in turn is filled.
  abbrev pub read_miss : File → State → ℕ → File × State × Bytes × Ret
  read_miss f s off =
      let (i, set') = FileBuf.nextbuf f.bufset in
      let b = get_or f.bufset.bufs i no_buf in
      let f' = record f { bufset = set' } in
      if f.flags.stdin
      then (if off == f.cur_off
          then fill_buf f' (pipe_read s f.buffer_size) b i off off
          else (f', s, [], err))
      else (let offset = align_floor2 off align in
          fill_buf f' (read_at s f.buffer_size offset) b i offset off)

  unfoldable pub file_read : File → State → Option ℕ → File × State × Bytes × Ret
  file_read f s uoff =
      let off = at_offset uoff f.cur_off in
      let (hit, set') = FileBuf.find f.bufset off in
      elim hit [
        | some b ↦ finish_read (record f { bufset = set' }) s b off
        | none ↦ read_miss (record f { bufset = set' }) s off
      ]
