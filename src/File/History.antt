-- ===== src/File/History.antt =====
-- A file between `file_open` and `file_close`: any number of writes, then a flush.
use fcom.Prelude.{ℕ, ◌+◌, ◌^◌, ◌<◌, ◌≡◌, ◌∙◌, Option, some, List, [], ◌∷◌, arith, length}
use fcom.Prelude.Memory.{Bytes, Memory, copy}
use fcom.FileBuf.Write.{NoGap}
use fcom.Os.{Platform, Posix, WritesAll}
use fcom.File.{File, ok, at_offset, file_write, file_flush}
use fcom.File.Flush.{file_flush_lem, file_flush-ok}
use fcom.File.Write.{logical, IsIdle, file_write_lem}

-- What was written, last first: the data and their offset in the file.
abbrev pub Log : Type 0
Log = List (Bytes × ℕ)

-- The bytes of a file to which the writes were made directly, in their order.
unfoldable pub replay : Memory → Log → Memory
replay m [] = m
replay m ((d, off) ∷ log) = copy (replay m log) off d

module _ (p : Platform) (posix : Posix p) where
  -- The states reached from `f` and `s` by calls of `file_write`, at the current or a given
  -- offset, that leave no hole in the buffer and stay below 2^63.
  pub data Session (f : File) (s : p.State) : File → p.State → Log → Type 0 where
    opened : Session f s f s []
    wrote :
        {f' f'' : File} {s' s'' : p.State} {log : Log} {off : ℕ} (d : Bytes) (u : Option ℕ)
        → Session f s f' s' log
        → NoGap f'.wbuf f'.buffer_size (at_offset u f'.cur_off)
        → at_offset u f'.cur_off + length d + f'.buffer_size < 2 ^ 63
        → off ≡ at_offset u f'.cur_off
        → f'' ≡ (file_write p f' s' d u).0
        → s'' ≡ (file_write p f' s' d u).1
        → Session f s f'' s'' ((d, off) ∷ log)

  module _ (all : WritesAll p) where
    Session-logical :
        {f : File} {s : p.State} {f' : File} {s' : p.State} {log : Log}
        → IsIdle p posix f s
        → Session f s f' s' log
        → IsIdle p posix f' s' × (logical p posix f' s' ≡ replay (logical p posix f s) log)
    unfolding replay
    Session-logical i opened = ground arith
    Session-logical i (wrote {f' = g} {s' = r} d u before gap room e ef es) =
        let (j, q) = Session-logical i before in
        ground (arith, file_write_lem p posix all g r d u j gap room)

    -- After any number of writes to an idle plain file, none of FCOM_FILE_STDOUT, DIRECTIO,
    -- FAKEWRITE and NOCACHE, that has only zero bytes from its allocated size on, as a new one
    -- has, none of which leaves a hole in the buffer, with offsets below 2^63, on a platform
    -- where each write to the kernel takes all its data, a flush succeeds, and the file holds
    -- what the writes would have made of it had each gone to it directly, in their order.
    pub flush-Session :
        {f : File} {s : p.State} {f' : File} {s' : p.State} {log : Log}
        → IsIdle p posix f s
        → Session f s f' s' log
        → let (f'', s'', r) = file_flush p f' s' in
          (r ≡ some ok) × (posix.content s'' ≡ replay (logical p posix f s) log)
    flush-Session {f' = f'} {s' = s'} i run =
        let (j, q) = Session-logical i run in
        let ended = file_flush-ok p posix all f' s' j.plain in
        let (put, empty) = (file_flush_lem p posix f' s' j.plain).1 ended in (ended, put ∙ q)
