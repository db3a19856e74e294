-- ===== src/File/Tests.antt =====
-- A platform that keeps the file as a memory, and the theorems of the file object on it.
use fcom.Prelude.{
  ◌+◌, ◌-◌, ◌^◌, ◌*◌, ◌/◌, ◌≡◌, ◌≢◌, refl, Bool, inl, inr, ltb, if◌then◌else◌, true, false, Option,
  some, none, [], ◌∷◌, arith, length, take-length,
}
use fcom.Prelude.Memory.{Memory, memory, at, copy, slice, length-slice, get_or-slice}
use fcom.FileBuf
use fcom.FileBuf.{FileBuf, BufSet}
use fcom.FileBuf.Write.{overlay}
use fcom.Os.{Platform, Posix, PosixRead, WritesAll, done, failed}
use fcom.File.{
  File, Ret, ok, preallocate, f_write, file_read, file_write, file_flush, file_open, file_close,
  flush_and_trunc, prealloc_trunc,
}
use fcom.File.Flush.{file_flush_lem}
use fcom.File.Write.{logical, IsIdle, file_write_lem}
use fcom.File.Read.{ReadsRight, file_read_lem, file_read-past_end}
use fcom.File.Close.{file_close-Session}
use fcom.File.Leftover.{file_flush-file_open}
use fcom.File.History.{Session, opened, wrote, replay, flush-Session}

-- A file of zeros that takes every write; its alignments are those of the names.
abbrev disk : Platform
disk = record {
  State = Memory;
  write_at = λ s d off. (copy s off d, done (length d));
  pipe_write = λ s d. (s, done (length d));
  read_at = λ s n off. (s, done (slice s off n));
  pipe_read = λ s n. (s, done []);
  trunc = λ s n. (memory (λ i. if ltb i n then at s i else 0), true);
  align_floor2 = λ n a. n / a * a;
  align_ceil2 = λ n a. (n + a - 1) / a * a;
  align_power2 = λ n. 2 * n;
}

abbrev zeros : Memory
zeros = memory (λ i. 0)

disk-Posix : Posix disk
unfolding memory at
disk-Posix = record {
  content = λ s. s;
  count_le = λ s d off n e. ground arith;
  count_pos = λ s d off n e h. ground arith;
  content_done = λ s d off n e. ground (arith, take-length d);
  content_trunc = λ s n i. refl;
  le-align_power2 = λ n. omega arith;
}

disk-WritesAll : WritesAll disk
disk-WritesAll = record { write_all = λ s d off. refl }

disk-PosixRead : PosixRead disk
disk-PosixRead = record {
  content = λ s. s;
  data_le = λ s n off d e. ground (arith, length-slice s off n);
  data_at = λ s n off d i e h. ground (arith, length-slice s off n, get_or-slice s off n i);
  content_read = λ s n off. refl;
  align_floor2-le = λ n a. omega arith;
}

-- Two bytes wait in a buffer of four.
abbrev waiting : File
waiting = record {
  flags = record {
    stdin = false;
    stdout = false;
    directio = false;
    fakewrite = false;
    no_prealloc = false;
    nocache = false;
    write = true;
  };
  buffer_size = 4;
  bufset = record {
    bufs = record { len = 2; mem = memory (λ i. 0); off = 4096 } ∷ [];
    idx = 0;
    hits = 0;
    misses = 0;
  };
  size = 0;
  cur_off = 2;
  w_write = false;
  wbuf = record { len = 2; mem = copy zeros 0 (7 ∷ 8 ∷ []); off = 0 };
  user_data = [];
  continued = false;
  w_buf = [];
  w_off = 0;
  prealloc = 0;
  w_async = false;
}

waiting-IsIdle : IsIdle disk disk-Posix waiting zeros
unfolding memory at disk-Posix
waiting-IsIdle = record {
  plain = record {
    not_stdout = refl;
    not_directio = refl;
    not_fakewrite = refl;
    not_nocache = refl;
  };
  not_async = refl;
  caching = refl;
  ended = refl;
  fits = omega arith;
  small = omega arith;
  zero = λ i h. refl;
}

-- Three more bytes fill the buffer, which is written, and the last one waits.
file_write_runs :
    let (f, s, r) = file_write disk waiting zeros (9 ∷ 10 ∷ 11 ∷ []) none in
    (r ≡ some ok)
    × (slice s 0 6 ≡ 7 ∷ 8 ∷ 9 ∷ 10 ∷ 0 ∷ 0 ∷ [])
    × (f.wbuf.len ≡ 1)
    × (f.wbuf.off ≡ 4)
unfolding file_write FileBuf.write preallocate f_write memory at copy slice
file_write_runs = (refl, refl, refl, refl)

file_write_lem_example :
    let (f, s, r) = file_write disk waiting zeros (9 ∷ 10 ∷ 11 ∷ []) none in
    (r ≡ some ok)
    × (logical disk disk-Posix f s ≡ copy (overlay zeros waiting.wbuf) 2 (9 ∷ 10 ∷ 11 ∷ []))
    × (f.cur_off ≡ 5)
    × IsIdle disk disk-Posix f s
unfolding memory disk-Posix
file_write_lem_example =
    file_write_lem disk disk-Posix disk-WritesAll waiting zeros (9 ∷ 10 ∷ 11 ∷ []) none
      waiting-IsIdle (inr (inl (omega arith))) (omega arith)

file_flush_lem_example :
    let (f, s, r) = file_flush disk waiting zeros in
    (r ≢ none) × (r ≡ some ok → (s ≡ overlay zeros waiting.wbuf) × (f.wbuf.len ≡ 0))
unfolding file_flush disk-Posix memory
file_flush_lem_example = file_flush_lem disk disk-Posix waiting zeros waiting-IsIdle.plain

abbrev after : File × Memory × Option Ret
after = file_write disk waiting zeros (9 ∷ 10 ∷ 11 ∷ []) none

one_write : Session disk disk-Posix waiting zeros after.0 after.1 ((9 ∷ 10 ∷ 11 ∷ [], 2) ∷ [])
one_write =
    wrote (9 ∷ 10 ∷ 11 ∷ []) none opened (inr (inl (omega arith))) (omega arith) refl refl refl

flush-Session_example :
    let (f, s, r) = file_flush disk after.0 after.1 in
    (r ≡ some ok) × (s ≡ replay (overlay zeros waiting.wbuf) ((9 ∷ 10 ∷ 11 ∷ [], 2) ∷ []))
unfolding file_flush disk-Posix memory
flush-Session_example = flush-Session disk disk-Posix disk-WritesAll waiting-IsIdle one_write

file_read_lem_example :
    ReadsRight disk disk-PosixRead zeros 4097 (file_read disk waiting zeros (some 4097))
unfolding memory at disk-PosixRead
file_read_lem_example =
    file_read_lem disk disk-PosixRead waiting zeros (some 4097) refl
      (record { no_wrap = omega arith; same = λ i h. refl }, tt) (omega arith)
      (λ d e. ground (arith, length-slice zeros 4096 4))

-- A platform that has nothing to read.
abbrev empty_disk : Platform
empty_disk = record disk { read_at = λ s n off. (s, done []) }

file_read-past_end_example :
    let (f, s, got, r) = file_read empty_disk waiting zeros (some 9000) in
    (r ≡ ok) × (length got ≡ 2 ^ 64 - (9000 - (9000 / 4096 * 4096 + 0)))
unfolding FileBuf.find
file_read-past_end_example =
    file_read-past_end empty_disk waiting zeros (some 9000) [] refl refl refl (omega arith)
      (omega arith)

file_close-Session_example :
    (file_close disk after.0 after.1).1
    ≡ replay (overlay zeros waiting.wbuf) ((9 ∷ 10 ∷ 11 ∷ [], 2) ∷ [])
unfolding file_write FileBuf.write preallocate f_write memory at disk-Posix slice
file_close-Session_example =
    file_close-Session disk disk-Posix disk-WritesAll waiting-IsIdle (λ i h. refl) one_write refl

-- A disk that may be full: then no write succeeds.
abbrev small_disk : Platform
small_disk = record disk {
  State = Bool × Memory;
  write_at = λ s d off. if s.0 then (s, failed) else ((s.0, copy (s.1) off d), done (length d));
  pipe_write = λ s d. (s, failed);
  read_at = λ s n off. (s, done (slice (s.1) off n));
  pipe_read = λ s n. (s, done []);
  trunc = λ s n. ((s.0, memory (λ i. if ltb i n then at (s.1) i else 0)), true);
}

small_disk-Posix : Posix small_disk
unfolding memory at
small_disk-Posix = record {
  content = λ s. s.1;
  count_le = λ s d off n e. ground arith;
  count_pos = λ s d off n e h. ground arith;
  content_done = λ s d off n e. ground (arith, take-length d);
  content_trunc = λ s n i. refl;
  le-align_power2 = λ n. omega arith;
}

-- The bytes that wait for a full disk are written to the next file.
file_flush-file_open_example :
    (file_flush small_disk
      (file_open waiting.flags (file_close small_disk waiting (true, zeros)).0)
      (false, zeros)).1.1
    ≡ overlay zeros waiting.wbuf
unfolding file_flush file_close flush_and_trunc prealloc_trunc file_open f_write memory at copy
    slice small_disk-Posix
file_flush-file_open_example =
    file_flush-file_open small_disk small_disk-Posix waiting (true, zeros) waiting.flags
      (file_open waiting.flags (file_close small_disk waiting (true, zeros)).0) (false, zeros) refl
      waiting-IsIdle.plain refl refl refl
