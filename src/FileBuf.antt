-- ===== src/FileBuf.antt =====
-- The file buffers of src/core/fbuf.h: the write-back buffer of one file, and the set of read
-- buffers. `ffuint64` sums keep their wrap-around.
pub mod Write
pub mod Cache
mod Tests
use fcom.Prelude.{
  ℕ, ◌+◌, ◌-◌, ◌%◌, ◌^◌, min, Bool, true, false, ◌&&◌, Option, none, some, List, [], ◌∷◌, ltb, leb,
  ◌==◌, if◌then◌else◌, length, take, drop, set, get_or, get_elem?,
}
use fcom.Prelude.Memory.{Bytes, Memory, copy, slice}

abbrev pub u64 : ℕ → ℕ
u64 n = n % 2 ^ 64

-- `struct fbuf`: `mem` is what `ptr` points to, of which the first `len` bytes are data of the
-- file, from offset `off` on.
pub record FileBuf : Type 0 where
  pub len : ℕ
  pub mem : Memory
  pub off : ℕ

-- What `fbuf_write` leaves: the buffer, the rest of `*in`, and the output with its file offset
-- (`none` where it returns a negative number).
pub record Written : Type 0 where
  pub buf : FileBuf
  pub rest : Bytes
  pub out : Option (Bytes × ℕ)

-- The output with an offset that is returned as a signed number: a negative one is no output.
abbrev pub handed_out : Bytes → ℕ → Option (Bytes × ℕ)
handed_out d off = if ltb off (2 ^ 63) then some (d, off) else none

-- `ffstr_set(out, b->ptr, b->len); return b->off;`
abbrev pub flush_data : FileBuf → Option (Bytes × ℕ)
flush_data b = handed_out (slice b.mem 0 b.len) b.off

-- New data overlaps with the buffer: `o` is the offset within it.
unfoldable pub write_overlap : FileBuf → ℕ → Bytes → ℕ → Written
write_overlap b cap input o =
    let n = min (length input) (cap - o) in
    let b' = record b { mem = copy b.mem o (take n input) } in
    let rest = drop n input in
    if ltb b.len (o + n)
    then (let b'' = record b' { len = o + n } in
        record { buf = b''; rest = rest; out = if o + n == cap then flush_data b'' else none })
    else record { buf = b'; rest = rest; out = flush_data b' }

unfoldable pub write : FileBuf → ℕ → Bytes → ℕ → Written
unfolding write_overlap
write b cap input off =
    if length input == 0
    then record { buf = b; rest = input; out = none }
    else if b.len == 0
    then (if leb cap (length input)
        then record { buf = b; rest = []; out = handed_out input off }
        else record {
          buf = record { len = length input; mem = copy b.mem 0 input; off = off };
          rest = [];
          out = none;
        })
    else if leb b.off off && ltb off (u64 (b.off + cap))
    then write_overlap b cap input (off - b.off)
    else record { buf = b; rest = input; out = flush_data b }

-- `struct fbufset`
pub record BufSet : Type 0 where
  pub bufs : List FileBuf
  pub idx : ℕ
  pub hits : ℕ
  pub misses : ℕ

-- `fbufset_reset`
reset_bufs : List FileBuf → List FileBuf
reset_bufs [] = []
reset_bufs (b ∷ bs) = record b { off = 0; len = 0 } ∷ reset_bufs bs

unfoldable pub reset : BufSet → BufSet
unfolding reset_bufs
reset c = record c { bufs = reset_bufs c.bufs }

-- `fbufset_nextbuf`: the index of the buffer to fill next.
unfoldable pub nextbuf : BufSet → ℕ × BufSet
nextbuf c = (c.idx, record c { idx = (c.idx + 1) % length c.bufs })

-- The test of `fbufset_find` on one buffer.
abbrev pub holds : FileBuf → ℕ → Bool
holds b off = leb b.off off && ltb off (u64 (b.off + b.len))

find_buf : List FileBuf → ℕ → Option FileBuf
find_buf [] off = none
find_buf (b ∷ bs) off = if holds b off then some b else find_buf bs off

-- `hits` and `misses` only count, as `ffuint64`.
unfoldable pub find : BufSet → ℕ → Option FileBuf × BufSet
unfolding find_buf
find c off = elim (find_buf c.bufs off) [
  | some b ↦ (some b, record c { hits = u64 (c.hits + 1) })
  | none ↦ (none, record c { misses = u64 (c.misses + 1) })
]
