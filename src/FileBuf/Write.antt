-- ===== src/FileBuf/Write.antt =====
-- What `fbuf_write` does to the bytes of the file.
use fcom.Prelude.{
  ℕ, ◌+◌, ◌-◌, ◌^◌, ◌≤◌, ◌<◌, ◌≡◌, ◌⊎◌, Option, none, some, arith, min, length, take, length-take,
  length-drop,
}
use fcom.Prelude.Memory.{
  Bytes, Memory, copy, slice, length-slice, get_or-slice, at, copy_lem, copy-nil, slice-zero,
  copy-take-drop, copy-slice-copy,
}
use fcom.FileBuf.{FileBuf, write}

-- The file as a reader should see it: the disk under the buffered bytes.
abbrev pub overlay : Memory → FileBuf → Memory
overlay disk b = copy disk b.off (slice b.mem 0 b.len)

-- The file after the call: what it hands out goes to the disk, else the bytes stay buffered.
abbrev pub settle : Memory → FileBuf → Option (Bytes × ℕ) → Memory
settle disk b none = overlay disk b
settle disk b (some (out, woff)) = copy disk woff out

-- A write that leaves no hole in the buffer.
abbrev pub NoGap : FileBuf → ℕ → ℕ → Type 0
NoGap b bcap off = (b.len ≡ 0) ⊎ (off ≤ b.off + b.len) ⊎ (b.off + bcap ≤ off)

-- A write at an offset below 2^63 that leaves no hole in a buffer that ends below 2^63 and holds
-- no more than its capacity: on every branch, the file with what is to be flushed and what is
-- buffered, and the rest of the input written after what was taken of it, is the file as it was
-- with the input written at its offset.
pub write-content :
    (disk : Memory) (b : FileBuf) (bcap : ℕ) (input : Bytes) (off : ℕ)
    → b.len ≤ bcap
    → b.off + bcap < 2 ^ 63
    → off < 2 ^ 63
    → NoGap b bcap off
    → let w = write b bcap input off in
      copy (settle disk w.buf w.out) (off + (length input - length w.rest)) w.rest
      ≡ copy (overlay disk b) off input
unfolding write
write-content disk b bcap input off fits small below gap =
    let w = write b bcap input off in
    let o = off - b.off in
    let n = min (length input) (bcap - o) in
    ground (
      arith,
      copy-nil (settle disk w.buf w.out) (off + (length input - length w.rest)),
      slice-zero b.mem 0,
      copy-nil disk off,
      copy-nil disk b.off,
      copy-nil (overlay disk b) off,
      copy-slice-copy disk b.mem b.off o b.len b.len (take n input),
      copy-slice-copy disk b.mem b.off o b.len (o + n) (take n input),
      copy-slice-copy disk b.mem off 0 0 (length input) input,
      copy-take-drop (overlay disk b) off n input,
      length-take n input,
      length-drop n input,
    )

-- A write never overfills the buffer and never invents input.
pub write-len :
    (b : FileBuf) (bcap : ℕ) (input : Bytes) (off : ℕ)
    → b.len ≤ bcap
    → let w = write b bcap input off in (w.buf.len ≤ bcap) × (length w.rest ≤ length input)
unfolding write
write-len b bcap input off fits =
    ground (arith, length-drop (min (length input) (bcap - (off - b.off))) input)

pub write-off :
    (b : FileBuf) (bcap : ℕ) (input : Bytes) (off : ℕ)
    → ((write b bcap input off).buf.off ≡ b.off) ⊎ ((write b bcap input off).buf.off ≡ off)
unfolding write
write-off b bcap input off = ground arith

-- Without output, all the input is in the buffer.
pub write-none :
    (b : FileBuf) (bcap : ℕ) (input : Bytes) (off : ℕ)
    → b.off + bcap < 2 ^ 63
    → let w = write b bcap input off in w.out ≡ none → length w.rest ≡ 0
unfolding write
write-none b bcap input off small e =
    ground (arith, length-drop (min (length input) (bcap - (off - b.off))) input)

-- An empty input gives no output.
pub write-nil :
    (b : FileBuf) (bcap : ℕ) (input : Bytes) (off : ℕ) {chunk : Bytes × ℕ}
    → (write b bcap input off).out ≡ some chunk
    → 0 < length input
unfolding write
write-nil b bcap input off e = ground arith

-- Output of a non-empty input is never empty, so the caller's loop advances: it takes all the input
-- and hands it on, or it empties a buffer.
pub write-some :
    (b : FileBuf) (bcap : ℕ) (input : Bytes) (off : ℕ) {out : Bytes} {woff : ℕ}
    → (write b bcap input off).out ≡ some (out, woff)
    → (0 < length out) × (((b.len ≡ 0) × (length (write b bcap input off).rest ≡ 0)) ⊎ (0 < b.len))
unfolding write
write-some b bcap input off e = ground (
  arith,
  length-slice b.mem 0 b.len,
  length-slice (copy b.mem (off - b.off) (take (min (length input) (bcap - (off - b.off))) input)) 0
      b.len,
  length-slice (copy b.mem (off - b.off) (take (min (length input) (bcap - (off - b.off))) input)) 0
      ((off - b.off) + min (length input) (bcap - (off - b.off))),
)

-- A write that starts past the buffered bytes and inside the buffer, and does not fill it, where
-- the buffer ends below 2^64, returns no output, and the file with the buffer over it has at each
-- offset between the two what the buffer's memory held there, whatever the file holds.
pub write-gap :
    (disk : Memory) (b : FileBuf) (bcap : ℕ) (input : Bytes) (off i : ℕ)
    → 0 < b.len
    → 0 < length input
    → b.off + bcap < 2 ^ 64
    → b.off + b.len ≤ i
    → i < off
    → off + length input < b.off + bcap
    → let w = write b bcap input off in
      (w.out ≡ none) × (at (overlay disk w.buf) i ≡ at b.mem (i - b.off))
unfolding write
write-gap disk b bcap input off i p q small lo hi fits =
    let o = off - b.off in
    let n = min (length input) (bcap - o) in
    let mem' = copy b.mem o (take n input) in
    ground (
      arith,
      copy_lem disk b.off (slice mem' 0 (o + n)) i,
      length-slice mem' 0 (o + n),
      get_or-slice mem' 0 (o + n) (i - b.off),
      copy_lem b.mem o (take n input) (i - b.off),
    )
