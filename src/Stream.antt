-- ===== src/Stream.antt =====
-- The stream buffer, `struct ffstream` of src/util/stream.h: bytes that are gathered from pieces of
-- input into one region. Its positions are 32-bit words that wrap around.
pub mod Room
pub mod Gather
pub mod Refs
pub mod Growth
mod Tests
use Prim.Native.Nat.{bit_and}
use fcom.Prelude.{
  ℕ, ◌+◌, ◌-◌, ◌%◌, ◌^◌, min, Bool, List, [], ltb, leb, ◌==◌, if◌then◌else◌, length, take, drop,
}
use fcom.Prelude.Memory.{Bytes, Memory, copy, slice}

-- `struct ffstream`; `ref` is the input that is referenced, of length 0 where none is.
pub record Stream : Type 0 where
  pub mem : Memory
  pub r : ℕ
  pub w : ℕ
  pub cap : ℕ
  pub mask : ℕ
  pub ref : Bytes

-- `a + b` and `a - b` on `ffuint`
abbrev pub add32 : ℕ → ℕ → ℕ
add32 a b = (a + b) % 2 ^ 32

abbrev pub sub32 : ℕ → ℕ → ℕ
sub32 a b = (a + 2 ^ 32 - b) % 2 ^ 32

-- `ffstream_used`
unfoldable pub used : Stream → ℕ
used s = sub32 s.w s.r

-- `s->r & s->mask`
unfoldable pub index : Stream → ℕ
index s = bit_and s.r s.mask

-- `ffstream_reset`
abbrev pub reset : Stream → Stream
reset s = record s { r = 0; w = 0 }

-- The bytes of the stream's own buffer.
unfoldable pub buffered : Stream → Bytes
unfolding used index
buffered s = slice s.mem (index s) (used s)

-- `s->ref.ptr + s->ref.len - used`
unfoldable pub referenced : Stream → Bytes
unfolding used
referenced s = drop (length s.ref - used s) s.ref

-- `ffstream_view`
unfoldable pub view : Stream → Bytes
unfolding buffered referenced
view s = if length s.ref == 0 then buffered s else referenced s

-- `ffstream_realloc`, where memory is given; `fresh` is the new block and `ask` the capacity,
-- already rounded up to a power of two by `ffint_align_power2`.
unfoldable pub realloc : Stream → Memory → ℕ → Stream
unfolding buffered
realloc s fresh ask =
    if leb ask s.cap
    then s
    else if length s.ref == 0
    then record s { mem = copy fresh 0 (buffered s); r = 0; w = used s; cap = ask; mask = ask - 1 }
    else record s { mem = fresh; cap = ask; mask = ask - 1 }

-- The tail of the buffer is moved to its front where `n` bytes do not fit in it.
unfoldable pub make_room : Stream → ℕ → Stream
unfolding buffered index
make_room s n =
    if ltb s.cap (index s + n)
    then record s {
      mem = copy s.mem 0 (buffered s);
      r = sub32 s.r (index s);
      w = sub32 s.w (index s);
    }
    else s

-- At most `n` bytes of the input are appended at `i`.
unfoldable pub append : Stream → ℕ → ℕ → Bytes → Stream × ℕ
append s i n input =
    let m = min n (length input) in
    (record s { mem = copy s.mem i (take m input); w = add32 s.w m }, m)

-- As much input is appended as fits behind the data.
unfoldable pub fill : Stream → Bytes → Stream × ℕ
unfolding append
fill s input = let i = bit_and s.w s.mask in append s i (s.cap - i) input

-- `ffstream_gather`: the stream, what was taken of the input, and the output.
unfoldable pub gather : Stream → Bytes → ℕ → Stream × ℕ × Bytes
unfolding make_room fill
gather s input n =
    if ltb (used s) n
    then (let (s', m) = fill (make_room s n) input in (s', m, buffered s'))
    else (s, 0, buffered s)

-- The copy of a referenced input to the front of the buffer.
unfoldable pub unref : Stream → Stream
unfolding referenced
unref s = record s { mem = copy s.mem 0 (referenced s); ref = []; r = 0; w = used s }

-- `ffstream_gather_ref`
unfoldable pub gather_ref : Stream → Bytes → ℕ → Stream × ℕ × Bytes
unfolding unref make_room fill
gather_ref s input n =
    if ltb (used s) n
    then (if used s == 0
        then (record s { ref = input; w = add32 s.w (length input) }, length input, input)
        else if length s.ref == 0
        then (let (s', m) = fill (make_room s n) input in (s', m, buffered s'))
        else (let (s', m) = append (unref s) (used s) (n - used s) input in (s', m, buffered s')))
    else (s, 0, view s)

-- `ffstream_consume`
abbrev pub consume : Stream → ℕ → Stream
consume s n = record s { r = add32 s.r n }
