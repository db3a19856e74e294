-- ===== src/FileBuf/Cache.antt =====
-- The set of read buffers: `fbufset_find` against the file that the buffers were read from.
use fcom.Prelude.{
  ℕ, zero, suc, ◌+◌, ◌^◌, ◌≤◌, ◌<◌, ◌≡◌, refl, inl, inr, some, none, List, [], ◌∷◌, arith, length,
  set, Bool-cases, subst, dec_lt, ◌⊎◌,
}
use native.Mathlib.Nat.{mod-eq_of_lt, mod_self}
use fcom.Prelude.Memory.{Memory, at}
use fcom.FileBuf.{FileBuf, BufSet, holds, find_buf, find, nextbuf, reset, reset_bufs}

-- The buffer holds bytes of the file.
pub record Reflects (m : Memory) (b : FileBuf) : Type 0 where
  pub no_wrap : b.off + b.len < 2 ^ 64
  pub same : (i : ℕ) → i < b.len → at b.mem i ≡ at m (b.off + i)

abbrev pub AllReflect : Memory → List FileBuf → Type 0
AllReflect m [] = Unit
AllReflect m (b ∷ bs) = Reflects m b × AllReflect m bs

find_buf_lem :
    (m : Memory) (bs : List FileBuf) (off : ℕ) {b : FileBuf}
    → AllReflect m bs
    → find_buf bs off ≡ some b
    → Reflects m b × (b.off ≤ off) × (off < b.off + b.len)
unfolding find_buf
find_buf_lem m [] off h e = cc
find_buf_lem m (c ∷ bs) off {b} h e = elim (Bool-cases (holds c off)) [
  | inl hit ↦
      let q : c ≡ b = ground arith in
      subst (λ (x : FileBuf). Reflects m x × (x.off ≤ off) × (off < x.off + x.len)) q
        (h.0, ground arith, ground arith)
  | inr miss ↦ find_buf_lem m bs off h.1 (ground arith)
]

-- Where each buffer reflects the file, a hit of `fbufset_find` is a buffer that reflects it and has
-- the byte at the offset.
pub find_lem :
    (m : Memory) (c : BufSet) (off : ℕ) {b : FileBuf}
    → AllReflect m c.bufs
    → (find c off).0 ≡ some b
    → Reflects m b × (b.off ≤ off) × (off < b.off + b.len)
unfolding find
find_lem m c off {b} h e = find_buf_lem m c.bufs off h (ground arith)

pub find_keeps :
    (c : BufSet) (off : ℕ) → ((find c off).1.bufs ≡ c.bufs) × ((find c off).1.idx ≡ c.idx)
unfolding find
find_keeps c off = ground arith

pub AllReflect-set :
    (m : Memory) (bs : List FileBuf) (i : ℕ) (b : FileBuf)
    → AllReflect m bs
    → Reflects m b
    → AllReflect m (set bs i b)
AllReflect-set m [] i b h r = tt
AllReflect-set m (c ∷ bs) zero b h r = (r, h.1)
AllReflect-set m (c ∷ bs) (suc i) b h r = (h.0, AllReflect-set m bs i b h.1 r)

pub nextbuf_keeps : (c : BufSet) → (nextbuf c).1.bufs ≡ c.bufs
unfolding nextbuf
nextbuf_keeps c = refl

-- From an index of the set, the index that `fbufset_nextbuf` hands out is one of the set, and so is
-- the next, which is one more, or 0 after the last.
nextbuf_in_turn :
    (c : BufSet)
    → c.idx < length c.bufs
    → let (i, c') = nextbuf c in
      (i < length c.bufs)
      × (c'.idx < length c'.bufs)
      × ((c'.idx ≡ i + 1) ⊎ ((c'.idx ≡ 0) × (i + 1 ≡ length c.bufs)))
unfolding nextbuf
nextbuf_in_turn c h = elim (dec_lt (c.idx + 1) (length c.bufs)) [
  | yes lt ↦ ground (arith, mod-eq_of_lt lt)
  | no ge ↦
      let e : c.idx + 1 ≡ length c.bufs = omega arith in ground (arith, mod_self (length c.bufs))
]

find_buf-reset : (bs : List FileBuf) (off : ℕ) → find_buf (reset_bufs bs) off ≡ none
unfolding find_buf reset_bufs
find_buf-reset [] off = refl
find_buf-reset (b ∷ bs) off = ground (arith, find_buf-reset bs off)

-- After `fbufset_reset` no offset is found, whatever was cached.
find-reset : (c : BufSet) (off : ℕ) → (find (reset c) off).0 ≡ none
unfolding find reset
find-reset c off = ground (arith, find_buf-reset c.bufs off)
