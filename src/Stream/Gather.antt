-- ===== src/Stream/Gather.antt =====
-- The stream buffer as a stream of bytes: what is gathered is what was in it and the input taken.
use fcom.Prelude.{
  ℕ, ◌+◌, ◌-◌, ◌%◌, ◌^◌, ◌≤◌, ◌<◌, ◌≡◌, ◌⊎◌, refl, sym, ap, ◌∙◌, subst, inl, inr, min, true, false,
  ◌++◌, arith, ltb, leb, ◌==◌, if◌then◌else◌, length, take, Bool-cases, append-nil,
}
use fcom.Prelude.Memory.{Bytes}
use Prim.Native.Nat.{bit_and}
use fcom.Stream.{Stream, used, buffered, referenced, view, make_room, append, fill, gather}
use fcom.Stream.Room.{
  IsSized, Fits, append-IsSized, buffered-append, append-Fits, used-append, make_room-Roomy,
  w_index, length-buffered,
}

-- The region of the bytes, in the buffer or in the input that is referenced.
abbrev pub Holds : ℕ → Stream → Type 0
Holds k s = if length s.ref == 0 then Fits k s else (used s ≤ length s.ref)

-- What a gathering of `n` bytes leaves: some bytes of the input are taken and appended, none where
-- there are `n` bytes; the output is all the bytes, and `n` at least unless the input is used up.
pub record Gathered (k : ℕ) (s : Stream) (input : Bytes) (n : ℕ) (g : Stream × ℕ × Bytes)
    : Type 0 where
  pub sized : IsSized k g.0
  pub holds : Holds k g.0
  pub taken : g.1 ≤ length input
  pub bytes : view g.0 ≡ view s ++ take g.1 input
  pub output : g.2 ≡ view g.0
  pub enough : (n ≤ length g.2) ⊎ (g.1 ≡ length input)
  pub untouched : n ≤ used s → g.1 ≡ 0

pub view_own : (s : Stream) → length s.ref ≡ 0 → view s ≡ buffered s
unfolding view
view_own s e = rw e refl

pub view_ref : (s : Stream) → 0 < length s.ref → view s ≡ referenced s
unfolding view
view_ref s lt = let e : (length s.ref == 0) ≡ false = ground arith in rw e refl

pub Holds-own : (k : ℕ) (s : Stream) → length s.ref ≡ 0 → Fits k s → Holds k s
Holds-own k s e f = let q : (length s.ref == 0) ≡ true = ground arith in rw q f

pub own-Fits : (k : ℕ) (s : Stream) → length s.ref ≡ 0 → Holds k s → Fits k s
own-Fits k s e h = let q : (length s.ref == 0) ≡ true = ground arith in rw q at h

pub Holds-ref : (k : ℕ) (s : Stream) → 0 < length s.ref → used s ≤ length s.ref → Holds k s
Holds-ref k s lt f = let q : (length s.ref == 0) ≡ false = ground arith in rw q f

pub ref-le : (k : ℕ) (s : Stream) → 0 < length s.ref → Holds k s → used s ≤ length s.ref
ref-le k s lt h = let q : (length s.ref == 0) ≡ false = ground arith in rw q at h

abbrev pub appended : Stream → ℕ → ℕ → Bytes → Stream × ℕ × Bytes
appended t i a input = let (s', m) = append t i a input in (s', m, buffered s')

-- An append to the buffer `t` that holds the bytes of `s`.
pub append-Gathered :
    (k : ℕ) (s t : Stream) (i a : ℕ) (input : Bytes) (n : ℕ)
    → (z : IsSized k t) → length t.ref ≡ 0
    → view s ≡ buffered t
    → used t ≡ used s
    → used s < n
    → n ≤ used s + a
    → i ≡ t.r % 2 ^ k + used t
    → i + a ≤ 2 ^ k
    → Gathered k s input n (appended t i a input)
append-Gathered k s t i a input n z own v u lt le at_end room =
    let m = min a (length input) in
    let t' = (append t i a input).0 in
    let count : (append t i a input).1 ≡ m = unfold append in refl in
    let own' : length t'.ref ≡ 0 = unfold append in own in
    let z' = append-IsSized k t z i a input at_end room in
    let size : length (buffered t') ≡ used s + m =
      length-buffered k t' z' ∙ omega (arith, used-append k t z i a input at_end room) in
    record {
      sized = z';
      holds = Holds-own k t' own' (append-Fits k t z i a input at_end room);
      taken = omega (arith, count);
      bytes =
          view_own t' own'
          ∙ buffered-append k t z i a input at_end room
          ∙ ap (λ x. x ++ take m input) (sym v)
          ∙ ap (λ x. view s ++ take x input) (sym count);
      output = sym (view_own t' own');
      enough = elim (Bool-cases (leb a (length input))) [
        | inl x ↦ inl (ground (arith, size))
        | inr x ↦ inr (ground (arith, count))
      ];
      untouched = λ x. absurd (omega arith);
    }

fill-Gathered :
    (k : ℕ) (s t : Stream) (input : Bytes) (n : ℕ)
    → (z : IsSized k t) → length t.ref ≡ 0
    → view s ≡ buffered t
    → used t ≡ used s
    → used s < n
    → t.r % 2 ^ k + n ≤ 2 ^ k
    → Gathered k s input n (let (s', m) = fill t input in (s', m, buffered s'))
unfolding fill
fill-Gathered k s t input n z own v u lt place =
    let i = bit_and t.w t.mask in
    let at_end : i ≡ t.r % 2 ^ k + used t = w_index k t z (omega arith) in
    append-Gathered k s t i (t.cap - i) input n z own v u lt (omega (arith, z.cap_eq)) at_end
      (omega (arith, z.cap_eq))

pub untouched-Gathered :
    (k : ℕ) (s : Stream) (input : Bytes) (n : ℕ)
    → IsSized k s
    → Holds k s
    → n ≤ length (view s)
    → Gathered k s input n (s, 0, view s)
untouched-Gathered k s input n z h le = record {
  sized = z;
  holds = h;
  taken = omega arith;
  bytes = sym (append-nil (view s));
  output = refl;
  enough = inl le;
  untouched = λ x. refl;
}

module _ (k : ℕ) (s : Stream) (z : IsSized k s) (h : Holds k s) (input : Bytes) (n : ℕ)
    (fits : n ≤ 2 ^ k) where
  pub gather_room :
      length s.ref ≡ 0
      → used s < n
      → Gathered k s input n (let (s', m) = fill (make_room s n) input in (s', m, buffered s'))
  gather_room own lt =
      let r = make_room-Roomy k s z n fits in
      fill-Gathered k s (make_room s n) input n r.sized (ap length r.no_ref ∙ own)
        (view_own s own ∙ sym r.bytes) r.count lt r.place

  -- `ffstream_gather` on a stream that references no input, its buffer of 2^k bytes, k at most 31,
  -- its bytes in one region, asked for at most 2^k bytes: the bytes are kept and the input that is
  -- taken is appended to them, in one region again; where there are the bytes asked for nothing is
  -- taken; the output is all the bytes, as many as asked for or the input is used up.
  pub gather-Gathered : length s.ref ≡ 0 → Gathered k s input n (gather s input n)
  gather-Gathered own = elim (Bool-cases (ltb (used s) n)) [
    | inl t ↦
        let q : gather s input n
            ≡ (let (s', m) = fill (make_room s n) input in (s', m, buffered s')) =
          unfold gather in simp t in
        subst (Gathered k s input n) (sym q) (gather_room own (ground arith))
    | inr t ↦
        let kept : gather s input n ≡ (s, 0, buffered s) = unfold gather in simp t in
        let q = kept ∙ ap (λ x. (s, 0, x)) (sym (view_own s own)) in
        subst (Gathered k s input n) (sym q) (
          untouched-Gathered k s input n z h
            (ground (arith, view_own s own, length-buffered k s z)))
  ]
