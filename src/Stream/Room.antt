-- ===== src/Stream/Room.antt =====
-- The regions of a stream's buffer: where its bytes lie, and what an append leaves.
use fcom.Prelude.{
  ℕ, ◌+◌, ◌-◌, ◌*◌, ◌/◌, ◌%◌, ◌^◌, ◌≤◌, ◌<◌, ◌≡◌, refl, sym, ap, ◌∙◌, subst, inl, inr, min, ◌++◌,
  arith, ltb, length, take, length-take, Bool-cases,
}
use fcom.Prelude.Memory.{Bytes, copy, slice, length-slice}
use fcom.Prelude.Slices.{slice-copy_after, slice-add, slice-copy}
use fcom.Prelude.Mask.{mask_lem, mod_within}
use native.Mathlib.Nat.{pow-le-pow_right, mod-add-div, mul-mod_right, mod-le}
use Prim.Native.Nat.{bit_and}
use fcom.Stream.{Stream, add32, sub32, used, index, buffered, make_room, append}

-- The capacity is a power of two, and the positions are words.
pub record IsSized (k : ℕ) (s : Stream) : Type 0 where
  pub k_le : k ≤ 31
  pub cap_eq : s.cap ≡ 2 ^ k
  pub mask_eq : s.mask ≡ 2 ^ k - 1
  pub r_lt : s.r < 2 ^ 32
  pub w_lt : s.w < 2 ^ 32

-- The data is one region of the buffer.
abbrev pub Fits : ℕ → Stream → Type 0
Fits k s = s.r % 2 ^ k + used s ≤ 2 ^ k

pub buffered_lem : (s : Stream) → buffered s ≡ slice s.mem (index s) (used s)
unfolding buffered
buffered_lem s = refl

sub32_both :
    (w r i : ℕ) → i ≤ r → r < 2 ^ 32 → w < 2 ^ 32 → sub32 (sub32 w i) (sub32 r i) ≡ sub32 w r
sub32_both w r i le lt lt' = omega arith

cap_le : (k : ℕ) → k ≤ 31 → 2 ^ k ≤ 2 ^ 31
cap_le k le = pow-le-pow_right {n = 2} (omega arith) le

module _ (k : ℕ) (s : Stream) (z : IsSized k s) where
  pub index_lem : index s ≡ s.r % 2 ^ k
  unfolding index
  index_lem = ap (λ m. bit_and s.r m) z.mask_eq ∙ mask_lem k s.r

  w_lem : s.w ≡ add32 s.r (used s)
  unfolding used
  w_lem = omega (arith, z.r_lt, z.w_lt)

  pub used-lt : used s < 2 ^ 32
  unfolding used
  used-lt = omega arith

  -- Where the bytes of the stream end, before the end of the buffer.
  pub w_index : s.r % 2 ^ k + used s < 2 ^ k → bit_and s.w s.mask ≡ s.r % 2 ^ k + used s
  w_index lt =
      ap (λ m. bit_and s.w m) z.mask_eq
      ∙ mask_lem k s.w
      ∙ ap (λ w. w % 2 ^ k) w_lem
      ∙ mod_within k s.r (used s) (omega (arith, z.k_le)) lt

  module _ (i n : ℕ) (input : Bytes) (at_end : i ≡ s.r % 2 ^ k + used s)
      (room : i + n ≤ 2 ^ k) where
    pub used-append : used (append s i n input).0 ≡ used s + min n (length input)
    unfolding used append
    used-append = omega (arith, z.r_lt, z.w_lt, cap_le k z.k_le)

    pub append-IsSized : IsSized k (append s i n input).0
    unfolding append
    append-IsSized = record {
      k_le = z.k_le;
      cap_eq = z.cap_eq;
      mask_eq = z.mask_eq;
      r_lt = z.r_lt;
      w_lt = omega arith;
    }

    mem-append : (append s i n input).0.mem ≡ copy s.mem i (take (min n (length input)) input)
    unfolding append
    mem-append = refl

    index-append : index (append s i n input).0 ≡ index s
    unfolding append index
    index-append = refl

    pub buffered-append :
        buffered (append s i n input).0 ≡ buffered s ++ take (min n (length input)) input
    buffered-append =
        let m = min n (length input) in
        let d : Bytes = take m input in
        let mem' = copy s.mem i d in
        let len : length d ≡ m = omega (arith, length-take m input) in
        let at_i : index s + used s ≡ i = omega (arith, index_lem) in
        buffered_lem (append s i n input).0
        ∙ ap (λ x. slice x (index (append s i n input).0) (used (append s i n input).0)) mem-append
        ∙ ap (λ x. slice mem' x (used (append s i n input).0)) index-append
        ∙ ap (λ x. slice mem' (index s) x) used-append
        ∙ slice-add mem' (index s) (used s) m
        ∙ ap (λ x. x ++ slice mem' (index s + used s) m)
            (slice-copy_after s.mem (index s) (used s) i d (omega arith) ∙ sym (buffered_lem s))
        ∙ ap (λ x. buffered s ++ x)
            (ap (λ x. slice mem' x m) at_i
              ∙ ap (λ x. slice mem' i x) (sym len)
              ∙ slice-copy s.mem i d)

    pub append-Fits : Fits k (append s i n input).0
    append-Fits =
        let e : (append s i n input).0.r ≡ s.r = unfold append in refl in
        subst (λ r. r % 2 ^ k + used (append s i n input).0 ≤ 2 ^ k) (sym e)
          (omega (arith, used-append))

-- The front of a buffer: a region that starts at a multiple of the capacity.
module _ (k : ℕ) (s : Stream) (z : IsSized k s) where
  pub at_front : (s.r + 2 ^ 32 - s.r % 2 ^ k) % 2 ^ 32 % 2 ^ k ≡ 0
  at_front =
      let le = mod-le s.r (2 ^ k) in
      let back : (s.r + 2 ^ 32 - s.r % 2 ^ k) % 2 ^ 32 ≡ 2 ^ k * (s.r / 2 ^ k) =
        omega (arith, z.r_lt, mod-add-div s.r (2 ^ k), le) in
      ap (λ n. n % 2 ^ k) back ∙ mul-mod_right (2 ^ k) (s.r / 2 ^ k)

  -- What a move of the bytes to the front leaves.
  module _ (b : Bytes) (e : length b ≡ used s) (f : Stream)
      (same : (f.cap ≡ s.cap) × (f.mask ≡ s.mask) × (f.r < 2 ^ 32) × (f.w < 2 ^ 32))
      (moved : f.mem ≡ copy s.mem 0 b) (zero_r : f.r % 2 ^ k ≡ 0) (keeps : used f ≡ used s) where
    pub front-IsSized : IsSized k f
    front-IsSized = record {
      k_le = z.k_le;
      cap_eq = same.0 ∙ z.cap_eq;
      mask_eq = same.1 ∙ z.mask_eq;
      r_lt = same.2;
      w_lt = same.3;
    }

    pub front-buffered : buffered f ≡ b
    front-buffered =
        buffered_lem f
        ∙ ap (λ x. slice x (index f) (used f)) moved
        ∙ ap (λ x. slice (copy s.mem 0 b) x (used f)) (index_lem k f front-IsSized ∙ zero_r)
        ∙ ap (λ x. slice (copy s.mem 0 b) 0 x) (keeps ∙ sym e)
        ∙ slice-copy s.mem 0 b

  -- `make_room` keeps the bytes, and leaves place for `n` of them in one region.
  pub record Roomy (n : ℕ) (t : Stream) : Type 0 where
    pub sized : IsSized k t
    pub bytes : buffered t ≡ buffered s
    pub count : used t ≡ used s
    pub place : t.r % 2 ^ k + n ≤ 2 ^ k
    pub no_ref : t.ref ≡ s.ref

  pub length-buffered : length (buffered s) ≡ used s
  length-buffered = ap length (buffered_lem s) ∙ length-slice s.mem (index s) (used s)

  pub make_room-Roomy : (n : ℕ) → n ≤ 2 ^ k → Roomy n (make_room s n)
  make_room-Roomy n le = elim (Bool-cases (ltb s.cap (index s + n))) [
    | inl t ↦
        let f = record s {
          mem = copy s.mem 0 (buffered s);
          r = sub32 s.r (index s);
          w = sub32 s.w (index s);
        } in
        let q : make_room s n ≡ f = unfold make_room in simp t in
        let zero_r : f.r % 2 ^ k ≡ 0 = ap (λ i. sub32 s.r i % 2 ^ k) (index_lem k s z) ∙ at_front in
        let keeps : used f ≡ used s =
          unfold used in
          sub32_both s.w s.r (index s) (omega (arith, index_lem k s z, mod-le s.r (2 ^ k))) z.r_lt
            z.w_lt in
        let sized =
          front-IsSized (buffered s) length-buffered f (refl, refl, omega arith, omega arith) refl
            zero_r keeps in
        subst (Roomy n) (sym q) (record {
          sized = sized;
          bytes =
              front-buffered (buffered s) length-buffered f (refl, refl, omega arith, omega arith)
                refl zero_r keeps;
          count = keeps;
          place = omega (arith, zero_r);
          no_ref = refl;
        })
    | inr t ↦
        let q : make_room s n ≡ s = unfold make_room in simp t in
        subst (Roomy n) (sym q) (record {
          sized = z;
          bytes = refl;
          count = refl;
          place = ground (arith, index_lem k s z, z.cap_eq);
          no_ref = refl;
        })
  ]
