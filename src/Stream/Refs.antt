-- ===== src/Stream/Refs.antt =====
-- The stream buffer where it references the input, and the bytes that are consumed.
use fcom.Prelude.{
  ℕ, zero, suc, ◌+◌, ◌-◌, ◌%◌, ◌^◌, ◌≤◌, ◌<◌, ◌≡◌, refl, sym, ap, ◌∙◌, subst, inl, inr, [], ◌∷◌,
  ◌++◌, arith, ltb, ◌==◌, length, take, drop, length-drop, take-length, Bool-cases, dec_lt,
  nil_of_length,
}
use fcom.Prelude.Memory.{Bytes, copy, slice}
use fcom.Prelude.Slices.{drop-slice}
use fcom.Prelude.Mask.{pow_pos, mod_within}
use native.Mathlib.Nat.{mod-lt, zero-mod}
use fcom.Stream.{
  Stream, add32, sub32, used, index, buffered, referenced, view, make_room, fill, unref, gather_ref,
  consume,
}
use fcom.Stream.Room.{
  IsSized, index_lem, used-lt, front-IsSized, front-buffered, length-buffered, buffered_lem,
}
use fcom.Stream.Gather.{
  Holds, Gathered, view_own, view_ref, Holds-own, own-Fits, Holds-ref, ref-le, append-Gathered,
  untouched-Gathered, gather_room, appended,
}

drop_all : (n : ℕ) (d : Bytes) → length d ≤ n → drop n d ≡ []
drop_all zero [] le = refl
drop_all zero (x ∷ d) le = absurd (omega arith)
drop_all (suc n) [] le = refl
drop_all (suc n) (x ∷ d) le = drop_all n d (omega arith)

drop_zero_of : (n : ℕ) (d : Bytes) → n ≡ 0 → drop n d ≡ d
drop_zero_of n d e = rw e refl

drop-drop : (n m : ℕ) (d : Bytes) → drop n (drop m d) ≡ drop (m + n) d
drop-drop n zero d = let e : 0 + n ≡ n = omega arith in rw e refl
drop-drop zero (suc m) [] = let e : suc m + 0 ≡ suc m = omega arith in rw e refl
drop-drop (suc n) (suc m) [] = let e : suc m + suc n ≡ suc (m + suc n) = omega arith in rw e refl
drop-drop n (suc m) (x ∷ d) =
    let e : suc m + n ≡ suc (m + n) = omega arith in rw e (drop-drop n m d)

sub32_zero :
    (w r n : ℕ) → w < 2 ^ 32 → r < 2 ^ 32 → n < 2 ^ 32 → sub32 w r ≡ 0 → sub32 (add32 w n) r ≡ n
sub32_zero w r n lt lt' small e = omega arith

pub used_lem : (s : Stream) → used s ≡ sub32 s.w s.r
unfolding used
used_lem s = refl

pub referenced_lem : (s : Stream) → referenced s ≡ drop (length s.ref - used s) s.ref
unfolding referenced
referenced_lem s = refl

module _ (k : ℕ) (s : Stream) (z : IsSized k s) (h : Holds k s) where
  pub length-view : length (view s) ≡ used s
  length-view = elim (Bool-cases (length s.ref == 0)) [
    | inl t ↦ ap length (view_own s (ground arith)) ∙ length-buffered k s z
    | inr t ↦
        let lt : 0 < length s.ref = ground arith in
        ap length (view_ref s lt)
        ∙ ap length (referenced_lem s)
        ∙ omega (arith, ref-le k s lt h, length-drop (length s.ref - used s) s.ref)
  ]

  -- An input that is referenced.
  ref_input :
      (input : Bytes) (n : ℕ)
      → used s ≡ 0
      → length input < 2 ^ 32
      → 0 < n
      → Gathered k s input n
          (record s { ref = input; w = add32 s.w (length input) }, length input, input)
  ref_input input n none_used small pos =
      let s' = record s { ref = input; w = add32 s.w (length input) } in
      let count : used s' ≡ length input =
        used_lem s'
        ∙ sub32_zero s.w s.r (length input) z.w_lt z.r_lt small (sym (used_lem s) ∙ none_used) in
      let empty : view s ≡ [] = nil_of_length (view s) (length-view ∙ none_used) in
      let z' : IsSized k s' = record {
        k_le = z.k_le;
        cap_eq = z.cap_eq;
        mask_eq = z.mask_eq;
        r_lt = z.r_lt;
        w_lt = omega arith;
      } in
      let bytes : view s' ≡ input = elim (Bool-cases (length input == 0)) [
        | inl t ↦
            let no_bytes : length input ≡ 0 = ground arith in
            view_own s' no_bytes
            ∙ nil_of_length (buffered s') (length-buffered k s' z' ∙ count ∙ no_bytes)
            ∙ sym (nil_of_length input no_bytes)
        | inr t ↦
            let lt : 0 < length input = ground arith in
            view_ref s' lt
            ∙ referenced_lem s'
            ∙ drop_zero_of (length input - used s') input (omega arith)
      ] in
      let holds : Holds k s' = elim (Bool-cases (length input == 0)) [
        | inl t ↦ Holds-own k s' (ground arith) (ground (arith, count, mod-lt s.r (pow_pos k)))
        | inr t ↦ Holds-ref k s' (ground arith) (omega arith)
      ] in
      record {
        sized = z';
        holds = holds;
        taken = omega arith;
        bytes = bytes ∙ sym (ap (λ x. x ++ take (length input) input) empty ∙ take-length input);
        output = sym bytes;
        enough = inr refl;
        untouched = λ x. absurd (omega arith);
      }

  -- An input that was referenced, copied to the buffer.
  unref_input :
      (input : Bytes) (n : ℕ)
      → n ≤ 2 ^ k
      → 0 < length s.ref
      → used s < n
      → Gathered k s input n (appended (unref s) (used s) (n - used s) input)
  unref_input input n le lt short =
      let f = unref s in
      let b = referenced s in
      let len : length b ≡ used s = ap length (sym (view_ref s lt)) ∙ length-view in
      let r_zero : f.r ≡ 0 = unfold unref in refl in
      let count : used f ≡ used s = used_lem f ∙ (unfold unref in omega (arith, used-lt k s z)) in
      let zero_r : f.r % 2 ^ k ≡ 0 = ap (λ r. r % 2 ^ k) r_zero ∙ zero-mod (2 ^ k) in
      let same : (f.cap ≡ s.cap) × (f.mask ≡ s.mask) × (f.r < 2 ^ 32) × (f.w < 2 ^ 32) =
        unfold unref in (refl, refl, omega arith, used-lt k s z) in
      let moved : f.mem ≡ copy s.mem 0 b = unfold unref in refl in
      let z' = front-IsSized k s z b len f same moved zero_r count in
      let bytes = front-buffered k s z b len f same moved zero_r count in
      append-Gathered k s f (used s) (n - used s) input n z' (unfold unref in refl)
        (view_ref s lt ∙ sym bytes) count short (omega arith) (omega arith) (omega arith)

  -- `ffstream_gather_ref`, for an input below 2^32 bytes: as `ffstream_gather`, whether the bytes
  -- are in the buffer or in an input that is referenced.
  pub gather_ref-Gathered :
      (input : Bytes) (n : ℕ)
      → n ≤ 2 ^ k
      → length input < 2 ^ 32
      → Gathered k s input n (gather_ref s input n)
  gather_ref-Gathered input n le small = elim (Bool-cases (ltb (used s) n)) [
    | inl t ↦ elim (Bool-cases (used s == 0)) [
      | inl e ↦
          let q : gather_ref s input n
              ≡ (record s { ref = input; w = add32 s.w (length input) }, length input, input) =
            unfold gather_ref in simp (t, e) in
          subst (Gathered k s input n) (sym q)
            (ref_input input n (ground arith) small (ground arith))
      | inr e ↦ elim (Bool-cases (length s.ref == 0)) [
        | inl own ↦
            let q : gather_ref s input n
                ≡ (let (s', m) = fill (make_room s n) input in (s', m, buffered s')) =
              unfold gather_ref in simp (t, e, own) in
            subst (Gathered k s input n) (sym q)
              (gather_room k s z h input n le (ground arith) (ground arith))
        | inr refd ↦
            let q : gather_ref s input n ≡ appended (unref s) (used s) (n - used s) input =
              unfold gather_ref in simp (t, e, refd) in
            subst (Gathered k s input n) (sym q)
              (unref_input input n le (ground arith) (ground arith))
      ]
    ]
    | inr t ↦
        let q : gather_ref s input n ≡ (s, 0, view s) = unfold gather_ref in simp t in
        subst (Gathered k s input n) (sym q)
          (untouched-Gathered k s input n z h (ground (arith, length-view)))
  ]

  sub32_add :
      (w r m : ℕ) → w < 2 ^ 32 → r < 2 ^ 32 → m ≤ sub32 w r → sub32 w (add32 r m) ≡ sub32 w r - m
  sub32_add w r m lt lt' le = omega arith

  module _ (m : ℕ) (le : m ≤ used s) where
    used-consume : used (consume s m) ≡ used s - m
    unfolding used
    used-consume = sub32_add s.w s.r m z.w_lt z.r_lt le

    consume-IsSized : IsSized k (consume s m)
    consume-IsSized = record {
      k_le = z.k_le;
      cap_eq = z.cap_eq;
      mask_eq = z.mask_eq;
      r_lt = omega arith;
      w_lt = z.w_lt;
    }

    consume_own : length s.ref ≡ 0 → (view (consume s m) ≡ drop m (view s)) × Holds k (consume s m)
    consume_own own =
        let s' = consume s m in
        let fits = own-Fits k s own h in
        let all : drop m (buffered s) ≡ slice s.mem (index s + m) (used s - m) =
          ap (λ b. drop m b) (buffered_lem s) ∙ drop-slice s.mem (index s) (used s) m le in
        elim (dec_lt (s.r % 2 ^ k + m) (2 ^ k)) [
          | yes lt ↦
              let at : s'.r % 2 ^ k ≡ s.r % 2 ^ k + m =
                mod_within k s.r m (omega (arith, z.k_le)) lt in
              let start : index s' ≡ index s + m =
                index_lem k s' consume-IsSized ∙ at ∙ ap (λ i. i + m) (sym (index_lem k s z)) in
              (
                view_own s' own
                    ∙ buffered_lem s'
                    ∙ ap (λ i. slice s.mem i (used s')) start
                    ∙ ap (λ n. slice s.mem (index s + m) n) used-consume
                    ∙ sym all
                    ∙ ap (λ b. drop m b) (sym (view_own s own)),
                Holds-own k s' own (omega (arith, used-consume, at)),
              )
          | no ge ↦
              let none_left : used s' ≡ 0 = omega (arith, used-consume) in
              (
                nil_of_length (view s') (
                      ap length (view_own s' own)
                      ∙ length-buffered k s' consume-IsSized
                      ∙ none_left)
                    ∙ sym (drop_all m (view s) (omega (arith, length-view))),
                Holds-own k s' own (omega (arith, mod-lt s'.r (pow_pos k))),
              )
        ]

    consume_ref : 0 < length s.ref → (view (consume s m) ≡ drop m (view s)) × Holds k (consume s m)
    consume_ref lt =
        let s' = consume s m in
        let fits = ref-le k s lt h in
        (
          view_ref s' lt
              ∙ referenced_lem s'
              ∙ ap (λ j. drop j s.ref) (omega (arith, used-consume))
              ∙ sym (drop-drop m (length s.ref - used s) s.ref)
              ∙ ap (λ b. drop m b) (sym (referenced_lem s) ∙ sym (view_ref s lt)),
          Holds-ref k s' lt (omega (arith, used-consume)),
        )

    -- `ffstream_consume` of no more bytes than there are takes them off the front, and keeps the
    -- rest in one region, across the wrap-around of the positions.
    pub view-consume :
        (view (consume s m) ≡ drop m (view s)) × Holds k (consume s m) × IsSized k (consume s m)
    view-consume = elim (Bool-cases (length s.ref == 0)) [
      | inl t ↦ let (v, f) = consume_own (ground arith) in (v, f, consume-IsSized)
      | inr t ↦ let (v, f) = consume_ref (ground arith) in (v, f, consume-IsSized)
    ]
