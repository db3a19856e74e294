-- ===== src/Stream/Growth.antt =====
-- The stream buffer when it grows.
use fcom.Prelude.{
  ℕ, ◌-◌, ◌^◌, ◌≤◌, ◌<◌, ◌≡◌, refl, sym, ap, ◌∙◌, subst, inl, inr, false, arith, leb, ◌==◌, length,
  drop, Bool-cases,
}
use fcom.Prelude.Memory.{Memory, copy, slice}
use fcom.Prelude.Slices.{slice-copy}
use native.Mathlib.Nat.{zero-mod}
use fcom.Stream.{Stream, used, buffered, view, realloc}
use fcom.Stream.Room.{IsSized, index_lem, used-lt, length-buffered, buffered_lem}
use fcom.Stream.Gather.{Holds, view_own, view_ref, Holds-own, own-Fits, Holds-ref, ref-le}
use fcom.Stream.Refs.{used_lem, referenced_lem}

module _ (k : ℕ) (s : Stream) (z : IsSized k s) (h : Holds k s) (fresh : Memory) (j : ℕ)
    (j_le : j ≤ 31) (larger : s.cap < 2 ^ j) where
  -- The stream keeps its bytes.
  record Grown (t : Stream) : Type 0 where
    bytes : view t ≡ view s
    holds : Holds j t
    sized : IsSized j t

  Grown-own :
      length s.ref ≡ 0
      → Grown (record s {
        mem = copy fresh 0 (buffered s);
        r = 0;
        w = used s;
        cap = 2 ^ j;
        mask = 2 ^ j - 1;
      })
  Grown-own own =
      let t = record s {
        mem = copy fresh 0 (buffered s);
        r = 0;
        w = used s;
        cap = 2 ^ j;
        mask = 2 ^ j - 1;
      } in
      let z' : IsSized j t = record {
        k_le = j_le;
        cap_eq = refl;
        mask_eq = refl;
        r_lt = omega arith;
        w_lt = used-lt k s z;
      } in
      let count : used t ≡ used s = used_lem t ∙ omega (arith, used-lt k s z) in
      record {
        bytes =
            view_own t own
            ∙ buffered_lem t
            ∙ ap (λ i. slice t.mem i (used t)) (index_lem j t z' ∙ zero-mod (2 ^ j))
            ∙ ap (λ n. slice t.mem 0 n) (count ∙ sym (length-buffered k s z))
            ∙ slice-copy fresh 0 (buffered s)
            ∙ sym (view_own s own);
        holds =
            Holds-own j t own
              (omega (arith, zero-mod (2 ^ j), count, own-Fits k s own h, z.cap_eq));
        sized = z';
      }

  Grown-ref : 0 < length s.ref → Grown (record s { mem = fresh; cap = 2 ^ j; mask = 2 ^ j - 1 })
  Grown-ref lt =
      let t = record s { mem = fresh; cap = 2 ^ j; mask = 2 ^ j - 1 } in
      let count : used t ≡ used s = used_lem t ∙ sym (used_lem s) in
      record {
        bytes =
            view_ref t lt
            ∙ referenced_lem t
            ∙ ap (λ u. drop (length s.ref - u) s.ref) count
            ∙ sym (referenced_lem s)
            ∙ sym (view_ref s lt);
        holds = Holds-ref j t lt (omega (arith, count, ref-le k s lt h));
        sized = record { k_le = j_le; cap_eq = refl; mask_eq = refl; r_lt = z.r_lt; w_lt = z.w_lt };
      }

  not_le : leb (2 ^ j) s.cap ≡ false
  not_le = ground arith

  realloc-Grown : Grown (realloc s fresh (2 ^ j))
  realloc-Grown = elim (Bool-cases (length s.ref == 0)) [
    | inl own ↦
        let q : realloc s fresh (2 ^ j) ≡ record s {
          mem = copy fresh 0 (buffered s);
          r = 0;
          w = used s;
          cap = 2 ^ j;
          mask = 2 ^ j - 1;
        } =
          unfold realloc in simp (not_le, own) in
        subst Grown (sym q) (Grown-own (ground arith))
    | inr t ↦
        let q : realloc s fresh (2 ^ j) ≡ record s { mem = fresh; cap = 2 ^ j; mask = 2 ^ j - 1 } =
          unfold realloc in simp (not_le, t) in
        subst Grown (sym q) (Grown-ref (ground arith))
  ]

  -- `ffstream_realloc` to a larger power of two, at most 2^31, keeps the bytes, whether they are in
  -- the buffer or in an input that is referenced, and they lie in one region after it.
  pub view-realloc :
      (view (realloc s fresh (2 ^ j)) ≡ view s)
      × Holds j (realloc s fresh (2 ^ j))
      × IsSized j (realloc s fresh (2 ^ j))
  view-realloc = (realloc-Grown.bytes, realloc-Grown.holds, realloc-Grown.sized)
