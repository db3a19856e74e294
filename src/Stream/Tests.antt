-- ===== src/Stream/Tests.antt =====
-- A buffer of four bytes, of which the positions are about to wrap around.
use fcom.Prelude.{◌+◌, ◌-◌, ◌^◌, ◌≡◌, refl, arith, [], ◌∷◌, drop}
use fcom.Prelude.Memory.{memory, slice, copy, at}
use fcom.Stream.{Stream, used, view, gather, gather_ref, consume, realloc}
use fcom.Stream.Room.{IsSized}
use fcom.Stream.Gather.{Holds, Gathered, gather-Gathered}
use fcom.Stream.Refs.{gather_ref-Gathered, view-consume}
use fcom.Stream.Growth.{view-realloc}

-- One byte, 7, at the last place.
abbrev near_end : Stream
near_end = record { mem = memory (λ i. i + 4); r = 2 ^ 32 - 1; w = 0; cap = 4; mask = 3; ref = [] }

near_end-IsSized : IsSized 2 near_end
near_end-IsSized = record {
  k_le = omega arith;
  cap_eq = refl;
  mask_eq = refl;
  r_lt = omega arith;
  w_lt = omega arith;
}

near_end-Holds : Holds 2 near_end
near_end-Holds = unfold used in omega arith

gather-Gathered_example :
    Gathered 2 near_end (1 ∷ 2 ∷ 3 ∷ 4 ∷ []) 3 (gather near_end (1 ∷ 2 ∷ 3 ∷ 4 ∷ []) 3)
gather-Gathered_example =
    gather-Gathered 2 near_end near_end-IsSized near_end-Holds (1 ∷ 2 ∷ 3 ∷ 4 ∷ []) 3 (omega arith)
      refl

gathered : (gather near_end (1 ∷ 2 ∷ 3 ∷ 4 ∷ []) 3).2 ≡ 7 ∷ 1 ∷ 2 ∷ 3 ∷ []
unfolding gather copy slice at
gathered = refl

gather_ref-Gathered_example :
    Gathered 2 near_end (1 ∷ 2 ∷ []) 2 (gather_ref near_end (1 ∷ 2 ∷ []) 2)
gather_ref-Gathered_example =
    gather_ref-Gathered 2 near_end near_end-IsSized near_end-Holds (1 ∷ 2 ∷ []) 2 (omega arith)
      (omega arith)

view-consume_example :
    (view (consume near_end 1) ≡ drop 1 (view near_end))
    × Holds 2 (consume near_end 1)
    × IsSized 2 (consume near_end 1)
view-consume_example =
    view-consume 2 near_end near_end-IsSized near_end-Holds 1 (unfold used in omega arith)

view-realloc_example :
    (view (realloc near_end (memory (λ i. 0)) (2 ^ 3)) ≡ view near_end)
    × Holds 3 (realloc near_end (memory (λ i. 0)) (2 ^ 3))
    × IsSized 3 (realloc near_end (memory (λ i. 0)) (2 ^ 3))
view-realloc_example =
    view-realloc 2 near_end near_end-IsSized near_end-Holds (memory (λ i. 0)) 3 (omega arith)
      (omega arith)
