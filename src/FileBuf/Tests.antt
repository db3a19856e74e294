-- ===== src/FileBuf/Tests.antt =====
-- The theorems of the file buffers at concrete buffers.
use fcom.Prelude.{◌+◌, ◌-◌, ◌<◌, ◌≤◌, ◌≡◌, refl, inl, inr, none, some, [], ◌∷◌, arith, length}
use fcom.Prelude.Memory.{Memory, memory, at, copy, slice}
use fcom.FileBuf.{FileBuf, BufSet, write, find}
use fcom.FileBuf.Write.{overlay, settle, write-content, write-gap}
use fcom.FileBuf.Cache.{Reflects, find_lem}

abbrev zeros : Memory
zeros = memory (λ i. 0)

-- Two of four bytes are in use; the others hold 5 from an earlier use.
abbrev half_full : FileBuf
half_full = record { len = 2; mem = copy (memory (λ i. 5)) 0 (7 ∷ 8 ∷ []); off = 10 }

-- Three bytes after the two: two fit, and the last one is left.
write_runs :
    let w = write half_full 4 (1 ∷ 2 ∷ 3 ∷ []) 12 in
    (w.out ≡ some (7 ∷ 8 ∷ 1 ∷ 2 ∷ [], 10)) × (w.rest ≡ 3 ∷ [])
unfolding write memory at copy slice
write_runs = (refl, refl)

write-content_example :
    let w = write half_full 4 (1 ∷ 2 ∷ 3 ∷ []) 12 in
    copy (settle zeros w.buf w.out) (12 + (3 - length w.rest)) w.rest
    ≡ copy (overlay zeros half_full) 12 (1 ∷ 2 ∷ 3 ∷ [])
write-content_example =
    write-content zeros half_full 4 (1 ∷ 2 ∷ 3 ∷ []) 12 (omega arith) (omega arith) (omega arith)
      (inr (inl (omega arith)))

-- A buffer of eight, written at 14 when it holds 10 and 11: the bytes 12 and 13 come out as 5.
write-gap_example :
    let w = write half_full 8 (1 ∷ []) 14 in
    (w.out ≡ none) × (at (overlay zeros w.buf) 13 ≡ at half_full.mem 3)
write-gap_example =
    write-gap zeros half_full 8 (1 ∷ []) 14 13 (omega arith) (omega arith) (omega arith)
      (omega arith) (omega arith) (omega arith)

abbrev cached : FileBuf
cached = record { len = 2; mem = zeros; off = 4096 }

abbrev bufs : BufSet
bufs = record {
  bufs = record { len = 0; mem = zeros; off = 0 } ∷ cached ∷ [];
  idx = 1;
  hits = 0;
  misses = 0;
}

find_lem_example : Reflects zeros cached × (4096 ≤ 4097) × (4097 < 4098)
unfolding find memory at
find_lem_example =
    find_lem zeros bufs 4097
      (
        record { no_wrap = omega arith; same = λ i h. refl },
        (record { no_wrap = omega arith; same = λ i h. refl }, tt),
      )
      refl
