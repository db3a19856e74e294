-- ===== src/TextCount/Tests.antt =====
-- The theorems of `textcount` on a file of two lines and an unfinished one, in two reads.
use fcom.Prelude.{◌+◌, ◌≡◌, refl, List, [], ◌∷◌, arith, length, ◌==◌, if◌then◌else◌}
use mathlib.Core.List.{flatten}
use fcom.Prelude.Memory.{Bytes}
use fcom.TextCount.{cleared, no_files, read_all, count_files}
use fcom.TextCount.Reference.{read_all-flatten, read_all-widths, widths, last_width, zeros, widest}
use fcom.TextCount.Summary.{BoundsAll, count_files-BoundsAll}

-- "ab\n", then "\ncde"
abbrev reads : List Bytes
reads = (97 ∷ 98 ∷ 10 ∷ []) ∷ (10 ∷ 99 ∷ 100 ∷ 101 ∷ []) ∷ []

read_all_runs :
    read_all cleared reads ≡ record { sz = 7; ln = 3; ln_empty = 1; b_ln = 3; b_ln_max = 2 }
unfolding read_all
read_all_runs = refl

read_all-flatten_example : read_all cleared reads ≡ read_all cleared (flatten reads ∷ [])
read_all-flatten_example = read_all-flatten cleared reads (omega arith) (omega arith)

read_all-widths_example :
    let f = read_all cleared reads in
    let s = flatten reads in
    (f.sz ≡ length s)
    × (f.ln ≡ length (widths 0 s) + (if last_width 0 s == 0 then 0 else 1))
    × (f.ln_empty ≡ zeros (widths 0 s))
    × (f.b_ln_max ≡ widest 0 (widths 0 s))
unfolding flatten
read_all-widths_example = read_all-widths reads (omega arith)

abbrev one_line : List Bytes
one_line = (97 ∷ 98 ∷ []) ∷ []

count_files-BoundsAll_example :
    BoundsAll (count_files no_files (reads ∷ one_line ∷ [])) (reads ∷ one_line ∷ [])
count_files-BoundsAll_example = count_files-BoundsAll no_files (reads ∷ one_line ∷ [])
