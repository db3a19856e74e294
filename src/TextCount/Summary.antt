-- ===== src/TextCount/Summary.antt =====
-- The statistics over all files, `txcnt_add`, that `txcnt_final_stats` prints.
use fcom.Prelude.{ℕ, ◌+◌, ◌^◌, ◌≤◌, ◌<◌, ◌≡◌, List, [], ◌∷◌, arith, length}
use fcom.Prelude.Memory.{Bytes}
use fcom.TextCount.{Stat, Totals, u64, cleared, no_files, read_all, add, count_files}

-- The statistics of one file.
abbrev pub stat_of : List Bytes → Stat
stat_of ds = read_all cleared ds

-- The totals bound those of a file.
pub record Bounds (t : Totals) (f : Stat) : Type 0 where
  pub above_min : t.sz_f_min ≤ f.sz
  pub below_max : f.sz ≤ t.sz_f_max
  pub lines : f.ln ≤ t.ln_f_max

abbrev pub BoundsAll : Totals → List (List Bytes) → Type 0
BoundsAll t [] = Unit
BoundsAll t (ds ∷ files) = Bounds t (stat_of ds) × BoundsAll t files

unfoldable pub sum_of : (Stat → ℕ) → List (List Bytes) → ℕ
sum_of g [] = 0
sum_of g (ds ∷ files) = g (stat_of ds) + sum_of g files

-- What one file more changes.
widens :
    (c : Totals) (files : List (List Bytes))
    → let t = count_files c files in
      (t.sz_f_min ≤ c.sz_f_min) × (c.sz_f_max ≤ t.sz_f_max) × (c.ln_f_max ≤ t.ln_f_max)
unfolding count_files
widens c [] = ground arith
widens c (ds ∷ files) = ground (arith, widens (add c (stat_of ds)) files)

-- After any files, from any totals, the least and the greatest size and the greatest number of
-- lines bound those of each file.
pub count_files-BoundsAll :
    (c : Totals) (files : List (List Bytes)) → BoundsAll (count_files c files) files
unfolding count_files
count_files-BoundsAll c [] = tt
count_files-BoundsAll c (ds ∷ files) =
    let c' = add c (stat_of ds) in (ground (arith, widens c' files), count_files-BoundsAll c' files)

sums :
    (c : Totals) (files : List (List Bytes))
    → c.f < 2 ^ 64
    → c.all.sz < 2 ^ 64
    → c.all.ln < 2 ^ 64
    → c.all.ln_empty < 2 ^ 64
    → let t = count_files c files in
      (t.f ≡ u64 (c.f + length files))
      × (t.all.sz ≡ u64 (c.all.sz + sum_of (λ f. f.sz) files))
      × (t.all.ln ≡ u64 (c.all.ln + sum_of (λ f. f.ln) files))
      × (t.all.ln_empty ≡ u64 (c.all.ln_empty + sum_of (λ f. f.ln_empty) files))
unfolding count_files sum_of
sums c [] h k l m = omega arith
sums c (ds ∷ files) h k l m =
    omega (
      arith,
      sums (add c (stat_of ds)) files (omega arith) (omega arith) (omega arith) (omega arith),
    )

-- The totals of a run: how many files there were, and the sums of their sizes, lines and empty
-- lines, as 64-bit words.
count_files-sums :
    (files : List (List Bytes))
    → let t = count_files no_files files in
      (t.f ≡ u64 (length files))
      × (t.all.sz ≡ u64 (sum_of (λ f. f.sz) files))
      × (t.all.ln ≡ u64 (sum_of (λ f. f.ln) files))
      × (t.all.ln_empty ≡ u64 (sum_of (λ f. f.ln_empty) files))
count_files-sums files =
    omega (arith, sums no_files files (omega arith) (omega arith) (omega arith) (omega arith))
