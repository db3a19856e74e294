-- ===== src/Sync/Tests.antt =====
-- Comparisons and searches of src/fs/sync-cmp.h on small trees of files.
use fcom.Prelude.{
  ℕ, zero, suc, ◌+◌, ◌*◌, ◌/◌, ◌≡◌, refl, Bool, true, false, some, List, [], ◌∷◌, arith, ◌==◌, ◌&&◌,
  Ordering,
}
use fcom.Sync.{Status, no_status, Files, Entry, Options, data_cmp}
use fcom.Sync.Symmetry.{Antisymmetric, flip, swap_cmp, data_cmp_swap}
use fcom.Sync.Diff.{Pair, only_left, only_right, both, run, next, empty, keyeq, u32}
use fcom.Sync.Counts.{Counts}
use fcom.Sync.Invariant.{AllFound, run-Counts}
use fcom.Sync.Dups.{Scan, dups_init, scan_all, scan_all-dups_init}

abbrev cmp : ℕ → ℕ → Ordering
cmp zero zero = Ordering.eq
cmp zero (suc b) = Ordering.lt
cmp (suc a) zero = Ordering.gt
cmp (suc a) (suc b) = cmp a b

cmp-flip : (a b : ℕ) → cmp b a ≡ flip (cmp a b)
cmp-flip zero zero = refl
cmp-flip zero (suc b) = refl
cmp-flip (suc a) zero = refl
cmp-flip (suc a) (suc b) = cmp-flip a b

abbrev cmp_names : List ℕ → List ℕ → Ordering
cmp_names [] [] = Ordering.eq
cmp_names [] (b ∷ bs) = Ordering.lt
cmp_names (a ∷ as') [] = Ordering.gt
cmp_names (a ∷ as') (b ∷ bs) = elim (cmp a b) [
  | Ordering.lt ↦ Ordering.lt
  | Ordering.gt ↦ Ordering.gt
  | Ordering.eq ↦ cmp_names as' bs
]

cmp_names-flip : (a b : List ℕ) → cmp_names b a ≡ flip (cmp_names a b)
cmp_names-flip [] [] = refl
cmp_names-flip [] (b ∷ bs) = refl
cmp_names-flip (a ∷ as') [] = refl
cmp_names-flip (a ∷ as') (b ∷ bs) = ground (arith, cmp-flip a b, cmp_names-flip as' bs)

abbrev disk : Files
disk = record {
  Time = ℕ;
  time_cmp = cmp;
  half_secs = λ t. t / 2;
  to_msec = λ t. t * 1000;
  name_icmp = cmp_names;
}

disk-Antisymmetric : Antisymmetric disk
disk-Antisymmetric = record { names = cmp_names-flip; times = cmp-flip }

abbrev file : ℕ → ℕ → ℕ → Entry ℕ
file name size time = record {
  name = name ∷ [];
  size = size;
  unix_attr = 0;
  is_dir = false;
  win_attr = 0;
  mtime = time;
}

abbrev plain : Options
plain = record {
  no_attr = false;
  no_time = false;
  time_2sec = false;
  move_no_name = false;
  move_chk_content = false;
}

abbrev older_smaller : Status
older_smaller = record no_status { neq = true; older = true; smaller = true }

data_cmp_swap_example :
    data_cmp disk plain (file 7 20 5) (file 7 10 9)
    ≡ swap_cmp (data_cmp disk plain (file 7 10 9) (file 7 20 5))
data_cmp_swap_example = data_cmp_swap disk disk-Antisymmetric plain (file 7 10 9) (file 7 20 5)

-- A file that only its time differs by, a file that was moved, and a new one.
abbrev found : List (Pair disk)
found =
    both (file 1 4 5) (file 1 4 9) (record no_status { neq = true; older = true })
    ∷ only_left (file 2 30 6)
    ∷ only_right (file 3 8 2)
    ∷ only_right (file 2 30 6)
    ∷ []

found-AllFound : AllFound disk found
found-AllFound = (
  record { not_left = refl; not_right = refl; not_move = refl; not_eq = refl; not_skip = refl },
  (tt, (tt, (tt, tt))),
)

run-Counts_example :
    let d = run disk (keyeq disk plain (λ c. true)) (empty disk) found in Counts disk d.stats d.ents
run-Counts_example = run-Counts disk (keyeq disk plain (λ c. true)) found found-AllFound

run_moved :
    (run disk (keyeq disk plain (λ c. true)) (empty disk) found).stats
    ≡ record { left = 0; right = 1; eq = 0; neq = 1; moved = 1; entries = 3 }
unfolding run keyeq next
run_moved = refl

-- Three files of one size, of which the first two are the same, and a larger one.
abbrev snapshot : List (Entry ℕ)
snapshot = file 1 10 0 ∷ file 2 10 0 ∷ file 3 10 0 ∷ file 4 70 0 ∷ []

abbrev same_data : ℕ → ℕ → Bool
same_data i k = i == 0 && k == 1

scan_all-dups_init_example :
    (s : Scan disk) × (scan_all disk 5 same_data (dups_init disk snapshot (0 ∷ 1 ∷ 2 ∷ 3 ∷ []))
      ≡ some s)
    × (s.entries ≡ 4)
    × (u32 (2 * s.eq + s.neq) ≡ 4)
scan_all-dups_init_example =
    scan_all-dups_init disk same_data snapshot (0 ∷ 1 ∷ 2 ∷ 3 ∷ [])
      (omega arith, (omega arith, (omega arith, (omega arith, tt)))) (omega arith)
