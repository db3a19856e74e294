-- ===== src/Sync/View/Tests.antt =====
-- Views of the comparison of two small trees.
use fcom.Prelude.{
  ℕ, ◌*◌, ◌/◌, ◌≡◌, ◌<◌, arith, subst, sym, refl, Bool, true, false, some, none, List, [], ◌∷◌,
  ◌==◌, length, Ordering,
}
use fcom.Prelude.Memory.{Bytes}
use fcom.Sync.{no_status, Files, Entry}
use fcom.Sync.Diff.{Ent, Pair, only_left, only_right, both, run, empty, next, u32}
use fcom.Sync.Invariant.{AllFound}
use fcom.Sync.View.{Shown, sync_view}
use fcom.Sync.View.Swap.{swap_sides, sync_view-swap_sides}
use fcom.Sync.View.Totals.{everything, no_filter, length-sync_view}

abbrev trees : Files
trees = record {
  Time = ℕ;
  time_cmp = λ a b. Ordering.eq;
  half_secs = λ t. t / 2;
  to_msec = λ t. t * 1000;
  name_icmp = λ a b. Ordering.eq;
}

abbrev file : ℕ → ℕ → Entry ℕ
file name size = record {
  name = name ∷ [];
  size = size;
  unix_attr = 0;
  is_dir = false;
  win_attr = 0;
  mtime = 0;
}

abbrev same_size : Ent trees → Entry ℕ → Bool
same_size c f = elim c.l [ some g ↦ g.size == f.size | none ↦ false ]

-- A moved file, a file on the left side, and a different one.
abbrev found : List (Pair trees)
found =
    only_left (file 1 30)
    ∷ only_left (file 2 4)
    ∷ only_right (file 5 30)
    ∷ both (file 3 8) (file 3 9) (record no_status { neq = true; smaller = true })
    ∷ []

found-AllFound : AllFound trees found
found-AllFound = (
  tt,
  (
    tt,
    (
      tt,
      (
        record {
          not_left = refl;
          not_right = refl;
          not_move = refl;
          not_eq = refl;
          not_skip = refl;
        },
        tt,
      ),
    ),
  ),
)

abbrev named : Entry ℕ → Bytes → Bool
named f [] = true
named f (b ∷ bs) = elim f.name [ [] ↦ false | x ∷ xs ↦ x == b ]

abbrev moved_or_right : Shown
moved_or_right = record {
  left = false;
  right = true;
  neq = false;
  move = true;
  eq = false;
  newer = false;
  older = false;
  dir = true;
  swap = true;
  finished = false;
}

sync_view-swap_sides_example :
    let ents = (run trees same_size (empty trees) found).ents in
    sync_view trees named (no_filter trees) moved_or_right ents
    ≡ sync_view trees named (no_filter trees) (swap_sides moved_or_right) ents
sync_view-swap_sides_example =
    sync_view-swap_sides trees same_size found named (no_filter trees) moved_or_right found-AllFound

-- The left file is shown as a right one.
view_swapped :
    sync_view trees named
      (no_filter trees)
      moved_or_right
      (run trees same_size (empty trees) found).ents
    ≡ 0 ∷ 1 ∷ []
unfolding sync_view run next
view_swapped = refl

one_below :
    1
    < length (
        sync_view trees named
          (no_filter trees)
          moved_or_right
          (run trees same_size (empty trees) found).ents)
one_below = subst (λ ks. 1 < length ks) (sym view_swapped) (omega arith)

length-sync_view_example :
    let d = run trees same_size (empty trees) found in
    u32 (length (sync_view trees named (no_filter trees) everything d.ents)) ≡ d.stats.entries
length-sync_view_example = length-sync_view trees same_size found named found-AllFound
