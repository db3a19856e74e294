-- ===== src/Sync/Symmetry.antt =====
-- The comparison seen from the other side.
use fcom.Prelude.{ap, ◌∙◌, ◌≡◌, false, ◌&&◌, Ordering, arith}
use fcom.Sync.{
  no_status, cmp_size, cmp_attr, cmp_time, Status, status_swap, Files, Entry, Options, Cmp,
  only_left, only_right, both, data_cmp,
}

-- No two bits of a pair that `status_swap` swaps.
pub record OneSided (st : Status) : Type 0 where
  pub sides : (st.left && st.right) ≡ false
  pub times : (st.newer && st.older) ≡ false
  pub sizes : (st.larger && st.smaller) ≡ false

-- To swap the sides of a status twice changes nothing, where it names no two opposite ones.
status_swap-status_swap : (st : Status) → OneSided st → status_swap (status_swap st) ≡ st
unfolding status_swap
status_swap-status_swap st h = ground arith

abbrev pub flip : Ordering → Ordering
flip Ordering.lt = Ordering.gt
flip Ordering.gt = Ordering.lt
flip Ordering.eq = Ordering.eq

-- What the comparisons of names and of times are documented to do when their sides are swapped.
pub record Antisymmetric (files : Files) : Type 0 where
  pub names : (a b : _) → files.name_icmp b a ≡ flip (files.name_icmp a b)
  pub times : (a b : files.Time) → files.time_cmp b a ≡ flip (files.time_cmp a b)

abbrev pub swap_cmp : Cmp → Cmp
swap_cmp only_left = only_right
swap_cmp only_right = only_left
swap_cmp (both st) = both (status_swap st)

module _ (files : Files) (anti : Antisymmetric files) (o : Options) where
  cmp_size-status_swap :
      (l r : Entry files.Time)
      → cmp_size files r l no_status ≡ status_swap (cmp_size files l r no_status)
  unfolding cmp_size status_swap
  cmp_size-status_swap l r = ground arith

  cmp_attr-status_swap :
      (l r : Entry files.Time) (k : Status)
      → cmp_attr files o r l (status_swap k) ≡ status_swap (cmp_attr files o l r k)
  unfolding cmp_attr status_swap
  cmp_attr-status_swap l r k = ground arith

  cmp_time-status_swap :
      (l r : Entry files.Time) (k : Status)
      → k.newer ≡ false
      → k.older ≡ false
      → cmp_time files o r l (status_swap k) ≡ status_swap (cmp_time files o l r k)
  unfolding cmp_time status_swap
  cmp_time-status_swap l r k e e' = ground (arith, anti.times l.mtime r.mtime)

  no_times :
      (l r : Entry files.Time)
      → let k = cmp_attr files o l r (cmp_size files l r no_status) in
        (k.newer ≡ false) × (k.older ≡ false)
  unfolding cmp_attr cmp_size
  no_times l r = ground arith

  bits_swap :
      (l r : Entry files.Time)
      → cmp_time files o r l (cmp_attr files o r l (cmp_size files r l no_status))
        ≡ status_swap (cmp_time files o l r (cmp_attr files o l r (cmp_size files l r no_status)))
  bits_swap l r =
      let k = cmp_attr files o l r (cmp_size files l r no_status) in
      let q =
        ap (cmp_attr files o r l) (cmp_size-status_swap l r)
        ∙ cmp_attr-status_swap l r (cmp_size files l r no_status) in
      ap (cmp_time files o r l) q ∙ cmp_time-status_swap l r k (no_times l r).0 (no_times l r).1

  -- Where the comparisons of names and of times are antisymmetric, comparing right to left says
  -- what comparing left to right says, its sides swapped, whatever the options are.
  pub data_cmp_swap :
      (l r : Entry files.Time) → data_cmp files o r l ≡ swap_cmp (data_cmp files o l r)
  unfolding data_cmp
  data_cmp_swap l r = ground (arith, anti.names l.name r.name, bits_swap l r)

  -- The result of a comparison never names two opposite sides.
  pub data_cmp-OneSided :
      (l r : Entry files.Time) {st : Status} → data_cmp files o l r ≡ both st → OneSided st
  unfolding data_cmp
  data_cmp-OneSided l r e = ground arith
