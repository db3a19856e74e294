-- ===== src/Sync/View/Info.antt =====
-- What `sync_info` finds of the entries that `sync_view` left.
use fcom.Prelude.{
  ℕ, zero, suc, ◌+◌, ◌<◌, ◌≡◌, inl, inr, Bool, Option, some, List, [], ◌∷◌, arith, length,
  get_elem?, get_elem?-cases, Bool-cases, if◌then◌else◌,
}
use fcom.Prelude.Memory.{Bytes}
use fcom.Sync.{Status, status_swap, Files, File}
use fcom.Sync.Diff.{Ent}
use fcom.Sync.View.{Shown, Props, view_from, sync_view, sync_info}

module _ (files : Files) where
  view_from-lt :
      (shown : Ent files → Bool) (k : ℕ) (cs : List (Ent files)) (j : ℕ) {i : ℕ}
      → get_elem? (view_from files shown k cs) j ≡ some i
      → i < k + length cs
  unfolding view_from
  view_from-lt shown k [] j e = cc
  view_from-lt shown k (c ∷ cs) zero {i} e = elim (Bool-cases (shown c)) [
    | inl t ↦ ground arith
    | inr t ↦ omega (arith, view_from-lt shown (suc k) cs zero {i = i} (ground arith))
  ]
  view_from-lt shown k (c ∷ cs) (suc j) {i} e = elim (Bool-cases (shown c)) [
    | inl t ↦ omega (arith, view_from-lt shown (suc k) cs j {i = i} (ground arith))
    | inr t ↦ omega (arith, view_from-lt shown (suc k) cs (suc j) {i = i} (ground arith))
  ]

  info_lem :
      (ents : List (Ent files)) (filter : List ℕ) (j k : ℕ) (c : Ent files) (swap : Bool)
      → get_elem? filter j ≡ some k
      → get_elem? ents k ≡ some c
      → sync_info files ents filter j swap
        ≡ some (if swap then (status_swap c.status, c.r, c.l) else (c.status, c.l, c.r))
  unfolding sync_info
  info_lem ents filter j k c swap e e' = ground (arith, e, e')

  -- For each place below the number that `sync_view` returns, `sync_info` finds an entry: the
  -- view leaves no number past the entries.
  sync_info-sync_view :
      (has : File files → Bytes → Bool) (props : Props files) (flags : Shown)
      (ents : List (Ent files)) (j : ℕ) (swap : Bool)
      → let filter = sync_view files has props flags ents in
        j < length filter
        → (x : Status × Option (File files) × Option (File files)) × (sync_info files ents filter j
              swap
            ≡ some x)
  unfolding sync_view
  sync_info-sync_view has props flags ents j swap lt =
      let filter = sync_view files has props flags ents in
      elim (get_elem?-cases filter j) [
        | inl (le, e) ↦ absurd (omega arith)
        | inr (lt', k, e) ↦ elim (get_elem?-cases ents k) [
          | inl (le', e') ↦ absurd (omega (arith, view_from-lt _ 0 ents j {i = k} e))
          | inr (lt'', c, e') ↦ (_, info_lem ents filter j k c swap e e')
        ]
      ]
