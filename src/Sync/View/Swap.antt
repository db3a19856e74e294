-- ===== src/Sync/View/Swap.antt =====
-- A view with FCOM_SYNC_SWAP against one without.
use fcom.Prelude.{ℕ, suc, ◌≡◌, refl, Bool, false, not, ◌&&◌, List, [], ◌∷◌, arith}
use fcom.Prelude.Memory.{Bytes}
use fcom.Sync.{Status, status_swap, Files, File}
use fcom.Sync.Diff.{Ent, Pair, run, empty}
use fcom.Sync.Counts.{AllOk}
use fcom.Sync.Invariant.{AllFound, run-Inv, empty-Inv}
use fcom.Sync.View.{
  Shown, Kind, is_left, is_right, is_neq, is_move, is_eq, is_other, kind_of, kind_shown,
  status_shown, Props, files_shown, view_from, sync_view,
}

abbrev pub swap_sides : Shown → Shown
swap_sides flags = record flags { left = flags.right; right = flags.left; swap = not flags.swap }

abbrev swap_kind : Kind → Kind
swap_kind is_left = is_right
swap_kind is_right = is_left
swap_kind is_neq = is_neq
swap_kind is_move = is_move
swap_kind is_eq = is_eq
swap_kind is_other = is_other

kind_of-status_swap :
    (st : Status)
    → (st.left && st.right) ≡ false
    → kind_of (status_swap st) ≡ swap_kind (kind_of st)
unfolding kind_of status_swap
kind_of-status_swap st e = ground arith

kind_shown_swap :
    (flags : Shown) (st : Status) (k : Kind)
    → kind_shown flags (status_swap st) (swap_kind k) ≡ kind_shown (swap_sides flags) st k
unfolding kind_shown status_swap
kind_shown_swap flags st is_left = refl
kind_shown_swap flags st is_right = refl
kind_shown_swap flags st is_neq = ground arith
kind_shown_swap flags st is_move = refl
kind_shown_swap flags st is_eq = refl
kind_shown_swap flags st is_other = refl

kind_shown_swapped :
    (flags : Shown) (st : Status) (k : Kind)
    → kind_shown (swap_sides flags) (status_swap st) (swap_kind k) ≡ kind_shown flags st k
unfolding kind_shown status_swap
kind_shown_swapped flags st is_left = refl
kind_shown_swapped flags st is_right = refl
kind_shown_swapped flags st is_neq = ground arith
kind_shown_swapped flags st is_move = refl
kind_shown_swapped flags st is_eq = refl
kind_shown_swapped flags st is_other = refl

status_shown_swap :
    (flags : Shown) (st : Status)
    → (st.left && st.right) ≡ false
    → status_shown flags st ≡ status_shown (swap_sides flags) st
unfolding status_shown
status_shown_swap flags st e = ground (
  arith,
  kind_of-status_swap st e,
  kind_shown_swap flags st (kind_of st),
  kind_shown_swapped flags st (kind_of st),
)

module _ (files : Files) where
  view_from_swap :
      (has : File files → Bytes → Bool) (props : Props files) (flags : Shown) (k : ℕ)
      (cs : List (Ent files))
      → AllOk files cs
      → view_from files
          (λ c. status_shown flags c.status && files_shown files has props flags c)
          k
          cs
        ≡ view_from files
            (λ c.
              status_shown (swap_sides flags) c.status
              && files_shown files has props (swap_sides flags) c)
            k
            cs
  unfolding view_from files_shown
  view_from_swap has props flags k [] h = refl
  view_from_swap has props flags k (c ∷ cs) h = ground (
    arith,
    status_shown_swap flags c.status h.0.one_side,
    view_from_swap has props flags (suc k) cs h.1,
  )

  -- To view a comparison with its sides swapped shows the entries that it shows without, for the
  -- flags with FCOM_SYNC_LEFT and FCOM_SYNC_RIGHT exchanged, whatever the other filters are.
  pub sync_view-swap_sides :
      (fits : Ent files → File files → Bool) (qs : List (Pair files))
      (has : File files → Bytes → Bool) (props : Props files) (flags : Shown)
      → AllFound files qs
      → let ents = (run files fits (empty files) qs).ents in
        sync_view files has props flags ents ≡ sync_view files has props (swap_sides flags) ents
  unfolding sync_view
  sync_view-swap_sides fits qs has props flags k =
      let h = run-Inv files fits (empty files) qs (empty-Inv files) k in
      view_from_swap has props flags 0 _ h.all_ok
