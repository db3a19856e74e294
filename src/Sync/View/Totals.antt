-- ===== src/Sync/View/Totals.antt =====
-- A view of all the entries against the statistics.
use fcom.Prelude.{
  ℕ, suc, ◌≡◌, refl, Bool, true, false, not, ◌&&◌, none, List, [], ◌∷◌, arith, length, Bool-cases,
  inl, inr,
}
use fcom.Prelude.Memory.{Bytes}
use fcom.Sync.{Status, Files, File}
use fcom.Sync.Diff.{Ent, Pair, run, empty, u32}
use fcom.Sync.Counts.{count}
use fcom.Sync.Invariant.{AllFound, run-Counts}
use fcom.Sync.View.{
  Shown, Kind, kind_of, kind_shown, is_left, is_right, is_neq, is_move, is_eq, is_other,
  status_shown, Props, files_shown, view_from, sync_view,
}

abbrev pub everything : Shown
everything = record {
  left = true;
  right = true;
  neq = true;
  move = true;
  eq = true;
  newer = true;
  older = true;
  dir = true;
  swap = false;
  finished = true;
}

kind_shown-everything : (st : Status) (k : Kind) → kind_shown everything st k ≡ true
unfolding kind_shown
kind_shown-everything st is_left = refl
kind_shown-everything st is_right = refl
kind_shown-everything st is_neq = refl
kind_shown-everything st is_move = refl
kind_shown-everything st is_eq = refl
kind_shown-everything st is_other = refl

status_shown-everything : (st : Status) → status_shown everything st ≡ not st.skip
unfolding status_shown
status_shown-everything st = ground (arith, kind_shown-everything st (kind_of st))

module _ (files : Files) where
  abbrev pub no_filter : Props files
  no_filter = record { includes = []; excludes = []; since = none; include_both = false }

  length-view_from :
      (has : File files → Bytes → Bool) (k : ℕ) (cs : List (Ent files))
      → length (
          view_from files
            (λ c. status_shown everything c.status && files_shown files has no_filter everything c)
            k
            cs)
        ≡ count files (λ st. not st.skip) cs
  unfolding view_from files_shown count
  length-view_from has k [] = refl
  length-view_from has k (c ∷ cs) = elim (Bool-cases c.status.skip) [
    | inl e ↦ ground (arith, status_shown-everything c.status, length-view_from has (suc k) cs)
    | inr e ↦ ground (arith, status_shown-everything c.status, length-view_from has (suc k) cs)
  ]

  -- After a whole comparison a view with all flags but FCOM_SYNC_SWAP and without filters shows as
  -- many entries, as a 32-bit word, as the statistics say.
  pub length-sync_view :
      (fits : Ent files → File files → Bool) (qs : List (Pair files))
      (has : File files → Bytes → Bool)
      → AllFound files qs
      → let d = run files fits (empty files) qs in
        u32 (length (sync_view files has no_filter everything d.ents)) ≡ d.stats.entries
  unfolding sync_view
  length-sync_view fits qs has k =
      let d = run files fits (empty files) qs in
      omega (arith, length-view_from has 0 d.ents, (run-Counts files fits qs k).entries)
