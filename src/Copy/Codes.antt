-- ===== src/Copy/Codes.antt =====
-- The exit code of the operation.
use fcom.Prelude.{◌<◌, ◌≡◌, true, false, none}
use fcom.Services.{Services}
use fcom.Copy.{Copy, Settings}
use fcom.Copy.Run.{Round, goes, waits, ends, copy_close}

module _ (s : Services) (a : Settings) where
  -- A round ends well only where the input has no more names, and had one.
  abbrev Honest : s.State → Round s → Type 0
  Honest w (goes w1 c1) = Unit
  Honest w (waits w1 c1) = Unit
  Honest w (ends w1 c1 true) =
      ((s.input_next w).1 ≡ none) × ((s.input_next w).0 ≡ w1) × (0 < c1.nfiles)
  Honest w (ends w1 c1 false) = Unit

  -- Where the operation ended well.
  pub record EndedWell (w' : s.State) : Type 0 where
    pub state : s.State
    pub copy : Copy s
    pub no_names : (s.input_next state).1 ≡ none
    pub had_names : 0 < copy.nfiles
    pub is_closed : w' ≡ copy_close s a copy (s.input_next state).0
