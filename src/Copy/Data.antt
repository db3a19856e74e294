-- ===== src/Copy/Data.antt =====
-- The copy of a file's data: the rounds of I_READ and I_WRITE, without encryption.
use fcom.Prelude.{◌^◌, ◌<◌, ◌≡◌, false}
use fcom.Prelude.Memory.{Memory}
use fcom.Services.{Services, ReadsWrites, Hashes, input}
use fcom.Copy.{Copy, Settings, i_rd_done}
use fcom.Copy.Run.{Round, goes, waits, ends}
use fcom.Copy.Progress.{Cause, Kept, Copied}

module _ (s : Services) (a : Settings) (l : ReadsWrites s) (g : Hashes s) (c0 : Copy s)
    (w0 : s.State) (fits : l.size w0 input < 2 ^ 64) where
  -- All is copied and the end of the source is seen, or the run fails.
  abbrev pub AllCopied : Round s → Type 0
  AllCopied (goes w c) = (c.st ≡ i_rd_done) × (c.in_off ≡ l.size w0 input) × Copied s l g c0 w0 c w
  AllCopied (waits w c) = ⊥
  AllCopied (ends w c k) = (k ≡ false) × Kept s c0 c × Cause s
