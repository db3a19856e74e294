-- ===== src/Copy/Whole.antt =====
-- The copy of a file with `--verify`, from its first read to the name of the output.
use fcom.Prelude.{◌^◌, ◌<◌, ◌≡◌, ◌⊎◌, ◌≢◌, false, some, if◌then◌else◌}
use fcom.Prelude.Memory.{slice}
use fcom.Services.{Services, Handle, ReadsWrites, Hashes, input, output, trunc_prealloc}
use fcom.Copy.{Copy, Settings, i_verify, i_done}
use fcom.Copy.Run.{Round, goes, waits, ends}
use fcom.Copy.Progress.{Cause, Kept}
use fcom.Copy.Data.{AllCopied}

module _ (s : Services) (a : Settings) (l : ReadsWrites s) (g : Hashes s) (c0 : Copy s)
    (w0 : s.State) (fits : (w : s.State) (h : Handle) → l.size w h < 2 ^ 64) where
  -- The digest of what is in the output is that of the source, or the run fails.
  abbrev pub AllVerified : Round s → Type 0
  AllVerified (goes w c) =
      (c.st ≡ i_done)
      × (g.digest (slice (l.content w0 input) 0 (l.size w0 input))
          ≡ g.digest (slice (l.content w output) 0 (l.size w output)))
      × Kept s c0 c
  AllVerified (waits w c) = ⊥
  AllVerified (ends w c k) =
      (k ≡ false)
      × Kept s c0 c
      × (Cause s
          ⊎ (g.digest (slice (l.content w0 input) 0 (l.size w0 input))
              ≢ g.digest (slice (l.content w output) 0 (l.size w output))))

  -- The operation after I_RD_DONE.
  abbrev rewound : Copy s → s.Hash → Copy s
  rewound c h = record c {
    st = i_verify;
    md5_result_r = s.md5_fin h;
    md5_obj = some s.md5_create;
    o_off = 0;
  }

  abbrev settled : Copy s → s.State → s.State
  settled c w =
      let w1 = s.behaviour w output trunc_prealloc in
      if a.preserve_date then s.mtime_set w1 output c.fi.mtime else w1

  abbrev DataCopied : Round s → Type 0
  DataCopied = AllCopied s a l g c0 w0 (fits w0 input)
