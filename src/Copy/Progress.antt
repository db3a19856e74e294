-- ===== src/Copy/Progress.antt =====
-- How far the copy of a file has come.
use fcom.Prelude.{ℕ, ◌≤◌, ◌≡◌, ◌⊎◌, true, false, Option, none, some}
use fcom.Prelude.Memory.{Bytes, slice}
use fcom.Services.{Services, ReadsWrites, Hashes, Handle, input, output, failed, succeeds}
use fcom.Copy.{Copy}

-- What decides on the removal of the output is the same.
pub record Kept (s : Services) (c0 c : Copy s) : Type 0 where
  pub del_on_close : c.del_on_close ≡ c0.del_on_close
  pub o_name : c.o_name ≡ c0.o_name
  pub o_name_tmp : c.o_name_tmp ≡ c0.o_name_tmp
  pub o_state : c.o_state ≡ c0.o_state

-- A hash that is there at first has been fed with the data.
abbrev pub Fed : (s : Services) → Hashes s → Option s.Hash → Option s.Hash → Bytes → Type 0
Fed s g none none d = Unit
Fed s g none (some h) d = ⊥
Fed s g (some h0) none d = ⊥
Fed s g (some h0) (some h) d = g.fed h ≡ d

-- So many bytes of the source, as it was at first, are in the output.
pub record Copied (s : Services) (l : ReadsWrites s) (g : Hashes s) (c0 : Copy s) (w0 : s.State)
    (c : Copy s) (w : s.State) : Type 0 where
  pub in_le : c.in_off ≤ l.size w0 input
  pub o_off : c.o_off ≡ c.in_off
  pub o_total : c.o_total ≡ c.in_off
  pub source : l.content w input ≡ l.content w0 input
  pub source_size : l.size w input ≡ l.size w0 input
  pub written : slice (l.content w output) 0 c.in_off ≡ slice (l.content w0 input) 0 c.in_off
  pub plain : c.aes_obj ≡ none
  pub is_fed : Fed s g c0.md5_obj c.md5_obj (slice (l.content w0 input) 0 c.in_off)
  pub kept : Kept s c0 c

-- There is a state with a signal, or one where a read or a write fails.
abbrev pub Cause : Services → Type 0
Cause s =
    ((w : s.State) × (s.is_stopped w ≡ true))
    ⊎ ((w : s.State) × (h : Handle) × (off : ℕ) × ((s.read w h off).1 ≡ failed))
    ⊎ ((w : s.State) × (d : Bytes) × (off : ℕ) × (succeeds (s.write w output d off).1 ≡ false))
