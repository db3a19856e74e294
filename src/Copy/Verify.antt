-- ===== src/Copy/Verify.antt =====
-- The check of what was written, src/fs/copy-verify.h.
use fcom.Prelude.{
  Bool, true, false, not, ◌&&◌, ◌||◌, Option, none, some, [], ◌∷◌, ◌==◌, if◌then◌else◌,
}
use fcom.Prelude.Memory.{Bytes}
use fcom.Services.{Services}
use fcom.Copy.{Copy, Settings}

-- `ffmem_cmp` of two digests, both of 16 bytes, gives 0.
unfoldable pub same_digest : Bytes → Bytes → Bool
same_digest [] [] = true
same_digest [] (y ∷ ys) = false
same_digest (x ∷ xs) [] = false
same_digest (x ∷ xs) (y ∷ ys) = x == y && same_digest xs ys

-- `verify_init`: whether the settings fit, apart from the module that it asks for.
abbrev pub verify_init : Settings → Bool
verify_init a = not (a.verify && a.stdout)

module _ (s : Services) where
  open s use {State, md5_create, md5_update, md5_fin}

  -- `verify_open`
  abbrev pub verify_open : Settings → Copy s → Copy s
  verify_open a c = if a.verify || a.print_md5 then record c { md5_obj = some md5_create } else c

  -- `verify_reset`
  abbrev pub verify_reset : Copy s → Copy s
  verify_reset c = record c { md5_obj = none }

  abbrev pub updated : Option s.Hash → Bytes → Option s.Hash
  updated none d = none
  updated (some h) d = some (md5_update h d)

  -- `verify_process`
  abbrev pub verify_process : Copy s → Bytes → Copy s
  verify_process c d = record c { md5_obj = updated c.md5_obj d }

  -- `verify_read_fin`, of the object: whether the output is to be read back.
  abbrev pub read_fin : Settings → Copy s → Option s.Hash → Copy s × Bool
  read_fin a c none = (c, false)
  read_fin a c (some h) =
      if a.verify
      then (record c { md5_result_r = md5_fin h; md5_obj = some md5_create; o_off = 0 }, true)
      else (record c { md5_result_r = md5_fin h; md5_obj = none }, false)

  -- `verify_read_fin`
  abbrev pub verify_read_fin : Settings → Copy s → Copy s × Bool
  verify_read_fin a c = read_fin a c c.md5_obj

  -- `verify_result`: whether the digests are the same; it is called with an open object.
  abbrev pub verify_result : Bytes → Option s.Hash → Bool
  verify_result r none = false
  verify_result r (some h) = same_digest r (md5_fin h)
