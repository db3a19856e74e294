-- ===== src/Copy/Crypt.antt =====
-- Encryption and decryption of the data on the way, src/fs/copy-crypt.h.
use fcom.Prelude.{
  ℕ, ◌+◌, ◌*◌, Bool, true, false, not, ◌&&◌, ◌||◌, Option, none, some, ◌++◌, ltb, if◌then◌else◌,
  take, drop,
}
use fcom.Prelude.Memory.{Bytes}
use fcom.Services.{Services}
use fcom.Copy.{Copy, Settings, is_empty}

-- The data that one call takes, `aes_buf.cap`
abbrev pub aes_cap : ℕ
aes_cap = 64 * 1024

-- `crypt_init`: whether the settings fit, apart from the modules that it asks for.
abbrev pub crypt_init : Settings → Bool
crypt_init a = is_empty a.encrypt || is_empty a.decrypt

module _ (s : Services) where
  open s use {State, sha256, random, aes_create, aes_process}

  -- `iv_get`
  abbrev pub iv_get : State → State × Bytes
  iv_get w =
      let (w0, a) = random w in
      let (w1, b) = random w0 in
      let (w2, c) = random w1 in let (w3, d) = random w2 in (w3, a ++ (b ++ (c ++ d)))

  -- The end of `crypt_open`, with the key from the password.
  abbrev pub with_cipher : Copy s → State → Bytes → State × Copy s × Bool
  with_cipher c w pw = elim (aes_create (sha256 pw)) [
    | none ↦ (w, c, false)
    | some k ↦ (w, record c { aes_obj = some k }, true)
  ]

  -- `crypt_open`: false is an error.
  unfoldable pub crypt_open : Settings → Copy s → State → State × Copy s × Bool
  crypt_open a c w =
      if is_empty a.encrypt && is_empty a.decrypt
      then (w, c, true)
      else if not (is_empty a.encrypt)
      then (let (w', iv) = iv_get w in
          with_cipher (record c { aes_iv_out = true; aes_iv = iv }) w' a.encrypt)
      else if ltb c.fi.size (16 + 1)
      then (w, record c { aes_iv_in = true }, false)
      else with_cipher (record c { aes_iv_in = true }) w a.decrypt

  -- `crypt_reset`
  abbrev pub crypt_reset : Copy s → Copy s
  crypt_reset c = record c { aes_obj = none }

  -- The end of `crypt_process`, of an object that is open; `none` is an error.
  abbrev pub process_part : Copy s → s.Cipher → Option (Copy s)
  process_part c k = elim (aes_process k (take aes_cap c.aes_in) c.aes_iv) [
    | none ↦ none
    | some (k', out, iv) ↦ some (record c {
      aes_obj = some k';
      aes_iv = iv;
      aes_in = drop aes_cap c.aes_in;
      data_buf = out;
    })
  ]

  -- `crypt_process`, on `cr.aes_in` to `data`.
  unfoldable pub crypt_process : Copy s → s.Cipher → Option (Copy s)
  crypt_process c k =
      if c.aes_iv_out
      then some (record c { aes_iv_out = false; data_buf = c.aes_iv })
      else if c.aes_iv_in
      then process_part
          (record c { aes_iv_in = false; aes_iv = take 16 c.aes_in; aes_in = drop 16 c.aes_in }) k
      else process_part c k
