-- ===== src/Snapshot.antt =====
-- The snapshot of a file tree, the `sync --snapshot` of src/fs: what is known of a file
-- (src/fcom.h, src/fs/sync-scan.h), and the text of an entry (src/fs/sync-wsnap.h).
pub mod Write
pub mod Read
pub mod RoundTrip
pub mod Emission
pub mod Branches
pub mod Text
pub mod Failures
mod Tests
use Prim.Native.Char.{code}
use Prim.Native.String.{String}
use fcom.Prelude.{ℕ, ◌+◌, Bool, true, false, Option, none, some, List, [], ◌∷◌, ◌++◌}
use fcom.Prelude.Memory.{Bytes}

-- A string literal.
abbrev pub codes : String → Bytes
codes String.[] = []
codes (String.◌∷◌ c s) = code c ∷ codes s

-- `fftime`
pub record Time : Type 0 where
  pub sec : ℕ
  pub nsec : ℕ

-- `struct fcom_sync_entry`
pub record SyncEntry : Type 0 where
  pub size : ℕ
  pub unix_attr : ℕ
  pub win_attr : ℕ
  pub uid : ℕ
  pub gid : ℕ
  pub mtime : Time
  pub crc32 : ℕ

-- `struct ent`: a file or a directory.
pub record Ent : Type 0 where
  pub type : ℕ  -- 'f' or 'd'
  pub name : Bytes
  pub d : SyncEntry

-- `ffdatetime`, the fields of its date in one.
pub record DateTime (Date : Type 0) : Type 0 where
  pub date : Date
  pub hour : ℕ
  pub minute : ℕ
  pub second : ℕ
  pub nanosecond : ℕ

-- What the program takes from ffbase: numbers and times, printed and read. Of a date, what follows
-- it is returned too.
pub record Formats : Type 1 where
  pub Date : Type 0
  pub dec : ℕ → Bytes  -- %u, %U
  pub hex : ℕ → Bytes  -- %xu
  pub split : Time → DateTime Date  -- fftime_split1
  pub join : DateTime Date → Time  -- fftime_join1
  pub date_str : DateTime Date → Bytes  -- fftime_tostr1, FFTIME_DATE_YMD
  pub time_str : DateTime Date → Bytes  -- fftime_tostr1, FFTIME_HMS_MSEC
  pub to_uint64 : Bytes → Option ℕ
  pub to_uint32 : Bytes → Option ℕ
  pub match_hex : Bytes → Option (ℕ × ℕ)  -- ffstr_matchfmt, "%xu/%xu"
  pub match_dec : Bytes → Option (ℕ × ℕ)  -- ffstr_matchfmt, "%u:%u"
  pub date_from : Bytes → Option (DateTime Date × Bytes)  -- fftime_fromstr1, FFTIME_DATE_YMD
  pub time_from : Bytes → Option (DateTime Date)  -- fftime_fromstr1, FFTIME_HMS_MSEC

module _ (o : Formats) where
  open o use {dec, hex, split, date_str, time_str}

  -- The values of an entry, in the order of its line.
  abbrev pub values : Ent → List Bytes
  values e =
      let d = e.d in
      let dt = split d.mtime in
      e.name
      ∷ dec d.size
      ∷ (hex d.unix_attr ++ (b'/' ∷ hex d.win_attr))
      ∷ (dec d.uid ++ (b':' ∷ dec d.gid))
      ∷ (date_str dt ++ (b'+' ∷ time_str dt))
      ∷ dec d.crc32
      ∷ []

  -- The values of entries, one after another.
  unfoldable pub all_values : List Ent → List Bytes
  all_values [] = []
  all_values (e ∷ es) = values e ++ all_values es

  abbrev tabbed : List Bytes → Bytes
  tabbed [] = codes "\r\n"
  tabbed (v ∷ vs) = codes "\t" ++ v ++ tabbed vs

  abbrev line : ℕ → List Bytes → Bytes
  line t [] = []
  line t (name ∷ vs) = codes "\t" ++ (t ∷ codes " \"") ++ name ++ codes "\"" ++ tabbed vs

  -- `wsnap_ent_serialize`
  unfoldable pub wsnap_ent_serialize : Ent → Bytes
  wsnap_ent_serialize e = line e.type (values e)

-- `wsnap_hdr`
abbrev pub wsnap_hdr : Bytes
wsnap_hdr = codes "# fcom file tree snapshot\r\n\r\n"

-- `wsnap_bhdr`
abbrev pub wsnap_bhdr : Bytes → Bytes
wsnap_bhdr dirname = codes "b \"" ++ dirname ++ codes "\" {\r\n\tv 1\r\n"

-- `wsnap_bftr`
abbrev pub wsnap_bftr : Bytes
wsnap_bftr = codes "}\r\n\r\n"
