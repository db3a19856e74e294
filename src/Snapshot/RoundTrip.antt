-- ===== src/Snapshot/RoundTrip.antt =====
-- What is written of the entries of a snapshot is read back.
use fcom.Prelude.{
  ℕ, ◌%◌, ◌^◌, ◌<◌, ◌≡◌, refl, ◌∙◌, ap, Option, none, some, List, [], ◌∷◌, ◌++◌, map,
}
use fcom.Prelude.Memory.{Bytes}
use fcom.Snapshot.{SyncEntry, Ent, Time, DateTime, Formats, values, all_values}
use fcom.Snapshot.Read.{
  Reader, Named, rsnap_file, read_values, read_size, read_attr, read_owner, read_time, read_date,
  read_crc,
}
use fcom.Snapshot.Write.{no_entry}

-- The times of the years 1 to 9999, counted from the first, as `fftime_split1` takes them.
pub record IsTime (t : Time) : Type 0 where
  pub year : t.sec < 315537897600
  pub part : t.nsec < 1000000000

-- What ffbase documents: what its printers print its readers read, in the range of their types; a
-- date is read up to what follows it, and a time has milliseconds.
pub record Reads (o : Formats) : Type 0 where
  pub uint64 : (n : ℕ) → n < 2 ^ 64 → o.to_uint64 (o.dec n) ≡ some n
  pub uint32 : (n : ℕ) → n < 2 ^ 32 → o.to_uint32 (o.dec n) ≡ some n
  pub hexes :
      (a b : ℕ) → a < 2 ^ 32 → b < 2 ^ 32 → o.match_hex (o.hex a ++ (b'/' ∷ o.hex b)) ≡ some (a, b)
  pub decs :
      (a b : ℕ) → a < 2 ^ 32 → b < 2 ^ 32 → o.match_dec (o.dec a ++ (b':' ∷ o.dec b)) ≡ some (a, b)
  pub dates :
      (t : Time) (s : Bytes)
      → IsTime t
      → (v : DateTime o.Date) × (o.date_from (o.date_str (o.split t) ++ (b'+' ∷ s))
          ≡ some (v, b'+' ∷ s))
        × (v.date ≡ (o.split t).date)
  pub times :
      (t : Time)
      → IsTime t
      → t.nsec % 1000000 ≡ 0
      → (v : DateTime o.Date) × (o.time_from (o.time_str (o.split t)) ≡ some v)
        × (v.hour ≡ (o.split t).hour)
        × (v.minute ≡ (o.split t).minute)
        × (v.second ≡ (o.split t).second)
        × (v.nanosecond ≡ (o.split t).nanosecond)
  pub join-split : (t : Time) → IsTime t → o.join (o.split t) ≡ t

-- The numbers are in their types, and the time is in milliseconds, as the scan leaves it, and of the
-- years 1 to 9999.
pub record IsStorable (d : SyncEntry) : Type 0 where
  pub size : d.size < 2 ^ 64
  pub unix_attr : d.unix_attr < 2 ^ 32
  pub win_attr : d.win_attr < 2 ^ 32
  pub uid : d.uid < 2 ^ 32
  pub gid : d.gid < 2 ^ 32
  pub crc32 : d.crc32 < 2 ^ 32
  pub msec : d.mtime.nsec % 1000000 ≡ 0
  pub time : IsTime d.mtime

pub data AllStorable : List Ent → Type 0 where
  nil : AllStorable []
  cons : {e : Ent} {es : List Ent} → IsStorable e.d → AllStorable es → AllStorable (e ∷ es)

abbrev pub named : Ent → Named
named e = record { name = e.name; d = e.d }

-- The reader at the start, of a zeroed `struct rsnap`.
abbrev pub fresh : Reader
fresh = record { state = 0; ent = record { name = []; d = no_entry }; added = [] }

-- The last first.
abbrev pub reverse_onto : List Named → List Named → List Named
reverse_onto [] ys = ys
reverse_onto (x ∷ xs) ys = reverse_onto xs (x ∷ ys)

module _ (o : Formats) (l : Reads o) where
  abbrev then_read : List Bytes → Option Reader → Option Reader
  then_read vs none = none
  then_read vs (some r) = read_values o vs r

  read_step :
      (v : Bytes) (vs : List Bytes) (r : Reader)
      → read_values o (v ∷ vs) r ≡ then_read vs (rsnap_file o r v)
  unfolding read_values
  read_step v vs r = refl

  after_value :
      (v : Bytes) (vs : List Bytes) (r r' : Reader)
      → rsnap_file o r v ≡ some r'
      → read_values o (v ∷ vs) r ≡ read_values o vs r'
  after_value v vs r r' e = read_step v vs r ∙ ap (then_read vs) e

  -- The values of the time.
  read_time_lem :
      (r : Reader) (t : Time)
      → IsTime t
      → t.nsec % 1000000 ≡ 0
      → let dt = o.split t in
        read_date o r (o.date_from (o.date_str dt ++ (b'+' ∷ o.time_str dt)))
        ≡ read_time o r dt (some dt)
  read_time_lem r t y k =
      let dt = o.split t in
      let (u, date, same) = l.dates t (o.time_str dt) y in
      let (v, time, hour, minute, second, ns) = l.times t y k in
      ap (read_date o r) date
      ∙ ap (read_time o r u) time
      ∙ ap (λ d. read_time o r (record dt { date = d }) (some v)) same
      ∙ ap (λ h. read_time o r dt (some (record v { hour = h }))) hour
      ∙ ap (λ h. read_time o r dt (some (record v { hour = dt.hour; minute = h }))) minute
      ∙ ap
          (λ h.
            read_time o r dt (some (record v { hour = dt.hour; minute = dt.minute; second = h })))
          second
      ∙ ap (λ h. read_time o r dt (some (record dt { date = v.date; nanosecond = h }))) ns

  abbrev reading : Ent → List Named → ℕ → SyncEntry → Reader
  reading e added state d = record {
    state = state;
    ent = record { name = e.name; d = d };
    added = added;
  }

  -- The values of an entry add it.
  read_entry :
      (e : Ent) (vs : List Bytes) (n : Named) (added : List Named)
      → IsStorable e.d
      → read_values o (values o e ++ vs) (record { state = 0; ent = n; added = added })
        ≡ read_values o vs
            (record { state = 0; ent = record { name = []; d = e.d }; added = named e ∷ added })
  unfolding rsnap_file
  read_entry e vs n added k =
      let d = e.d in
      let at = reading e added in
      let d1 : SyncEntry = record n.d { size = d.size } in
      let d2 : SyncEntry = record d1 { unix_attr = d.unix_attr; win_attr = d.win_attr } in
      let d3 : SyncEntry = record d2 { uid = d.uid; gid = d.gid } in
      let d4 : SyncEntry = record d3 { mtime = d.mtime } in
      let date = ap (λ t. some (at 7 (record d3 { mtime = t }))) (l.join-split d.mtime k.time) in
      after_value _ _ _ (at 1 n.d) refl
      ∙ after_value _ _ _ (at 2 d1) (ap (read_size o (at 1 n.d)) (l.uint64 d.size k.size))
      ∙ after_value _ _ _ (at 4 d2)
          (ap (read_attr o (at 2 d1)) (l.hexes d.unix_attr d.win_attr k.unix_attr k.win_attr))
      ∙ after_value _ _ _ (at 6 d3) (ap (read_owner o (at 4 d2)) (l.decs d.uid d.gid k.uid k.gid))
      ∙ after_value _ _ _ (at 7 d4) (read_time_lem (at 6 d3) d.mtime k.time k.msec ∙ date)
      ∙ after_value _ _ _ _ (ap (read_crc o (at 7 d4)) (l.uint32 d.crc32 k.crc32))

  read_entries :
      (es : List Ent) (n : Named) (added : List Named)
      → AllStorable es
      → (n' : Named) × (read_values o
            (all_values o es)
            (record { state = 0; ent = n; added = added })
          ≡ some (record { state = 0; ent = n'; added = reverse_onto (map named es) added }))
  unfolding all_values read_values
  read_entries [] n added nil = (n, refl)
  read_entries (e ∷ es) n added (cons k ks) =
      let (n', q) = read_entries es (record { name = []; d = e.d }) (named e ∷ added) ks in
      (n', read_entry e (all_values o es) n added k ∙ q)

  -- The values that the writer prints of entries, one after another, are read by rsnap_file
  -- without an error: they add these entries, names and data, in their order, and leave the
  -- reader at the start of an entry. The numbers are in their types, and times are in
  -- milliseconds and of the years 1 to 9999.
  pub read_values-all_values :
      (es : List Ent)
      → AllStorable es
      → (r : Reader) × (read_values o (all_values o es) fresh ≡ some r)
        × (r.state ≡ 0)
        × (r.added ≡ reverse_onto (map named es) [])
  read_values-all_values es k = let (n, q) = read_entries es (fresh.ent) [] k in (_, q, refl, refl)
