-- ===== src/Snapshot/Read.antt =====
-- Reading the values of a snapshot's entries, `rsnap_file` of src/fs/sync-rsnap.h, which the
-- reader of configurations calls with one value after another.
use fcom.Prelude.{ℕ, ◌+◌, Option, none, some, List, [], ◌∷◌, ◌==◌, if◌then◌else◌}
use fcom.Prelude.Memory.{Bytes}
use fcom.Snapshot.{SyncEntry, DateTime, Formats}

-- What is read of an entry, and an entry of the tree.
pub record Named : Type 0 where
  pub name : Bytes
  pub d : SyncEntry

-- `struct rsnap`, without the tree's branches; `added` are the entries, the last first.
pub record Reader : Type 0 where
  pub state : ℕ
  pub ent : Named
  pub added : List Named

module _ (o : Formats) where
  open o use {Date, join, to_uint64, to_uint32, match_hex, match_dec, date_from, time_from}

  -- The reader with new data of the entry, in the next state.
  abbrev pub with_data : Reader → ℕ → SyncEntry → Reader
  with_data r state d = record r { state = state; ent = record (r.ent) { d = d } }

  -- case 1
  abbrev pub read_size : Reader → Option ℕ → Option Reader
  read_size r none = none
  read_size r (some n) = some (with_data r 2 (record (r.ent.d) { size = n }))

  -- case 2
  abbrev pub read_attr : Reader → Option (ℕ × ℕ) → Option Reader
  read_attr r none = none
  read_attr r (some (u, v)) =
      some (with_data r 4 (record (r.ent.d) { unix_attr = u; win_attr = v }))

  -- case 4
  abbrev pub read_owner : Reader → Option (ℕ × ℕ) → Option Reader
  read_owner r none = none
  read_owner r (some (u, v)) = some (with_data r 6 (record (r.ent.d) { uid = u; gid = v }))

  -- case 6, with the date and the time
  abbrev pub read_time : Reader → DateTime Date → Option (DateTime Date) → Option Reader
  read_time r dt none = none
  read_time r dt (some t) = some (
      with_data r 7 (record (r.ent.d) {
        mtime = join (record dt {
          hour = t.hour;
          minute = t.minute;
          second = t.second;
          nanosecond = t.nanosecond;
        });
      }))

  -- case 6, with the date and what follows it
  abbrev pub read_date : Reader → Option (DateTime Date × Bytes) → Option Reader
  read_date r none = none
  read_date r (some (dt, [])) = none
  read_date r (some (dt, c ∷ s)) = if c == b'+' then read_time r dt (time_from s) else none

  -- case 7
  abbrev pub read_crc : Reader → Option ℕ → Option Reader
  read_crc r none = none
  read_crc r (some n) =
      let e : Named = record (r.ent) { d = record (r.ent.d) { crc32 = n } } in
      some (record { state = 0; ent = record e { name = [] }; added = e ∷ r.added })

  -- `rsnap_file`: `none` is an error. The states 3 and 5 are passed over.
  unfoldable pub rsnap_file : Reader → Bytes → Option Reader
  rsnap_file r val =
      if r.state == 0
      then some (record r { state = 1; ent = record (r.ent) { name = val } })
      else if r.state == 1
      then read_size r (to_uint64 val)
      else if r.state == 2
      then read_attr r (match_hex val)
      else if r.state == 4
      then read_owner r (match_dec val)
      else if r.state == 6
      then read_date r (date_from val)
      else if r.state == 7
      then read_crc r (to_uint32 val)
      else some (record r { state = r.state + 1 })

  -- One value after another.
  unfoldable pub read_values : List Bytes → Reader → Option Reader
  read_values [] r = some r
  read_values (v ∷ vs) r = elim (rsnap_file r v) [ none ↦ none | some r' ↦ read_values vs r' ]
