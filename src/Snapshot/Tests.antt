-- ===== src/Snapshot/Tests.antt =====
-- A walk over a root with two directories, of which the first cannot be listed, printed with numbers
-- that take one byte.
use fcom.Prelude.{ℕ, ◌≡◌, refl, true, false, Option, none, some, List, [], ◌∷◌, ◌++◌, map, arith}
use fcom.Prelude.Memory.{Bytes}
use fcom.Snapshot.{codes, SyncEntry, Ent, DateTime, Formats, all_values}
use fcom.Snapshot.Read.{Reader, read_values}
use fcom.Snapshot.RoundTrip.{
  Reads, IsStorable, AllStorable, named, fresh, reverse_onto, read_values-all_values,
}
use fcom.Snapshot.RoundTrip
use fcom.Snapshot.Write.{Sink, Visit, file, dir}
use fcom.Snapshot.Branches.{nil, cons}

abbrev pair_of : Bytes → Option (ℕ × ℕ)
pair_of (a ∷ c ∷ b ∷ []) = some (a, b)
pair_of s = none

abbrev number_of : Bytes → Option ℕ
number_of (a ∷ []) = some a
number_of s = none

abbrev time_of : Bytes → Option (DateTime ℕ)
time_of (h ∷ m ∷ s ∷ n ∷ []) =
    some (record { date = 0; hour = h; minute = m; second = s; nanosecond = n })
time_of s = none

abbrev date_of : Bytes → Option (DateTime ℕ × Bytes)
date_of (d ∷ s) = some (record { date = d; hour = 0; minute = 0; second = 0; nanosecond = 0 }, s)
date_of [] = none

abbrev formats : Formats
formats = record {
  Date = ℕ;
  dec = λ n. n ∷ [];
  hex = λ n. n ∷ [];
  split = λ t. record { date = t.sec; hour = 0; minute = 0; second = 0; nanosecond = t.nsec };
  join = λ d. record { sec = d.date; nsec = d.nanosecond };
  date_str = λ d. d.date ∷ [];
  time_str = λ d. d.hour ∷ d.minute ∷ d.second ∷ d.nanosecond ∷ [];
  to_uint64 = number_of;
  to_uint32 = number_of;
  match_hex = pair_of;
  match_dec = pair_of;
  date_from = date_of;
  time_from = time_of;
}

formats-Reads : Reads formats
formats-Reads = record {
  uint64 = λ n h. refl;
  uint32 = λ n h. refl;
  hexes = λ a b h i. refl;
  decs = λ a b h i. refl;
  dates = λ t s y.
      (record { date = t.sec; hour = 0; minute = 0; second = 0; nanosecond = 0 }, refl, refl);
  times = λ t y h. (
    record { date = 0; hour = 0; minute = 0; second = 0; nanosecond = t.nsec },
    refl,
    refl,
    refl,
    refl,
    refl,
  );
  join-split = λ t y. refl;
}

abbrev known : SyncEntry
known = record {
  size = 5;
  unix_attr = 6;
  win_attr = 0;
  uid = 7;
  gid = 8;
  mtime = record { sec = 9; nsec = 3000000 };
  crc32 = 0;
}

known-IsStorable : IsStorable known
known-IsStorable = record {
  size = omega arith;
  unix_attr = omega arith;
  win_attr = omega arith;
  uid = omega arith;
  gid = omega arith;
  crc32 = omega arith;
  msec = refl;
  time = record { year = omega arith; part = omega arith };
}

abbrev two_entries : List Ent
two_entries =
    record { type = b'f'; name = codes "a"; d = known }
    ∷ record { type = b'd'; name = codes "b"; d = known }
    ∷ []

two_entries-AllStorable : AllStorable two_entries
two_entries-AllStorable =
    RoundTrip.cons known-IsStorable (RoundTrip.cons known-IsStorable RoundTrip.nil)

read_values-all_values_example :
    (r : Reader) × (read_values formats (all_values formats two_entries) fresh ≡ some r)
    × (r.state ≡ 0)
    × (r.added ≡ reverse_onto (map named two_entries) [])
read_values-all_values_example =
    read_values-all_values formats formats-Reads two_entries two_entries-AllStorable

-- A file that takes every write.
abbrev page : Sink
page = record { State = Bytes; open_file = λ w. ([], true); write = λ w d. (w ++ d, true) }

abbrev root : Visit
root = record { block = 0; path = []; segment = codes "/r"; found = dir known true }

abbrev left_dir : Visit
left_dir = record { block = 1; path = codes "/r"; segment = codes "a"; found = dir known true }

abbrev in_left : Visit
in_left = record { block = 2; path = codes "/r/a"; segment = codes "f"; found = file known }

-- A directory that does not open is the first entry of another one.
abbrev closed_dir : Visit
closed_dir = record { block = 3; path = codes "/r/b"; segment = codes "c"; found = dir known false }

abbrev in_right : Visit
in_right = record { block = 3; path = codes "/r/b"; segment = codes "g"; found = file known }
