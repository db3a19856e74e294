-- ===== src/Snapshot/Write.antt =====
-- Writing a snapshot: `snapshot::scan_next` of src/fs/sync-scan.h, `wsnap::process` of
-- src/fs/sync-wsnap.h, and the states I_IN and I_SNAP_WR of `sync_run` of src/fs/sync.cpp. The walk
-- over the tree, which ffbase's fntree keeps, is the list of its visits.
use fcom.Prelude.{
  ℕ, zero, suc, Bool, true, false, not, Option, none, some, List, [], ◌∷◌, ◌++◌, ◌==◌,
  if◌then◌else◌,
}
use fcom.Prelude.Memory.{Bytes}
use fcom.Snapshot.{
  codes, SyncEntry, Ent, Formats, wsnap_ent_serialize, wsnap_hdr, wsnap_bhdr, wsnap_bftr,
}

-- The file that the snapshot is written to: false is an error.
pub record Sink : Type 1 where
  pub State : Type 0
  pub open_file : State → State × Bool
  pub write : State → Bytes → State × Bool

-- What the scan finds of an entry: nothing, a file, a directory that is opened or not.
pub data Found : Type 0 where
  unknown : Found
  file : SyncEntry → Found
  dir : SyncEntry → (opens : Bool) → Found

-- A step of the walk: the block of the tree, its path, the entry's name, and what is found there.
pub record Visit : Type 0 where
  pub block : ℕ
  pub path : Bytes
  pub segment : Bytes
  pub found : Found

-- What `scan_next` returns, apart from the end.
pub data Scanned : Type 0 where
  new_block same_block error : Scanned

-- The fields of `struct sync`, `struct wsnap` and `struct snapshot` that the writer uses.
pub record Writer : Type 0 where
  pub hdr : Bool
  pub bftr : Bool
  pub bhdr : Bool
  pub ent_ready : Bool
  pub dir_path : Bytes  -- dir
  pub ent : Ent
  pub parent_blk : Option ℕ

abbrev pub no_entry : SyncEntry
no_entry = record {
  size = 0;
  unix_attr = 0;
  win_attr = 0;
  uid = 0;
  gid = 0;
  mtime = record { sec = 0; nsec = 0 };
  crc32 = 0;
}

-- The name of a visit, with its path.
abbrev pub full_name : Visit → Bytes
full_name v = elim v.path [ [] ↦ v.segment | c ∷ p ↦ (c ∷ p) ++ codes "/" ++ v.segment ]

-- The entry that `scan_next` gives.
abbrev pub entry : Found → Bytes → Ent
entry unknown name = record { type = b'f'; name = name; d = no_entry }
entry (file d) name = record { type = b'f'; name = name; d = d }
entry (dir d opens) name = record { type = b'd'; name = name; d = d }

abbrev pub in_block : Option ℕ → ℕ → Bool
in_block none b = false
in_block (some a) b = a == b

-- `snapshot::next` with the end of `scan_next`: a directory that does not open is an error,
-- whatever `next` said.
unfoldable pub scan_next : Option ℕ → Visit → Scanned
scan_next parent v = elim v.found [
  | dir d false ↦ error
  | dir d true ↦ if in_block parent v.block then same_block else new_block
  | unknown ↦ if in_block parent v.block then same_block else new_block
  | file d ↦ if in_block parent v.block then same_block else new_block
]

-- I_IN, for a visit that did not fail: the entry to write.
abbrev pub ready : Writer → Visit → Writer
ready n v = record n {
  parent_blk = some v.block;
  ent_ready = true;
  dir_path = if n.hdr then v.path else n.dir_path;
  ent = entry v.found (if n.hdr then v.segment else full_name v);
}

-- I_IN, with what `scan_next` returned: whether there is an entry to write.
abbrev pub take_entry : Writer → Visit → Scanned → Writer × Bool
take_entry n v new_block =
    (record (ready n v) { bftr = if n.hdr then true else n.bftr; bhdr = true }, true)
take_entry n v same_block = (ready n v, true)
take_entry n v error = (record n { parent_blk = some v.block }, false)

module _ (o : Formats) (k : Sink) where
  open k use {State, open_file, write}

  -- The first part of `process`: with the file open, true goes on.
  abbrev pub written : Writer → State × Bool → State × Writer × Bool
  written n (w, r) = (w, n, r)

  -- A round of the loop of `process`: what it returns is `none` where there is nothing to write.
  unfoldable pub process_round : Writer → State → Option (State × Writer × Bool)
  process_round n w =
      if not n.hdr
      then (let (w', success) = open_file w in
          some (
            if success
            then written (record n { hdr = true }) (write w' wsnap_hdr)
            else (w', record n { hdr = true }, false)))
      else if n.bftr
      then some (written (record n { bftr = false }) (write w wsnap_bftr))
      else if n.bhdr
      then some (written (record n { bhdr = false }) (write w (wsnap_bhdr n.dir_path)))
      else if n.ent_ready
      then some (written (record n { ent_ready = false }) (write w (wsnap_ent_serialize o n.ent)))
      else none

  -- `wsnap::process`: each round clears one of four flags, so five are enough. `none` is that the
  -- fuel has run out, false is 0xbad.
  unfoldable pub process_loop : ℕ → Writer → State → State × Writer × Option Bool
  process_loop zero n w = (w, n, none)
  process_loop (suc fuel) n w = elim (process_round n w) [
    | none ↦ (w, n, some true)
    | some (w', n', true) ↦ process_loop fuel n' w'
    | some (w', n', false) ↦ (w', n', some false)
  ]

  abbrev pub process : Writer → State → State × Writer × Option Bool
  process n w = process_loop 5 n w

  -- I_IN and I_SNAP_WR, over the walk: what is returned is the code of the operation, `rc`. At the
  -- end of the walk it is set to 0 before the last call of `process`, and stays so.
  unfoldable pub write_snapshot : List Visit → Writer → State → State × ℕ
  write_snapshot [] n w = let (w', n', r) = process (record n { bftr = true }) w in (w', 0)
  write_snapshot (v ∷ vs) n w =
      let (m, is_ready) = take_entry n v (scan_next n.parent_blk v) in
      let (w', m', r) = process m w in
      let rest = write_snapshot vs m' w' in
      let failed = write_snapshot vs m w in
      if is_ready
      then elim r [ some true ↦ rest | some false ↦ (w', 1) | none ↦ (w', 1) ]
      else failed

abbrev pub started : Writer
started = record {
  hdr = false;
  bftr = false;
  bhdr = false;
  ent_ready = false;
  dir_path = [];
  ent = record { type = 0; name = []; d = no_entry };
  parent_blk = none;
}
