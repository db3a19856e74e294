-- ===== src/Snapshot/Failures.antt =====
-- What a directory that does not open does to a snapshot.
use fcom.Prelude.{ℕ, ◌≡◌, true, List, [], ◌∷◌}
use fcom.Snapshot.Write.{Visit}
use fcom.Snapshot.Branches.{opens}

-- The visit as one of another directory.
abbrev pub moved : ℕ → Visit → Visit
moved b v = record v { block = b }

-- The block of the last visit.
abbrev pub last_block : ℕ → List Visit → ℕ
last_block b [] = b
last_block b (v ∷ vs) = last_block v.block vs

-- Visits of one block, that open.
pub data AllWithin (b : ℕ) : List Visit → Type 0 where
  none_left : AllWithin b []
  one_more :
      {v : Visit} {vs : List Visit}
      → opens v.found ≡ true
      → v.block ≡ b
      → AllWithin b vs
      → AllWithin b (v ∷ vs)
