-- ===== src/TextCount.antt =====
-- The `textcount` operation of src/text/textcount.c: line statistics of files that are read in
-- pieces. Counters are `uint64` and wrap around.
pub mod Reference
pub mod Summary
mod Tests
use fcom.Prelude.{
  ℕ, zero, suc, ◌+◌, ◌-◌, ◌%◌, ◌^◌, Option, some, none, List, [], ◌∷◌, ltb, ◌==◌, if◌then◌else◌,
  length,
}
use fcom.Prelude.Memory.{Bytes}

abbrev pub u64 : ℕ → ℕ
u64 n = n % 2 ^ 64

-- `struct txcnt_stat`
pub record Stat : Type 0 where
  pub sz : ℕ
  pub ln : ℕ
  pub ln_empty : ℕ
  pub b_ln : ℕ
  pub b_ln_max : ℕ

-- `txcnt_f_clear`
abbrev pub cleared : Stat
cleared = record { sz = 0; ln = 0; ln_empty = 0; b_ln = 0; b_ln_max = 0 }

-- `ffint_setmax` and `ffint_setmin`
abbrev pub set_max : ℕ → ℕ → ℕ
set_max dst src = if ltb dst src then src else dst

abbrev pub set_min : ℕ → ℕ → ℕ
set_min dst src = if ltb src dst then src else dst

-- `ffstr_findchar(&ss, '\n')`, and what follows the line feed.
unfoldable pub find_lf : Bytes → ℕ × Option Bytes
find_lf [] = (0, none)
find_lf (c ∷ s) = let (n, rest) = find_lf s in if c == 10 then (0, some s) else (suc n, rest)

-- The end of a line, with its bytes counted.
unfoldable pub end_line : Stat → Stat
end_line f = record f {
  b_ln_max = set_max f.b_ln_max f.b_ln;
  ln = u64 (f.ln + 1);
  ln_empty = if f.b_ln == 0 then u64 (f.ln_empty + 1) else f.ln_empty;
  b_ln = 0;
}

-- The loop of `txcnt_analyze`, on fuel.
unfoldable pub analyze_loop : ℕ → Stat → Bytes → Stat
analyze_loop zero f s = f
analyze_loop (suc fuel) f s =
    let (n, rest) = find_lf s in
    let f' = record f { b_ln = u64 (f.b_ln + n) } in
    elim rest [ none ↦ f' | some s' ↦ analyze_loop fuel (end_line f') s' ]

-- `txcnt_analyze`: each round takes a byte at least.
unfoldable pub analyze : Stat → Bytes → Stat
unfolding analyze_loop find_lf end_line
analyze f s = analyze_loop (suc (length s)) (record f { sz = u64 (f.sz + length s) }) s

-- The state I_READ of `txcnt_run`: the reads of a file up to its end, then the last line.
unfoldable pub read_all : Stat → List Bytes → Stat
unfolding analyze
read_all f [] = record f { ln = if f.b_ln == 0 then f.ln else u64 (f.ln + 1) }
read_all f (d ∷ ds) = read_all (analyze f d) ds

-- The fields of `struct txcnt` that aggregate files.
pub record Totals : Type 0 where
  pub f : ℕ
  pub sz_f_min : ℕ
  pub sz_f_max : ℕ
  pub ln_f_max : ℕ
  pub all : Stat

-- As `txcnt_create` leaves them.
abbrev pub no_files : Totals
no_files = record { f = 0; sz_f_min = 2 ^ 64 - 1; sz_f_max = 0; ln_f_max = 0; all = cleared }

-- `txcnt_add`
unfoldable pub add : Totals → Stat → Totals
add c f = record c {
  all = record (c.all) {
    sz = u64 (c.all.sz + f.sz);
    ln = u64 (c.all.ln + f.ln);
    ln_empty = u64 (c.all.ln_empty + f.ln_empty);
  };
  ln_f_max = set_max c.ln_f_max f.ln;
  sz_f_min = set_min c.sz_f_min f.sz;
  sz_f_max = set_max c.sz_f_max f.sz;
  f = u64 (c.f + 1);
}

-- The loop of `txcnt_run` over files that all can be read, each given as its reads.
unfoldable pub count_files : Totals → List (List Bytes) → Totals
unfolding add read_all
count_files c [] = c
count_files c (ds ∷ files) = count_files (add c (read_all cleared ds)) files
