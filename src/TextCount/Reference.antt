-- ===== src/TextCount/Reference.antt =====
-- `txcnt_analyze` against a count byte by byte, and what follows for files read in pieces.
use fcom.Prelude.{
  ℕ, zero, suc, ◌+◌, ◌-◌, ◌^◌, ◌≤◌, ◌<◌, ◌≡◌, ◌⊎◌, refl, ◌∙◌, inl, inr, some, none, List, [], ◌∷◌,
  ◌++◌, arith, ◌==◌, if◌then◌else◌, length, length-append, Bool-cases,
}
use mathlib.Core.List.{flatten}
use fcom.Prelude.Memory.{Bytes}
use fcom.TextCount.{Stat, u64, set_max, cleared, find_lf, end_line, analyze_loop, analyze, read_all}

-- One byte.
abbrev pub step : Stat → ℕ → Stat
step f c = if c == 10 then end_line f else record f { b_ln = u64 (f.b_ln + 1) }

unfoldable pub scan : Stat → Bytes → Stat
scan f [] = f
scan f (c ∷ s) = scan (step f c) s

-- The counter of the line in progress is a machine word.
abbrev pub InWord : Stat → Type 0
InWord f = f.b_ln < 2 ^ 64

-- A round of the loop does what the bytes up to the line feed do, one by one.
find_lf-scan :
    (f : Stat) (s : Bytes)
    → InWord f
    → let (n, rest) = find_lf s in
      let f' = record f { b_ln = u64 (f.b_ln + n) } in
      ((rest ≡ none) × (scan f s ≡ f'))
      ⊎ ((s' : Bytes) × (rest ≡ some s')
          × (scan f s ≡ scan (end_line f') s')
          × (length s' < length s))
unfolding find_lf scan
find_lf-scan f [] h = inl (refl, ground arith)
find_lf-scan f (c ∷ s) h = elim (Bool-cases (c == 10)) [
  | inl e ↦ inr (s, ground arith, ground arith, ground arith)
  | inr e ↦ elim (find_lf-scan (record f { b_ln = u64 (f.b_ln + 1) }) s (omega arith)) [
    | inl (r, q) ↦ inl (ground arith, ground arith)
    | inr (s', r, q, l) ↦ inr (s', ground arith, ground arith, ground arith)
  ]
]

end_line-InWord : (f : Stat) → InWord (end_line f)
unfolding end_line
end_line-InWord f = omega arith

analyze_loop-scan :
    (fuel : ℕ) (f : Stat) (s : Bytes)
    → InWord f
    → length s < fuel
    → analyze_loop fuel f s ≡ scan f s
unfolding analyze_loop
analyze_loop-scan zero f s h l = elim l [ ]
analyze_loop-scan (suc fuel) f s h l = elim (find_lf-scan f s h) [
  | inl (r, q) ↦ ground arith
  | inr (s', r, q, lt) ↦
      let f' = end_line (record f { b_ln = u64 (f.b_ln + (find_lf s).0) }) in
      ground (arith, analyze_loop-scan fuel f' s' (end_line-InWord _) (omega arith))
]

-- The loop over lines counts as the count byte by byte does.
analyze-scan :
    (f : Stat) (s : Bytes)
    → InWord f
    → analyze f s ≡ scan (record f { sz = u64 (f.sz + length s) }) s
unfolding analyze
analyze-scan f s h = analyze_loop-scan (suc (length s)) _ s h (omega arith)

scan-append : (f : Stat) (s t : Bytes) → scan f (s ++ t) ≡ scan (scan f s) t
unfolding scan
scan-append f [] t = refl
scan-append f (c ∷ s) t = scan-append (step f c) s t

scan-InWord : (f : Stat) (s : Bytes) → InWord f → InWord (scan f s)
unfolding scan end_line
scan-InWord f [] h = h
scan-InWord f (c ∷ s) h = scan-InWord (step f c) s (ground arith)

-- The size takes no part in the count of lines.
scan-sz :
    (f : Stat) (k : ℕ) (s : Bytes) → scan (record f { sz = k }) s ≡ record (scan f s) { sz = k }
unfolding scan end_line
scan-sz f k [] = refl
scan-sz f k (c ∷ s) = elim (Bool-cases (c == 10)) [
  | inl e ↦ ground (arith, scan-sz (step f c) k s)
  | inr e ↦ ground (arith, scan-sz (step f c) k s)
]

analyze_lem :
    (f : Stat) (s : Bytes)
    → InWord f
    → analyze f s ≡ record (scan f s) { sz = u64 (f.sz + length s) }
analyze_lem f s h = analyze-scan f s h ∙ scan-sz f (u64 (f.sz + length s)) s

-- Two pieces of a file in turn count as the whole.
analyze-append : (f : Stat) (s t : Bytes) → InWord f → analyze (analyze f s) t ≡ analyze f (s ++ t)
analyze-append f s t h = ground (
  arith,
  analyze_lem f s h,
  analyze_lem (analyze f s) t (ground (arith, analyze_lem f s h, scan-InWord f s h)),
  analyze_lem f (s ++ t) h,
  scan-append f s t,
  scan-sz (scan f s) (u64 (f.sz + length s)) t,
  length-append s t,
)

-- Where the reads cut a file does not show in its statistics: from statistics that are 64-bit
-- words, all the reads in turn count as one read of their bytes.
pub read_all-flatten :
    (f : Stat) (ds : List Bytes)
    → InWord f
    → f.sz < 2 ^ 64
    → read_all f ds ≡ read_all f (flatten ds ∷ [])
unfolding read_all flatten scan
read_all-flatten f [] h k = ground (arith, analyze_lem f [] h)
read_all-flatten f (d ∷ ds) h k =
    let q = analyze_lem f d h in
    ground (
      arith,
      read_all-flatten (analyze f d) ds (ground (arith, q, scan-InWord f d h)) (ground (arith, q)),
      analyze-append f d (flatten ds) h,
    )

-- The widths of the lines that end in a line feed, `n` bytes of the first being counted already.
unfoldable pub widths : ℕ → Bytes → List ℕ
widths n [] = []
widths n (c ∷ s) = let rest = widths 0 s in if c == 10 then n ∷ rest else widths (n + 1) s

-- The bytes after the last line feed.
unfoldable pub last_width : ℕ → Bytes → ℕ
last_width n [] = n
last_width n (c ∷ s) = last_width (if c == 10 then 0 else n + 1) s

unfoldable pub zeros : List ℕ → ℕ
zeros [] = 0
zeros (w ∷ ws) = (if w == 0 then 1 else 0) + zeros ws

unfoldable pub widest : ℕ → List ℕ → ℕ
widest m [] = m
widest m (w ∷ ws) = widest (set_max m w) ws

length-widths : (n : ℕ) (s : Bytes) → length (widths n s) ≤ length s
unfolding widths
length-widths n [] = omega arith
length-widths n (c ∷ s) = ground (arith, length-widths 0 s, length-widths (n + 1) s)

last_width-nil : (n : ℕ) (s : Bytes) → widths n s ≡ [] → last_width n s ≡ n + length s
unfolding widths last_width
last_width-nil n [] e = omega arith
last_width-nil n (c ∷ s) e = ground (arith, last_width-nil (n + 1) s)

scan-widths :
    (f : Stat) (s : Bytes)
    → f.b_ln + length s < 2 ^ 64
    → f.ln + length s < 2 ^ 64
    → f.ln_empty + length s < 2 ^ 64
    → scan f s ≡ record f {
      ln = f.ln + length (widths f.b_ln s);
      ln_empty = f.ln_empty + zeros (widths f.b_ln s);
      b_ln = last_width f.b_ln s;
      b_ln_max = widest f.b_ln_max (widths f.b_ln s);
    }
unfolding scan end_line widths last_width zeros widest
scan-widths f [] h k l = ground arith
scan-widths f (c ∷ s) h k l = elim (Bool-cases (c == 10)) [
  | inl e ↦ ground (arith, scan-widths (step f c) s (ground arith) (ground arith) (ground arith))
  | inr e ↦ ground (arith, scan-widths (step f c) s (ground arith) (ground arith) (ground arith))
]

-- The statistics of a file below 2^64 - 1 bytes, however it is read: its size, the number of its
-- lines, a last one that no line feed ends included if it has any byte, the number of empty lines,
-- and the width of the widest line among those that a line feed ends.
pub read_all-widths :
    (ds : List Bytes)
    → let s = flatten ds in
      length s < 2 ^ 64 - 1
      → let f = read_all cleared ds in
        (f.sz ≡ length s)
        × (f.ln ≡ length (widths 0 s) + (if last_width 0 s == 0 then 0 else 1))
        × (f.ln_empty ≡ zeros (widths 0 s))
        × (f.b_ln_max ≡ widest 0 (widths 0 s))
unfolding read_all
read_all-widths ds h =
    let s = flatten ds in
    ground (
      arith,
      read_all-flatten cleared ds (omega arith) (omega arith),
      analyze_lem cleared s (omega arith),
      scan-widths cleared s (omega arith) (omega arith) (omega arith),
      length-widths 0 s,
    )
