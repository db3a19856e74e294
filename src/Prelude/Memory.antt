-- ===== src/Prelude/Memory.antt =====
-- A region of memory, or the contents of a file, as a function from the offset to the byte there.
use Prim.Native.Nat.{ℕ, zero, suc, ◌+◌, ◌-◌, ◌≤◌, ◌<◌, max}
use mathlib.Core.Path.{◌≡◌, refl, fun_ext}
use mathlib.Core.Bool.{◌&&◌}
use mathlib.Core.List.{List, [], ◌∷◌}
use native.Mathlib.Omega.{arith}
use fcom.Prelude.Tests.{ltb, leb, if◌then◌else◌}
use fcom.Prelude.Lists.{length, get_or, take, drop, length-take, length-drop}

abbrev pub Bytes : Type 0
Bytes = List ℕ

-- Sealed, so that the tactics take a memory for one value: `at` reads it, `memory` makes one.
unfoldable pub Memory : Type 0
Memory = ℕ → ℕ

unfoldable pub memory : (ℕ → ℕ) → Memory
unfolding Memory
memory f = f

unfoldable pub at : Memory → ℕ → ℕ
unfolding Memory
at m = m

pub memory_ext : {m k : Memory} → ((i : ℕ) → at m i ≡ at k i) → m ≡ k
unfolding at
memory_ext h = fun_ext h

-- `ffmem_copy(m + off, d.ptr, d.len)`
unfoldable pub copy : Memory → ℕ → Bytes → Memory
unfolding memory
copy m off d =
    memory λ i. if leb off i && ltb i (off + length d) then get_or d (i - off) 0 else at m i

-- The `n` bytes from `off` on.
unfoldable pub slice : Memory → ℕ → ℕ → Bytes
slice m off zero = []
slice m off (suc n) = at m off ∷ slice m (off + 1) n

pub length-slice : (m : Memory) (off n : ℕ) → length (slice m off n) ≡ n
unfolding slice
length-slice m off zero = refl
length-slice m off (suc n) = omega (arith, length-slice m (off + 1) n)

pub get_or-slice : (m : Memory) (off n i : ℕ) → i < n → get_or (slice m off n) i 0 ≡ at m (off + i)
unfolding slice
get_or-slice m off zero i h = elim h [ ]
get_or-slice m off (suc n) zero h = let e : off + 0 ≡ off = omega arith in rw e refl
get_or-slice m off (suc n) (suc i) h =
    let e : off + suc i ≡ off + 1 + i = omega arith in
    rw e (get_or-slice m (off + 1) n i (omega arith))

module _ {ℓ} {A : Type ℓ} where
  pub get_or-take : (d : List A) (n i : ℕ) (z : A) → i < n → get_or (take n d) i z ≡ get_or d i z
  get_or-take d zero i z h = elim h [ ]
  get_or-take [] (suc n) i z h = refl
  get_or-take (x ∷ d) (suc n) zero z h = refl
  get_or-take (x ∷ d) (suc n) (suc i) z h = get_or-take d n i z (omega arith)

  pub get_or-drop : (d : List A) (n i : ℕ) (z : A) → get_or (drop n d) i z ≡ get_or d (n + i) z
  get_or-drop d zero i z = let e : 0 + i ≡ i = omega arith in rw e refl
  get_or-drop [] (suc n) i z = refl
  get_or-drop (x ∷ d) (suc n) i z =
      let e : suc n + i ≡ suc (n + i) = omega arith in rw e (get_or-drop d n i z)

-- What a copy leaves at each offset.
pub copy_lem :
    (m : Memory) (off : ℕ) (d : Bytes) (i : ℕ)
    → at (copy m off d) i
      ≡ (if leb off i && ltb i (off + length d) then get_or d (i - off) 0 else at m i)
unfolding copy at
copy_lem m off d i = refl

-- Laws of copies, as equations of memories.
pub copy-nil : (m : Memory) (off : ℕ) → copy m off [] ≡ m
unfolding copy at
copy-nil m off = memory_ext λ i. ground arith

pub slice-zero : (m : Memory) (off : ℕ) → slice m off 0 ≡ []
unfolding slice
slice-zero m off = refl

pub copy-take-drop :
    (m : Memory) (off n : ℕ) (d : Bytes)
    → n ≤ length d
    → copy (copy m off (take n d)) (off + n) (drop n d) ≡ copy m off d
unfolding copy at
copy-take-drop m off n d h = memory_ext λ i. ground (
  arith,
  length-take n d,
  length-drop n d,
  get_or-take d n (i - off) 0,
  get_or-drop d n (i - (off + n)) 0,
)

-- A buffer that is filled and laid over a file, against the same bytes written to the file.
pub copy-slice-copy :
    (m mem : Memory) (base o l l' : ℕ) (d : Bytes)
    → o ≤ l
    → (l' ≡ max l (o + length d))
    → copy m base (slice (copy mem o d) 0 l') ≡ copy (copy m base (slice mem 0 l)) (base + o) d
copy-slice-copy m mem base o l l' d h e = memory_ext λ i. ground (
  arith,
  copy_lem m base (slice (copy mem o d) 0 l') i,
  copy_lem mem o d (i - base),
  copy_lem (copy m base (slice mem 0 l)) (base + o) d i,
  copy_lem m base (slice mem 0 l) i,
  length-slice (copy mem o d) 0 l',
  length-slice mem 0 l,
  get_or-slice (copy mem o d) 0 l' (i - base),
  get_or-slice mem 0 l (i - base),
)
