-- ===== src/Prelude/Slices.antt =====
-- Laws of the slices of a memory.
use Prim.Native.Nat.{ℕ, zero, suc, ◌+◌, ◌-◌, ◌≤◌, ◌<◌}
use mathlib.Core.Path.{◌≡◌, refl, sym, ap, ◌∙◌}
use mathlib.Core.List.{[], ◌∷◌, ◌++◌}
use native.Mathlib.Omega.{arith}
use fcom.Prelude.Lists.{length, get_or, drop}
use fcom.Prelude.Memory.{Bytes, Memory, at, copy, copy_lem, slice, length-slice, get_or-slice}

-- Bytes put down after a slice do not change it.
pub slice-copy_after :
    (m : Memory) (off n o : ℕ) (d : Bytes) → off + n ≤ o → slice (copy m o d) off n ≡ slice m off n
unfolding slice
slice-copy_after m off zero o d le = refl
slice-copy_after m off (suc n) o d le =
    ground (arith, copy_lem m o d off, slice-copy_after m (off + 1) n o d (omega arith))

pub slice-add :
    (m : Memory) (off n k : ℕ) → slice m off (n + k) ≡ slice m off n ++ slice m (off + n) k
unfolding slice
slice-add m off zero k =
    let e : 0 + k ≡ k = omega arith in let e' : off + 0 ≡ off = omega arith in rw (e, e') refl
slice-add m off (suc n) k =
    let e : suc n + k ≡ suc (n + k) = omega arith in
    let e' : off + suc n ≡ off + 1 + n = omega arith in
    rw (e, e') (ap (λ s. at m off ∷ s) (slice-add m (off + 1) n k))

pub drop-slice :
    (m : Memory) (off n j : ℕ) → j ≤ n → drop j (slice m off n) ≡ slice m (off + j) (n - j)
unfolding slice
drop-slice m off n zero le =
    let e : off + 0 ≡ off = omega arith in let e' : n - 0 ≡ n = omega arith in rw (e, e') refl
drop-slice m off zero (suc j) le = absurd (omega arith)
drop-slice m off (suc n) (suc j) le =
    let e : off + suc j ≡ off + 1 + j = omega arith in
    let e' : suc n - suc j ≡ n - j = omega arith in
    rw (e, e') (drop-slice m (off + 1) n j (omega arith))

bytes_ext :
    (xs ys : Bytes)
    → length xs ≡ length ys
    → ((i : ℕ) → i < length xs → get_or xs i 0 ≡ get_or ys i 0)
    → xs ≡ ys
bytes_ext [] [] e h = refl
bytes_ext [] (y ∷ ys) e h = absurd (omega arith)
bytes_ext (x ∷ xs) [] e h = absurd (omega arith)
bytes_ext (x ∷ xs) (y ∷ ys) e h =
    let tail = bytes_ext xs ys (omega arith) (λ i lt. h (suc i) (omega arith)) in
    let head : x ≡ y = h 0 (omega arith) in ground arith

-- What was put down is there.
pub slice-copy : (m : Memory) (o : ℕ) (d : Bytes) → slice (copy m o d) o (length d) ≡ d
slice-copy m o d =
    bytes_ext (slice (copy m o d) o (length d)) d (length-slice (copy m o d) o (length d)) λ i lt.
      let in_d : i < length d = omega (arith, length-slice (copy m o d) o (length d)) in
      let same : o + i - o ≡ i = omega arith in
      get_or-slice (copy m o d) o (length d) i in_d
      ∙ ground (arith, copy_lem m o d (o + i), ap (λ j. get_or d j 0) same)

-- A slice from the start, longer by bytes of the memory.
pub slice_grown :
    (m : Memory) (off : ℕ) (d : Bytes)
    → d ≡ slice m off (length d)
    → slice m 0 off ++ d ≡ slice m 0 (off + length d)
slice_grown m off d e =
    let z : 0 + off ≡ off = omega arith in
    ap (λ x. slice m 0 off ++ x) e
    ∙ ap (λ o. slice m 0 off ++ slice m o (length d)) (sym z)
    ∙ sym (slice-add m 0 off (length d))

-- A slice from the start to the end of what was put down.
pub slice-copy_end :
    (m : Memory) (off : ℕ) (d : Bytes)
    → slice (copy m off d) 0 (off + length d) ≡ slice m 0 off ++ d
slice-copy_end m off d =
    let z : 0 + off ≡ off = omega arith in
    slice-add (copy m off d) 0 off (length d)
    ∙ ap (λ o. slice (copy m off d) 0 off ++ slice (copy m off d) o (length d)) z
    ∙ ap (λ x. slice (copy m off d) 0 off ++ x) (slice-copy m off d)
    ∙ ap (λ x. x ++ d) (slice-copy_after m 0 off off d (omega arith))
