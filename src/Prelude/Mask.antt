-- ===== src/Prelude/Mask.antt =====
-- `x & (cap - 1)` for a power of two.
use Prim.Native.Nat.{
  ℕ, zero, suc, ◌+◌, ◌-◌, ◌*◌, ◌/◌, ◌%◌, ◌^◌, ◌≤◌, ◌<◌, min, ◌∣◌, bit_and, digits, bit_and-bitwise,
}
use native.Mathlib.Nat.{dvd-mul_right, pow-suc, zero-add, mod-mod_of_dvd, mod-add-mod, mod-eq_of_lt}
use mathlib.Core.Path.{◌≡◌, ◌∙◌, sym, ap, subst}
use native.Mathlib.Omega.{arith}

pub pow_pos : (k : ℕ) → 0 < 2 ^ k
pow_pos zero = omega arith
pow_pos (suc k) = omega (arith, pow-suc 2 k, pow_pos k)

-- The remainder by twice a power, digit by digit.
mod_double : (x m : ℕ) → 0 < m → x % (2 * m) ≡ (x / 2 % m) * 2 + x % 2
mod_double x m h = grind arith

mask_digits : (n k a : ℕ) → a ≤ n → digits (λ b. zero) min n a (2 ^ k - 1) ≡ a % 2 ^ k
mask_digits zero k zero h = omega (arith, pow_pos k)
mask_digits zero k (suc a) h = absurd (omega arith)
mask_digits (suc n) k zero h = omega (arith, pow_pos k)
mask_digits (suc n) zero (suc a) h = omega (arith, mask_digits n zero (suc a / 2) (omega arith))
mask_digits (suc n) (suc k) (suc a) h =
    let e : (2 ^ suc k - 1) / 2 ≡ 2 ^ k - 1 = omega (arith, pow-suc 2 k, pow_pos k) in
    let odd : (2 ^ suc k - 1) % 2 ≡ 1 = omega (arith, pow-suc 2 k, pow_pos k) in
    let twice : 2 ^ suc k ≡ 2 * 2 ^ k = omega (arith, pow-suc 2 k) in
    rw (e, odd, twice)
      (omega
        (arith, mask_digits n k (suc a / 2) (omega arith), mod_double (suc a) (2 ^ k) (pow_pos k)))

pub mask_lem : (k a : ℕ) → bit_and a (2 ^ k - 1) ≡ a % 2 ^ k
mask_lem k a = bit_and-bitwise a (2 ^ k - 1) ∙ mask_digits a k a (omega arith)

pow-add : (k m : ℕ) → 2 ^ (k + m) ≡ 2 ^ k * 2 ^ m
pow-add zero m = rw zero-add (omega arith)
pow-add (suc k) m =
    let e : suc k + m ≡ suc (k + m) = omega arith in
    rw (e, pow-suc 2 (k + m), pow-suc 2 k, pow-add k m) (grind arith)

-- A counter in a 32-bit word, within a block of a power of two, where it stays in the block.
pub mod_within :
    (k r u : ℕ) → k ≤ 32 → r % 2 ^ k + u < 2 ^ k → (r + u) % 2 ^ 32 % 2 ^ k ≡ r % 2 ^ k + u
mod_within k r u le lt =
    let e : k + (32 - k) ≡ 32 = omega arith in
    let whole : 2 ^ 32 ≡ 2 ^ k * 2 ^ (32 - k) = (ap (λ n. 2 ^ n) (sym e)) ∙ pow-add k (32 - k) in
    mod-mod_of_dvd (2 ^ k) {b = 2 ^ 32} (r + u)
      (subst (λ n. 2 ^ k ∣ n) (sym whole) (dvd-mul_right (2 ^ k) (2 ^ (32 - k))))
    ∙ sym (mod-add-mod r (2 ^ k) u)
    ∙ mod-eq_of_lt lt
