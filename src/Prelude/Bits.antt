-- ===== src/Prelude/Bits.antt =====
-- `|`, `&` and shifts of unsigned words, where they pack disjoint fields and mask low bits.
use Prim.Native.Nat.{
  ℕ, zero, suc, ◌+◌, ◌-◌, ◌*◌, ◌/◌, ◌%◌, ◌^◌, ◌≤◌, ◌<◌, min, max, bit_and, bit_or, digits,
  bit_or-bitwise, bit_and-bitwise,
}
use mathlib.Core.Path.{◌≡◌, refl, ap, ◌∙◌}
use native.Mathlib.Nat.{pow-suc, div-add-mod, mod-lt, mod-eq_of_lt, add-mod_right}
use native.Mathlib.Omega.{arith}

-- More fuel than digits changes nothing.
digits_enough :
    (z : ℕ → ℕ) (f : ℕ → ℕ → ℕ) (a b fuel more : ℕ)
    → a ≤ fuel
    → a ≤ more
    → digits z f fuel a b ≡ digits z f more a b
digits_enough z f zero b zero zero h k = refl
digits_enough z f zero b zero (suc m) h k = refl
digits_enough z f zero b (suc n) zero h k = refl
digits_enough z f zero b (suc n) (suc m) h k = refl
digits_enough z f (suc a) b zero m h k = absurd (omega arith)
digits_enough z f (suc a) b (suc n) zero h k = absurd (omega arith)
digits_enough z f (suc a) b (suc n) (suc m) h k =
    omega (arith, digits_enough z f (suc a / 2) (b / 2) n m (omega arith) (omega arith))

low_or : (m n : ℕ) → bit_or m n ≡ max (m % 2) (n % 2) + bit_or (m / 2) (n / 2) * 2
low_or zero n = omega (arith, bit_or-bitwise 0 n, bit_or-bitwise 0 (n / 2))
low_or (suc m) n =
    let halves =
      digits_enough (λ d. d) max (suc m / 2) (n / 2) m (suc m / 2) (omega arith) (omega arith) in
    omega (arith, halves, bit_or-bitwise (suc m) n, bit_or-bitwise (suc m / 2) (n / 2))

low_and : (m n : ℕ) → bit_and m n ≡ min (m % 2) (n % 2) + bit_and (m / 2) (n / 2) * 2
low_and zero n = omega (arith, bit_and-bitwise 0 n, bit_and-bitwise 0 (n / 2))
low_and (suc m) n =
    let halves =
      digits_enough (λ d. 0) min (suc m / 2) (n / 2) m (suc m / 2) (omega arith) (omega arith) in
    omega (arith, halves, bit_and-bitwise (suc m) n, bit_and-bitwise (suc m / 2) (n / 2))

or_zero_below : (n a : ℕ) → a ≤ n → bit_or a 0 ≡ a
or_zero_below n zero h = refl
or_zero_below zero (suc a) h = absurd (omega arith)
or_zero_below (suc n) (suc a) h =
    omega (arith, low_or (suc a) 0, or_zero_below n (suc a / 2) (omega arith))

and_zero_below : (n a : ℕ) → a ≤ n → bit_and a 0 ≡ 0
and_zero_below n zero h = refl
and_zero_below zero (suc a) h = absurd (omega arith)
and_zero_below (suc n) (suc a) h =
    omega (arith, low_and (suc a) 0, and_zero_below n (suc a / 2) (omega arith))

-- A field of `k` bits under a shifted one is added.
pub or_field : (k a b : ℕ) → b < 2 ^ k → bit_or (a * 2 ^ k) b ≡ a * 2 ^ k + b
or_field zero a b h =
    let none : b ≡ 0 = omega arith in
    rw none (omega (arith, or_zero_below (a * 1) (a * 1) (omega arith)))
or_field (suc k) a b h =
    let shifted : a * 2 ^ suc k ≡ a * 2 ^ k * 2 =
      omega (arith, ap (λ (t : ℕ). a * t) (pow-suc 2 k)) in
    let half : a * 2 ^ suc k / 2 ≡ a * 2 ^ k = omega arith in
    low_or (a * 2 ^ suc k) b ∙ rw (half, or_field k a (b / 2) (omega arith)) (omega arith)

pub pow_pos : (k : ℕ) → 1 ≤ 2 ^ k
pow_pos zero = omega arith
pow_pos (suc k) = omega (arith, pow_pos k)

mod-mul_add : (q m r : ℕ) → r < m → (q * m + r) % m ≡ r
mod-mul_add zero m r h = grind (arith, mod-eq_of_lt h)
mod-mul_add (suc q) m r h =
    let one_less : suc q * m + r ≡ q * m + r + m = omega arith in
    rw (one_less, add-mod_right (q * m + r) m) (mod-mul_add q m r h)

low_digit : (a p : ℕ) → 1 ≤ p → min (a % 2) ((p * 2 - 1) % 2) + a / 2 % p * 2 ≡ a % (p * 2)
low_digit a p h =
    let r : ℕ = a / 2 % p * 2 + a % 2 in
    let below : a / 2 % p < p = mod-lt (a / 2) h in
    let whole : a / 2 / p * (p * 2) + r ≡ a = omega (arith, div-add-mod (a / 2) p) in
    omega
      (arith, ap (λ (t : ℕ). t % (p * 2)) whole, mod-mul_add (a / 2 / p) (p * 2) r (omega arith))

-- A mask of `k` ones keeps the remainder by `2 ^ k`.
pub and_mask : (k a : ℕ) → bit_and a (2 ^ k - 1) ≡ a % 2 ^ k
and_mask zero a = omega (arith, and_zero_below a a (omega arith))
and_mask (suc k) a =
    let half : (2 ^ suc k - 1) / 2 ≡ 2 ^ k - 1 = omega arith in
    low_and a (2 ^ suc k - 1)
    ∙ rw (half, and_mask k (a / 2), pow-suc 2 k) (low_digit a (2 ^ k) (pow_pos k))

-- The remainder by a product, digit by digit.
pub mod_split : (v p m : ℕ) → 1 ≤ p → 1 ≤ m → v % (p * m) ≡ v / p % m * p + v % p
mod_split v p m hp hm =
    let r : ℕ = v / p % m * p + v % p in
    let low : v % p < p = mod-lt v hp in
    let high : v / p % m < m = mod-lt (v / p) hm in
    let fits : r < p * m = grind arith in
    let whole : v / p / m * (p * m) + r ≡ v =
      omega (arith, div-add-mod v p, ap (λ (t : ℕ). t * p) (div-add-mod (v / p) m)) in
    omega (arith, ap (λ (t : ℕ). t % (p * m)) whole, mod-mul_add (v / p / m) (p * m) r fits)
