-- ===== src/Prelude/Bits.antt =====
-- `|` of parts that share no bit, and `&` with a mask of ones, at every width.
use Prim.Native.Nat.{
  ℕ, zero, suc, ◌+◌, ◌-◌, ◌*◌, ◌/◌, ◌%◌, ◌^◌, ◌≤◌, ◌<◌, min, max, bit_and, bit_or, digits,
  bit_and-bitwise, bit_or-bitwise,
}
use mathlib.Core.Path.{◌≡◌, refl, sym, ap, ◌∙◌}
use native.Mathlib.Nat.{pow-suc, add-mul-mod_self_left, mod-eq_of_lt, div-add-mod, mod-lt}
use native.Mathlib.Omega.{arith}
use vpc_routing.Prelude.Arith.{two-pow-pos}

-- The count of digits to go does not matter, once it covers the first number.
module _ (z : ℕ → ℕ) (f : ℕ → ℕ → ℕ) where
  enough_digits : (n m a b : ℕ) → a ≤ n → a ≤ m → digits z f n a b ≡ digits z f m a b
  enough_digits zero zero a b p q = refl
  enough_digits zero (suc m) zero b p q = refl
  enough_digits zero (suc m) (suc a) b p q = absurd (omega arith)
  enough_digits (suc n) zero zero b p q = refl
  enough_digits (suc n) zero (suc a) b p q = absurd (omega arith)
  enough_digits (suc n) (suc m) zero b p q = refl
  enough_digits (suc n) (suc m) (suc a) b p q =
      ap (λ d. d * 2 + f (suc a % 2) (b % 2))
        (enough_digits n m (suc a / 2) (b / 2) (omega arith) (omega arith))

  lowest_digit :
      (a b : ℕ)
      → digits z f (suc a) (suc a) b
        ≡ digits z f (suc a / 2) (suc a / 2) (b / 2) * 2 + f (suc a % 2) (b % 2)
  lowest_digit a b =
      ap (λ d. d * 2 + f (suc a % 2) (b % 2))
        (enough_digits a (suc a / 2) (suc a / 2) (b / 2) (omega arith) (omega arith))

zero-bit_or : (b : ℕ) → bit_or 0 b ≡ b
zero-bit_or b = bit_or-bitwise 0 b

zero-bit_and : (b : ℕ) → bit_and 0 b ≡ 0
zero-bit_and b = bit_and-bitwise 0 b

bit_or_step : (a b : ℕ) → bit_or a b ≡ bit_or (a / 2) (b / 2) * 2 + max (a % 2) (b % 2)
bit_or_step zero b = omega (arith, zero-bit_or b, zero-bit_or (b / 2))
bit_or_step (suc a) b = omega (
  arith,
  bit_or-bitwise (suc a) b,
  bit_or-bitwise (suc a / 2) (b / 2),
  lowest_digit (λ b. b) max a b,
)

bit_and_step : (m n : ℕ) → bit_and m n ≡ bit_and (m / 2) (n / 2) * 2 + min (m % 2) (n % 2)
bit_and_step zero n = omega (zero-bit_and (n / 2), zero-bit_and n, arith)
bit_and_step (suc m) n =
    let halves = bit_and-bitwise (suc m / 2) (n / 2) in
    let whole = bit_and-bitwise (suc m) n in
    omega (arith, halves, whole, lowest_digit (λ _. 0) min m n)

bit_or-zero_below : (n a : ℕ) → a ≤ n → bit_or a 0 ≡ a
bit_or-zero_below n zero h = refl
bit_or-zero_below zero (suc a) h = absurd (omega arith)
bit_or-zero_below (suc n) (suc a) h =
    omega (arith, bit_or_step (suc a) 0, bit_or-zero_below n (suc a / 2) (omega arith))

bit_and-zero_below : (n a : ℕ) → a ≤ n → bit_and a 0 ≡ 0
bit_and-zero_below n zero h = refl
bit_and-zero_below zero (suc a) h = absurd (omega arith)
bit_and-zero_below (suc n) (suc a) h =
    omega (arith, bit_and_step (suc a) 0, bit_and-zero_below n (suc a / 2) (omega arith))

-- Parts that share no bit add up.
pub bit_or_add : (k x y : ℕ) → y < 2 ^ k → bit_or (x * 2 ^ k) y ≡ x * 2 ^ k + y
bit_or_add zero x zero h =
    ap (λ n. bit_or n 0) (one x) ∙ bit_or-zero_below x x (omega arith) ∙ sym (one' x)
  where
    one : (n : ℕ) → n * 2 ^ 0 ≡ n
    one n = omega arith

    one' : (n : ℕ) → n * 2 ^ 0 + 0 ≡ n
    one' n = omega arith
bit_or_add zero x (suc y) h = absurd (omega arith)
bit_or_add (suc k) x y h =
    let p : x * 2 ^ suc k ≡ x * 2 ^ k * 2 = omega (arith, ap (λ t. x * t) (pow-suc 2 k)) in
    let q : x * 2 ^ suc k / 2 ≡ x * 2 ^ k = omega (arith, p) in
    let r = bit_or_add k x (y / 2) (omega (arith, pow-suc 2 k)) in
    omega (arith, p, bit_or_step (x * 2 ^ suc k) y, ap (λ t. bit_or t (y / 2)) q, r)

mod_double : (a m : ℕ) → 0 < m → a % (m * 2) ≡ (a / 2) % m * 2 + a % 2
mod_double a m h =
    ap (λ t. t % (m * 2)) split
    ∙ add-mul-mod_self_left _ (m * 2) (a / 2 / m)
    ∙ mod-eq_of_lt (omega (arith, mod-lt (a / 2) h))
  where
    split : a ≡ (a / 2) % m * 2 + a % 2 + m * 2 * (a / 2 / m)
    split = omega (arith, div-add-mod (a / 2) m)

-- A mask of `k` ones keeps the low `k` bits.
pub bit_and-ones : (k a : ℕ) → bit_and a (2 ^ k - 1) ≡ a % 2 ^ k
bit_and-ones zero a = omega (arith, bit_and-zero_below a a (omega arith))
bit_and-ones (suc k) a =
    let p = pow-suc 2 k in
    let q : (2 ^ suc k - 1) / 2 ≡ 2 ^ k - 1 = omega (arith, p, two-pow-pos k) in
    omega (
      arith,
      p,
      two-pow-pos k,
      bit_and_step a (2 ^ suc k - 1),
      ap (λ t. bit_and (a / 2) t) q,
      bit_and-ones k (a / 2),
      mod_double a (2 ^ k) (two-pow-pos k),
      ap (λ t. a % t) p,
    )
