-- ===== src/Prelude/Arith.antt =====
-- Powers of two, and blocks of addresses that share their leading bits.
use Prim.Native.Nat.{ℕ, zero, suc, ◌+◌, ◌-◌, ◌*◌, ◌/◌, ◌^◌, ◌≤◌, ◌<◌}
use mathlib.Core.Path.{◌≡◌, sym, ap, ◌∙◌}
use native.Mathlib.Omega.{arith}
use native.Mathlib.Nat.{pow-suc, pow-zero, div-div-eq-div-mul, mul_assoc, mul-div_left}

pub two-pow-pos : (n : ℕ) → 0 < 2 ^ n
two-pow-pos zero = omega arith
two-pow-pos (suc n) = omega (arith, pow-suc 2 n, two-pow-pos n)

pub pow-add : (a m n : ℕ) → a ^ (m + n) ≡ a ^ m * a ^ n
pow-add a m zero = ap (λ k. a ^ k) (add0 m) ∙ rw (pow-zero a) (omega arith)
  where
    add0 : (k : ℕ) → k + zero ≡ k
    add0 k = omega arith
pow-add a m (suc n) =
    ap (λ k. a ^ k) (addS m n)
    ∙ pow-suc a (m + n)
    ∙ ap (λ k. k * a) (pow-add a m n)
    ∙ mul_assoc (a ^ m) (a ^ n) a
    ∙ ap (λ k. a ^ m * k) (sym (pow-suc a n))
  where
    addS : (k l : ℕ) → k + suc l ≡ suc (k + l)
    addS k l = omega arith

-- The leading `b` bits of a `w`-bit address.
abbrev pub block : ℕ → ℕ → ℕ → ℕ
block w b x = x / 2 ^ (w - b)

-- Fewer leading bits are the leading bits of more.
block-coarser : (w b c x : ℕ) → b ≤ c → c ≤ w → block w b x ≡ block w c x / 2 ^ (c - b)
block-coarser w b c x h k =
    ap (λ d. x / 2 ^ d) (gap w b c h k)
    ∙ ap (λ d. x / d) (pow-add 2 (w - c) (c - b))
    ∙ sym (div-div-eq-div-mul x (2 ^ (w - c)) (2 ^ (c - b)))
  where
    gap : (w b c : ℕ) → b ≤ c → c ≤ w → w - b ≡ (w - c) + (c - b)
    gap w b c h k = omega arith

-- Addresses that agree on `c` leading bits agree on fewer.
pub block_mono :
    (w b c x y : ℕ) → b ≤ c → c ≤ w → block w c x ≡ block w c y → block w b x ≡ block w b y
block_mono w b c x y h k e =
    block-coarser w b c x h k ∙ ap (λ d. d / 2 ^ (c - b)) e ∙ sym (block-coarser w b c y h k)

-- Masking keeps the leading bits.
pub block-masked : (w b x : ℕ) → block w b (block w b x * 2 ^ (w - b)) ≡ block w b x
block-masked w b x = mul-div_left (block w b x) (two-pow-pos (w - b))
