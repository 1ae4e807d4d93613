-- ===== src/Base/Bits.antt =====
-- A mask of ones keeps the remainder by a power of two.
use Prim.Native.Nat.{
  ℕ, zero, suc, ◌+◌, ◌-◌, ◌*◌, ◌/◌, ◌%◌, ◌^◌, ◌≤◌, ◌<◌, min, bit_and, digits, bit_and-bitwise,
}
use mathlib.Core.Path.{◌≡◌, sym, ap, ◌∙◌}
use native.Mathlib.Nat.{
  pow-suc, two-pow-succ, mod-lt, mod-add-div, add-mul-mod_self_left, mod-eq_of_lt, zero-mod,
}
use native.Mathlib.Omega.{arith}

pub two_pow_pos : (k : ℕ) → 0 < 2 ^ k
two_pow_pos zero = omega arith
two_pow_pos (suc k) = omega (arith, two_pow_pos k, pow-suc 2 k)

-- The remainder by twice `m` has the last digit of `a` and the remainder of the other digits.
remainder_digit : (m a : ℕ) → 0 < m → a % (m + m) ≡ (a / 2) % m * 2 + a % 2
remainder_digit m a pos =
    let quotient = a / 2 / m in
    let rest = (a / 2) % m * 2 + a % 2 in
    let whole : a ≡ rest + (m + m) * quotient = omega (arith, mod-add-div (a / 2) m) in
    let below : rest < m + m = omega (arith, mod-lt (a / 2) pos) in
    ap (λ (x : ℕ). x % (m + m)) whole
    ∙ add-mul-mod_self_left rest (m + m) quotient
    ∙ mod-eq_of_lt below

-- The digits of a conjunction with `k` ones, where `n` steps reach all digits of `a`.
digits_of_mask : (n k a : ℕ) → a ≤ n → digits (λ b. zero) min n a (2 ^ k - 1) ≡ a % 2 ^ k
digits_of_mask zero k a h =
    let none_left : a ≡ 0 = omega arith in rw none_left (sym (zero-mod (2 ^ k)))
digits_of_mask (suc n) k zero h = sym (zero-mod (2 ^ k))
digits_of_mask (suc n) zero (suc a) h =
    omega (arith, digits_of_mask n zero (suc a / 2) (omega arith))
digits_of_mask (suc n) (suc k) (suc a) h =
    let ones : 2 ^ suc k ≡ 2 ^ k + 2 ^ k = two-pow-succ k in
    let more : 0 < 2 ^ k = two_pow_pos k in
    let halved : (2 ^ k + 2 ^ k - 1) / 2 ≡ 2 ^ k - 1 = omega arith in
    rw (ones, halved)
      (omega
        (arith, digits_of_mask n k (suc a / 2) (omega arith), remainder_digit (2 ^ k) (suc a) more))

pub bit_and-mask : (k a : ℕ) → bit_and a (2 ^ k - 1) ≡ a % 2 ^ k
bit_and-mask k a = bit_and-bitwise a (2 ^ k - 1) ∙ digits_of_mask a k a (omega arith)
