-- ===== src/Common/Bits.antt =====
-- When the exclusive or of two numbers is 0, and when their or is.
use Prim.Native.Nat.{
  ℕ, zero, suc, ◌≤◌, ◌/◌, ◌%◌, max, bit_or, bit_xor, digits, differ, bit_or-bitwise,
  bit_xor-bitwise,
}
use mathlib.Core.Path.{◌≡◌, refl, ◌∙◌, sym}
use native.Mathlib.Omega.{arith}

-- The operations on the first `n` digits.
abbrev xor_of : ℕ → ℕ → ℕ → ℕ
xor_of n a b = digits (λ c. c) differ n a b

abbrev or_of : ℕ → ℕ → ℕ → ℕ
or_of n a b = digits (λ c. c) max n a b

differ_zero : (a b : ℕ) → differ a b ≡ 0 → a ≡ b
differ_zero zero b h = sym h
differ_zero (suc a) zero h = h
differ_zero (suc a) (suc b) h = omega (arith, differ_zero a b h)

differ_self : (a : ℕ) → differ a a ≡ 0
differ_self zero = refl
differ_self (suc a) = differ_self a

xor_of-zero : (n a b : ℕ) → a ≤ n → xor_of n a b ≡ 0 → a ≡ b
xor_of-zero zero zero b h e = sym e
xor_of-zero zero (suc a) b h e = absurd (omega arith)
xor_of-zero (suc n) zero b h e = sym e
xor_of-zero (suc n) (suc a) b h e =
    let high = xor_of-zero n (suc a / 2) (b / 2) (omega arith) (omega (arith, e)) in
    let low = differ_zero (suc a % 2) (b % 2) (omega (arith, e)) in omega (arith, high, low)

xor_of_self : (n a : ℕ) → a ≤ n → xor_of n a a ≡ 0
xor_of_self zero zero h = refl
xor_of_self zero (suc a) h = absurd (omega arith)
xor_of_self (suc n) zero h = refl
xor_of_self (suc n) (suc a) h =
    omega (arith, xor_of_self n (suc a / 2) (omega arith), differ_self (suc a % 2))

or_of-zero : (n a b : ℕ) → a ≤ n → or_of n a b ≡ 0 → (a ≡ 0) × (b ≡ 0)
or_of-zero zero zero b h e = (refl, e)
or_of-zero zero (suc a) b h e = absurd (omega arith)
or_of-zero (suc n) zero b h e = (refl, e)
or_of-zero (suc n) (suc a) b h e =
    let (high, low) = or_of-zero n (suc a / 2) (b / 2) (omega arith) (omega (arith, e)) in
    absurd (omega (arith, high, low, e))

pub bit_xor-zero : (a b : ℕ) → bit_xor a b ≡ 0 → a ≡ b
bit_xor-zero a b h = xor_of-zero a a b (omega arith) (sym (bit_xor-bitwise a b) ∙ h)

pub bit_xor_self : (a : ℕ) → bit_xor a a ≡ 0
bit_xor_self a = bit_xor-bitwise a a ∙ xor_of_self a a (omega arith)

pub bit_or-zero : (a b : ℕ) → bit_or a b ≡ 0 → (a ≡ 0) × (b ≡ 0)
bit_or-zero a b h = or_of-zero a a b (omega arith) (sym (bit_or-bitwise a b) ∙ h)
