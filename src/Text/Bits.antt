-- ===== src/Text/Bits.antt =====
-- When the bitwise operations give zero.
use Prim.Native.Nat.{digits, differ, max, bit_or, bit_xor, bit_or-bitwise, bit_xor-bitwise}
use aocr.Prelude.{ℕ, zero, suc, ◌/◌, ◌%◌, ◌≤◌, ◌≡◌, refl, sym, ◌∙◌, ◌↔◌, arith, subst}

differ_zero : (a b : ℕ) → differ a b ≡ 0 → a ≡ b
differ_zero zero b h = sym h
differ_zero (suc a) zero h = omega arith
differ_zero (suc a) (suc b) h = omega (arith, differ_zero a b h)

differ_self : (a : ℕ) → differ a a ≡ 0
differ_self zero = refl
differ_self (suc a) = differ_self a

abbrev xor_digits : ℕ → ℕ → ℕ → ℕ
xor_digits n a b = digits (λ b. b) differ n a b

abbrev or_digits : ℕ → ℕ → ℕ → ℕ
or_digits n a b = digits (λ b. b) max n a b

xor_digits_zero : (n a b : ℕ) → a ≤ n → xor_digits n a b ≡ 0 → a ≡ b
xor_digits_zero zero zero b p h = sym h
xor_digits_zero zero (suc a) b p h = absurd (omega arith)
xor_digits_zero (suc n) zero b p h = sym h
xor_digits_zero (suc n) (suc a) b p h =
    let high : xor_digits n (suc a / 2) (b / 2) ≡ 0 = omega arith in
    let low : differ (suc a % 2) (b % 2) ≡ 0 = omega arith in
    omega (
      arith,
      xor_digits_zero n (suc a / 2) (b / 2) (omega arith) high,
      differ_zero (suc a % 2) (b % 2) low,
    )

xor_digits_self : (n a : ℕ) → a ≤ n → xor_digits n a a ≡ 0
xor_digits_self zero zero p = refl
xor_digits_self zero (suc a) p = absurd (omega arith)
xor_digits_self (suc n) zero p = refl
xor_digits_self (suc n) (suc a) p =
    omega (arith, xor_digits_self n (suc a / 2) (omega arith), differ_self (suc a % 2))

or_digits_zero : (n a b : ℕ) → a ≤ n → or_digits n a b ≡ 0 → (a ≡ 0) × (b ≡ 0)
or_digits_zero zero zero b p h = (refl, h)
or_digits_zero zero (suc a) b p h = absurd (omega arith)
or_digits_zero (suc n) zero b p h = (refl, h)
or_digits_zero (suc n) (suc a) b p h =
    let high : or_digits n (suc a / 2) (b / 2) ≡ 0 = omega arith in
    let low : max (suc a % 2) (b % 2) ≡ 0 = omega arith in
    let (x, y) = or_digits_zero n (suc a / 2) (b / 2) (omega arith) high in
    (omega (arith, low), omega (arith, low))

pub bit_xor_zero : (a b : ℕ) → (bit_xor a b ≡ 0) ↔ (a ≡ b)
bit_xor_zero a b = (
  λ h. xor_digits_zero a a b (omega arith) (sym (bit_xor-bitwise a b) ∙ h),
  λ e. subst (λ c. bit_xor a c ≡ 0) e (bit_xor-bitwise a a ∙ xor_digits_self a a (omega arith)),
)

pub bit_or_zero : (a b : ℕ) → (bit_or a b ≡ 0) ↔ ((a ≡ 0) × (b ≡ 0))
bit_or_zero a b = (
  λ h. or_digits_zero a a b (omega arith) (sym (bit_or-bitwise a b) ∙ h),
  λ (p, q). subst (λ c. bit_or a c ≡ 0) (sym q) (subst (λ c. bit_or c 0 ≡ 0) (sym p) refl),
)
