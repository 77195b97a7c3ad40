-- ===== src/Base/Xor.antt =====
-- Go's `^` on bytes: exclusive or of the binary digits.
use Prim.Native.Nat.{
  ℕ, zero, suc, ◌+◌, ◌*◌, ◌/◌, ◌%◌, ◌≤◌, ◌<◌, bit_xor, digits, differ, bit_xor-bitwise,
}
use mathlib.Core.Path.{◌≡◌, refl, ap, ◌∙◌}
use native.Mathlib.Nat.{le_refl}
use native.Mathlib.Omega.{arith}

-- What is left of the second number.
abbrev rest : ℕ → ℕ
rest b = b

-- More fuel than digits makes no difference.
xor_fuel : (k l a b : ℕ) → a ≤ k → a ≤ l → digits rest differ k a b ≡ digits rest differ l a b
xor_fuel k l zero b hk hl = go k ∙ sym_go l
  where
    go : (n : ℕ) → digits rest differ n 0 b ≡ b
    go zero = refl
    go (suc n) = refl

    sym_go : (n : ℕ) → b ≡ digits rest differ n 0 b
    sym_go zero = refl
    sym_go (suc n) = refl
xor_fuel zero l (suc a) b hk hl = absurd (omega arith)
xor_fuel (suc k) zero (suc a) b hk hl = absurd (omega arith)
xor_fuel (suc k) (suc l) (suc a) b hk hl =
    ap (λ (q : ℕ). q * 2 + differ (suc a % 2) (b % 2))
      (xor_fuel k l (suc a / 2) (b / 2) (omega (arith, hk)) (omega (arith, hl)))

-- The lowest digit, and the others.
xor_digit : (a b : ℕ) → bit_xor a b ≡ bit_xor (a / 2) (b / 2) * 2 + differ (a % 2) (b % 2)
xor_digit zero b = simp bit_xor-bitwise (omega arith)
xor_digit (suc a) b = simp bit_xor-bitwise (
    ap (λ (q : ℕ). q * 2 + differ (suc a % 2) (b % 2))
      (xor_fuel a (suc a / 2) (suc a / 2) (b / 2) (omega arith) (le_refl _)))

differ-differ : (x y : ℕ) → x < 2 → y < 2 → (differ x y < 2) × (differ (differ x y) y ≡ x)
differ-differ zero zero hx hy = (omega arith, refl)
differ-differ zero (suc zero) hx hy = (omega arith, refl)
differ-differ (suc zero) zero hx hy = (omega arith, refl)
differ-differ (suc zero) (suc zero) hx hy = (omega arith, refl)
differ-differ (suc (suc x)) y hx hy = absurd (omega (arith, hx))
differ-differ x (suc (suc y)) hx hy = absurd (omega (arith, hy))

xor_digit-xor_digit :
    (a b q : ℕ)
    → q ≡ bit_xor (a / 2) (b / 2)
    → bit_xor q (b / 2) ≡ a / 2
    → bit_xor (bit_xor a b) b ≡ a
xor_digit-xor_digit a b q is ih =
    let d = differ (a % 2) (b % 2) in
    let low = differ-differ (a % 2) (b % 2) (omega arith) (omega arith) in
    let x : bit_xor a b ≡ q * 2 + d = omega (arith, xor_digit a b, is) in
    let half : (q * 2 + d) / 2 ≡ q = omega (arith, low.0) in
    let digit : (q * 2 + d) % 2 ≡ d = omega (arith, low.0) in
    ap (λ (y : ℕ). bit_xor y b) x
    ∙ xor_digit (q * 2 + d) b
    ∙ ap (λ (y : ℕ). bit_xor y (b / 2) * 2 + differ ((q * 2 + d) % 2) (b % 2)) half
    ∙ ap (λ (y : ℕ). bit_xor q (b / 2) * 2 + differ y (b % 2)) digit
    ∙ omega (arith, ih, low.1)

xor_within : (k a b : ℕ) → a + b ≤ k → bit_xor (bit_xor a b) b ≡ a
xor_within zero zero zero h = refl
xor_within zero (suc a) b h = absurd (omega (arith, h))
xor_within zero zero (suc b) h = absurd (omega (arith, h))
xor_within (suc k) zero zero h = refl
xor_within (suc k) (suc a) b h =
    xor_digit-xor_digit (suc a) b _ refl (xor_within k (suc a / 2) (b / 2) (omega (arith, h)))
xor_within (suc k) zero (suc b) h =
    xor_digit-xor_digit 0 (suc b) _ refl (xor_within k (0 / 2) (suc b / 2) (omega (arith, h)))

-- A key that is applied twice is gone.
pub bit_xor-bit_xor : (a b : ℕ) → bit_xor (bit_xor a b) b ≡ a
bit_xor-bit_xor a b = xor_within (a + b) a b (omega arith)
