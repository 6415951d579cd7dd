-- ===== src/Base/Xor.antt =====
-- When `|` and `^` of numbers are 0: what a comparison that gathers differences relies on.
use Prim.Native.Nat.{
  ℕ, zero, suc, ◌+◌, ◌*◌, ◌/◌, ◌%◌, ◌≤◌, bit_or, bit_xor, differ, bit_xor-bitwise,
}
use mathlib.Core.Path.{◌≡◌, refl, ap, ◌∙◌}
use native.Mathlib.Omega.{arith}
use linerate.Base.Bits.{digits_split, bit_or_split}

pub zero-bit_xor : (b : ℕ) → bit_xor 0 b ≡ b
zero-bit_xor b = bit_xor-bitwise 0 b

differ-zero : (x y : ℕ) → differ x y ≡ 0 → x ≡ y
differ-zero zero y h = omega arith
differ-zero (suc x) zero h = h
differ-zero (suc x) (suc y) h = ap suc (differ-zero x y h)

differ_self : (x : ℕ) → differ x x ≡ 0
differ_self zero = refl
differ_self (suc x) = differ_self x

pub bit_xor_split : (a b : ℕ) → bit_xor a b ≡ bit_xor (a / 2) (b / 2) * 2 + differ (a % 2) (b % 2)
bit_xor_split a b = omega (
  arith,
  digits_split (λ y. y) differ a b (omega arith),
  bit_xor-bitwise a b,
  bit_xor-bitwise (a / 2) (b / 2),
)

or_zero : (n a b : ℕ) → a + b ≤ n → bit_or a b ≡ 0 → (a ≡ 0) × (b ≡ 0)
or_zero zero a b le h = (omega arith, omega arith)
or_zero (suc n) zero zero le h = (refl, refl)
or_zero (suc n) zero (suc b) le h =
    let halves = or_zero n 0 (suc b / 2) (omega arith) (omega (arith, bit_or_split 0 (suc b))) in
    (refl, omega (arith, bit_or_split 0 (suc b), halves))
or_zero (suc n) (suc a) b le h =
    let halves =
      or_zero n (suc a / 2) (b / 2) (omega arith) (omega (arith, bit_or_split (suc a) b)) in
    (omega (arith, bit_or_split (suc a) b, halves), omega (arith, bit_or_split (suc a) b, halves))

pub bit_or-zero : (a b : ℕ) → bit_or a b ≡ 0 → (a ≡ 0) × (b ≡ 0)
bit_or-zero a b h = or_zero (a + b) a b (omega arith) h

xor_zero : (n a b : ℕ) → a + b ≤ n → bit_xor a b ≡ 0 → a ≡ b
xor_zero zero a b le h = omega arith
xor_zero (suc n) zero b le h = omega (arith, zero-bit_xor b)
xor_zero (suc n) (suc a) b le h =
    let step = bit_xor_split (suc a) b in
    let same = differ-zero (suc a % 2) (b % 2) (omega (arith, step)) in
    let halves = xor_zero n (suc a / 2) (b / 2) (omega arith) (omega (arith, step)) in
    omega (arith, same, halves)

pub bit_xor-zero : (a b : ℕ) → bit_xor a b ≡ 0 → a ≡ b
bit_xor-zero a b h = xor_zero (a + b) a b (omega arith) h

xor_self : (n a : ℕ) → a ≤ n → bit_xor a a ≡ 0
xor_self zero a le = ap (λ t. bit_xor t t) {y = 0} (omega arith) ∙ zero-bit_xor 0
xor_self (suc n) zero le = zero-bit_xor 0
xor_self (suc n) (suc a) le = omega (
  arith,
  bit_xor_split (suc a) (suc a),
  xor_self n (suc a / 2) (omega arith),
  differ_self (suc a % 2),
)

pub bit_xor_self : (a : ℕ) → bit_xor a a ≡ 0
bit_xor_self a = xor_self a a (omega arith)
