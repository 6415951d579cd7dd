-- ===== src/Base/Bits.antt =====
-- The bits of a number, and what `|`, `&` and the shifts of `uint64_t` do to each of them.
use Prim.Native.Nat.{digits, max, bit_or-bitwise, bit_and-bitwise}
use native.Mathlib.Nat.{
  pow-suc, pow-succ', mod-mod_of_dvd, div-div-eq-div-mul, mul-one, dvd_of_mod-eq-zero,
  mul-add-mod_self_right, mod-eq_of_lt, mod-lt, one-le-pow, div-add-mod',
}
use linerate.Base.Tests.{ltb, ◌==◌, if◌then◌else◌}
use Prim.Native.Nat.{ℕ, zero, suc, ◌+◌, ◌-◌, ◌*◌, ◌/◌, ◌%◌, ◌^◌, ◌≤◌, ◌<◌, min, bit_and, bit_or}
use mathlib.Core.Path.{◌≡◌, refl, sym, ap, ap₂, ◌∙◌}
use mathlib.Core.Bool.{Bool, false, not, ◌||◌}
use native.Mathlib.Omega.{arith}

-- Bit `j` of `x`.
pub testbit : ℕ → ℕ → Bool
testbit x zero = x % 2 == 1
testbit x (suc j) = testbit (x / 2) j

-- `uint64_t` shifts; the count is below 64 wherever the code shifts.
abbrev pub shl : ℕ → ℕ → ℕ
shl x k = x * 2 ^ k % 2 ^ 64

abbrev pub shr : ℕ → ℕ → ℕ
shr x k = x / 2 ^ k

-- More digits to go than the first number has make no difference.
spare_digits :
    (z : ℕ → ℕ) (f : ℕ → ℕ → ℕ) (n m a b : ℕ) → a ≤ m → a ≤ n → digits z f n a b ≡ digits z f m a b
spare_digits z f zero m a b p q = none_left z f m a b (omega arith)
  where
    none_left : (z : ℕ → ℕ) (f : ℕ → ℕ → ℕ) (m a b : ℕ) → a ≡ 0 → z b ≡ digits z f m a b
    none_left z f zero a b e = refl
    none_left z f (suc m) zero b e = refl
    none_left z f (suc m) (suc a) b e = absurd (omega arith)
spare_digits z f (suc n) zero zero b p q = refl
spare_digits z f (suc n) zero (suc a) b p q = absurd (omega arith)
spare_digits z f (suc n) (suc m) zero b p q = refl
spare_digits z f (suc n) (suc m) (suc a) b p q =
    ap (λ d. d * 2 + f (suc a % 2) (b % 2))
      (spare_digits z f n m (suc a / 2) (b / 2) (omega arith) (omega arith))

-- An operation on digits, split into the lowest digit and the rest; `z` says what it is at 0.
pub digits_split :
    (z : ℕ → ℕ) (f : ℕ → ℕ → ℕ) (a b : ℕ)
    → z b ≡ z (b / 2) * 2 + f 0 (b % 2)
    → digits z f a a b ≡ digits z f (a / 2) (a / 2) (b / 2) * 2 + f (a % 2) (b % 2)
digits_split z f zero b h = h
digits_split z f (suc a) b h =
    ap (λ d. d * 2 + f (suc a % 2) (b % 2))
      (spare_digits z f a (suc a / 2) (suc a / 2) (b / 2) (omega arith) (omega arith))

pub bit_or_split : (a b : ℕ) → bit_or a b ≡ bit_or (a / 2) (b / 2) * 2 + max (a % 2) (b % 2)
bit_or_split a b = omega (
  arith,
  digits_split (λ y. y) max a b (omega arith),
  bit_or-bitwise a b,
  bit_or-bitwise (a / 2) (b / 2),
)

pub bit_and_split : (a b : ℕ) → bit_and a b ≡ bit_and (a / 2) (b / 2) * 2 + min (a % 2) (b % 2)
bit_and_split a b = omega (
  arith,
  digits_split (λ y. 0) min a b (omega arith),
  bit_and-bitwise a b,
  bit_and-bitwise (a / 2) (b / 2),
)

half_bit_or : (a b : ℕ) → bit_or a b / 2 ≡ bit_or (a / 2) (b / 2)
half_bit_or a b = omega (arith, bit_or_split a b)

half_bit_and : (a b : ℕ) → bit_and a b / 2 ≡ bit_and (a / 2) (b / 2)
half_bit_and a b = omega (arith, bit_and_split a b)

-- `y` as a multiple of `2 ^ suc n` and a rest below it.
mod_parts :
    (n y : ℕ)
    → y % 2 ^ suc n ≡ (y / 2 / 2 ^ n * 2 ^ suc n + (y / 2 % 2 ^ n * 2 + y % 2)) % 2 ^ suc n
mod_parts n y =
    ap (λ t. t % 2 ^ suc n)
      (omega (arith, ap (λ (t : ℕ). y / 2 / 2 ^ n * t) (pow-suc 2 n), div-add-mod' (y / 2) (2 ^ n)))

low_part-lt : (n y : ℕ) → y / 2 % 2 ^ n * 2 + y % 2 < 2 ^ suc n
low_part-lt n y =
    omega (arith, pow-suc 2 n, mod-lt (y / 2) {m = 2 ^ n} (one-le-pow n 2 (omega arith)))

pub half-mod : (n y : ℕ) → (y % 2 ^ suc n) / 2 ≡ (y / 2) % 2 ^ n
half-mod n y = omega (
  arith,
  mod_parts n y ∙ mul-add-mod_self_right (y / 2 / 2 ^ n) (2 ^ suc n) (y / 2 % 2 ^ n * 2 + y % 2),
  mod-eq_of_lt (low_part-lt n y),
)

pub mod_parity : (n y : ℕ) → y % 2 ^ suc n % 2 ≡ y % 2
mod_parity n y =
    mod-mod_of_dvd 2 y (dvd_of_mod-eq-zero 2 {n = 2 ^ suc n} (omega (arith, pow-suc 2 n)))

pub half-mul : (k x : ℕ) → x * 2 ^ suc k / 2 ≡ x * 2 ^ k
half-mul k x = omega (arith, ap (λ (t : ℕ). x * t) (pow-suc 2 k))

pub testbit-bit_or : (j a b : ℕ) → testbit (bit_or a b) j ≡ (testbit a j || testbit b j)
unfolding testbit
testbit-bit_or zero a b = ground (arith, bit_or_split a b)
testbit-bit_or (suc j) a b =
    ap (λ t. testbit t j) (half_bit_or a b) ∙ testbit-bit_or j (a / 2) (b / 2)

pub testbit-zero : (j : ℕ) → testbit 0 j ≡ false
unfolding testbit
testbit-zero zero = refl
testbit-zero (suc j) = testbit-zero j

pub testbit_above : (n j x : ℕ) → x < 2 ^ n → n ≤ j → testbit x j ≡ false
unfolding testbit
testbit_above zero j x h q = ap (λ t. testbit t j) (omega arith) ∙ testbit-zero j
testbit_above (suc n) zero x h q = absurd (omega arith)
testbit_above (suc n) (suc j) x h q =
    testbit_above n j (x / 2) (omega (arith, pow-suc 2 n)) (omega arith)

pub testbit-mod : (n j y : ℕ) → j < n → testbit (y % 2 ^ n) j ≡ testbit y j
unfolding testbit
testbit-mod zero j y h = absurd (omega arith)
testbit-mod (suc n) zero y h = ap (λ t. t == 1) (mod_parity n y)
testbit-mod (suc n) (suc j) y h =
    ap (λ t. testbit t j) (half-mod n y) ∙ testbit-mod n j (y / 2) (omega arith)

div-pow-suc : (k x : ℕ) → x / 2 ^ suc k ≡ x / 2 / 2 ^ k
div-pow-suc k x = sym (div-div-eq-div-mul x 2 (2 ^ k) ∙ ap (λ t. x / t) (sym (pow-succ' 2 k)))

testbit-suc-add : (k j x : ℕ) → testbit (x / 2) (k + j) ≡ testbit x (suc k + j)
unfolding testbit
testbit-suc-add k j x = ap (testbit x) {x = suc (k + j)} {y = suc k + j} (omega arith)

pub testbit-shr : (k j x : ℕ) → testbit (x / 2 ^ k) j ≡ testbit x (k + j)
unfolding testbit
testbit-shr zero j x =
    ap₂ testbit {x = x / 2 ^ 0} {y = x} {u = j} {v = 0 + j} (omega arith) (omega arith)
testbit-shr (suc k) j x =
    ap (λ t. testbit t j) (div-pow-suc k x) ∙ testbit-shr k j (x / 2) ∙ testbit-suc-add k j x

pub testbit-mul :
    (k j x : ℕ) → testbit (x * 2 ^ k) j ≡ (if ltb j k then false else testbit x (j - k))
unfolding testbit
testbit-mul zero j x = ground (arith, mul-one x)
testbit-mul (suc k) zero x = ground (arith, half-mul k x, ap (λ (t : ℕ). x * t) (pow-suc 2 k))
testbit-mul (suc k) (suc j) x =
    ap (λ t. testbit t j) (half-mul k x) ∙ testbit-mul k j x ∙ ground arith

half-pow : (m : ℕ) → 2 ^ suc m / 2 ≡ 2 ^ m
half-pow m = omega (arith, pow-suc 2 m)

bit_and-zero_fuel : (n a : ℕ) → a ≤ n → bit_and a 0 ≡ 0
bit_and-zero_fuel zero a h = ap (λ t. bit_and t 0) {x = a} {y = 0} (omega arith)
bit_and-zero_fuel (suc n) a h =
    omega (arith, bit_and_split a 0, bit_and-zero_fuel n (a / 2) (omega arith))

pub bit_and-zero : (a : ℕ) → bit_and a 0 ≡ 0
bit_and-zero a = bit_and-zero_fuel a a (omega arith)

bit_or-zero-zero : (a b : ℕ) → a < 1 → b < 1 → bit_or a b ≡ 0
bit_or-zero-zero a b p q = ap₂ bit_or {x = a} {y = 0} {u = b} {v = 0} (omega arith) (omega arith)

pub testbit-pow : (m j : ℕ) → testbit (2 ^ m) j ≡ (j == m)
unfolding testbit
testbit-pow zero zero = refl
testbit-pow zero (suc j) = testbit-zero j ∙ ground arith
testbit-pow (suc m) zero = ground (arith, pow-suc 2 m)
testbit-pow (suc m) (suc j) = ap (λ t. testbit t j) (half-pow m) ∙ testbit-pow m j ∙ ground arith

-- `x & (1 << m)` tests bit `m`.
pub bit_and-pow : (m x : ℕ) → (bit_and x (2 ^ m) == 0) ≡ not (testbit x m)
unfolding testbit
bit_and-pow zero x = ground (arith, bit_and_split x 1, bit_and-zero (x / 2))
bit_and-pow (suc m) x =
    ground (arith, bit_and_split x (2 ^ suc m), half-pow m, pow-suc 2 m, bit_and-pow m (x / 2))

-- `|` of two words is a word.
pub bit_or-lt : (n a b : ℕ) → a < 2 ^ n → b < 2 ^ n → bit_or a b < 2 ^ n
bit_or-lt zero a b p q = ground (arith, bit_or-zero-zero a b)
bit_or-lt (suc n) a b p q = omega (
  arith,
  bit_or_split a b,
  pow-suc 2 n,
  bit_or-lt n (a / 2) (b / 2) (omega (arith, pow-suc 2 n)) (omega (arith, pow-suc 2 n)),
)
