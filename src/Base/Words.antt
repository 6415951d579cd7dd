-- ===== src/Base/Words.antt =====
-- Machine words as numbers: `&` with a mask of ones, `|` of disjoint parts, `^` applied twice.
use native.Mathlib.Nat.{pow-suc, one-le-pow, div-add-mod', mod-lt}
use Prim.Native.Nat.{
  max, ℕ, zero, suc, ◌+◌, ◌-◌, ◌*◌, ◌/◌, ◌%◌, ◌^◌, ◌≤◌, ◌<◌, bit_and, bit_or, bit_xor, differ,
  bit_or-bitwise,
}
use mathlib.Core.Path.{◌≡◌, refl, ap, ap₂, ◌∙◌}
use native.Mathlib.Omega.{arith}
use linerate.Base.Bits.{bit_or_split, bit_and_split, bit_and-zero, half-mod, half-mul, mod_parity}
use linerate.Base.Xor.{bit_xor_split}

abbrev pub byte : ℕ → ℕ
byte x = x % 256

abbrev pub u32 : ℕ → ℕ
u32 x = x % 2 ^ 32

abbrev pub IsByte : ℕ → Type 0
IsByte x = x < 256

differ_bit : (x y : ℕ) → x < 2 → y < 2 → differ x y < 2
differ_bit zero y p q = q
differ_bit (suc x) zero p q = p
differ_bit (suc x) (suc y) p q = differ_bit x y (omega arith) (omega arith)

differ_twice : (x y : ℕ) → x < 2 → y < 2 → differ (differ x y) y ≡ x
differ_twice zero zero p q = refl
differ_twice zero (suc zero) p q = refl
differ_twice zero (suc (suc y)) p q = absurd (omega arith)
differ_twice (suc zero) zero p q = refl
differ_twice (suc zero) (suc zero) p q = refl
differ_twice (suc zero) (suc (suc y)) p q = absurd (omega arith)
differ_twice (suc (suc x)) y p q = absurd (omega arith)

xor_small : (n a b : ℕ) → a < 1 → b < 1 → bit_xor a b ≡ 0
xor_small n a b p q = ap₂ bit_xor {x = a} {y = 0} {u = b} {v = 0} (omega arith) (omega arith)

-- `^` of two words is a word.
pub bit_xor-lt : (n a b : ℕ) → a < 2 ^ n → b < 2 ^ n → bit_xor a b < 2 ^ n
bit_xor-lt zero a b p q = omega (arith, xor_small 0 a b)
bit_xor-lt (suc n) a b p q = omega (
  arith,
  bit_xor_split a b,
  differ_bit (a % 2) (b % 2) (omega arith) (omega arith),
  pow-suc 2 n,
  bit_xor-lt n (a / 2) (b / 2) (omega (arith, pow-suc 2 n)) (omega (arith, pow-suc 2 n)),
)

cancel_step :
    (a b c h d : ℕ) → c ≡ h * 2 + d → d < 2 → bit_xor c b ≡ bit_xor h (b / 2) * 2 + differ d (b % 2)
cancel_step a b c h d e lt =
    bit_xor_split c b
    ∙ ap₂ (λ u v. bit_xor u (b / 2) * 2 + differ v (b % 2)) {x = c / 2} {y = h} {u = c % 2} {v = d}
        (omega arith) (omega arith)

xor_cancel_fuel : (n a b : ℕ) → a + b ≤ n → bit_xor (bit_xor a b) b ≡ a
xor_cancel_fuel zero a b le =
    ap₂ (λ u v. bit_xor (bit_xor u v) v) {x = a} {y = 0} {u = b} {v = 0} (omega arith) (omega arith)
    ∙ omega arith
xor_cancel_fuel (suc n) zero zero le = refl
xor_cancel_fuel (suc n) zero (suc b) le = omega (
  arith,
  cancel_step 0 (suc b) (bit_xor 0 (suc b)) (bit_xor 0 (suc b / 2)) (differ 0 (suc b % 2))
      (bit_xor_split 0 (suc b)) (differ_bit 0 (suc b % 2) (omega arith) (omega arith)),
  xor_cancel_fuel n 0 (suc b / 2) (omega arith),
  differ_twice 0 (suc b % 2) (omega arith) (omega arith),
)
xor_cancel_fuel (suc n) (suc a) b le = omega (
  arith,
  cancel_step (suc a) b (bit_xor (suc a) b) (bit_xor (suc a / 2) (b / 2))
      (differ (suc a % 2) (b % 2)) (bit_xor_split (suc a) b)
      (differ_bit (suc a % 2) (b % 2) (omega arith) (omega arith)),
  xor_cancel_fuel n (suc a / 2) (b / 2) (omega arith),
  differ_twice (suc a % 2) (b % 2) (omega arith) (omega arith),
)

-- `(a ^ b) ^ b` is `a`.
pub bit_xor_cancel : (a b : ℕ) → bit_xor (bit_xor a b) b ≡ a
bit_xor_cancel a b = xor_cancel_fuel (a + b) a b (omega arith)

and_fuel_le : (n a b : ℕ) → b ≤ n → bit_and a b ≤ b
and_fuel_le n a zero le = omega (arith, bit_and-zero a)
and_fuel_le zero a (suc b) le = absurd (omega arith)
and_fuel_le (suc n) a (suc b) le =
    omega (arith, bit_and_split a (suc b), and_fuel_le n (a / 2) (suc b / 2) (omega arith))

-- `&` with a mask stays below the mask.
pub bit_and-le : (a b : ℕ) → bit_and a b ≤ b
bit_and-le a b = and_fuel_le b a b (omega arith)

ones_half : (n : ℕ) → (2 ^ suc n - 1) / 2 ≡ 2 ^ n - 1
ones_half n = omega (arith, pow-suc 2 n)

-- `& (2^n - 1)` keeps the low `n` bits.
pub bit_and-ones : (n x : ℕ) → bit_and x (2 ^ n - 1) ≡ x % 2 ^ n
bit_and-ones zero x = omega (arith, bit_and-zero x)
bit_and-ones (suc n) x = omega (
  arith,
  bit_and_split x (2 ^ suc n - 1),
  ap (λ t. bit_and (x / 2) t) (ones_half n),
  bit_and-ones n (x / 2),
  half-mod n x,
  mod_parity n x,
  pow-suc 2 n,
  one-le-pow n 2 (omega arith),
)

pub zero_or : (b : ℕ) → bit_or 0 b ≡ b
zero_or b = bit_or-bitwise 0 b

even : (n b : ℕ) → b * 2 ^ suc n % 2 ≡ 0
even n b = omega (arith, ap (λ (t : ℕ). b * t) (pow-suc 2 n))

or_zero_right : (n a : ℕ) → a ≤ n → bit_or a 0 ≡ a
or_zero_right n zero le = refl
or_zero_right zero (suc a) le = absurd (omega arith)
or_zero_right (suc n) (suc a) le =
    omega (arith, bit_or_split (suc a) 0, or_zero_right n (suc a / 2) (omega arith))

pub bit_or-zero_right : (a : ℕ) → bit_or a 0 ≡ a
bit_or-zero_right a = or_zero_right a a (omega arith)

-- `|` of parts that do not overlap is their sum.
pub bit_or-add : (n a b : ℕ) → a < 2 ^ n → bit_or a (b * 2 ^ n) ≡ a + b * 2 ^ n
bit_or-add zero a b h =
    ap (λ t. bit_or t (b * 2 ^ 0)) {x = a} {y = 0} (omega arith) ∙ zero_or (b * 2 ^ 0) ∙ omega arith
bit_or-add (suc n) a b h = omega (
  arith,
  bit_or_split a (b * 2 ^ suc n),
  ap (λ t. bit_or (a / 2) t) (half-mul n b),
  bit_or-add n (a / 2) b (omega (arith, pow-suc 2 n)),
  even n b,
  half-mul n b,
)

-- The same, with the high part first.
pub bit_or-add_high : (n a b : ℕ) → a < 2 ^ n → bit_or (b * 2 ^ n) a ≡ b * 2 ^ n + a
bit_or-add_high zero a b h =
    ap (bit_or (b * 2 ^ 0)) {x = a} {y = 0} (omega arith)
    ∙ bit_or-zero_right (b * 2 ^ 0)
    ∙ omega arith
bit_or-add_high (suc n) a b h = omega (
  arith,
  bit_or_split (b * 2 ^ suc n) a,
  ap (λ t. bit_or t (a / 2)) (half-mul n b),
  bit_or-add_high n (a / 2) b (omega (arith, pow-suc 2 n)),
  even n b,
  half-mul n b,
)

halves : (n a b : ℕ) → (a + b * 2 ^ suc n) / 2 ≡ a / 2 + b * 2 ^ n
halves n a b = omega (arith, ap (λ (t : ℕ). b * t) (pow-suc 2 n))

last_bits : (n a b : ℕ) → (a + b * 2 ^ suc n) % 2 ≡ a % 2
last_bits n a b = omega (arith, ap (λ (t : ℕ). b * t) (pow-suc 2 n))

-- `&` of two numbers, part by part.
pub bit_and-parts :
    (n a b c d : ℕ)
    → a < 2 ^ n
    → c < 2 ^ n
    → bit_and (a + b * 2 ^ n) (c + d * 2 ^ n) ≡ bit_and a c + bit_and b d * 2 ^ n
bit_and-parts zero a b c d p q = omega (
  arith,
  ap₂ bit_and {x = a + b * 2 ^ 0} {y = b} {u = c + d * 2 ^ 0} {v = d} (omega arith) (omega arith),
  bit_and-zero a,
  ap (bit_and a) {x = c} {y = 0} (omega arith),
)
bit_and-parts (suc n) a b c d p q = omega (
  arith,
  bit_and_split (a + b * 2 ^ suc n) (c + d * 2 ^ suc n),
  bit_and_split a c,
  ap₂ bit_and (halves n a b) (halves n c d),
  bit_and-parts n (a / 2) b (c / 2) d (omega (arith, pow-suc 2 n)) (omega (arith, pow-suc 2 n)),
  last_bits n a b,
  last_bits n c d,
  ap (λ (t : ℕ). bit_and b d * t) (pow-suc 2 n),
)

-- Only the low bits meet a mask of `n` bits.
pub bit_and-low : (n x m : ℕ) → m < 2 ^ n → bit_and x m ≡ bit_and (x % 2 ^ n) m
bit_and-low n x m h =
    ap₂ bit_and {x = x} {y = x % 2 ^ n + x / 2 ^ n * 2 ^ n} {u = m} {v = m + 0 * 2 ^ n}
      (omega (arith, div-add-mod' x (2 ^ n))) (omega arith)
    ∙ bit_and-parts n (x % 2 ^ n) (x / 2 ^ n) m 0 (mod-lt x (one-le-pow n 2 (omega arith))) h
    ∙ ap (λ k. bit_and (x % 2 ^ n) m + k * 2 ^ n) (bit_and-zero (x / 2 ^ n))
    ∙ omega arith

-- `^` of two numbers, part by part.
pub bit_xor-parts :
    (n a b c d : ℕ)
    → a < 2 ^ n
    → c < 2 ^ n
    → bit_xor (a + b * 2 ^ n) (c + d * 2 ^ n) ≡ bit_xor a c + bit_xor b d * 2 ^ n
bit_xor-parts zero a b c d p q = omega (
  arith,
  ap₂ bit_xor {x = a + b * 2 ^ 0} {y = b} {u = c + d * 2 ^ 0} {v = d} (omega arith) (omega arith),
  xor_small 0 a c p q,
)
bit_xor-parts (suc n) a b c d p q = omega (
  arith,
  bit_xor_split (a + b * 2 ^ suc n) (c + d * 2 ^ suc n),
  bit_xor_split a c,
  ap₂ bit_xor (halves n a b) (halves n c d),
  bit_xor-parts n (a / 2) b (c / 2) d (omega (arith, pow-suc 2 n)) (omega (arith, pow-suc 2 n)),
  ap₂ differ (last_bits n a b) (last_bits n c d),
  ap (λ (t : ℕ). bit_xor b d * t) (pow-suc 2 n),
)

or_bits : (x y : ℕ) → x < 2 → y < 2 → max x y < 2
or_bits x y p q = omega arith

-- `|` of two words is a word.
pub bit_or-lt : (n a b : ℕ) → a < 2 ^ n → b < 2 ^ n → bit_or a b < 2 ^ n
bit_or-lt zero a b p q =
    omega (arith, ap₂ bit_or {x = a} {y = 0} {u = b} {v = 0} (omega arith) (omega arith), zero_or 0)
bit_or-lt (suc n) a b p q = omega (
  arith,
  bit_or_split a b,
  or_bits (a % 2) (b % 2) (omega arith) (omega arith),
  pow-suc 2 n,
  bit_or-lt n (a / 2) (b / 2) (omega (arith, pow-suc 2 n)) (omega (arith, pow-suc 2 n)),
)
