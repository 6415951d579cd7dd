-- ===== src/Replay/Bitmap.antt =====
-- Marking, clearing and testing one bit of the bitmap.
use native.Mathlib.Nat.{mod-eq_of_lt, pow-le-pow_right}
use linerate.Base.{
  ℕ, zero, suc, ◌+◌, ◌*◌, ◌/◌, ◌%◌, ◌^◌, ◌<◌, ◌≡◌, refl, ◌∙◌, inl, inr, true, false, not, List, [],
  ◌∷◌, bit_and, bit_or, ltb, ◌==◌, if◌then◌else◌, get_or, set, arith, Bool-cases, length, replicate,
  get_or-set_self, get_or-set_ne, get_or-replicate,
}
use linerate.Base.Bits.{shl, testbit-bit_or, testbit-zero, testbit-pow, bit_and-pow}
use linerate.Replay.{fill_zero, word_mod}
use linerate.Replay.Shift.{bit, AreWords}

one-shl : (m : ℕ) → m < 64 → shl 1 m ≡ 2 ^ m
one-shl m h = omega (
  arith,
  mod-eq_of_lt {n = 2 ^ m} {m = 2 ^ 64}
      (omega (arith, pow-le-pow_right {n = 2} (omega arith) {i = m} {j = 63} (omega arith))),
)

-- Writing back a word with bit `m` set marks that place and no other.
pub bit-mark :
    (bits : List ℕ) (i m k : ℕ)
    → i < length bits
    → m < 64
    → bit (set bits i (bit_or (get_or bits i 0) (2 ^ m))) k
      ≡ (if k == 64 * i + m then true else bit bits k)
unfolding bit
bit-mark bits i m k h small = elim (Bool-cases (k / 64 == i)) [
  | inl e ↦ ground (
    arith,
    get_or-set_self bits i (bit_or (get_or bits i 0) (2 ^ m)) 0 h,
    testbit-bit_or (k % 64) (get_or bits i 0) (2 ^ m),
    testbit-pow m (k % 64),
  )
  | inr e ↦ ground (arith, get_or-set_ne bits i (k / 64) (bit_or (get_or bits i 0) (2 ^ m)) 0)
]

-- The test of the code reads the bit at `back`.
pub bit_test :
    (bits : List ℕ) (back : ℕ)
    → (bit_and (get_or bits (back / 64) 0) (shl 1 (back % 64)) == 0) ≡ not (bit bits back)
unfolding bit
bit_test bits back = rw (one-shl (back % 64) (omega arith)) (bit_and-pow (back % 64) _)

pub bit-mark_back :
    (bits : List ℕ) (back k : ℕ)
    → back < 64 * length bits
    → bit (set bits (back / 64) (bit_or (get_or bits (back / 64) 0) (shl 1 (back % 64)))) k
      ≡ (if k == back then true else bit bits k)
bit-mark_back bits back k h =
    rw (one-shl (back % 64) (omega arith))
      (bit-mark bits (back / 64) (back % 64) k (omega arith) (omega arith) ∙ ground arith)

get_or-clear : (bits : List ℕ) (i : ℕ) → get_or (fill_zero bits) i 0 ≡ 0
get_or-clear [] i = refl
get_or-clear (x ∷ xs) zero = refl
get_or-clear (x ∷ xs) (suc i) = get_or-clear xs i

pub bit-clear : (bits : List ℕ) (k : ℕ) → bit (fill_zero bits) k ≡ false
unfolding bit
bit-clear bits k = rw (get_or-clear bits (k / 64)) (testbit-zero (k % 64))

pub bit-zeros : (n k : ℕ) → bit (replicate n 0) k ≡ false
unfolding bit
bit-zeros n k = rw (get_or-replicate {A = ℕ} n (k / 64) 0) (testbit-zero (k % 64))

pub fill_zero-AreWords : (bits : List ℕ) → AreWords (fill_zero bits)
fill_zero-AreWords bits i = omega (arith, get_or-clear bits i)

pub one-shl-lt : (m : ℕ) → shl 1 m < word_mod
one-shl-lt m = omega arith

-- The first packet's write: the lowest word is one, the others stay.
pub bit-first :
    (bits : List ℕ) (k : ℕ)
    → 0 < length bits
    → bit (set bits 0 1) k ≡ (if ltb k 64 then k == 0 else bit bits k)
unfolding bit
bit-first bits k h = elim (Bool-cases (k / 64 == 0)) [
  | inl e ↦ ground (arith, get_or-set_self bits 0 1 0 h, testbit-pow 0 (k % 64))
  | inr e ↦ ground (arith, get_or-set_ne bits 0 (k / 64) 1 0)
]
