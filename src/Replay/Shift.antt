-- ===== src/Replay/Shift.antt =====
-- The in-place loops of ReplayWindow::accept move the whole bitmap up, bit by bit.
use linerate.Base.{
  ℕ, zero, suc, ◌+◌, ◌-◌, ◌*◌, ◌/◌, ◌%◌, ◌^◌, ◌≤◌, ◌<◌, ◌≡◌, refl, sym, ◌∙◌, inl, inr, Bool, false,
  List, [], ◌∷◌, ltb, ◌==◌, if◌then◌else◌, get_or, set, arith, Bool-cases, length, length-set,
  ==_iff, get_or-set_self, get_or-set_ne,
}
use linerate.Base.Bits.{
  testbit, shl, shr, testbit-bit_or, testbit-zero, testbit_above, testbit-mod, testbit-shr,
  testbit-mul, bit_or-lt,
}
use native.Mathlib.Nat.{div-le_self}
use linerate.Replay.{aligned_word, split_word, store_down, shift_bits, word_mod}

-- Bit `k` of the bitmap.
unfoldable pub bit : List ℕ → ℕ → Bool
bit bits k = testbit (get_or bits (k / 64) 0) (k % 64)

abbrev pub AreWords : List ℕ → Type 0
AreWords bits = (i : ℕ) → get_or bits i 0 < word_mod

-- A loop body that reads no word above the one it writes.
abbrev ReadsBelow : (List ℕ → ℕ → ℕ) → Type 0
ReadsBelow word =
    (xs ys : List ℕ) (i : ℕ)
    → ((j : ℕ) → j ≤ i → get_or xs j 0 ≡ get_or ys j 0)
    → word xs i ≡ word ys i

pub length-store_down :
    (word : List ℕ → ℕ → ℕ) (n : ℕ) (bits : List ℕ) → length (store_down word n bits) ≡ length bits
unfolding store_down
length-store_down word zero bits = refl
length-store_down word (suc n) bits = length-store_down word n _ ∙ length-set bits n (word bits n)

store_down_above :
    (word : List ℕ → ℕ → ℕ) (n i : ℕ) (bits : List ℕ)
    → n ≤ i
    → get_or (store_down word n bits) i 0 ≡ get_or bits i 0
unfolding store_down
store_down_above word zero i bits h = refl
store_down_above word (suc n) i bits h =
    store_down_above word n i _ (omega arith) ∙ get_or-set_ne bits n i (word bits n) 0 (omega arith)

-- Going down, each word is computed from the bitmap as it was before the loop.
store_down_below :
    (word : List ℕ → ℕ → ℕ)
    → ReadsBelow word
    → (n i : ℕ) (bits : List ℕ) → i < n
    → n ≤ length bits
    → get_or (store_down word n bits) i 0 ≡ word bits i
unfolding store_down
store_down_below word reads zero i bits h fits = absurd (omega arith)
store_down_below word reads (suc n) i bits h fits = elim (Bool-cases (i == n)) [
  | inl e ↦ rw (sym ((==_iff i n).0 e)) (
      store_down_above word i i (set bits i (word bits i)) (omega arith)
      ∙ get_or-set_self bits i (word bits i) 0 (omega arith))
  | inr e ↦
      store_down_below word reads n i (set bits n (word bits n)) (ground arith)
        (omega (arith, length-set bits n (word bits n)))
      ∙ reads _ bits i λ j le. get_or-set_ne bits n j (word bits n) 0 (ground arith)
]

aligned_word-ReadsBelow : (ws : ℕ) → ReadsBelow (aligned_word ws)
unfolding aligned_word
aligned_word-ReadsBelow ws xs ys i h = ground (arith, h (i - ws))

split_word-ReadsBelow : (ws bs : ℕ) → ReadsBelow (split_word ws bs)
unfolding split_word
split_word-ReadsBelow ws bs xs ys i h = ground (arith, h (i - ws), h (i - ws - 1))

-- A shifted word, bit by bit.
testbit-shl :
    (x k j : ℕ) → j < 64 → testbit (shl x k) j ≡ (if ltb j k then false else testbit x (j - k))
testbit-shl x k j h = testbit-mod 64 j (x * 2 ^ k) h ∙ testbit-mul k j x

module _ (bits : List ℕ) (ws i j : ℕ) (small : j < 64) where
  testbit-aligned_word :
      testbit (aligned_word ws bits i) j
      ≡ (if ltb (64 * i + j) (64 * ws) then false else bit bits (64 * i + j - 64 * ws))
  unfolding aligned_word bit
  testbit-aligned_word = ground (arith, testbit-zero j)

  testbit-split_word :
      (bs : ℕ)
      → AreWords bits
      → 0 < bs
      → bs < 64
      → testbit (split_word ws bs bits i) j ≡ (
          if ltb (64 * i + j) (64 * ws + bs) then false else bit bits (64 * i + j - (64 * ws + bs)))
  unfolding split_word bit
  testbit-split_word bs words pos lt = ground (
    arith,
    testbit-zero j,
    testbit-shl (get_or bits (i - ws) 0) bs j,
    testbit-bit_or j (shl (get_or bits (i - ws) 0) bs) (shr (get_or bits (i - ws - 1) 0) (64 - bs)),
    testbit-shr (64 - bs) j (get_or bits (i - ws - 1) 0),
    testbit_above 64 (64 - bs + j) (get_or bits (i - ws - 1) 0) (words (i - ws - 1)),
  )

-- The bitmap after the shift, for words of 64 bits and a bit `k` within them: bit `k` is the old
-- bit `k - shift`, and the bits below `shift` are clear.
pub bit-shift_bits :
    (words shift k : ℕ) (bits : List ℕ)
    → AreWords bits
    → words ≤ length bits
    → k < 64 * words
    → bit (shift_bits words shift bits) k ≡ (if ltb k shift then false else bit bits (k - shift))
unfolding shift_bits bit
bit-shift_bits words shift k bits are fits h = elim (Bool-cases (shift % 64 == 0)) [
  | inl e ↦
      rw (e, shift_bits)
        (ground (
          arith,
          store_down_below (aligned_word (shift / 64)) (aligned_word-ReadsBelow (shift / 64)) words
              (k / 64) bits,
          testbit-aligned_word bits (shift / 64) (k / 64) (k % 64),
        ))
  | inr e ↦
      rw (e, shift_bits)
        (ground (
          arith,
          store_down_below (split_word (shift / 64) (shift % 64))
              (split_word-ReadsBelow (shift / 64) (shift % 64)) words (k / 64) bits,
          testbit-split_word bits (shift / 64) (k / 64) (k % 64) (omega arith) (shift % 64) are,
        ))
]

pub length-shift_bits :
    (words shift : ℕ) (bits : List ℕ) → length (shift_bits words shift bits) ≡ length bits
unfolding shift_bits
length-shift_bits words shift bits = ground (
  arith,
  length-store_down (aligned_word (shift / 64)) words bits,
  length-store_down (split_word (shift / 64) (shift % 64)) words bits,
)

get_or-set-lt :
    (xs : List ℕ) (i k v m : ℕ) → get_or xs k 0 < m → v < m → get_or (set xs i v) k 0 < m
get_or-set-lt [] i k v m p q = p
get_or-set-lt (x ∷ xs) zero zero v m p q = q
get_or-set-lt (x ∷ xs) zero (suc k) v m p q = p
get_or-set-lt (x ∷ xs) (suc i) zero v m p q = p
get_or-set-lt (x ∷ xs) (suc i) (suc k) v m p q = get_or-set-lt xs i k v m p q

pub set-AreWords :
    (bits : List ℕ) (i v : ℕ) → AreWords bits → v < word_mod → AreWords (set bits i v)
set-AreWords bits i v are h k = get_or-set-lt bits i k v word_mod (are k) h

store_down-AreWords :
    (word : List ℕ → ℕ → ℕ)
    → ((bits : List ℕ) (i : ℕ) → AreWords bits → word bits i < word_mod)
    → (n : ℕ) (bits : List ℕ) → AreWords bits
    → AreWords (store_down word n bits)
unfolding store_down
store_down-AreWords word small zero bits are = are
store_down-AreWords word small (suc n) bits are =
    store_down-AreWords word small n (set bits n (word bits n))
      (set-AreWords bits n (word bits n) are (small bits n are))

aligned_word-lt :
    (ws : ℕ) (bits : List ℕ) (i : ℕ) → AreWords bits → aligned_word ws bits i < word_mod
unfolding aligned_word
aligned_word-lt ws bits i are = ground (arith, are (i - ws))

split_word-lt :
    (ws bs : ℕ) (bits : List ℕ) (i : ℕ) → AreWords bits → split_word ws bs bits i < word_mod
unfolding split_word
split_word-lt ws bs bits i are = ground (
  arith,
  are (i - ws - 1),
  div-le_self (get_or bits (i - ws - 1) 0) (2 ^ (64 - bs)),
  bit_or-lt 64 (shl (get_or bits (i - ws) 0) bs) (shr (get_or bits (i - ws - 1) 0) (64 - bs)),
)

pub shift_bits-AreWords :
    (words shift : ℕ) (bits : List ℕ) → AreWords bits → AreWords (shift_bits words shift bits)
unfolding shift_bits
shift_bits-AreWords words shift bits are = elim (Bool-cases (shift % 64 == 0)) [
  | inl e ↦ rw (e, shift_bits) (store_down-AreWords _ (aligned_word-lt (shift / 64)) words bits are)
  | inr e ↦
      rw (e, shift_bits)
        (store_down-AreWords _ (split_word-lt (shift / 64) (shift % 64)) words bits are)
]
