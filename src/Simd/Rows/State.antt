-- ===== src/Simd/Rows/State.antt =====
-- The state of ChaCha20 as rows, and rotations as sums, which both vector versions need.
use linerate.Base.{
  ℕ, ◌+◌, ◌-◌, ◌*◌, ◌/◌, ◌%◌, ◌^◌, ◌<◌, ◌≡◌, refl, sym, ap, ◌∙◌, List, bit_or, arith,
}
use linerate.Base.Words.{bit_or-add_high}
use linerate.Simd.{shl32, rotl32, load32_le}
use linerate.Simd.Poly.Turn.{AreBytes, load32_le-bytes}
use linerate.Simd.Poly.Rfc.{All-AreBytes}
use linerate.Simd.Chacha.{sigma, load_words, chacha_state}
use linerate.Simd.Rows.{Row, row_map, row_at, IsWord, AreWords, Regs}
use linerate.Simd.Rows.Rounds.{words}

-- The two parts of a rotation do not overlap.
pub rotl32-parts :
    (n x : ℕ)
    → x / 2 ^ (32 - n) < 2 ^ n
    → shl32 x n ≡ x % 2 ^ (32 - n) * 2 ^ n
    → rotl32 x n ≡ shl32 x n + x / 2 ^ (32 - n)
unfolding rotl32
rotl32-parts n x low high =
    ap (λ t. bit_or t (x / 2 ^ (32 - n))) high
    ∙ bit_or-add_high n (x / 2 ^ (32 - n)) (x % 2 ^ (32 - n)) low
    ∙ sym (ap (λ t. t + x / 2 ^ (32 - n)) high)

-- Rows are equal word by word.
pub row_map-ext :
    (f g : ℕ → ℕ) (r : Row)
    → AreWords r
    → ((x : ℕ) → IsWord x → f x ≡ g x)
    → row_map f r ≡ row_map g r
row_map-ext f g r w h i = record {
  w0 = h r.w0 w.0 i;
  w1 = h r.w1 w.1 i;
  w2 = h r.w2 w.2 i;
  w3 = h r.w3 w.3 i;
}

-- A word of four bytes.
pub load32_le-lt : (m : List ℕ) (k : ℕ) → AreBytes m → IsWord (load32_le m k)
load32_le-lt m k small =
    omega (arith, load32_le-bytes m k small, small k, small (k + 1), small (k + 2), small (k + 3))

abbrev pub rows_of : List ℕ → Regs Row
rows_of st = record { a = row_at st 0; b = row_at st 4; c = row_at st 8; d = row_at st 12 }

pub words-rows_of :
    (key nonce : List ℕ) (c : ℕ)
    → words (rows_of (chacha_state key nonce c)) ≡ chacha_state key nonce c
unfolding chacha_state load_words
words-rows_of key nonce c = refl

-- The state that chacha_state makes of bytes has words.
module _ (key nonce : List ℕ) (c : ℕ) (k : AreBytes key) (n : AreBytes nonce) (h : IsWord c) where
  pub state-AreWords :
      let st = chacha_state key nonce c in
      AreWords (row_at st 0)
      × AreWords (row_at st 4)
      × AreWords (row_at st 8)
      × AreWords (row_at st 12)
  unfolding chacha_state load_words
  state-AreWords =
      let s = All-AreBytes sigma (omega arith) in
      (
        (
          load32_le-lt sigma 0 s,
          load32_le-lt sigma 4 s,
          load32_le-lt sigma 8 s,
          load32_le-lt sigma 12 s,
        ),
        (load32_le-lt key 0 k, load32_le-lt key 4 k, load32_le-lt key 8 k, load32_le-lt key 12 k),
        (
          load32_le-lt key 16 k,
          load32_le-lt key 20 k,
          load32_le-lt key 24 k,
          load32_le-lt key 28 k,
        ),
        (h, load32_le-lt nonce 0 n, load32_le-lt nonce 4 n, load32_le-lt nonce 8 n),
      )
