-- ===== src/Simd/Avx2/Laws.antt =====
-- What the intrinsics that the AVX2 version of ChaCha20 uses are documented to do, where `lo` and
-- `hi` see the two halves of a register of 256 bits as words, and `row` one of 128 bits.
use linerate.Base.{
  ℕ, ◌+◌, ◌-◌, ◌/◌, ◌%◌, ◌^◌, ◌<◌, ◌≡◌, List, [], ◌∷◌, ◌++◌, bit_xor, bit_or, get_or, ltb, All,
  if◌then◌else◌,
}
use linerate.Base.Words.{IsByte}
use linerate.Simd.{add32, shl32, load32_le}
use linerate.Simd.Poly.Turn.{AreBytes}
use linerate.Simd.Rows.{Row, row_map, row_zip, row_at, row_bytes, AreWords}
use linerate.Simd.Avx2.{Intrinsics}

-- The word of a row that a selector names.
abbrev pub word_of : Row → ℕ → ℕ
word_of r n = get_or (r.w0 ∷ r.w1 ∷ r.w2 ∷ r.w3 ∷ []) n 0

-- The four words that the four pairs of bits of an immediate select.
abbrev pub selected : ℕ → Row → Row
selected imm r = record {
  w0 = word_of r (imm % 4);
  w1 = word_of r (imm / 4 % 4);
  w2 = word_of r (imm / 16 % 4);
  w3 = word_of r (imm / 64 % 4);
}

abbrev pub byte_of : Row → ℕ → ℕ
byte_of r k = get_or (row_bytes r) k 0

-- The byte of a half that the byte of a mask selects; its high bit makes a zero.
abbrev pub shuffled : Row → ℕ → ℕ
shuffled r m = if ltb 127 m then 0 else byte_of r (m % 16)

-- Four operands, the last of which is the lowest word.
abbrev pub row_down : List ℕ → ℕ → Row
row_down l k = record {
  w0 = get_or l (k + 3) 0;
  w1 = get_or l (k + 2) 0;
  w2 = get_or l (k + 1) 0;
  w3 = get_or l k 0;
}

-- The words of 16 bytes in memory.
abbrev pub loaded : List ℕ → ℕ → Row
loaded xs k = record {
  w0 = load32_le xs k;
  w1 = load32_le xs (k + 4);
  w2 = load32_le xs (k + 8);
  w3 = load32_le xs (k + 12);
}

-- What acts within each half, for the half that `view` sees; its highest byte is operand `31 - top`
-- of a list of 32, counted from 0.
pub record IsHalf {W H : Type 0} (i : Intrinsics W H) (view : W → Row) (top : ℕ) : Type 0 where
  pub fits : (x : W) → AreWords (view x)
  pub adds : (x y : W) → view (i.mm256_add_epi32 x y) ≡ row_zip add32 (view x) (view y)
  pub xors : (x y : W) → view (i.mm256_xor_si256 x y) ≡ row_zip bit_xor (view x) (view y)
  pub ors : (x y : W) → view (i.mm256_or_si256 x y) ≡ row_zip bit_or (view x) (view y)
  pub shifts_left :
      (x : W) (n : ℕ) → n < 32 → view (i.mm256_slli_epi32 x n) ≡ row_map (λ w. shl32 w n) (view x)
  pub shifts_right :
      (x : W) (n : ℕ) → n < 32 → view (i.mm256_srli_epi32 x n) ≡ row_map (λ w. w / 2 ^ n) (view x)
  pub shuffles :
      (x : W) (imm : ℕ) → imm < 256 → view (i.mm256_shuffle_epi32 x imm) ≡ selected imm (view x)
  pub sets8 :
      (l : List ℕ) (k : ℕ)
      → All IsByte l
      → k < 16
      → byte_of (view (i.mm256_set_epi8 l)) k ≡ get_or l (top - k) 0
  pub shuffles8 :
      (x m : W) (k : ℕ)
      → k < 16
      → byte_of (view (i.mm256_shuffle_epi8 x m)) k ≡ shuffled (view x) (byte_of (view m) k)

pub record IsAvx2 {W H : Type 0} (i : Intrinsics W H) (lo hi : W → Row) (row : H → Row)
    : Type 0 where
  pub low : IsHalf i lo 31
  pub high : IsHalf i hi 15
  pub loads128 :
      (st : List ℕ) (k : ℕ) → AreWords (row_at st k) → row (i.mm_loadu_si128 st k) ≡ row_at st k
  pub adds128 : (x y : H) → row (i.mm_add_epi32 x y) ≡ row_zip add32 (row x) (row y)
  pub sets128 : (l : List ℕ) → AreWords (row_down l 0) → row (i.mm_set_epi32 l) ≡ row_down l 0
  pub broadcasts :
      (x : H)
      → (lo (i.mm256_broadcastsi128_si256 x) ≡ row x)
        × (hi (i.mm256_broadcastsi128_si256 x) ≡ row x)
  -- The high half is undefined.
  pub casts : (x : H) → lo (i.mm256_castsi128_si256 x) ≡ row x
  pub inserts :
      (x : W) (y : H)
      → (lo (i.mm256_inserti128_si256 x y 1) ≡ lo x) × (hi (i.mm256_inserti128_si256 x y 1) ≡ row y)
  pub sets :
      (l : List ℕ)
      → AreWords (row_down l 0)
      → AreWords (row_down l 4)
      → (lo (i.mm256_set_epi32 l) ≡ row_down l 4) × (hi (i.mm256_set_epi32 l) ≡ row_down l 0)
  -- The two immediates in use: the low halves, and the high halves.
  pub permutes20 :
      (x y : W)
      → (lo (i.mm256_permute2x128_si256 x y 0x20) ≡ lo x)
        × (hi (i.mm256_permute2x128_si256 x y 0x20) ≡ lo y)
  pub permutes31 :
      (x y : W)
      → (lo (i.mm256_permute2x128_si256 x y 0x31) ≡ hi x)
        × (hi (i.mm256_permute2x128_si256 x y 0x31) ≡ hi y)
  pub loads :
      (xs : List ℕ) (k : ℕ)
      → AreBytes xs
      → (lo (i.mm256_loadu_si256 xs k) ≡ loaded xs k)
        × (hi (i.mm256_loadu_si256 xs k) ≡ loaded xs (k + 16))
  pub stores : (x : W) → i.mm256_storeu_si256 x ≡ row_bytes (lo x) ++ row_bytes (hi x)
