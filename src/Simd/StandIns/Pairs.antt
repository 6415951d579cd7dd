-- ===== src/Simd/StandIns/Pairs.antt =====
-- A stand-in for the registers of AVX2: two rows, the low one first.
use native.Mathlib.Nat.{div-le_self}
use linerate.Base.{
  ℕ, ◌+◌, ◌-◌, ◌/◌, ◌%◌, ◌^◌, ◌≡◌, refl, ◌∙◌, List, ◌++◌, get_or, bit_xor, bit_or, arith, ◌==◌,
  if◌then◌else◌, All,
}
use linerate.Base.Words.{byte, IsByte, bit_xor-lt, bit_or-lt}
use linerate.Simd.{add32, shl32}
use linerate.Simd.Poly.Turn.{AreBytes}
use linerate.Simd.Rows.{Row, row_map, row_zip, row_at, row_bytes, IsWord}
use linerate.Simd.Rows.State.{load32_le-lt}
use linerate.Simd.Avx2.{Intrinsics}
use linerate.Simd.Avx2.Laws.{selected, byte_of, shuffled, row_down, loaded, IsHalf, IsAvx2}
use linerate.Simd.StandIns.{
  cut, cut-AreWords, cut_settled, map_settled, zip_settled, get_or-lt, word_of-lt, byte_of-row_by,
  shuffled-lt, row_by,
}

abbrev pub Pair : Type 0
Pair = Row × Row

abbrev pub lo : Pair → Row
lo x = cut x.0

abbrev pub hi : Pair → Row
hi x = cut x.1

-- An operation on each half.
abbrev each : (Row → Row) → Pair → Pair
each f x = (f (lo x), f (hi x))

abbrev each2 : (Row → Row → Row) → Pair → Pair → Pair
each2 f x y = (f (lo x) (lo y), f (hi x) (hi y))

-- The halves that two hexadecimal digits of an immediate select.
abbrev half : Pair → Pair → ℕ → Row
half x y n = if n == 0 then lo x else if n == 1 then hi x else if n == 2 then lo y else hi y

abbrev operand : List ℕ → ℕ → ℕ
operand l k = byte (get_or l k 0)

abbrev pub pairs : Intrinsics Pair Row
pairs = record {
  mm_loadu_si128 = row_at;
  mm_add_epi32 = λ x y. row_zip add32 (cut x) (cut y);
  mm_set_epi32 = λ l. row_down l 0;
  mm256_broadcastsi128_si256 = λ x. (x, x);
  mm256_castsi128_si256 = λ x. (x, x);
  mm256_inserti128_si256 = λ x y n. if n == 0 then (y, x.1) else (x.0, y);
  mm256_set_epi32 = λ l. (row_down l 4, row_down l 0);
  mm256_set_epi8 = λ l. (row_by (λ k. operand l (31 - k)), row_by (λ k. operand l (15 - k)));
  mm256_add_epi32 = each2 (row_zip add32);
  mm256_xor_si256 = each2 (row_zip bit_xor);
  mm256_or_si256 = each2 (row_zip bit_or);
  mm256_slli_epi32 = λ x n. each (row_map (λ w. shl32 w n)) x;
  mm256_srli_epi32 = λ x n. each (row_map (λ w. w / 2 ^ n)) x;
  mm256_shuffle_epi32 = λ x imm. each (selected imm) x;
  mm256_shuffle_epi8 = λ x m. (
    row_by (λ k. shuffled (lo x) (byte_of (lo m) k)),
    row_by (λ k. shuffled (hi x) (byte_of (hi m) k)),
  );
  mm256_permute2x128_si256 = λ x y imm. (half x y (imm % 16), half x y (imm / 16));
  mm256_loadu_si256 = λ xs k. (loaded xs k, loaded xs (k + 16));
  mm256_storeu_si256 = λ x. row_bytes (lo x) ++ row_bytes (hi x);
}

selected_settled : (imm : ℕ) (r : Row) → cut (selected imm (cut r)) ≡ selected imm (cut r)
selected_settled imm r =
    let at = λ (k : ℕ). word_of-lt (cut r) k (cut-AreWords r) in
    cut_settled (selected imm (cut r)) (at _, at _, at _, at _)

operand-byte : (l : List ℕ) (k : ℕ) → All IsByte l → operand l k ≡ get_or l k 0
operand-byte l k h = omega (arith, get_or-lt 256 l k (omega arith) h)

shift_down-lt : (n w : ℕ) → IsWord w → IsWord (w / 2 ^ n)
shift_down-lt n w h = omega (arith, div-le_self w (2 ^ n))

loaded_settled : (xs : List ℕ) (k : ℕ) → AreBytes xs → cut (loaded xs k) ≡ loaded xs k
loaded_settled xs k h =
    let at = λ (m : ℕ). load32_le-lt xs m h in
    cut_settled (loaded xs k) (at k, at (k + 4), at (k + 8), at (k + 12))

low-IsHalf : IsHalf pairs lo 31
low-IsHalf = record {
  fits = λ x. cut-AreWords x.0;
  adds = λ x y. zip_settled add32 x.0 y.0 (λ v w p q. omega arith);
  xors = λ x y. zip_settled bit_xor x.0 y.0 (bit_xor-lt 32);
  ors = λ x y. zip_settled bit_or x.0 y.0 (bit_or-lt 32);
  shifts_left = λ x n h. map_settled (λ w. shl32 w n) x.0 (λ w p. omega arith);
  shifts_right = λ x n h. map_settled (λ w. w / 2 ^ n) x.0 (shift_down-lt n);
  shuffles = λ x imm h. selected_settled imm x.0;
  sets8 = λ l k h lt.
      byte_of-row_by (λ k. operand l (31 - k)) k (λ k. omega arith) lt ∙ operand-byte l (31 - k) h;
  shuffles8 = λ x m k lt.
      byte_of-row_by (λ k. shuffled (lo x) (byte_of (lo m) k)) k
        (λ k. shuffled-lt (lo x) (byte_of (lo m) k)) lt;
}

high-IsHalf : IsHalf pairs hi 15
high-IsHalf = record {
  fits = λ x. cut-AreWords x.1;
  adds = λ x y. zip_settled add32 x.1 y.1 (λ v w p q. omega arith);
  xors = λ x y. zip_settled bit_xor x.1 y.1 (bit_xor-lt 32);
  ors = λ x y. zip_settled bit_or x.1 y.1 (bit_or-lt 32);
  shifts_left = λ x n h. map_settled (λ w. shl32 w n) x.1 (λ w p. omega arith);
  shifts_right = λ x n h. map_settled (λ w. w / 2 ^ n) x.1 (shift_down-lt n);
  shuffles = λ x imm h. selected_settled imm x.1;
  sets8 = λ l k h lt.
      byte_of-row_by (λ k. operand l (15 - k)) k (λ k. omega arith) lt ∙ operand-byte l (15 - k) h;
  shuffles8 = λ x m k lt.
      byte_of-row_by (λ k. shuffled (hi x) (byte_of (hi m) k)) k
        (λ k. shuffled-lt (hi x) (byte_of (hi m) k)) lt;
}

pub pairs-IsAvx2 : IsAvx2 pairs lo hi cut
pairs-IsAvx2 = record {
  low = low-IsHalf;
  high = high-IsHalf;
  loads128 = λ st k h. cut_settled (row_at st k) h;
  adds128 = λ x y. zip_settled add32 x y (λ v w p q. omega arith);
  sets128 = λ l h. cut_settled (row_down l 0) h;
  broadcasts = λ x. (refl, refl);
  casts = λ x. refl;
  inserts = λ x y. (refl, refl);
  sets = λ l h k. (cut_settled (row_down l 4) k, cut_settled (row_down l 0) h);
  permutes20 =
      λ x y. (cut_settled (lo x) (cut-AreWords x.0), cut_settled (lo y) (cut-AreWords y.0));
  permutes31 =
      λ x y. (cut_settled (hi x) (cut-AreWords x.1), cut_settled (hi y) (cut-AreWords y.1));
  loads = λ xs k h. (loaded_settled xs k h, loaded_settled xs (k + 16) h);
  stores = λ x. refl;
}
