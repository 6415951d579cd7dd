-- ===== src/Simd/Avx2.antt =====
-- The AVX2 version of ChaCha20 in src/core/simd_crypto.c. The intrinsics of immintrin.h are a
-- parameter, named without the leading underscore; a call with many operands takes their list.
-- chacha_2blocks_avx2, which nothing calls, is left out.
pub mod Laws
pub mod Halves
pub mod Output
pub mod Blocks
pub mod Agrees
use linerate.Base.{
  ℕ, zero, suc, ◌+◌, ◌-◌, List, [], ◌∷◌, ◌++◌, length, take, drop, replicate, get_or, set, ltb,
  ◌==◌, if◌then◌else◌, ◌*◌,
}
use linerate.Base.Words.{u32}
use linerate.Simd.Chacha.{chacha_state}
use linerate.Simd.Rows as Rows
use linerate.Simd.Rows.{Regs, rounds_rows, add_rows}

-- The intrinsics, for registers of 256 bits of type `W` and of 128 bits of type `H`. A load gives
-- the array and the position, a store the bytes that it writes.
pub record Intrinsics (W H : Type 0) : Type 0 where
  pub mm_loadu_si128 : List ℕ → ℕ → H
  pub mm_add_epi32 : H → H → H
  pub mm_set_epi32 : List ℕ → H
  pub mm256_broadcastsi128_si256 : H → W
  pub mm256_castsi128_si256 : H → W
  pub mm256_inserti128_si256 : W → H → ℕ → W
  pub mm256_set_epi32 : List ℕ → W
  pub mm256_set_epi8 : List ℕ → W
  pub mm256_add_epi32 : W → W → W
  pub mm256_xor_si256 : W → W → W
  pub mm256_or_si256 : W → W → W
  pub mm256_slli_epi32 : W → ℕ → W
  pub mm256_srli_epi32 : W → ℕ → W
  pub mm256_shuffle_epi32 : W → ℕ → W
  pub mm256_shuffle_epi8 : W → W → W
  pub mm256_permute2x128_si256 : W → W → ℕ → W
  pub mm256_loadu_si256 : List ℕ → ℕ → W
  pub mm256_storeu_si256 : W → List ℕ

-- The operands of the two masks, from the highest byte down.
abbrev pub mask16 : List ℕ
mask16 =
    13 ∷ 12 ∷ 15 ∷ 14 ∷ 9 ∷ 8 ∷ 11 ∷ 10 ∷ 5 ∷ 4 ∷ 7 ∷ 6 ∷ 1 ∷ 0 ∷ 3 ∷ 2 ∷ 13 ∷ 12 ∷ 15 ∷ 14 ∷ 9 ∷ 8
    ∷ 11 ∷ 10 ∷ 5 ∷ 4 ∷ 7 ∷ 6 ∷ 1 ∷ 0 ∷ 3 ∷ 2 ∷ []

abbrev pub mask8 : List ℕ
mask8 =
    14 ∷ 13 ∷ 12 ∷ 15 ∷ 10 ∷ 9 ∷ 8 ∷ 11 ∷ 6 ∷ 5 ∷ 4 ∷ 7 ∷ 2 ∷ 1 ∷ 0 ∷ 3 ∷ 14 ∷ 13 ∷ 12 ∷ 15 ∷ 10 ∷ 9
    ∷ 8 ∷ 11 ∷ 6 ∷ 5 ∷ 4 ∷ 7 ∷ 2 ∷ 1 ∷ 0 ∷ 3 ∷ []

module _ {W H : Type 0} (i : Intrinsics W H) where
  abbrev pub rotl_avx2_16 : W → W
  rotl_avx2_16 x = i.mm256_shuffle_epi8 x (i.mm256_set_epi8 mask16)

  abbrev pub rotl_avx2_8 : W → W
  rotl_avx2_8 x = i.mm256_shuffle_epi8 x (i.mm256_set_epi8 mask8)

  abbrev pub rotl_avx2 : W → ℕ → W
  rotl_avx2 x n = i.mm256_or_si256 (i.mm256_slli_epi32 x n) (i.mm256_srli_epi32 x (32 - n))

  abbrev pub avx2_lanes : Rows.Lanes W
  avx2_lanes = record {
    add = i.mm256_add_epi32;
    xor = i.mm256_xor_si256;
    rotl16 = rotl_avx2_16;
    rotl12 = λ x. rotl_avx2 x 12;
    rotl8 = rotl_avx2_8;
    rotl7 = λ x. rotl_avx2 x 7;
    down1 = λ x. i.mm256_shuffle_epi32 x 0x39;
    down2 = λ x. i.mm256_shuffle_epi32 x 0x4e;
    down3 = λ x. i.mm256_shuffle_epi32 x 0x93;
  }

  -- `a0`, `b0`, `c0` and `d0`: the state of one block, and of the next, side by side.
  abbrev pub first_pair : List ℕ → Regs W
  first_pair st =
      let s3 = i.mm_loadu_si128 st 12 in
      record {
        a = i.mm256_broadcastsi128_si256 (i.mm_loadu_si128 st 0);
        b = i.mm256_broadcastsi128_si256 (i.mm_loadu_si128 st 4);
        c = i.mm256_broadcastsi128_si256 (i.mm_loadu_si128 st 8);
        d =
            i.mm256_inserti128_si256 (i.mm256_castsi128_si256 s3)
              (i.mm_add_epi32 s3 (i.mm_set_epi32 (0 ∷ 0 ∷ 0 ∷ 1 ∷ []))) 1;
      }

  -- The same with `d1`: the two blocks after these.
  abbrev pub second_pair : List ℕ → Regs W
  second_pair st =
      let g0 : Regs W = first_pair st in
      record g0 {
        d = i.mm256_add_epi32 g0.d (i.mm256_set_epi32 (0 ∷ 0 ∷ 0 ∷ 2 ∷ 0 ∷ 0 ∷ 0 ∷ 2 ∷ []));
      }

  -- The registers after ten rounds and the last addition.
  abbrev pub computed : Regs W → Regs W
  computed g = add_rows avx2_lanes (rounds_rows avx2_lanes 10 g) g

  -- Four elements of `o` for two blocks.
  abbrev pub permuted : Regs W → List W
  permuted g =
      i.mm256_permute2x128_si256 g.a g.b 0x20
      ∷ i.mm256_permute2x128_si256 g.c g.d 0x20
      ∷ i.mm256_permute2x128_si256 g.a g.b 0x31
      ∷ i.mm256_permute2x128_si256 g.c g.d 0x31
      ∷ []

  -- The loop that stores, with the input from position `k` on.
  unfoldable pub xor_out : ℕ → List W → List ℕ → List ℕ
  xor_out k [] xs = []
  xor_out k (o ∷ os) xs =
      i.mm256_storeu_si256 (i.mm256_xor_si256 (i.mm256_loadu_si256 xs k) o)
      ++ xor_out (k + 32) os xs

  unfoldable pub chacha_4blocks_avx2 : List ℕ → List ℕ → List ℕ
  chacha_4blocks_avx2 st xs =
      xor_out 0 (permuted (computed (first_pair st)) ++ permuted (computed (second_pair st))) xs

  -- What is left after the whole groups of four blocks: padded with zeros, and cut.
  unfoldable pub xor_tail : List ℕ → List ℕ → List ℕ
  xor_tail st xs =
      if length xs == 0
      then []
      else take (length xs) (chacha_4blocks_avx2 st (xs ++ replicate (256 - length xs) 0))

  -- The loop; a turn takes 256 bytes, so a fuel of their number is enough.
  unfoldable pub avx2_loop : ℕ → List ℕ → List ℕ → List ℕ
  avx2_loop zero st xs = xor_tail st xs
  avx2_loop (suc fuel) st xs =
      let rest = avx2_loop fuel (set st 12 (u32 (get_or st 12 0 + 4))) (drop 256 xs) in
      if ltb (length xs) 256 then xor_tail st xs else chacha_4blocks_avx2 st xs ++ rest

  unfoldable pub chacha_xor_avx2 : List ℕ → List ℕ → ℕ → List ℕ → List ℕ
  chacha_xor_avx2 key nonce counter xs = avx2_loop (length xs) (chacha_state key nonce counter) xs
