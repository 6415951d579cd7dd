-- ===== src/Simd/Neon.antt =====
-- The NEON version of ChaCha20 in src/core/simd_crypto.c. The intrinsics of arm_neon.h are a
-- parameter; a vector in memory is its four words, or the bytes of these.
pub mod Agrees
use linerate.Base.{
  ℕ, zero, suc, ◌+◌, ◌-◌, ◌*◌, ◌/◌, ◌%◌, ◌^◌, ◌≤◌, ◌<◌, ◌≡◌, List, [], ◌∷◌, ◌++◌, bit_xor, length,
}
use linerate.Simd.{add32, shl32, xor_loop}
use linerate.Simd.Chacha.{chacha_state, next_block}
use linerate.Simd.Rows.{
  Row, row_map, row_zip, row_at, row_bytes, AreWords, Regs, Lanes, rounds_rows, add_rows,
}

-- The intrinsics, for registers of type `V`: a load gives the array and the position, a store the
-- bytes that it writes.
pub record Intrinsics (V : Type 0) : Type 0 where
  pub vld1q_u32 : List ℕ → ℕ → V
  pub vst1q_u32 : V → List ℕ
  pub vaddq_u32 : V → V → V
  pub veorq_u32 : V → V → V
  pub vshlq_n_u32 : V → ℕ → V
  pub vsriq_n_u32 : V → V → ℕ → V
  pub vextq_u32 : V → V → ℕ → V

module _ {V : Type 0} (i : Intrinsics V) where
  -- ROTL_NEON.
  abbrev pub rotl_neon : V → ℕ → V
  rotl_neon x n = i.vsriq_n_u32 (i.vshlq_n_u32 x n) x (32 - n)

  abbrev pub neon_lanes : Lanes V
  neon_lanes = record {
    add = i.vaddq_u32;
    xor = i.veorq_u32;
    rotl16 = λ x. rotl_neon x 16;
    rotl12 = λ x. rotl_neon x 12;
    rotl8 = λ x. rotl_neon x 8;
    rotl7 = λ x. rotl_neon x 7;
    down1 = λ x. i.vextq_u32 x x 1;
    down2 = λ x. i.vextq_u32 x x 2;
    down3 = λ x. i.vextq_u32 x x 3;
  }

  abbrev pub load_regs : List ℕ → Regs V
  load_regs st = record {
    a = i.vld1q_u32 st 0;
    b = i.vld1q_u32 st 4;
    c = i.vld1q_u32 st 8;
    d = i.vld1q_u32 st 12;
  }

  unfoldable pub chacha_block_neon : List ℕ → List ℕ
  chacha_block_neon st =
      let g0 = load_regs st in
      let g : Regs V = add_rows neon_lanes (rounds_rows neon_lanes 10 g0) g0 in
      i.vst1q_u32 g.a ++ (i.vst1q_u32 g.b ++ (i.vst1q_u32 g.c ++ i.vst1q_u32 g.d))

  unfoldable pub chacha_xor_neon : List ℕ → List ℕ → ℕ → List ℕ → List ℕ
  chacha_xor_neon key nonce counter xs =
      (xor_loop 64 chacha_block_neon next_block (length xs) (chacha_state key nonce counter) xs).1

-- What the intrinsics are documented to do, `view` being the words of a register.
pub record IsNeon {V : Type 0} (i : Intrinsics V) (view : V → Row) : Type 0 where
  pub fits : (x : V) → AreWords (view x)
  pub loads : (st : List ℕ) (k : ℕ) → AreWords (row_at st k) → view (i.vld1q_u32 st k) ≡ row_at st k
  pub stores : (x : V) → i.vst1q_u32 x ≡ row_bytes (view x)
  pub adds : (x y : V) → view (i.vaddq_u32 x y) ≡ row_zip add32 (view x) (view y)
  pub xors : (x y : V) → view (i.veorq_u32 x y) ≡ row_zip bit_xor (view x) (view y)
  pub shifts :
      (x : V) (n : ℕ) → n < 32 → view (i.vshlq_n_u32 x n) ≡ row_map (λ w. shl32 w n) (view x)
  -- The high `n` bits of the first operand stay.
  pub inserts :
      (x y : V) (n : ℕ)
      → n ≤ 32
      → view (i.vsriq_n_u32 x y n)
        ≡ row_zip (λ v w. v / 2 ^ (32 - n) * 2 ^ (32 - n) + w / 2 ^ n) (view x) (view y)
  -- Four of the eight words of the two operands, from the `n`th on.
  pub extracts :
      (x y : V) (n : ℕ)
      → n < 4
      → let r : Row = view x in
        let s : Row = view y in
        view (i.vextq_u32 x y n)
        ≡ row_at (r.w0 ∷ r.w1 ∷ r.w2 ∷ r.w3 ∷ s.w0 ∷ s.w1 ∷ s.w2 ∷ s.w3 ∷ []) n
