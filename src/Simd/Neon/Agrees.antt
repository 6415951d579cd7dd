-- ===== src/Simd/Neon/Agrees.antt =====
-- The NEON version of ChaCha20 computes what the portable one does.
use linerate.Base.{
  ℕ, ◌+◌, ◌-◌, ◌*◌, ◌/◌, ◌^◌, ◌<◌, ◌≡◌, refl, sym, ap, ◌∙◌, List, length, All, arith,
}
use linerate.Base.Words.{IsByte, u32}
use linerate.Simd.{shl32, rotl32}
use linerate.Simd.Stream.{xor_loop_same}
use linerate.Simd.Poly.Turn.{AreBytes}
use linerate.Simd.Poly.Rfc.{All-AreBytes}
use linerate.Simd.Chacha.{chacha_state, next_block, chacha_block_portable, chacha_xor_portable}
use linerate.Simd.Chacha.Involution.{next_block-chacha_state}
use linerate.Simd.Rows.{Row, row_map, row_zip, IsWord}
use linerate.Simd.Rows.Rounds.{words}
use linerate.Simd.Rows.State.{rotl32-parts, row_map-ext, state-AreWords, rows_of, words-rows_of}
use linerate.Simd.Rows.Seen.{IsLanes, seen, block-seen}
use linerate.Simd.Neon.{
  Intrinsics, neon_lanes, load_regs, chacha_block_neon, chacha_xor_neon, IsNeon,
}

-- A shift with insertion of the bits that it loses is a rotation.
inserted16 : (x : ℕ) → x < 2 ^ 32 → shl32 x 16 / 2 ^ 16 * 2 ^ 16 + x / 2 ^ 16 ≡ rotl32 x 16
inserted16 x h = omega (arith, rotl32-parts 16 x (omega arith) (omega arith))

inserted12 : (x : ℕ) → x < 2 ^ 32 → shl32 x 12 / 2 ^ 12 * 2 ^ 12 + x / 2 ^ 20 ≡ rotl32 x 12
inserted12 x h = omega (arith, rotl32-parts 12 x (omega arith) (omega arith))

inserted8 : (x : ℕ) → x < 2 ^ 32 → shl32 x 8 / 2 ^ 8 * 2 ^ 8 + x / 2 ^ 24 ≡ rotl32 x 8
inserted8 x h = omega (arith, rotl32-parts 8 x (omega arith) (omega arith))

inserted7 : (x : ℕ) → x < 2 ^ 32 → shl32 x 7 / 2 ^ 7 * 2 ^ 7 + x / 2 ^ 25 ≡ rotl32 x 7
inserted7 x h = omega (arith, rotl32-parts 7 x (omega arith) (omega arith))

module _ {V : Type 0} (i : Intrinsics V) (view : V → Row) (l : IsNeon i view) where
  rotl_neon-row :
      (x : V) (n m : ℕ)
      → n < 32
      → m ≡ 32 - n
      → ((w : ℕ) → IsWord w → shl32 w n / 2 ^ (32 - m) * 2 ^ (32 - m) + w / 2 ^ m ≡ rotl32 w n)
      → view (i.vsriq_n_u32 (i.vshlq_n_u32 x n) x m) ≡ row_map (λ w. rotl32 w n) (view x)
  rotl_neon-row x n m lt e h =
      l.inserts (i.vshlq_n_u32 x n) x m (omega arith)
      ∙ ap (λ r. row_zip (λ v w. v / 2 ^ (32 - m) * 2 ^ (32 - m) + w / 2 ^ m) r (view x))
          (l.shifts x n lt)
      ∙ row_map-ext (λ w. shl32 w n / 2 ^ (32 - m) * 2 ^ (32 - m) + w / 2 ^ m) (λ w. rotl32 w n)
          (view x) (l.fits x) h

  neon-IsLanes : IsLanes (neon_lanes i) view
  neon-IsLanes = record {
    adds = l.adds;
    xors = l.xors;
    rotates16 = λ x. rotl_neon-row x 16 16 (omega arith) refl inserted16;
    rotates12 = λ x. rotl_neon-row x 12 20 (omega arith) refl inserted12;
    rotates8 = λ x. rotl_neon-row x 8 24 (omega arith) refl inserted8;
    rotates7 = λ x. rotl_neon-row x 7 25 (omega arith) refl inserted7;
    downs1 = λ x. l.extracts x x 1 (omega arith);
    downs2 = λ x. l.extracts x x 2 (omega arith);
    downs3 = λ x. l.extracts x x 3 (omega arith);
  }

  block-neon :
      (key nonce : List ℕ) (c : ℕ)
      → AreBytes key
      → AreBytes nonce
      → IsWord c
      → chacha_block_neon i (chacha_state key nonce c)
        ≡ chacha_block_portable (chacha_state key nonce c)
  unfolding chacha_block_neon
  block-neon key nonce c k n h =
      let (wa, wb, wc, wd) = state-AreWords key nonce c k n h in
      let st = chacha_state key nonce c in
      let g0 = load_regs i st in
      let loaded : seen (neon_lanes i) view neon-IsLanes g0 ≡ rows_of st =
        simp (l.loads st 0 wa, l.loads st 4 wb, l.loads st 8 wc, l.loads st 12 wd) in
      simp (l.stores) (block-seen (neon_lanes i) view neon-IsLanes g0)
      ∙ ap (λ r. chacha_block_portable (words r)) loaded
      ∙ ap chacha_block_portable (words-rows_of key nonce c)

  -- The NEON version gives what the portable version gives, for a key and a nonce of bytes and a
  -- counter of 32 bits.
  pub chacha_xor_neon-portable :
      (key nonce : List ℕ) (c : ℕ) (xs : List ℕ)
      → All IsByte key
      → All IsByte nonce
      → IsWord c
      → chacha_xor_neon i key nonce c xs ≡ chacha_xor_portable key nonce c xs
  unfolding chacha_xor_neon chacha_xor_portable
  chacha_xor_neon-portable key nonce c xs k n h =
      ap (λ r. r.1)
        (xor_loop_same 64 (chacha_block_neon i) chacha_block_portable next_block
          (λ s. (c : ℕ) × IsWord c × (s ≡ chacha_state key nonce c))
          (λ s (c, w, e).
            ap (chacha_block_neon i) e
            ∙ block-neon key nonce c (All-AreBytes key k) (All-AreBytes nonce n) w
            ∙ ap chacha_block_portable (sym e))
          (λ s (c, w, e).
            (u32 (c + 1), omega arith, ap next_block e ∙ next_block-chacha_state key nonce c))
          (length xs) (chacha_state key nonce c) xs (c, h, refl))
