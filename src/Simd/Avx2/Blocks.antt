-- ===== src/Simd/Avx2/Blocks.antt =====
-- Four blocks of the AVX2 version of ChaCha20 are four blocks of the key stream.
use linerate.Base.{
  ℕ, ◌+◌, ◌≤◌, ◌≡◌, refl, sym, ap, ap₂, ◌∙◌, List, [], ◌∷◌, ◌++◌, arith, length, append_assoc,
}
use linerate.Base.Words.{u32}
use linerate.Simd.{add32, xor_bytes}
use linerate.Simd.Poly.Turn.{AreBytes}
use linerate.Simd.Chacha.{load_words, chacha_state, chacha_block_portable}
use linerate.Simd.Chacha.Involution.{keystream}
use linerate.Simd.Rows.{Row, row_zip, row_at, IsWord, AreWords, Regs}
use linerate.Simd.Rows.Rounds.{words, regs_bytes}
use linerate.Simd.Rows.State.{state-AreWords, rows_of, words-rows_of}
use linerate.Simd.Rows.Seen.{seen, block-seen}
use linerate.Simd.Avx2.{
  Intrinsics, avx2_lanes, first_pair, second_pair, computed, permuted, chacha_4blocks_avx2,
}
use linerate.Simd.Avx2.Laws.{IsAvx2}
use linerate.Simd.Avx2.Halves.{low-IsLanes, high-IsLanes}
use linerate.Simd.Avx2.Output.{stored, xor_out-bytes}

-- A row whose counter is raised by `n`, the other words being added to 0.
raised :
    (key nonce : List ℕ) (c n m : ℕ)
    → AreWords (row_at (chacha_state key nonce c) 12)
    → m ≡ add32 c n
    → row_zip add32
        (row_at (chacha_state key nonce c) 12)
        (record { w0 = n; w1 = 0; w2 = 0; w3 = 0 })
      ≡ row_at (chacha_state key nonce m) 12
unfolding chacha_state load_words
raised key nonce c n m (h0, h1, h2, h3) e =
    let r = row_at (chacha_state key nonce c) 12 in
    let e1 : add32 r.w1 0 ≡ r.w1 = omega (arith, h1) in
    let e2 : add32 r.w2 0 ≡ r.w2 = omega (arith, h2) in
    let e3 : add32 r.w3 0 ≡ r.w3 = omega (arith, h3) in
    λ j. record { w0 = sym e j; w1 = e1 j; w2 = e2 j; w3 = e3 j }

module _ {W H : Type 0} (i : Intrinsics W H) (lo hi : W → Row) (row : H → Row)
    (l : IsAvx2 i lo hi row) where
  abbrev low : Regs W → Regs Row
  low g = seen (avx2_lanes i) lo (low-IsLanes i lo l.low) g

  abbrev high : Regs W → Regs Row
  high g = seen (avx2_lanes i) hi (high-IsLanes i hi l.high) g

  -- The registers of two blocks, in the order in which they are stored.
  stored-permuted :
      (g : Regs W) (os : List W)
      → stored i lo hi row l (permuted i g ++ os)
        ≡ regs_bytes (low g) ++ (regs_bytes (high g) ++ stored i lo hi row l os)
  stored-permuted g os =
      let (ab0, ab1) = l.permutes20 g.a g.b in
      let (cd0, cd1) = l.permutes20 g.c g.d in
      let (ab2, ab3) = l.permutes31 g.a g.b in
      let (cd2, cd3) = l.permutes31 g.c g.d in
      simp (ab0, ab1, cd0, cd1, ab2, ab3, cd2, cd3, append_assoc)

  module _ (key nonce : List ℕ) (k : AreBytes key) (n : AreBytes nonce) (c : ℕ) (h : IsWord c) where
    abbrev at : ℕ → Regs Row
    at m = rows_of (chacha_state key nonce m)

    word_at :
        AreWords (row_at (chacha_state key nonce c) 0)
        × AreWords (row_at (chacha_state key nonce c) 4)
        × AreWords (row_at (chacha_state key nonce c) 8)
        × AreWords (row_at (chacha_state key nonce c) 12)
    word_at = state-AreWords key nonce c k n h

    -- A row in both halves.
    both :
        (p : ℕ)
        → AreWords (row_at (chacha_state key nonce c) p)
        → let x = i.mm256_broadcastsi128_si256 (i.mm_loadu_si128 (chacha_state key nonce c) p) in
          (lo x ≡ row_at (chacha_state key nonce c) p)
          × (hi x ≡ row_at (chacha_state key nonce c) p)
    both p w =
        let x = i.mm_loadu_si128 (chacha_state key nonce c) p in
        let e = l.loads128 (chacha_state key nonce c) p w in
        let (a, b) = l.broadcasts x in (a ∙ e, b ∙ e)

    counter :
        row (i.mm_loadu_si128 (chacha_state key nonce c) 12) ≡ row_at (chacha_state key nonce c) 12
    counter = l.loads128 (chacha_state key nonce c) 12 word_at.3

    first-low : low (first_pair i (chacha_state key nonce c)) ≡ at c
    first-low =
        let st = chacha_state key nonce c in
        let s3 = i.mm_loadu_si128 st 12 in
        let e : lo ((first_pair i st).d) ≡ row_at st 12 =
          (l.inserts (i.mm256_castsi128_si256 s3) _).0 ∙ l.casts s3 ∙ counter in
        λ j. record {
          a = (both 0 word_at.0).0 j;
          b = (both 4 word_at.1).0 j;
          c = (both 8 word_at.2).0 j;
          d = e j;
        }

    first-high : high (first_pair i (chacha_state key nonce c)) ≡ at (u32 (c + 1))
    unfolding chacha_state load_words
    first-high =
        let st = chacha_state key nonce c in
        let s3 = i.mm_loadu_si128 st 12 in
        let one : List ℕ = 0 ∷ 0 ∷ 0 ∷ 1 ∷ [] in
        let e : hi ((first_pair i st).d) ≡ row_at (chacha_state key nonce (u32 (c + 1))) 12 =
          (l.inserts (i.mm256_castsi128_si256 s3) (i.mm_add_epi32 s3 (i.mm_set_epi32 one))).1
          ∙ l.adds128 s3 (i.mm_set_epi32 one)
          ∙ ap₂ (row_zip add32) counter (l.sets128 one (omega arith))
          ∙ raised key nonce c 1 (u32 (c + 1)) word_at.3 refl in
        λ j. record {
          a = (both 0 word_at.0).1 j;
          b = (both 4 word_at.1).1 j;
          c = (both 8 word_at.2).1 j;
          d = e j;
        }

    first-words : (m : ℕ) → IsWord m → AreWords (row_at (chacha_state key nonce m) 12)
    first-words m w = (state-AreWords key nonce m k n w).3

    second-low : low (second_pair i (chacha_state key nonce c)) ≡ at (u32 (u32 (c + 1) + 1))
    unfolding chacha_state load_words
    second-low =
        let g0 : Regs W = first_pair i (chacha_state key nonce c) in
        let twos : List ℕ = 0 ∷ 0 ∷ 0 ∷ 2 ∷ 0 ∷ 0 ∷ 0 ∷ 2 ∷ [] in
        let e : lo ((second_pair i (chacha_state key nonce c)).d)
            ≡ row_at (chacha_state key nonce (u32 (u32 (c + 1) + 1))) 12 =
          l.low.adds g0.d (i.mm256_set_epi32 twos)
          ∙ ap₂ (row_zip add32) (ap (λ (g : Regs Row). g.d) first-low)
              (l.sets twos (omega arith) (omega arith)).0
          ∙ raised key nonce c 2 (u32 (u32 (c + 1) + 1)) (first-words c h) (omega arith) in
        λ j. record {
          a = (both 0 word_at.0).0 j;
          b = (both 4 word_at.1).0 j;
          c = (both 8 word_at.2).0 j;
          d = e j;
        }

    second-high :
        high (second_pair i (chacha_state key nonce c)) ≡ at (u32 (u32 (u32 (c + 1) + 1) + 1))
    unfolding chacha_state load_words
    second-high =
        let g0 : Regs W = first_pair i (chacha_state key nonce c) in
        let twos : List ℕ = 0 ∷ 0 ∷ 0 ∷ 2 ∷ 0 ∷ 0 ∷ 0 ∷ 2 ∷ [] in
        let e : hi ((second_pair i (chacha_state key nonce c)).d)
            ≡ row_at (chacha_state key nonce (u32 (u32 (u32 (c + 1) + 1) + 1))) 12 =
          l.high.adds g0.d (i.mm256_set_epi32 twos)
          ∙ ap₂ (row_zip add32) (ap (λ (g : Regs Row). g.d) first-high)
              (l.sets twos (omega arith) (omega arith)).1
          ∙ raised key nonce (u32 (c + 1)) 2 (u32 (u32 (u32 (c + 1) + 1) + 1))
              (first-words (u32 (c + 1)) (omega arith)) (omega arith) in
        λ j. record {
          a = (both 0 word_at.0).1 j;
          b = (both 4 word_at.1).1 j;
          c = (both 8 word_at.2).1 j;
          d = e j;
        }

    -- A half of the registers that holds the state of a counter is made into its block.
    low_block :
        (g : Regs W) (m : ℕ)
        → low g ≡ at m
        → regs_bytes (low (computed i g)) ≡ chacha_block_portable (chacha_state key nonce m)
    low_block g m e =
        block-seen (avx2_lanes i) lo (low-IsLanes i lo l.low) g
        ∙ ap (λ r. chacha_block_portable (words r)) e
        ∙ ap chacha_block_portable (words-rows_of key nonce m)

    high_block :
        (g : Regs W) (m : ℕ)
        → high g ≡ at m
        → regs_bytes (high (computed i g)) ≡ chacha_block_portable (chacha_state key nonce m)
    high_block g m e =
        block-seen (avx2_lanes i) hi (high-IsLanes i hi l.high) g
        ∙ ap (λ r. chacha_block_portable (words r)) e
        ∙ ap chacha_block_portable (words-rows_of key nonce m)

    stored-keystream :
        let st = chacha_state key nonce c in
        stored i lo hi row l
          (permuted i (computed i (first_pair i st)) ++ permuted i (computed i (second_pair i st)))
        ≡ keystream key nonce c 4
    stored-keystream =
        let st = chacha_state key nonce c in
        let g = first_pair i st in
        let g' = second_pair i st in
        stored-permuted (computed i g) (permuted i (computed i g'))
        ∙ ap₂ (λ x y. x ++ y) (low_block g c first-low)
            (ap₂ (λ x y. x ++ y) (high_block g (u32 (c + 1)) first-high)
              (stored-permuted (computed i g') []
                ∙ ap₂ (λ x y. x ++ y) (low_block g' (u32 (u32 (c + 1) + 1)) second-low)
                    (ap (λ x. x ++ [])
                      (high_block g' (u32 (u32 (u32 (c + 1) + 1) + 1)) second-high))))

    -- Four blocks of the key stream, combined with the input.
    pub four-keystream :
        (xs : List ℕ)
        → AreBytes xs
        → 256 ≤ length xs
        → chacha_4blocks_avx2 i (chacha_state key nonce c) xs
          ≡ xor_bytes xs (keystream key nonce c 4)
    unfolding chacha_4blocks_avx2
    four-keystream xs small room =
        xor_out-bytes i lo hi row l xs 0 _ small (omega arith) ∙ ap (xor_bytes xs) stored-keystream
