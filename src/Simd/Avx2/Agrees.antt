-- ===== src/Simd/Avx2/Agrees.antt =====
-- The AVX2 version of ChaCha20 computes what the portable one does.
use linerate.Base.{
  ℕ, suc, zero, ◌+◌, ◌-◌, ◌*◌, ◌≤◌, ◌≡◌, refl, sym, ap, ap₂, ◌∙◌, List, [], ◌∷◌, ◌++◌, get_or, set,
  bit_xor, arith, length, take, drop, replicate, append_assoc, All, All-append, All-drop,
  length-append, length-replicate, length-drop, inl, inr, ltb, ◌==◌, Bool-cases,
}
use linerate.Base.Words.{byte, u32, IsByte}
use linerate.Simd.{xor_bytes}
use linerate.Simd.Stream.{xor_bytes-append}
use linerate.Simd.Poly.Rfc.{All-AreBytes}
use linerate.Simd.Chacha.{load_words, chacha_state, chacha_block_portable, chacha_xor_portable}
use linerate.Simd.Chacha.Blocks.{block-full, length-state}
use linerate.Simd.Chacha.Involution.{keystream, chacha_xor_portable-keystream}
use linerate.Simd.Rows.{Row, IsWord}
use linerate.Simd.Avx2.{Intrinsics, chacha_4blocks_avx2, xor_tail, avx2_loop, chacha_xor_avx2}
use linerate.Simd.Avx2.Laws.{IsAvx2}
use linerate.Simd.Avx2.Blocks.{four-keystream}

-- As many blocks as `m` turns make.
abbrev groups : ℕ → ℕ
groups zero = 0
groups (suc m) = suc (suc (suc (suc (groups m))))

groups-four : (m : ℕ) → groups m ≡ 4 * m
groups-four zero = refl
groups-four (suc m) = omega (arith, groups-four m)

xor_bytes-take : (xs ks : List ℕ) → xor_bytes (take (length ks) xs) ks ≡ xor_bytes xs ks
xor_bytes-take xs [] = sym (none_left xs)
  where
    none_left : (ys : List ℕ) → xor_bytes ys [] ≡ []
    none_left [] = refl
    none_left (y ∷ ys) = refl
xor_bytes-take [] (k ∷ ks) = refl
xor_bytes-take (x ∷ xs) (k ∷ ks) = ap (λ l. byte (bit_xor x k) ∷ l) (xor_bytes-take xs ks)

-- No more of the key stream is used than the input is long.
xor_bytes_short :
    (xs ks ls : List ℕ) → length xs ≤ length ks → xor_bytes xs (ks ++ ls) ≡ xor_bytes xs ks
xor_bytes_short [] ks ls h = nothing (ks ++ ls) ∙ sym (nothing ks)
  where
    nothing : (ks : List ℕ) → xor_bytes [] ks ≡ []
    nothing [] = refl
    nothing (k ∷ ks) = refl
xor_bytes_short (x ∷ xs) [] ls h = absurd (omega arith)
xor_bytes_short (x ∷ xs) (k ∷ ks) ls h =
    ap (λ l. byte (bit_xor x k) ∷ l) (xor_bytes_short xs ks ls (omega arith))

-- Input that is padded for the call, and cut after it.
take-xor_bytes :
    (xs zs ks : List ℕ)
    → length xs ≤ length ks
    → take (length xs) (xor_bytes (xs ++ zs) ks) ≡ xor_bytes xs ks
take-xor_bytes [] zs ks h = refl
take-xor_bytes (x ∷ xs) zs [] h = absurd (omega arith)
take-xor_bytes (x ∷ xs) zs (k ∷ ks) h =
    ap (λ l. byte (bit_xor x k) ∷ l) (take-xor_bytes xs zs ks (omega arith))

zeros-IsByte : (n : ℕ) → All IsByte (replicate n 0)
zeros-IsByte zero = tt
zeros-IsByte (suc n) = (omega arith, zeros-IsByte n)

module _ {W H : Type 0} (i : Intrinsics W H) (lo hi : W → Row) (row : H → Row)
    (l : IsAvx2 i lo hi row) (key nonce : List ℕ) (k : All IsByte key) (n : All IsByte nonce) where
  four :
      (c : ℕ) (xs : List ℕ)
      → IsWord c
      → All IsByte xs
      → 256 ≤ length xs
      → chacha_4blocks_avx2 i (chacha_state key nonce c) xs ≡ xor_bytes xs (keystream key nonce c 4)
  four c xs h small room =
      four-keystream i lo hi row l key nonce (All-AreBytes key k) (All-AreBytes nonce n) c h xs
        (All-AreBytes xs small) room

  length-four : (c : ℕ) → length (keystream key nonce c 4) ≡ 256
  length-four c =
      let block = λ (m : ℕ). chacha_block_portable (chacha_state key nonce m) in
      let full = λ (m : ℕ). block-full (chacha_state key nonce m) (length-state key nonce m) in
      let c1 : ℕ = u32 (c + 1) in
      let c2 : ℕ = u32 (c1 + 1) in
      let c3 : ℕ = u32 (c2 + 1) in
      omega (
        arith,
        full c,
        full c1,
        full c2,
        full c3,
        length-append (block c) (block c1 ++ (block c2 ++ (block c3 ++ []))),
        length-append (block c1) (block c2 ++ (block c3 ++ [])),
        length-append (block c2) (block c3 ++ []),
        length-append (block c3) [],
      )

  -- The key stream, four blocks at a time.
  keystream_four :
      (c m : ℕ)
      → keystream key nonce c (suc (suc (suc (suc m))))
        ≡ keystream key nonce c 4 ++ keystream key nonce (u32 (c + 4)) m
  keystream_four c m =
      ap
        (λ t.
          chacha_block_portable (chacha_state key nonce c)
          ++ (chacha_block_portable (chacha_state key nonce (u32 (c + 1)))
              ++ (chacha_block_portable (chacha_state key nonce (u32 (u32 (c + 1) + 1)))
                  ++ (chacha_block_portable
                        (chacha_state key nonce (u32 (u32 (u32 (c + 1) + 1) + 1)))
                      ++ keystream key nonce t m))))
        {x = u32 (u32 (u32 (u32 (c + 1) + 1) + 1) + 1)} {y = u32 (c + 4)} (omega arith)
      ∙ simp append_assoc

  tail :
      (c : ℕ) (xs : List ℕ)
      → IsWord c
      → All IsByte xs
      → length xs ≤ 256
      → xor_tail i (chacha_state key nonce c) xs ≡ xor_bytes xs (keystream key nonce c 4)
  unfolding xor_tail
  tail c xs h small room = elim (Bool-cases (length xs == 0)) [
    | inl e ↦ rw e (sym (no_input xs (keystream key nonce c 4) (ground arith)))
    | inr e ↦
        let zs : List ℕ = replicate (256 - length xs) 0 in
        rw e (
          ap (take (length xs)) (
            four c (xs ++ zs) h (All-append IsByte xs zs small (zeros-IsByte (256 - length xs)))
              (omega (arith, length-append xs zs, length-replicate {A = ℕ} (256 - length xs) 0)))
          ∙ take-xor_bytes xs zs (keystream key nonce c 4) (omega (arith, length-four c)))
  ]
    where
      no_input : (xs ks : List ℕ) → length xs ≡ 0 → xor_bytes xs ks ≡ []
      no_input [] [] h = refl
      no_input [] (k ∷ ks) h = refl
      no_input (x ∷ xs) ks h = absurd (omega arith)

  next_group :
      (c : ℕ)
      → set (chacha_state key nonce c) 12 (u32 (get_or (chacha_state key nonce c) 12 0 + 4))
        ≡ chacha_state key nonce (u32 (c + 4))
  unfolding chacha_state load_words
  next_group c = refl

  loop-keystream :
      (fuel c : ℕ) (xs : List ℕ)
      → IsWord c
      → All IsByte xs
      → length xs ≤ fuel
      → avx2_loop i fuel (chacha_state key nonce c) xs
        ≡ xor_bytes xs (keystream key nonce c (groups (suc fuel)))
  unfolding avx2_loop
  loop-keystream zero c xs h small room = tail c xs h small (omega arith)
  loop-keystream (suc fuel) c xs h small room =
      let ks = keystream key nonce c 4 in
      let more = keystream key nonce (u32 (c + 4)) (groups (suc fuel)) in
      let whole = ap (xor_bytes xs) (keystream_four c (groups (suc fuel))) in
      elim (Bool-cases (ltb (length xs) 256)) [
        | inl e ↦ rw e (
            tail c xs h small (ground arith)
            ∙ sym (whole ∙ xor_bytes_short xs ks more (ground (arith, length-four c))))
        | inr e ↦ rw e (
            ap₂ (λ x y. x ++ y) (four c xs h small (ground arith) ∙ sym (xor_bytes-take xs ks))
              (ap (λ s. avx2_loop i fuel s (drop 256 xs)) (next_group c)
                ∙ loop-keystream fuel (u32 (c + 4)) (drop 256 xs) (omega arith)
                    (All-drop IsByte 256 xs small) (ground (arith, length-drop 256 xs))
                ∙ ap (λ m. xor_bytes (drop m xs) more) (sym (length-four c)))
            ∙ sym (whole ∙ xor_bytes-append xs ks more))
      ]

  -- The AVX2 version gives what the portable version gives, for a message, a key and a nonce of
  -- bytes and a counter of 32 bits.
  pub chacha_xor_avx2-portable :
      (c : ℕ) (xs : List ℕ)
      → IsWord c
      → All IsByte xs
      → chacha_xor_avx2 i key nonce c xs ≡ chacha_xor_portable key nonce c xs
  unfolding chacha_xor_avx2
  chacha_xor_avx2-portable c xs h small =
      loop-keystream (length xs) c xs h small (omega arith)
      ∙ sym (
          chacha_xor_portable-keystream key nonce c (groups (suc (length xs))) xs
            (omega (arith, groups-four (suc (length xs)))))
