-- ===== src/Simd/Chacha/Involution.antt =====
-- ChaCha20 as a stream: encryption and decryption are one operation.
use linerate.Base.{
  ℕ, zero, suc, ◌+◌, ◌*◌, ◌≤◌, ◌≡◌, refl, ap, subst, sym, ◌∙◌, List, [], ◌++◌, length, All, arith,
}
use linerate.Base.Words.{IsByte, u32}
use linerate.Simd.{xor_bytes}
use linerate.Simd.Stream.{
  blocks, xor_loop-blocks, length-xor_loop, xor_loop_twice, xor_bytes-IsByte,
}
use linerate.Simd.Chacha.{
  chacha_block_portable, load_words, chacha_state, next_block, chacha_xor_portable,
}
use linerate.Simd.Chacha.Blocks.{
  IsState, length-state, block-full, next_block-IsState, block-IsByte,
}

-- The blocks of the counters `c`, `c + 1` and so on, the counter wrapping at 2^32.
abbrev pub keystream : List ℕ → List ℕ → ℕ → ℕ → List ℕ
keystream key nonce c zero = []
keystream key nonce c (suc n) =
    chacha_block_portable (chacha_state key nonce c) ++ keystream key nonce (u32 (c + 1)) n

pub next_block-chacha_state :
    (key nonce : List ℕ) (c : ℕ)
    → next_block (chacha_state key nonce c) ≡ chacha_state key nonce (u32 (c + 1))
unfolding next_block chacha_state load_words
next_block-chacha_state key nonce c = refl

blocks-keystream :
    (key nonce : List ℕ) (n c : ℕ)
    → blocks 64 chacha_block_portable next_block n (chacha_state key nonce c)
      ≡ keystream key nonce c n
blocks-keystream key nonce zero c = refl
blocks-keystream key nonce (suc n) c =
    ap (λ l. chacha_block_portable (chacha_state key nonce c) ++ l)
      (ap (blocks 64 chacha_block_portable next_block n) (next_block-chacha_state key nonce c)
        ∙ blocks-keystream key nonce n (u32 (c + 1)))

-- A message is combined byte by byte with the blocks of the counters from the given one on, as many
-- as it needs or more; the loop has the fuel to reach its end.
pub chacha_xor_portable-keystream :
    (key nonce : List ℕ) (c n : ℕ) (xs : List ℕ)
    → length xs ≤ n * 64
    → chacha_xor_portable key nonce c xs ≡ xor_bytes xs (keystream key nonce c n)
unfolding chacha_xor_portable
chacha_xor_portable-keystream key nonce c n xs h =
    xor_loop-blocks 64 chacha_block_portable next_block IsState (omega arith) block-full
      next_block-IsState (length xs) n (chacha_state key nonce c) xs (length-state key nonce c)
      (omega arith) h
    ∙ ap (xor_bytes xs) (blocks-keystream key nonce n c)

pub length-chacha_xor_portable :
    (key nonce : List ℕ) (c : ℕ) (xs : List ℕ)
    → length (chacha_xor_portable key nonce c xs) ≡ length xs
unfolding chacha_xor_portable
length-chacha_xor_portable key nonce c xs =
    length-xor_loop 64 chacha_block_portable next_block IsState (omega arith) block-full
      next_block-IsState (chacha_state key nonce c) xs (length-state key nonce c)

pub chacha_xor_portable-IsByte :
    (key nonce : List ℕ) (c : ℕ) (xs : List ℕ) → All IsByte (chacha_xor_portable key nonce c xs)
chacha_xor_portable-IsByte key nonce c xs =
    subst (All IsByte)
      (sym (chacha_xor_portable-keystream key nonce c (length xs) xs (omega arith)))
      (xor_bytes-IsByte xs (keystream key nonce c (length xs)))

-- Under one key, nonce and counter, applying the cipher to its own output gives the message back,
-- for a message of bytes.
pub chacha_xor_portable_twice :
    (key nonce : List ℕ) (c : ℕ) (xs : List ℕ)
    → All IsByte xs
    → chacha_xor_portable key nonce c (chacha_xor_portable key nonce c xs) ≡ xs
unfolding chacha_xor_portable
chacha_xor_portable_twice key nonce c xs small =
    xor_loop_twice 64 chacha_block_portable next_block IsState (omega arith) block-full
      next_block-IsState block-IsByte (chacha_state key nonce c) xs (length-state key nonce c) small
