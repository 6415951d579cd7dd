-- ===== src/Simd/Chacha/Blocks.antt =====
-- The blocks of ChaCha20: 64 bytes each, under a state of 16 words.
use linerate.Base.{
  ℕ, zero, suc, ◌+◌, ◌*◌, ◌≡◌, refl, ap, ◌∙◌, List, [], ◌∷◌, ◌++◌, length, All, arith,
  length-append, length-set,
}
use linerate.Base.Words.{IsByte}
use linerate.Simd.{store32_le}
use linerate.Simd.Chacha.{
  sigma, mix, quarter_round, double_round, double_rounds, add_store, chacha_block_portable,
  load_words, chacha_state, next_block,
}

length-mix : (a b d n : ℕ) (x : List ℕ) → length (mix a b d n x) ≡ length x
unfolding mix
length-mix a b d n x = length-set _ d _ ∙ length-set x a _

length-quarter_round : (a b c d : ℕ) (x : List ℕ) → length (quarter_round a b c d x) ≡ length x
unfolding quarter_round
length-quarter_round a b c d x = simp length-mix

length-double_rounds : (n : ℕ) (x : List ℕ) → length (double_rounds n x) ≡ length x
unfolding double_rounds double_round
length-double_rounds zero x = refl
length-double_rounds (suc n) x = length-double_rounds n (double_round x) ∙ simp length-quarter_round

length-add_store :
    (xs st : List ℕ) → length xs ≡ length st → length (add_store xs st) ≡ 4 * length st
unfolding add_store store32_le
length-add_store [] [] h = omega arith
length-add_store [] (s ∷ st) h = absurd (omega arith)
length-add_store (x ∷ xs) [] h = absurd (omega arith)
length-add_store (x ∷ xs) (s ∷ st) h = omega (arith, length-add_store xs st (omega arith))

pub length-block : (st : List ℕ) → length (chacha_block_portable st) ≡ 4 * length st
unfolding chacha_block_portable
length-block st = length-add_store (double_rounds 10 st) st (length-double_rounds 10 st)

length-load_words : (n i : ℕ) (p : List ℕ) → length (load_words n i p) ≡ n
unfolding load_words
length-load_words zero i p = refl
length-load_words (suc n) i p = ap suc (length-load_words n (i + 1) p)

pub length-state : (key nonce : List ℕ) (c : ℕ) → length (chacha_state key nonce c) ≡ 16
unfolding chacha_state
length-state key nonce c = omega (
  arith,
  length-append (load_words 4 0 sigma) (load_words 8 0 key ++ (c ∷ load_words 3 0 nonce)),
  length-append (load_words 8 0 key) (c ∷ load_words 3 0 nonce),
  length-load_words 4 0 sigma,
  length-load_words 8 0 key,
  length-load_words 3 0 nonce,
)

-- A state has 16 words.
abbrev pub IsState : List ℕ → Type 0
IsState st = length st ≡ 16

pub block-full : (st : List ℕ) → IsState st → length (chacha_block_portable st) ≡ 64
block-full st w = omega (arith, length-block st)

pub next_block-IsState : (st : List ℕ) → IsState st → IsState (next_block st)
unfolding next_block
next_block-IsState st w = length-set st 12 _ ∙ w

add_store-IsByte : (xs st : List ℕ) → All IsByte (add_store xs st)
unfolding add_store store32_le
add_store-IsByte [] st = tt
add_store-IsByte (x ∷ xs) [] = tt
add_store-IsByte (x ∷ xs) (s ∷ st) =
    (omega arith, (omega arith, (omega arith, (omega arith, add_store-IsByte xs st))))

pub block-IsByte : (st : List ℕ) → All IsByte (chacha_block_portable st)
unfolding chacha_block_portable
block-IsByte st = add_store-IsByte (double_rounds 10 st) st
