-- ===== src/Simd/Chacha.antt =====
-- The portable ChaCha20 of src/core/simd_crypto.c. The vector versions for x86 and ARM are
-- parameters.
pub mod Blocks
pub mod Involution
use linerate.Base.{
  ℕ, zero, suc, ◌+◌, ◌-◌, ◌*◌, ◌/◌, ◌%◌, ◌^◌, List, [], ◌∷◌, ◌++◌, Option, none, some, map, bit_xor,
  ltb, ◌==◌, if◌then◌else◌, length, get_or, set, take, drop, replicate,
}
use linerate.Base.Words.{byte, u32}
use linerate.Simd.Paths.{Target, SimdPath, on_x86, on_arm}
use linerate.Simd.{add32, load32_le, store32_le, rotl32, xor_loop}

-- kSigma, "expand 32-byte k".
abbrev pub sigma : List ℕ
sigma =
    0x65 ∷ 0x78 ∷ 0x70 ∷ 0x61 ∷ 0x6e ∷ 0x64 ∷ 0x20 ∷ 0x33 ∷ 0x32 ∷ 0x2d ∷ 0x62 ∷ 0x79 ∷ 0x74 ∷ 0x65
    ∷ 0x20 ∷ 0x6b ∷ []

-- One line of QR: `a += b; d ^= a; d = rotl32(d, n);`
unfoldable pub mix : ℕ → ℕ → ℕ → ℕ → List ℕ → List ℕ
mix a b d n x =
    let sum = add32 (get_or x a 0) (get_or x b 0) in
    set (set x a sum) d (rotl32 (bit_xor (get_or x d 0) sum) n)

-- QR.
unfoldable pub quarter_round : ℕ → ℕ → ℕ → ℕ → List ℕ → List ℕ
quarter_round a b c d x = mix c d b 7 (mix a b d 8 (mix c d b 12 (mix a b d 16 x)))

-- The body of the loop over double rounds.
unfoldable pub double_round : List ℕ → List ℕ
double_round x =
    let columns =
      quarter_round 3 7 11 15
        (quarter_round 2 6 10 14 (quarter_round 1 5 9 13 (quarter_round 0 4 8 12 x))) in
    quarter_round 3 4 9 14
      (quarter_round 2 7 8 13 (quarter_round 1 6 11 12 (quarter_round 0 5 10 15 columns)))

unfoldable pub double_rounds : ℕ → List ℕ → List ℕ
double_rounds zero x = x
double_rounds (suc n) x = double_rounds n (double_round x)

-- `store32_le(out + 4 * i, x[i] + st[i])` over the words.
unfoldable pub add_store : List ℕ → List ℕ → List ℕ
add_store [] st = []
add_store (x ∷ xs) [] = []
add_store (x ∷ xs) (s ∷ st) = store32_le (add32 x s) ++ add_store xs st

unfoldable pub chacha_block_portable : List ℕ → List ℕ
chacha_block_portable st = add_store (double_rounds 10 st) st

-- `load32_le(p + 4 * i)` for the `n` numbers from `i` on.
unfoldable pub load_words : ℕ → ℕ → List ℕ → List ℕ
load_words zero i p = []
load_words (suc n) i p = load32_le p (4 * i) ∷ load_words n (i + 1) p

unfoldable pub chacha_state : List ℕ → List ℕ → ℕ → List ℕ
chacha_state key nonce counter =
    load_words 4 0 sigma ++ (load_words 8 0 key ++ (counter ∷ load_words 3 0 nonce))

-- `st[12]++`.
unfoldable pub next_block : List ℕ → List ℕ
next_block st = set st 12 (u32 (get_or st 12 0 + 1))

unfoldable pub chacha_xor_portable : List ℕ → List ℕ → ℕ → List ℕ → List ℕ
chacha_xor_portable key nonce counter xs =
    (xor_loop 64 chacha_block_portable next_block (length xs) (chacha_state key nonce counter) xs).1

-- chacha_xor, for a target whose vector versions are `avx2` and `neon`.
module _ (t : Target) (avx2 neon : List ℕ → List ℕ → ℕ → List ℕ → List ℕ) where
  unfoldable pub chacha_xor : SimdPath → List ℕ → List ℕ → ℕ → List ℕ → List ℕ
  chacha_xor path key nonce counter xs = elim path [
    | SimdPath.x86 ↦
        if on_x86 t then avx2 key nonce counter xs else chacha_xor_portable key nonce counter xs
    | SimdPath.arm ↦
        if on_arm t then neon key nonce counter xs else chacha_xor_portable key nonce counter xs
    | SimdPath.portable ↦ chacha_xor_portable key nonce counter xs
  ]
