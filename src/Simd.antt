-- ===== src/Simd.antt =====
-- The repository's own ciphers, src/core/simd_crypto.c: the helpers on words and bytes that the
-- parts share. A buffer is a list of bytes, a `uint32_t` a number below 2^32.
pub mod Stream
pub mod Paths
pub mod Compare
pub mod Sealing
pub mod Chacha
pub mod Rows
pub mod Neon
pub mod Avx2
pub mod Poly
pub mod Chapoly
pub mod Aes
pub mod Gcm
pub mod Adapter
pub mod Inputs
pub mod StandIns
mod Tests
mod Examples
use linerate.Base.{
  ℕ, zero, suc, ◌+◌, ◌-◌, ◌*◌, ◌/◌, ◌%◌, ◌^◌, Bool, List, [], ◌∷◌, bit_or, bit_xor, ◌==◌, ltb,
  if◌then◌else◌, ◌++◌, length, get_or, take, drop,
}
use linerate.Base.Words.{byte, u32}

-- `(uint32_t)x << k`.
abbrev pub shl32 : ℕ → ℕ → ℕ
shl32 x k = u32 (x * 2 ^ k)

abbrev pub add32 : ℕ → ℕ → ℕ
add32 a b = u32 (a + b)

-- load32_le at offset `i` of a buffer.
unfoldable pub load32_le : List ℕ → ℕ → ℕ
load32_le p i =
    bit_or
      (bit_or (bit_or (get_or p i 0) (shl32 (get_or p (i + 1) 0) 8))
        (shl32 (get_or p (i + 2) 0) 16))
      (shl32 (get_or p (i + 3) 0) 24)

-- The four bytes that store32_le writes.
unfoldable pub store32_le : ℕ → List ℕ
store32_le v = byte v ∷ byte (v / 2 ^ 8) ∷ byte (v / 2 ^ 16) ∷ byte (v / 2 ^ 24) ∷ []

unfoldable pub rotl32 : ℕ → ℕ → ℕ
rotl32 x n = bit_or (shl32 x n) (x / 2 ^ (32 - n))

-- The loop of ct_eq16, for the `n` bytes from `a` and `b` on.
unfoldable pub gather16 : ℕ → ℕ → List ℕ → List ℕ → ℕ
gather16 zero d a b = d
gather16 (suc n) d a b =
    gather16 n (bit_or d (byte (bit_xor (get_or a 0 0) (get_or b 0 0)))) (drop 1 a) (drop 1 b)

unfoldable pub ct_eq16 : List ℕ → List ℕ → Bool
unfolding gather16
ct_eq16 a b = gather16 16 0 a b == 0

-- `for (i = 0; i < n; ++i) out[i] = (uint8_t)(in[i] ^ ks[i])` over all of `in`, which is no longer
-- than `ks`.
abbrev pub xor_bytes : List ℕ → List ℕ → List ℕ
xor_bytes [] ks = []
xor_bytes (x ∷ xs) [] = []
xor_bytes (x ∷ xs) (k ∷ ks) = byte (bit_xor x k) ∷ xor_bytes xs ks

-- The loop of the portable stream ciphers over the bytes that are left: a block of key stream from
-- the state, the next state, and the bytes combined with the block. `block` has `size` bytes. A
-- turn takes a byte at least, so a fuel of their number is enough.
module _ {S : Type 0} (size : ℕ) (block : S → List ℕ) (next : S → S) where
  unfoldable pub xor_loop : ℕ → S → List ℕ → S × List ℕ
  xor_loop zero s xs = (s, [])
  xor_loop (suc fuel) s xs =
      let n = if ltb (length xs) size then length xs else size in
      let rest = xor_loop fuel (next s) (drop n xs) in
      if length xs == 0 then (s, []) else (rest.0, xor_bytes (take n xs) (block s) ++ rest.1)
