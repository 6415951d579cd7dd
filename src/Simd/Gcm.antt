-- ===== src/Simd/Gcm.antt =====
-- AES-256-GCM of src/core/simd_crypto.c: the portable GHASH by tables of four bits, and sealing and
-- opening under a context. The versions for x86 and ARM are parameters.
pub mod Sealed
pub mod Made
use linerate.Base.{
  ℕ, zero, suc, ◌+◌, ◌-◌, ◌*◌, ◌/◌, ◌%◌, ◌^◌, Bool, true, false, not, Option, none, some, List, [],
  ◌∷◌, ◌++◌, bit_and, bit_or, bit_xor, ◌==◌, ltb, if◌then◌else◌, length, get_or, set, take, drop,
  replicate,
}
use linerate.Base.Bits.{shl}
use linerate.Base.Bytes.{be_bytes}
use linerate.Base.Words.{byte, u32}
use linerate.Simd.{ct_eq16}
use linerate.Simd.Paths.{Target, SimdPath, Cpu, Globals, on_x86, gcm_path}
use linerate.Simd.Aes.{aes256_expand_portable, aes256_encrypt_portable, aes_ctr_portable}

-- lr_gcm_ctx. `powers` is Hp, which only the vector versions use.
pub record GcmCtx : Type 0 where
  pub rk : List (List ℕ)
  pub h : List ℕ
  pub powers : List (List ℕ)
  pub low : List ℕ
  pub high : List ℕ
  pub path : SimdPath

-- A pair of 64-bit halves, the higher first.
abbrev pub Half2 : Type 0
Half2 = ℕ × ℕ

-- `for (...) x = (x << 8) | b` over bytes.
unfoldable pub be_load : ℕ → List ℕ → ℕ
be_load acc [] = acc
be_load acc (b ∷ bs) = be_load (bit_or (shl acc 8) b) bs

-- One step to the right, with the reduction: the tables' entries 4, 2 and 1.
unfoldable pub half_step : Half2 → Half2
half_step (hi, lo) =
    let t = u32 (bit_and lo 1 * 0xe1000000) in
    (bit_xor (hi / 2) (shl t 32), bit_or (lo / 2) (shl hi 63))

-- The entries `i + j` for `j` from 1 below `i`, where the entries up to `i` stand.
unfoldable pub combine : ℕ → ℕ → ℕ → List ℕ → List ℕ
combine zero j i table = table
combine (suc n) j i table =
    combine n (j + 1) i (set table (i + j) (bit_xor (get_or table i 0) (get_or table j 0)))

unfoldable pub fill_table : List ℕ → List ℕ
unfolding combine
fill_table table = combine 7 1 8 (combine 3 1 4 (combine 1 1 2 table))

-- The tables of the high and the low halves.
unfoldable pub ghash_tables : List ℕ → List ℕ × List ℕ
unfolding half_step fill_table
ghash_tables h =
    let e8 : Half2 = (be_load 0 (take 8 h), be_load 0 (take 8 (drop 8 h))) in
    let e4 = half_step e8 in
    let e2 = half_step e4 in
    let e1 = half_step e2 in
    let place = λ (a8 a4 a2 a1 : ℕ).
      fill_table (set (set (set (set (replicate 16 0) 8 a8) 4 a4) 2 a2) 1 a1) in
    (place e8.0 e4.0 e2.0 e1.0, place e8.1 e4.1 e2.1 e1.1)

-- kLast4.
abbrev pub last4 : List ℕ
last4 =
    0x0000 ∷ 0x1c20 ∷ 0x3840 ∷ 0x2460 ∷ 0x7080 ∷ 0x6ca0 ∷ 0x48c0 ∷ 0x54e0 ∷ 0xe100 ∷ 0xfd20 ∷ 0xd940
    ∷ 0xc560 ∷ 0x9180 ∷ 0x8da0 ∷ 0xa9c0 ∷ 0xb5e0 ∷ []

-- Four bits to the right, and the entry of a nibble.
unfoldable pub add_nibble : List ℕ → List ℕ → ℕ → Half2 → Half2
add_nibble high low nibble (zh, zl) =
    let rem = bit_and zl 0x0f in
    (
      bit_xor (bit_xor (zh / 2 ^ 4) (shl (get_or last4 rem 0) 48)) (get_or high nibble 0),
      bit_xor (bit_or (zl / 2 ^ 4) (shl zh 60)) (get_or low nibble 0),
    )

-- The bytes from the last, `i - 1`, down to the first; the low nibble of the last is in `z`.
unfoldable pub ghash_bytes : ℕ → List ℕ → List ℕ → List ℕ → Half2 → Half2
ghash_bytes zero high low x z = z
ghash_bytes (suc i) high low x z =
    let b = get_or x i 0 in
    ghash_bytes i high low x (
      add_nibble high low (b / 2 ^ 4)
        (if i == 15 then z else add_nibble high low (bit_and b 0x0f) z))

unfoldable pub ghash_block_portable : GcmCtx → List ℕ → List ℕ
ghash_block_portable c x =
    let n = bit_and (get_or x 15 0) 0x0f in
    let z = ghash_bytes 16 c.high c.low x (get_or c.high n 0, get_or c.low n 0) in
    be_bytes 8 z.0 ++ be_bytes 8 z.1

-- `y[i] ^= data[i]` over the bytes of `data`, no more than those of `y`.
unfoldable pub xor_into : List ℕ → List ℕ → List ℕ
xor_into [] m = []
xor_into (y ∷ ys) [] = y ∷ ys
xor_into (y ∷ ys) (b ∷ m) = bit_xor y b ∷ xor_into ys m

-- The loop over the `n` whole blocks, and the rest after it.
unfoldable pub ghash_blocks : ℕ → GcmCtx → List ℕ → List ℕ → List ℕ
ghash_blocks zero c y m = if length m == 0 then y else ghash_block_portable c (xor_into y m)
ghash_blocks (suc n) c y m =
    ghash_blocks n c (ghash_block_portable c (xor_into y (take 16 m))) (drop 16 m)

unfoldable pub ghash_update_portable : GcmCtx → List ℕ → List ℕ → List ℕ
ghash_update_portable c y m = ghash_blocks (length m / 16) c y m

-- The versions of a target's vector unit. `stitch` takes the counter block, the hash, the input and
-- the direction, and gives the hash and the output.
pub record GcmVectors : Type 0 where
  pub ctr : List (List ℕ) → List ℕ → List ℕ → List ℕ × List ℕ
  pub ghash : GcmCtx → List ℕ → List ℕ → List ℕ
  pub stitch : GcmCtx → List ℕ → List ℕ → List ℕ → Bool → List ℕ × List ℕ
  pub init : List ℕ → GcmCtx

-- AArch64 with the crypto extension.
abbrev pub crypto_arm : Target → Bool
crypto_arm Target.arm_crypto = true
crypto_arm _ = false

module _ (t : Target) (x86 arm : GcmVectors) where
  -- The version that the context's path selects, none for the portable one.
  abbrev pub vectors : SimdPath → Option GcmVectors
  vectors p = elim p [
    | SimdPath.x86 ↦ if on_x86 t then some x86 else none
    | SimdPath.arm ↦ if crypto_arm t then some arm else none
    | SimdPath.portable ↦ none
  ]

  unfoldable pub gcm_ctr : GcmCtx → List ℕ → List ℕ → List ℕ × List ℕ
  gcm_ctr c ctr xs = elim (vectors c.path) [
    | none ↦ aes_ctr_portable c.rk ctr xs
    | some v ↦ v.ctr c.rk ctr xs
  ]

  unfoldable pub gcm_ghash : GcmCtx → List ℕ → List ℕ → List ℕ
  gcm_ghash c y m = elim (vectors c.path) [
    | none ↦ ghash_update_portable c y m
    | some v ↦ v.ghash c y m
  ]

  -- The variables after the call, and the context; `room` is that calloc succeeds.
  unfoldable pub lr_gcm_new : Cpu → Bool → Globals → List ℕ → Globals × Option GcmCtx
  lr_gcm_new cpu room g key =
      let (g', path) = gcm_path t cpu g in
      let rk = aes256_expand_portable key in
      let h = aes256_encrypt_portable rk (replicate 16 0) in
      let (high, low) = ghash_tables h in
      let made : GcmCtx = elim (vectors path) [
        | none ↦ record {
          rk = rk;
          h = h;
          powers = replicate 4 [];
          low = low;
          high = high;
          path = path;
        }
        | some v ↦ record (v.init key) { path = path }
      ] in
      if room then (g', some made) else (g, none)

  unfoldable pub gcm_lengths : ℕ → ℕ → List ℕ
  gcm_lengths aad_len ct_len = be_bytes 8 (aad_len * 8 % 2 ^ 64) ++ be_bytes 8 (ct_len * 8 % 2 ^ 64)

  -- The hash and the output of the middle part, on x86 by `stitch`.
  unfoldable pub gcm_middle : GcmCtx → List ℕ → List ℕ → List ℕ → Bool → List ℕ × List ℕ
  gcm_middle c ctr y xs encrypt =
      let out = (gcm_ctr c ctr xs).1 in
      let apart : List ℕ × List ℕ = (gcm_ghash c y (if encrypt then out else xs), out) in
      if length xs == 0 then (y, []) else elim c.path [
        | SimdPath.x86 ↦ if on_x86 t then x86.stitch c ctr y xs encrypt else apart
        | SimdPath.arm ↦ apart
        | SimdPath.portable ↦ apart
      ]

  -- The output and the tag.
  unfoldable pub gcm_core : GcmCtx → List ℕ → List ℕ → List ℕ → Bool → List ℕ × List ℕ
  gcm_core c nonce aad xs encrypt =
      let j0 = take 12 nonce ++ (0 ∷ 0 ∷ 0 ∷ 1 ∷ []) in
      let (ctr, mask) = gcm_ctr c j0 (replicate 16 0) in
      let start = replicate 16 0 in
      let y = if length aad == 0 then start else gcm_ghash c start aad in
      let (y', out) = gcm_middle c ctr y xs encrypt in
      (out, xor_into (gcm_ghash c y' (gcm_lengths (length aad) (length xs))) mask)

  unfoldable pub lr_gcm_seal : GcmCtx → List ℕ → List ℕ → List ℕ → List ℕ
  lr_gcm_seal c nonce aad pt = let (out, tag) = gcm_core c nonce aad pt true in out ++ tag

  -- The plaintext; `none` is the -1 of the code, and `gcm_spill` what the call has written then.
  unfoldable pub lr_gcm_open : GcmCtx → List ℕ → List ℕ → List ℕ → Option (List ℕ)
  lr_gcm_open c nonce aad ct =
      let body = length ct - 16 in
      let (out, tag) = gcm_core c nonce aad (take body ct) false in
      if ltb (length ct) 16
      then none
      else if not (ct_eq16 tag (drop body ct))
      then none
      else some out

  abbrev pub gcm_spill : GcmCtx → List ℕ → List ℕ → List ℕ → List ℕ
  gcm_spill c nonce aad ct =
      let body = length ct - 16 in
      if ltb (length ct) 16 then [] else (gcm_core c nonce aad (take body ct) false).0

  -- `none` is the return without output where there is no context.
  unfoldable pub lr_aes256_ctr :
      Cpu → Bool → Globals → List ℕ → List ℕ → List ℕ → Globals × Option (List ℕ)
  lr_aes256_ctr cpu room g key iv xs =
      let (g', made) = lr_gcm_new cpu room g key in
      (g', elim made [ none ↦ none | some c ↦ some ((gcm_ctr c iv xs).1) ])
