-- ===== src/Simd/Chapoly.antt =====
-- ChaCha20-Poly1305 of src/core/simd_crypto.c: the tag, and sealing and opening under a context.
-- What the local `poly1305_state` holds in its buffer before poly1305_init is a parameter, `stack`.
pub mod Tag
pub mod Sealed
pub mod Anywhere
use linerate.Base.{
  ℕ, zero, suc, ◌+◌, ◌-◌, ◌*◌, ◌/◌, ◌%◌, ◌^◌, Bool, true, false, not, Option, none, some, List, [],
  ◌∷◌, ◌++◌, ltb, ◌==◌, if◌then◌else◌, length, take, drop, replicate,
}
use linerate.Base.Bytes.{le_bytes}
use linerate.Simd.{ct_eq16}
use linerate.Simd.Paths.{Target, SimdPath, Cpu, Globals, chap_path}
use linerate.Simd.Chacha.{chacha_xor}
use linerate.Simd.Poly.{Poly1305State, poly1305_init, poly1305_update, poly1305_finish}

-- `if (len) { poly1305_update ...; if (len % 16) poly1305_update(kZeroPad) }`.
unfoldable pub update_padded : Poly1305State → List ℕ → Poly1305State
update_padded st m =
    let fed = poly1305_update st m in
    if length m == 0
    then st
    else if length m % 16 == 0
    then fed
    else poly1305_update fed (replicate (16 - length m % 16) 0)

-- The two lengths are written as the eight low bytes of each.
unfoldable pub chap_tag : List ℕ → List ℕ → List ℕ → List ℕ → List ℕ
chap_tag stack mac_key aad ct =
    let fed = update_padded (update_padded (poly1305_init stack mac_key) aad) ct in
    poly1305_finish (poly1305_update fed (le_bytes 8 (length aad) ++ le_bytes 8 (length ct)))

-- lr_chap_ctx.
pub record ChapCtx : Type 0 where
  pub key : List ℕ
  pub path : SimdPath

module _ (t : Target) (cpu : Cpu) where
  -- The variables after the call, and the context; `room` is that calloc succeeds.
  unfoldable pub lr_chap_new : Bool → Globals → List ℕ → Globals × Option ChapCtx
  lr_chap_new room g key =
      let (g', path) = chap_path t cpu g in
      if room then (g', some (record { key = take 32 key; path = path })) else (g, none)

module _ (t : Target) (avx2 neon : List ℕ → List ℕ → ℕ → List ℕ → List ℕ) where
  -- lr_chacha20_keystream, on the path that chap_path gives.
  unfoldable pub lr_chacha20_keystream : SimdPath → List ℕ → List ℕ → ℕ → ℕ → List ℕ
  lr_chacha20_keystream path key nonce counter len =
      chacha_xor t avx2 neon path key nonce counter (replicate len 0)

  -- The 64 bytes of `mac_key`, of which the first 32 are used.
  unfoldable pub mac_key_of : ChapCtx → List ℕ → List ℕ
  mac_key_of c nonce = chacha_xor t avx2 neon c.path c.key nonce 0 (replicate 64 0)

  -- Ciphertext and tag, of `pt_len + 16` bytes in all.
  unfoldable pub lr_chap_seal : List ℕ → ChapCtx → List ℕ → List ℕ → List ℕ → List ℕ
  lr_chap_seal stack c nonce aad pt =
      let out = if length pt == 0 then [] else chacha_xor t avx2 neon c.path c.key nonce 1 pt in
      out ++ chap_tag stack (mac_key_of c nonce) aad out

  -- The plaintext; `none` is the -1 of the code.
  unfoldable pub lr_chap_open : List ℕ → ChapCtx → List ℕ → List ℕ → List ℕ → Option (List ℕ)
  lr_chap_open stack c nonce aad ct =
      let body = length ct - 16 in
      let tag = chap_tag stack (mac_key_of c nonce) aad (take body ct) in
      if ltb (length ct) 16
      then none
      else if not (ct_eq16 tag (drop body ct))
      then none
      else some
          (if body == 0 then [] else chacha_xor t avx2 neon c.path c.key nonce 1 (take body ct))
