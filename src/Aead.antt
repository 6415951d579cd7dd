-- ===== src/Aead.antt =====
-- The cipher interface of include/lr/aead.hpp, the factory and the null control of
-- src/core/aead_factory.cpp, and the adapters of src/core/aead_simd.cpp.
-- The C side (lr_gcm_*, lr_chap_*) and OpenSSL's ciphers are parameters.
pub mod Null
pub mod Factory
use text.Mathlib.Text.{◌==◌ as str_eq, starts_with}
use Prim.Native.String.{String}
use linerate.Base.{
  ℕ, zero, suc, ◌+◌, ◌-◌, ◌%◌, Bool, Option, none, some, List, [], ◌∷◌, ◌++◌, length, get_or, take,
  ltb, if◌then◌else◌,
}

-- class Aead. `seal` and `open_ct` take nonce, associated data and input. `seal` writes ciphertext
-- and tag, `none` is its return value 0; `open_ct` gives the plaintext, `none` is its -1, and then
-- `spill` is what the call has written to its output.
pub record Aead : Type 0 where
  pub seal : List ℕ → List ℕ → List ℕ → Option (List ℕ)
  pub open_ct : List ℕ → List ℕ → List ℕ → Option (List ℕ)
  pub spill : List ℕ → List ℕ → List ℕ → List ℕ
  pub name : String
  pub tag_len : ℕ
  pub key_len : ℕ
  pub nonce_len : ℕ
  pub backend : String

-- `for (i = 0; i < n; ++i) out[i] = nonce[i % 12]`, from index `i` on.
pub nonce_tag : List ℕ → ℕ → ℕ → List ℕ
nonce_tag nonce i zero = []
nonce_tag nonce i (suc n) = get_or nonce (i % 12) 0 ∷ nonce_tag nonce (i + 1) n

-- class NullAead: a copy instead of a cipher, with a tag of the same length.
unfoldable pub null_seal : List ℕ → List ℕ → List ℕ → Option (List ℕ)
unfolding nonce_tag
null_seal nonce aad pt = some (pt ++ nonce_tag nonce 0 16)

unfoldable pub null_open : List ℕ → List ℕ → List ℕ → Option (List ℕ)
null_open nonce aad ct = if ltb (length ct) 16 then none else some (take (length ct - 16) ct)

unfoldable pub null_aead : Aead
null_aead = record {
  seal = null_seal;
  open_ct = null_open;
  spill = λ nonce aad ct. [];
  name = "null";
  tag_len = 16;
  key_len = 32;
  nonce_len = 12;
  backend = "memcpy";
}

-- One C implementation: a context from a key, which may be null, and its two operations.
pub record SimdApi : Type 1 where
  pub Ctx : Type 0
  pub new : List ℕ → Option Ctx
  pub seal : Ctx → List ℕ → List ℕ → List ℕ → Option (List ℕ)
  pub open_ct : Ctx → List ℕ → List ℕ → List ℕ → Option (List ℕ)
  pub spill : Ctx → List ℕ → List ℕ → List ℕ → List ℕ
  pub backend : String

-- classes SimdGcm and SimdChaPoly: both operations fail where the context is null.
unfoldable pub simd_aead : SimdApi → String → List ℕ → Aead
simd_aead api name key = record {
  seal = λ n aad pt. elim (api.new key) [ none ↦ none | some c ↦ api.seal c n aad pt ];
  open_ct = λ n aad ct. elim (api.new key) [ none ↦ none | some c ↦ api.open_ct c n aad ct ];
  spill = λ n aad ct. elim (api.new key) [ none ↦ [] | some c ↦ api.spill c n aad ct ];
  name = name;
  tag_len = 16;
  key_len = 32;
  nonce_len = 12;
  backend = api.backend;
}

-- `masked` is plat::hw_crypto_masked(); it selects the path of both C implementations.
module _ (gcm chap : Bool → SimdApi) (masked : Bool) where
  unfoldable pub make_aead_simd : String → List ℕ → Option Aead
  make_aead_simd name key =
      if str_eq name "lr-aes-256-gcm"
      then some (simd_aead (gcm masked) "lr-aes-256-gcm" key)
      else if str_eq name "lr-chacha20-poly1305"
      then some (simd_aead (chap masked) "lr-chacha20-poly1305" key)
      else none

  unfoldable pub make_aead : (String → List ℕ → Option Aead) → String → List ℕ → Option Aead
  make_aead make_aead_openssl name key =
      if str_eq name "null"
      then some null_aead
      else if starts_with name "lr-"
      then make_aead_simd name key
      else make_aead_openssl name key

unfoldable pub aead_names : List String
aead_names = "aes-256-gcm" ∷ "chacha20-poly1305" ∷ "lr-aes-256-gcm" ∷ "lr-chacha20-poly1305" ∷ []

unfoldable pub aead_is_local : String → Bool
aead_is_local name = starts_with name "lr-"

unfoldable pub aead_key_len : String → ℕ
aead_key_len name = 32
