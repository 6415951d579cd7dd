-- ===== src/Aead/Factory.antt =====
-- The names that the factory knows.
use Prim.Native.String.{String}
use linerate.Base.{ℕ, ◌≡◌, refl, Bool, Option, some, List, ◌∷◌, All}
use linerate.Aead.{Aead, SimdApi, make_aead, make_aead_simd, simd_aead, null_aead, aead_names}

-- `factory name key` is a cipher of that name, with the tag and nonce lengths that the wire
-- format counts on.
abbrev pub Builds : (String → List ℕ → Option Aead) → List ℕ → String → Type 0
Builds factory key name =
    (a : Aead) × (factory name key ≡ some a)
    × (a.name ≡ name)
    × (a.tag_len ≡ 16)
    × (a.nonce_len ≡ 12)
    × (a.key_len ≡ 32)

module _ (gcm chap : Bool → SimdApi) (masked : Bool) (openssl : String → List ℕ → Option Aead)
    (key : List ℕ) where
  -- If OpenSSL's factory builds its two ciphers, every name of the sweep order and the control
  -- build a cipher of that very name, with 16 bytes of tag, a 12-byte nonce and a 32-byte key.
  pub aead_names_build :
      Builds openssl key "aes-256-gcm"
      → Builds openssl key "chacha20-poly1305"
      → All (Builds (make_aead gcm chap masked openssl) key) ("null" ∷ aead_names)
  unfolding make_aead make_aead_simd simd_aead null_aead aead_names
  aead_names_build a c = (
    (_, refl, refl, refl, refl, refl),
    (a, (c, ((_, refl, refl, refl, refl, refl), ((_, refl, refl, refl, refl, refl), tt)))),
  )
