-- ===== src/Simd/Inputs.antt =====
-- The inputs on which the ciphers are run.
use linerate.Base.{ℕ, zero, suc, ◌+◌, List, [], ◌∷◌}
use linerate.Base.{replicate}
use linerate.Simd.Chapoly.{ChapCtx}
use linerate.Simd.Paths.{SimdPath}
use linerate.Simd.Aes.{aes256_encrypt_portable, aes256_expand_portable}
use linerate.Simd.Gcm.{GcmVectors, GcmCtx, ghash_tables}

abbrev pub count_up : ℕ → ℕ → List ℕ
count_up i zero = []
count_up i (suc n) = i ∷ count_up (i + 1) n

abbrev pub vector_nonce : List ℕ
vector_nonce = 0 ∷ 0 ∷ 0 ∷ 9 ∷ 0 ∷ 0 ∷ 0 ∷ 0x4a ∷ 0 ∷ 0 ∷ 0 ∷ 0 ∷ []

abbrev pub no_vectors : GcmVectors
no_vectors = record {
  ctr = λ rk ctr xs. (ctr, xs);
  ghash = λ c y m. y;
  stitch = λ c ctr y xs encrypt. (y, xs);
  init =
      λ key. record { rk = []; h = []; powers = []; low = []; high = []; path = SimdPath.portable };
}

abbrev pub zero_ctx : GcmCtx
zero_ctx =
    let rk = aes256_expand_portable (replicate 32 0) in
    let h = aes256_encrypt_portable rk (replicate 16 0) in
    record {
      rk = rk;
      h = h;
      powers = [];
      low = (ghash_tables h).1;
      high = (ghash_tables h).0;
      path = SimdPath.portable;
    }

-- RFC 8439, section 2.5.2, the message in three pieces.
abbrev pub poly_key : List ℕ
poly_key =
    0x85 ∷ 0xd6 ∷ 0xbe ∷ 0x78 ∷ 0x57 ∷ 0x55 ∷ 0x6d ∷ 0x33 ∷ 0x7f ∷ 0x44 ∷ 0x52 ∷ 0xfe ∷ 0x42 ∷ 0xd5
    ∷ 0x06 ∷ 0xa8 ∷ 0x01 ∷ 0x03 ∷ 0x80 ∷ 0x8a ∷ 0xfb ∷ 0x0d ∷ 0xb2 ∷ 0xfd ∷ 0x4a ∷ 0xbf ∷ 0xf6
    ∷ 0xaf ∷ 0x41 ∷ 0x49 ∷ 0xf5 ∷ 0x1b ∷ []

-- "Cryptographic Forum Research Group".
abbrev pub poly_pieces : List (List ℕ)
poly_pieces =
    (0x43 ∷ 0x72 ∷ 0x79 ∷ 0x70 ∷ 0x74 ∷ [])
    ∷ (0x6f ∷ 0x67 ∷ 0x72 ∷ 0x61 ∷ 0x70 ∷ 0x68 ∷ 0x69 ∷ 0x63 ∷ 0x20 ∷ 0x46 ∷ 0x6f ∷ 0x72 ∷ 0x75
        ∷ 0x6d ∷ 0x20 ∷ 0x52 ∷ 0x65 ∷ 0x73 ∷ 0x65 ∷ 0x61 ∷ 0x72 ∷ 0x63 ∷ 0x68 ∷ [])
    ∷ (0x20 ∷ 0x47 ∷ 0x72 ∷ 0x6f ∷ 0x75 ∷ 0x70 ∷ [])
    ∷ []

abbrev pub poly_tag : List ℕ
poly_tag =
    0xa8 ∷ 0x06 ∷ 0x1d ∷ 0xc1 ∷ 0x30 ∷ 0x51 ∷ 0x36 ∷ 0xc6 ∷ 0xc2 ∷ 0x2b ∷ 0x8b ∷ 0xaf ∷ 0x0c ∷ 0x01
    ∷ 0x27 ∷ 0xa9 ∷ []

abbrev pub no_cipher : List ℕ → List ℕ → ℕ → List ℕ → List ℕ
no_cipher key nonce c xs = xs

abbrev pub chap_ctx : ChapCtx
chap_ctx = record { key = count_up 0 32; path = SimdPath.portable }

abbrev pub chap_sealed : List ℕ
chap_sealed =
    17 ∷ 243 ∷ 228 ∷ 88 ∷ 129 ∷ 220 ∷ 55 ∷ 125 ∷ 214 ∷ 184 ∷ 63 ∷ 114 ∷ 189 ∷ 86 ∷ 89 ∷ 51 ∷ 65 ∷ 1
    ∷ 204 ∷ []

abbrev pub gcm_sealed : List ℕ
gcm_sealed =
    0xce ∷ 0xa7 ∷ 0x40 ∷ 0x3d ∷ 0x4d ∷ 0x60 ∷ 0x6b ∷ 0x6e ∷ 0x07 ∷ 0x4e ∷ 0xc5 ∷ 0xd3 ∷ 0xba ∷ 0xf3
    ∷ 0x9d ∷ 0x18 ∷ 0xd0 ∷ 0xd1 ∷ 0xc8 ∷ 0xa7 ∷ 0x99 ∷ 0x99 ∷ 0x6b ∷ 0xf0 ∷ 0x26 ∷ 0x5b ∷ 0x98
    ∷ 0xb5 ∷ 0xd4 ∷ 0x8a ∷ 0xb9 ∷ 0x19 ∷ []
