-- ===== src/Simd/Examples.antt =====
-- The theorems on the ciphers at concrete inputs.
use linerate.Base.{◌+◌, ◌≡◌, refl, List, [], ◌∷◌}
use linerate.Base.{replicate, true, false}
use linerate.Simd.Chacha.{chacha_xor_portable}
use linerate.Simd.Poly.{Limbs, poly1305_finish, poly1305_init, add_block, products, carry}
use linerate.Simd.Poly.Turn.{AreLimbs, value, prime, digits, turn-value}
use linerate.Simd.Poly.Rfc.{update_all, joined, poly1305, update_all-poly1305, All-AreBytes}
use linerate.Simd.Chapoly.{chap_tag, lr_chap_seal, lr_chap_open}
use linerate.Simd.Chapoly.Tag.{tagged, chap_tag-poly1305}
use linerate.Base.{◌%◌, ◌*◌, ◌^◌, arith}
use linerate.Simd.Paths.{Target, SimdPath}
use linerate.Simd.Gcm.{lr_gcm_seal}
use linerate.Base.{◌↔◌, some}
use linerate.Simd.Inputs.{
  vector_nonce, no_vectors, poly_key, poly_pieces, no_cipher, chap_sealed, gcm_sealed,
}
use linerate.Simd.{xor_bytes}
use linerate.Simd.Chacha.Involution.{keystream, chacha_xor_portable-keystream}
use linerate.Simd.Chapoly.Anywhere.{avx2, neon, sealed_anywhere}
use linerate.Simd.StandIns.{cut, neon_rows, neon_rows-IsNeon}
use linerate.Simd.StandIns.Pairs.{lo, hi, pairs, pairs-IsAvx2}
use linerate.Simd.Neon.{chacha_xor_neon}
use linerate.Simd.Neon.Agrees.{chacha_xor_neon-portable}
use linerate.Simd.Avx2.{chacha_xor_avx2}
use linerate.Simd.Avx2.Agrees.{chacha_xor_avx2-portable}
use linerate.Simd.Gcm.Made.{portable_ctx, made, made_opens}
use linerate.Simd.Gcm.{lr_gcm_open}
use linerate.Simd.Adapter.{chap_api, gcm_api, chap_api-IsAead, gcm_api-IsAead}
use linerate.Simd.Paths.{Cpu, at_start, resolve_paths, gcm_path, chap_path}
use linerate.Simd.Paths.Masks.{Call, run, forced, masked, Found, run_paths}
use linerate.Shard.Forward.{IsAead}
use linerate.Aead.{simd_aead}

update_all-poly1305_example :
    poly1305_finish (update_all (poly1305_init (replicate 16 9) poly_key) poly_pieces)
    ≡ poly1305 poly_key (joined poly_pieces)
update_all-poly1305_example =
    update_all-poly1305 (replicate 16 9) poly_key poly_pieces refl (omega arith) (omega arith)
      (omega arith)

abbrev few_r : Limbs
few_r = record { l0 = 5; l1 = 0; l2 = 7; l3 = 0; l4 = 1 }

abbrev few_h : Limbs
few_h = record { l0 = 3; l1 = 1; l2 = 0; l3 = 0; l4 = 2 }

turn-value_example :
    AreLimbs (carry (products few_r (add_block (1 * 2 ^ 24) few_h (replicate 16 200))))
    × (value (carry (products few_r (add_block (1 * 2 ^ 24) few_h (replicate 16 200)))) % prime
        ≡ (value few_h + digits 16 0 (replicate 16 200) + 2 ^ 128 * 1) * value few_r % prime)
turn-value_example =
    turn-value few_r few_h (replicate 16 200) 1 (omega arith) (omega arith)
      (All-AreBytes (replicate 16 200) (omega arith)) (omega arith)

chap_tag-poly1305_example :
    chap_tag (replicate 16 9) poly_key (1 ∷ 2 ∷ []) (3 ∷ 4 ∷ 5 ∷ [])
    ≡ poly1305 poly_key (tagged (1 ∷ 2 ∷ []) (3 ∷ 4 ∷ 5 ∷ []))
chap_tag-poly1305_example =
    chap_tag-poly1305 (replicate 16 9) poly_key (1 ∷ 2 ∷ []) (3 ∷ 4 ∷ 5 ∷ []) refl (omega arith)
      (omega arith) (omega arith) (omega arith)

chacha_xor_portable-keystream_example :
    chacha_xor_portable poly_key vector_nonce 1 (1 ∷ 2 ∷ 3 ∷ [])
    ≡ xor_bytes (1 ∷ 2 ∷ 3 ∷ []) (keystream poly_key vector_nonce 1 1)
chacha_xor_portable-keystream_example =
    chacha_xor_portable-keystream poly_key vector_nonce 1 1 (1 ∷ 2 ∷ 3 ∷ []) (omega arith)

sealed_anywhere_example :
    (lr_chap_open Target.arm
        (avx2 pairs lo hi cut pairs-IsAvx2 neon_rows cut neon_rows-IsNeon)
        (neon pairs lo hi cut pairs-IsAvx2 neon_rows cut neon_rows-IsNeon)
        (replicate 16 8)
        (record { key = poly_key; path = SimdPath.arm })
        vector_nonce
        (9 ∷ [])
        chap_sealed
      ≡ some (1 ∷ 2 ∷ 3 ∷ []))
    ↔ (chap_sealed
        ≡ lr_chap_seal Target.x86
            (avx2 pairs lo hi cut pairs-IsAvx2 neon_rows cut neon_rows-IsNeon)
            (neon pairs lo hi cut pairs-IsAvx2 neon_rows cut neon_rows-IsNeon)
            (replicate 16 7)
            (record { key = poly_key; path = SimdPath.x86 })
            vector_nonce
            (9 ∷ [])
            (1 ∷ 2 ∷ 3 ∷ []))
sealed_anywhere_example =
    sealed_anywhere pairs lo hi cut pairs-IsAvx2 neon_rows cut neon_rows-IsNeon Target.x86
      Target.arm SimdPath.x86 SimdPath.arm poly_key vector_nonce (9 ∷ []) (1 ∷ 2 ∷ 3 ∷ [])
      chap_sealed (replicate 16 7) (replicate 16 8) (omega arith) (omega arith) (omega arith)
      (omega arith) (omega arith) refl refl

chacha_xor_avx2-portable_example :
    chacha_xor_avx2 pairs poly_key vector_nonce 4294967294 (replicate 300 5)
    ≡ chacha_xor_portable poly_key vector_nonce 4294967294 (replicate 300 5)
chacha_xor_avx2-portable_example =
    chacha_xor_avx2-portable pairs lo hi cut pairs-IsAvx2 poly_key vector_nonce (omega arith)
      (omega arith) 4294967294 (replicate 300 5) (omega arith) (omega arith)

chacha_xor_neon-portable_example :
    chacha_xor_neon neon_rows poly_key vector_nonce 1 (replicate 70 5)
    ≡ chacha_xor_portable poly_key vector_nonce 1 (replicate 70 5)
chacha_xor_neon-portable_example =
    chacha_xor_neon-portable neon_rows cut neon_rows-IsNeon poly_key vector_nonce 1 (replicate 70 5)
      (omega arith) (omega arith) (omega arith)

abbrev some_cpu : Cpu
some_cpu = record { aes_clmul = true; avx2 = true; neon = false }

made_opens_example :
    (lr_gcm_open Target.other no_vectors no_vectors
        (portable_ctx (replicate 32 0))
        (replicate 12 0)
        []
        gcm_sealed
      ≡ some (replicate 16 0))
    ↔ (gcm_sealed
        ≡ lr_gcm_seal Target.other no_vectors no_vectors
            (portable_ctx (replicate 32 0))
            (replicate 12 0)
            []
            (replicate 16 0))
unfolding gcm_path resolve_paths
made_opens_example =
    made_opens Target.other no_vectors no_vectors some_cpu at_start (replicate 32 0) refl
      (portable_ctx (replicate 32 0)) (replicate 12 0) [] (replicate 16 0) gcm_sealed
      (made Target.other no_vectors no_vectors some_cpu at_start (replicate 32 0) refl) refl refl
      (omega arith) (omega arith)

chap_api-IsAead_example : IsAead (
    simd_aead
      (chap_api Target.other some_cpu at_start no_cipher no_cipher
        (replicate 16 7)
        (replicate 16 8))
      "lr-chacha20-poly1305"
      poly_key)
unfolding chap_path resolve_paths
chap_api-IsAead_example =
    chap_api-IsAead Target.other some_cpu at_start no_cipher no_cipher (replicate 16 7)
      (replicate 16 8) poly_key "lr-chacha20-poly1305" refl refl refl

gcm_api-IsAead_example : IsAead (
    simd_aead
      (gcm_api Target.other some_cpu at_start no_vectors no_vectors)
      "lr-aes-256-gcm"
      poly_key)
unfolding gcm_path resolve_paths
gcm_api-IsAead_example =
    gcm_api-IsAead Target.other some_cpu at_start no_vectors no_vectors poly_key "lr-aes-256-gcm"
      refl refl

abbrev some_calls : List Call
some_calls = Call.ask_gcm ∷ Call.mask true ∷ Call.ask_chap ∷ []

run_paths_example :
    Found Target.x86 some_cpu
      (run Target.x86 some_cpu some_calls at_start)
      (forced some_calls false)
      (masked some_calls false)
run_paths_example = run_paths Target.x86 some_cpu some_calls
