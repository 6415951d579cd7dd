-- ===== src/Simd/Tests.antt =====
-- Runs of the ciphers on the vectors of their standards.
use linerate.Base.{◌≡◌, refl, [], ◌∷◌, take}
use linerate.Simd.Chacha.{
  quarter_round, chacha_state, chacha_block_portable, double_rounds, double_round, mix, add_store,
  load_words,
}
use linerate.Base.{replicate}
use linerate.Base.Bytes.{be_bytes, le_bytes}
use linerate.Simd.{load32_le, store32_le, rotl32, xor_loop}
use linerate.Simd.Chacha.{chacha_xor, chacha_xor_portable, next_block}
use linerate.Simd.Poly.{
  poly1305_finish, finish_block, poly1305_init, poly1305_update, take_blocks, keep_rest, copy_to,
  poly1305_blocks, blocks_loop, add_block, products, carry, carry_all, add_five, reduce, add_pad,
}
use linerate.Simd.Poly.Rfc.{update_all}
use linerate.Simd.Chapoly.{chap_tag, mac_key_of, update_padded, lr_chap_seal}
use linerate.Simd.Inputs.{
  count_up, vector_nonce, no_vectors, zero_ctx, poly_key, poly_pieces, poly_tag, no_cipher,
  chap_ctx, chap_sealed, gcm_sealed,
}
use linerate.Simd.Paths.{Target}
use linerate.Simd.Aes.{
  aes256_encrypt_portable, aes256_expand_portable, rounds, mix_columns, mix_column, sub_shift,
  round_keys, key_words, expand_words, schedule_core, xtime, aes_ctr_portable, next_counter,
}
use linerate.Simd.Gcm.{
  lr_gcm_seal, gcm_core, gcm_middle, gcm_lengths, gcm_ghash, gcm_ctr, ghash_update_portable,
  ghash_blocks, xor_into, ghash_block_portable, ghash_bytes, add_nibble, ghash_tables, be_load,
}

-- RFC 8439, section 2.1.1.
quarter_round_vector :
    quarter_round 0 1 2 3 (0x11111111 ∷ 0x01020304 ∷ 0x9b8d6f43 ∷ 0x01234567 ∷ [])
    ≡ 0xea2a92f4 ∷ 0xcb1cf8ce ∷ 0x4581472e ∷ 0x5881c4bb ∷ []
unfolding quarter_round mix rotl32
quarter_round_vector = refl

-- RFC 8439, section 2.3.2: the first bytes of the block.
chacha_block_vector :
    take 16 (chacha_block_portable (chacha_state (count_up 0 32) vector_nonce 1))
    ≡ 0x10 ∷ 0xf1 ∷ 0xe7 ∷ 0xe4 ∷ 0xd1 ∷ 0x3b ∷ 0x59 ∷ 0x15 ∷ 0x50 ∷ 0x0f ∷ 0xdd ∷ 0x1f ∷ 0xa3
      ∷ 0x20 ∷ 0x71 ∷ 0xc4 ∷ []
unfolding chacha_block_portable chacha_state add_store double_rounds double_round load_words
    quarter_round mix rotl32 load32_le store32_le
chacha_block_vector = refl

-- FIPS 197, appendix C.3.
aes_vector :
    aes256_encrypt_portable (aes256_expand_portable (count_up 0 32)) (
      0x00 ∷ 0x11 ∷ 0x22 ∷ 0x33 ∷ 0x44 ∷ 0x55 ∷ 0x66 ∷ 0x77 ∷ 0x88 ∷ 0x99 ∷ 0xaa ∷ 0xbb ∷ 0xcc
      ∷ 0xdd ∷ 0xee ∷ 0xff ∷ [])
    ≡ 0x8e ∷ 0xa2 ∷ 0xb7 ∷ 0xca ∷ 0x51 ∷ 0x67 ∷ 0x45 ∷ 0xbf ∷ 0xea ∷ 0xfc ∷ 0x49 ∷ 0x90 ∷ 0x4b
      ∷ 0x49 ∷ 0x60 ∷ 0x89 ∷ []
unfolding aes256_encrypt_portable aes256_expand_portable rounds mix_columns mix_column sub_shift
    round_keys key_words expand_words schedule_core xtime
aes_vector = refl

-- The test cases 13 and 14 of the GCM specification: a zero key and nonce, without and with a block
-- of zeros.
gcm_empty_vector :
    lr_gcm_seal Target.other no_vectors no_vectors zero_ctx (replicate 12 0) [] []
    ≡ 0x53 ∷ 0x0f ∷ 0x8a ∷ 0xfb ∷ 0xc7 ∷ 0x45 ∷ 0x36 ∷ 0xb9 ∷ 0xa9 ∷ 0x63 ∷ 0xb4 ∷ 0xf1 ∷ 0xc4
      ∷ 0xcb ∷ 0x73 ∷ 0x8b ∷ []
unfolding aes256_encrypt_portable aes256_expand_portable rounds mix_columns mix_column sub_shift
    round_keys key_words expand_words schedule_core xtime lr_gcm_seal gcm_core gcm_middle
    gcm_lengths gcm_ghash gcm_ctr aes_ctr_portable xor_loop next_counter ghash_update_portable
    ghash_blocks xor_into ghash_block_portable ghash_bytes add_nibble ghash_tables be_load be_bytes
gcm_empty_vector = refl

gcm_block_vector :
    lr_gcm_seal Target.other no_vectors no_vectors zero_ctx (replicate 12 0) [] (replicate 16 0)
    ≡ gcm_sealed
unfolding aes256_encrypt_portable aes256_expand_portable rounds mix_columns mix_column sub_shift
    round_keys key_words expand_words schedule_core xtime lr_gcm_seal gcm_core gcm_middle
    gcm_lengths gcm_ghash gcm_ctr aes_ctr_portable xor_loop next_counter ghash_update_portable
    ghash_blocks xor_into ghash_block_portable ghash_bytes add_nibble ghash_tables be_load be_bytes
gcm_block_vector = refl

poly_vector :
    poly1305_finish (update_all (poly1305_init (replicate 16 9) poly_key) poly_pieces) ≡ poly_tag
unfolding poly1305_finish finish_block poly1305_init poly1305_update take_blocks keep_rest copy_to
    poly1305_blocks blocks_loop add_block products carry carry_all add_five reduce add_pad load32_le
    store32_le
poly_vector = refl

chap_seal_run :
    lr_chap_seal Target.other no_cipher no_cipher
      (replicate 16 7)
      chap_ctx
      vector_nonce
      (9 ∷ [])
      (1 ∷ 2 ∷ 3 ∷ [])
    ≡ chap_sealed
unfolding lr_chap_seal mac_key_of chacha_xor chacha_xor_portable next_block xor_loop
    chacha_block_portable chacha_state add_store double_rounds double_round load_words quarter_round
    mix rotl32 load32_le store32_le chap_tag update_padded poly1305_finish finish_block
    poly1305_init poly1305_update take_blocks keep_rest copy_to poly1305_blocks blocks_loop
    add_block products carry carry_all add_five reduce add_pad le_bytes
chap_seal_run = refl
