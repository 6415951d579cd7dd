-- ===== src/Simd/Gcm/Made.antt =====
-- The contexts that lr_gcm_new makes on the portable path.
use linerate.Base.{
  ℕ, ◌≡◌, refl, ap, subst, sym, ◌∙◌, ◌↔◌, true, some, List, [], length, replicate, All,
}
use linerate.Base.Words.{IsByte}
use linerate.Simd.Paths.{Target, SimdPath, Cpu, Globals, gcm_path}
use linerate.Simd.Aes.{aes256_expand_portable, aes256_encrypt_portable}
use linerate.Simd.Aes.Keys.{expand-AreKeys}
use linerate.Simd.Gcm.{GcmCtx, GcmVectors, ghash_tables, lr_gcm_new, lr_gcm_seal, lr_gcm_open}
use linerate.Simd.Gcm.Sealed.{lr_gcm_open-lr_gcm_seal}

-- The context of a key, expanded by the portable code.
abbrev pub portable_ctx : List ℕ → GcmCtx
portable_ctx key =
    let rk = aes256_expand_portable key in
    let h = aes256_encrypt_portable rk (replicate 16 0) in
    record {
      rk = rk;
      h = h;
      powers = replicate 4 [];
      low = (ghash_tables h).1;
      high = (ghash_tables h).0;
      path = SimdPath.portable;
    }

module _ (t : Target) (x86 arm : GcmVectors) (cpu : Cpu) (g : Globals) (key : List ℕ)
    (portable : (gcm_path t cpu g).1 ≡ SimdPath.portable) where
  pub made : (lr_gcm_new t x86 arm cpu true g key).1 ≡ some (portable_ctx key)
  unfolding lr_gcm_new
  made =
      rw portable
        (ap (λ p. let d : GcmCtx = record (portable_ctx key) { path = p } in some d) portable)

  made_is : (c : GcmCtx) → (lr_gcm_new t x86 arm cpu true g key).1 ≡ some c → portable_ctx key ≡ c
  made_is c e = let same = sym made ∙ e in cc

  -- Under a context that lr_gcm_new makes of a key of 32 bytes where the path is the portable one, and
  -- with a nonce of 12 bytes, a message opens to a plaintext exactly when it is what sealing that
  -- plaintext gives with the same nonce and associated data; plaintext and message are of bytes.
  pub made_opens :
      (c : GcmCtx) (nonce aad pt ct : List ℕ)
      → (lr_gcm_new t x86 arm cpu true g key).1 ≡ some c
      → length key ≡ 32
      → length nonce ≡ 12
      → All IsByte pt
      → All IsByte ct
      → (lr_gcm_open t x86 arm c nonce aad ct ≡ some pt)
        ↔ (ct ≡ lr_gcm_seal t x86 arm c nonce aad pt)
  made_opens c nonce aad pt ct e long twelve p small =
      subst
        (λ d.
          (lr_gcm_open t x86 arm d nonce aad ct ≡ some pt)
          ↔ (ct ≡ lr_gcm_seal t x86 arm d nonce aad pt))
        (made_is c e)
        (lr_gcm_open-lr_gcm_seal (portable_ctx key) (expand-AreKeys key long) nonce twelve t x86 arm
          refl aad pt ct p small)
