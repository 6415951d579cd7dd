-- ===== src/Simd/Adapter.antt =====
-- The two C interfaces of include/lr/simd_crypto.h as the adapters of src/core/aead_simd.cpp call
-- them, and what the shard asks of a cipher.
use Prim.Native.String.{String}
use linerate.Base.{
  ℕ, ◌≡◌, refl, ap, subst, sym, ◌∙◌, true, Option, none, some, List, [], length, take, All,
}
use linerate.Base.Words.{IsByte}
use linerate.Aead.{SimdApi, simd_aead}
use linerate.Shard.Forward.{IsAead}
use linerate.Simd.Paths.{
  Target, SimdPath, Cpu, Globals, gcm_path, chap_path, lr_simd_gcm_backend, lr_simd_chap_backend,
}
use linerate.Simd.Chapoly.{ChapCtx, lr_chap_new, lr_chap_seal, lr_chap_open}
use linerate.Simd.Chapoly.Sealed.{
  lr_chap_open-lr_chap_seal, lr_chap_seal-IsByte, length-lr_chap_seal,
}
use linerate.Simd.Gcm.{GcmCtx, GcmVectors, lr_gcm_new, lr_gcm_seal, gcm_spill, lr_gcm_open}
use linerate.Simd.Gcm.Sealed.{lr_gcm_seal-IsByte, length-lr_gcm_seal, lr_gcm_open-lr_gcm_seal}
use linerate.Simd.Gcm.Made.{portable_ctx, made}
use linerate.Simd.Aes.Keys.{expand-AreKeys}

some_is : {a b : List ℕ} → some a ≡ some b → b ≡ a
some_is e = cc

module _ (t : Target) (cpu : Cpu) (g : Globals) where
  -- lr_chap_new, lr_chap_seal and lr_chap_open; `s1` and `s2` are what the buffers of the two calls
  -- hold.
  abbrev pub chap_api :
      (avx2 neon : List ℕ → List ℕ → ℕ → List ℕ → List ℕ) (s1 s2 : List ℕ) → SimdApi
  chap_api avx2 neon s1 s2 = record {
    Ctx = ChapCtx;
    new = λ key. (lr_chap_new t cpu true g key).1;
    seal = λ c n aad pt. some (lr_chap_seal t avx2 neon s1 c n aad pt);
    open_ct = λ c n aad ct. lr_chap_open t avx2 neon s2 c n aad ct;
    -- It decrypts only after the tag has been compared.
    spill = λ c n aad ct. [];
    backend = lr_simd_chap_backend t cpu g;
  }

  -- lr_gcm_new, lr_gcm_seal and lr_gcm_open.
  abbrev pub gcm_api : GcmVectors → GcmVectors → SimdApi
  gcm_api x86 arm = record {
    Ctx = GcmCtx;
    new = λ key. (lr_gcm_new t x86 arm cpu true g key).1;
    seal = λ c n aad pt. some (lr_gcm_seal t x86 arm c n aad pt);
    open_ct = λ c n aad ct. lr_gcm_open t x86 arm c n aad ct;
    spill = λ c n aad ct. gcm_spill t x86 arm c n aad ct;
    backend = lr_simd_gcm_backend t cpu g;
  }

  module _ (avx2 neon : List ℕ → List ℕ → ℕ → List ℕ → List ℕ) (s1 s2 key : List ℕ) (name : String)
      (portable : (chap_path t cpu g).1 ≡ SimdPath.portable) (room1 : length s1 ≡ 16)
      (room2 : length s2 ≡ 16) where
    abbrev made_chap : ChapCtx
    made_chap = record { key = take 32 key; path = (chap_path t cpu g).1 }

    chap_opens :
        (n aad pt ct : List ℕ)
        → All IsByte aad
        → All IsByte pt
        → ct ≡ lr_chap_seal t avx2 neon s1 made_chap n aad pt
        → lr_chap_open t avx2 neon s2 made_chap n aad ct ≡ some pt
    chap_opens n aad pt ct a p e =
        (lr_chap_open-lr_chap_seal t avx2 neon made_chap portable s1 s2 n aad pt ct room1 room2 a p
            (subst (All IsByte) (sym e)
              (lr_chap_seal-IsByte t avx2 neon made_chap portable s1 n aad pt room1 a))).1
          e

    -- lr-chacha20-poly1305 on the portable path is a cipher as the shard asks: it opens what it seals
    -- and adds 16 bytes, whatever the buffers of 16 bytes hold.
    pub chap_api-IsAead : IsAead (simd_aead (chap_api avx2 neon s1 s2) name key)
    unfolding simd_aead lr_chap_new
    chap_api-IsAead = record {
      opens = λ n aad pt ct twelve a p e. chap_opens n aad pt ct a p (some_is e);
      tagged = λ n aad pt ct twelve e.
          ap length (some_is e) ∙ length-lr_chap_seal t avx2 neon made_chap portable s1 n aad pt;
    }

  module _ (x86 arm : GcmVectors) (key : List ℕ) (name : String)
      (portable : (gcm_path t cpu g).1 ≡ SimdPath.portable) (long : length key ≡ 32) where
    abbrev ctx : GcmCtx
    ctx = portable_ctx key

    abbrev sealed_with : (n aad pt : List ℕ) → Option GcmCtx → Option (List ℕ)
    sealed_with n aad pt made = elim made [
      | none ↦ none
      | some c ↦ some (lr_gcm_seal t x86 arm c n aad pt)
    ]

    abbrev opened_with : (n aad ct : List ℕ) → Option GcmCtx → Option (List ℕ)
    opened_with n aad ct made = elim made [
      | none ↦ none
      | some c ↦ lr_gcm_open t x86 arm c n aad ct
    ]

    sealed_is :
        (n aad pt ct : List ℕ)
        → sealed_with n aad pt ((lr_gcm_new t x86 arm cpu true g key).1) ≡ some ct
        → ct ≡ lr_gcm_seal t x86 arm ctx n aad pt
    sealed_is n aad pt ct e =
        some_is (ap (sealed_with n aad pt) (sym (made t x86 arm cpu g key portable)) ∙ e)

    gcm_opens :
        (n aad pt ct : List ℕ)
        → length n ≡ 12
        → All IsByte pt
        → ct ≡ lr_gcm_seal t x86 arm ctx n aad pt
        → lr_gcm_open t x86 arm ctx n aad ct ≡ some pt
    gcm_opens n aad pt ct twelve p e =
        (lr_gcm_open-lr_gcm_seal ctx (expand-AreKeys key long) n twelve t x86 arm refl aad pt ct p (
            subst (All IsByte) (sym e)
              (lr_gcm_seal-IsByte ctx (expand-AreKeys key long) n twelve t x86 arm refl aad pt))).1
          e

    -- lr-aes-256-gcm on the portable path, under a key of 32 bytes, is a cipher as the shard asks: it
    -- opens what it seals and adds 16 bytes.
    pub gcm_api-IsAead : IsAead (simd_aead (gcm_api x86 arm) name key)
    unfolding simd_aead
    gcm_api-IsAead = record {
      opens = λ n aad pt ct twelve a p e.
          ap (opened_with n aad ct) (made t x86 arm cpu g key portable)
          ∙ gcm_opens n aad pt ct twelve p (sealed_is n aad pt ct e);
      tagged = λ n aad pt ct twelve e.
          ap length (sealed_is n aad pt ct e)
          ∙ length-lr_gcm_seal ctx (expand-AreKeys key long) n twelve t x86 arm refl aad pt;
    }
