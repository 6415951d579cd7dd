-- ===== src/Simd/Chapoly/Anywhere.antt =====
-- ChaCha20-Poly1305 on every path: what is sealed on one machine is opened on another.
use linerate.Base.{
  ℕ, ◌-◌, ◌≡◌, refl, sym, ap, ap₂, ◌∙◌, ◌↔◌, not, none, some, List, [], ◌++◌, ◌==◌, ltb,
  if◌then◌else◌, length, replicate, take, drop, All, All-take, arith, zero, suc, inl, inr,
  Bool-cases,
}
use linerate.Base.Words.{IsByte}
use linerate.Simd.{ct_eq16}
use linerate.Simd.Paths.{Target, SimdPath, on_x86, on_arm}
use linerate.Simd.Rows.{Row, IsWord}
use linerate.Simd.Neon as Neon
use linerate.Simd.Neon.Agrees.{chacha_xor_neon-portable}
use linerate.Simd.Avx2 as Avx2
use linerate.Simd.Avx2.Laws.{IsAvx2}
use linerate.Simd.Avx2.Agrees.{chacha_xor_avx2-portable}
use linerate.Simd.Chacha.{chacha_xor_portable, chacha_xor}
use linerate.Simd.Chapoly.{chap_tag, mac_key_of, lr_chap_seal, lr_chap_open}
use linerate.Simd.Chapoly.Sealed.{lr_chap_open-lr_chap_seal}

zeros-IsByte : (n : ℕ) → All IsByte (replicate n 0)
zeros-IsByte zero = tt
zeros-IsByte (suc n) = (omega arith, zeros-IsByte n)

module _ {W H V : Type 0} (i : Avx2.Intrinsics W H) (lo hi : W → Row) (row : H → Row)
    (l : IsAvx2 i lo hi row) (j : Neon.Intrinsics V) (view : V → Row) (m : Neon.IsNeon j view) where
  -- The versions that run on the two targets.
  abbrev pub avx2 : List ℕ → List ℕ → ℕ → List ℕ → List ℕ
  avx2 = Avx2.chacha_xor_avx2 i

  abbrev pub neon : List ℕ → List ℕ → ℕ → List ℕ → List ℕ
  neon = Neon.chacha_xor_neon j

  module _ (t : Target) (key nonce : List ℕ) (k : All IsByte key) (n : All IsByte nonce) where
    -- Every path gives what the portable version gives.
    pub any_path :
        (p : SimdPath) (c : ℕ) (xs : List ℕ)
        → IsWord c
        → All IsByte xs
        → chacha_xor t avx2 neon p key nonce c xs ≡ chacha_xor_portable key nonce c xs
    unfolding chacha_xor
    any_path SimdPath.portable c xs h small = refl
    any_path SimdPath.x86 c xs h small = elim (Bool-cases (on_x86 t)) [
      | inl e ↦
          rw (e, chacha_xor) (chacha_xor_avx2-portable i lo hi row l key nonce k n c xs h small)
      | inr e ↦ rw (e, chacha_xor) refl
    ]
    any_path SimdPath.arm c xs h small = elim (Bool-cases (on_arm t)) [
      | inl e ↦ rw (e, chacha_xor) (chacha_xor_neon-portable j view m key nonce c xs k n h)
      | inr e ↦ rw (e, chacha_xor) refl
    ]

    seal_any_path :
        (p : SimdPath) (stack aad pt : List ℕ)
        → All IsByte pt
        → lr_chap_seal t avx2 neon stack (record { key = key; path = p }) nonce aad pt
          ≡ lr_chap_seal Target.other avx2 neon stack
              (record { key = key; path = SimdPath.portable })
              nonce
              aad
              pt
    unfolding lr_chap_seal mac_key_of chacha_xor
    seal_any_path p stack aad pt small =
        ap₂ (λ mac out. out ++ chap_tag stack mac aad out)
          (any_path p 0 (replicate 64 0) (omega arith) (zeros-IsByte 64))
          (ap (λ out. if length pt == 0 then [] else out) (any_path p 1 pt (omega arith) small))

    open_any_path :
        (p : SimdPath) (stack aad ct : List ℕ)
        → All IsByte ct
        → lr_chap_open t avx2 neon stack (record { key = key; path = p }) nonce aad ct
          ≡ lr_chap_open Target.other avx2 neon stack
              (record { key = key; path = SimdPath.portable })
              nonce
              aad
              ct
    unfolding lr_chap_open mac_key_of chacha_xor
    open_any_path p stack aad ct small =
        let body = length ct - 16 in
        ap₂
          (λ mac out.
            if ltb (length ct) 16
            then none
            else if not (ct_eq16 (chap_tag stack mac aad (take body ct)) (drop body ct))
            then none
            else some (if body == 0 then [] else out))
          (any_path p 0 (replicate 64 0) (omega arith) (zeros-IsByte 64))
          (any_path p 1 (take body ct) (omega arith) (All-take IsByte body ct small))

  -- With vector instructions that do what they are documented to do, whatever the targets and paths
  -- of two contexts with one key: a message opens under the one to a plaintext exactly when it is
  -- what sealing that plaintext gives under the other, with the same nonce and associated data. Keys
  -- and strings are of bytes, and the buffers of the two calls have 16 bytes, whatever they hold.
  pub sealed_anywhere :
      (t1 t2 : Target) (p1 p2 : SimdPath) (key nonce aad pt ct s1 s2 : List ℕ)
      → All IsByte key
      → All IsByte nonce
      → All IsByte aad
      → All IsByte pt
      → All IsByte ct
      → length s1 ≡ 16
      → length s2 ≡ 16
      → (lr_chap_open t2 avx2 neon s2 (record { key = key; path = p2 }) nonce aad ct ≡ some pt)
        ↔ (ct ≡ lr_chap_seal t1 avx2 neon s1 (record { key = key; path = p1 }) nonce aad pt)
  sealed_anywhere t1 t2 p1 p2 key nonce aad pt ct s1 s2 k n a p c room1 room2 =
      let opens = open_any_path t2 key nonce k n p2 s2 aad ct c in
      let seals = seal_any_path t1 key nonce k n p1 s1 aad pt p in
      let same =
        lr_chap_open-lr_chap_seal Target.other avx2 neon
          (record { key = key; path = SimdPath.portable }) refl s1 s2 nonce aad pt ct room1 room2 a
          p c in
      (λ h. same.0 (sym opens ∙ h) ∙ sym seals, λ e. opens ∙ same.1 (e ∙ seals))
