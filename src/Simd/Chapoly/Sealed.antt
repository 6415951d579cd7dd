-- ===== src/Simd/Chapoly/Sealed.antt =====
-- lr_chap_open opens what lr_chap_seal seals, and nothing else, on the portable path.
use linerate.Base.{
  ℕ, ◌+◌, ◌-◌, ◌≤◌, ◌≡◌, refl, sym, ap, ap₂, subst, ◌∙◌, ◌↔◌, not, none, some, List, [], ◌∷◌, ◌++◌,
  ◌==◌, ltb, if◌then◌else◌, length, replicate, All, length-take, length-append, arith,
}
use linerate.Base.Words.{IsByte}
use linerate.Simd.{ct_eq16, xor_loop}
use linerate.Simd.Sealing.{IsScheme, seal, opened, opened-seal, seal-IsByte, body, sent}
use linerate.Simd.Paths.{Target, SimdPath}
use linerate.Simd.Chacha.{chacha_xor_portable, chacha_xor}
use linerate.Simd.Chacha.Involution.{
  chacha_xor_portable_twice, length-chacha_xor_portable, chacha_xor_portable-IsByte,
}
use linerate.Simd.Chapoly.{ChapCtx, chap_tag, mac_key_of, lr_chap_seal, lr_chap_open}
use linerate.Simd.Chapoly.Tag.{chap_tag-poly1305, chap_tag-IsByte, length-chap_tag}

-- The code leaves the cipher out where there is nothing to encrypt.
skip_empty :
    (key nonce : List ℕ) (c : ℕ) (xs : List ℕ) (n : ℕ)
    → n ≡ length xs
    → (if n == 0 then [] else chacha_xor_portable key nonce c xs)
      ≡ chacha_xor_portable key nonce c xs
unfolding chacha_xor_portable xor_loop
skip_empty key nonce c [] n e = ground arith
skip_empty key nonce c (x ∷ xs) n e = ground arith

abbrev cipher : ChapCtx → List ℕ → List ℕ → List ℕ
cipher c nonce xs = chacha_xor_portable c.key nonce 1 xs

-- The key of the tag: the first block of the stream.
abbrev tag_key : ChapCtx → List ℕ → List ℕ
tag_key c nonce = chacha_xor_portable c.key nonce 0 (replicate 64 0)

abbrev tag_of : ChapCtx → List ℕ → List ℕ → List ℕ → List ℕ → List ℕ
tag_of c stack nonce aad ct = chap_tag stack (tag_key c nonce) aad ct

tag_any_stack :
    (c : ChapCtx) (s1 s2 nonce aad ct : List ℕ)
    → length s1 ≡ 16
    → length s2 ≡ 16
    → All IsByte aad
    → All IsByte ct
    → tag_of c s1 nonce aad ct ≡ tag_of c s2 nonce aad ct
tag_any_stack c s1 s2 nonce aad ct p q a b =
    let long : 32 ≤ length (tag_key c nonce) =
      omega (arith, length-chacha_xor_portable c.key nonce 0 (replicate 64 0)) in
    let small = chacha_xor_portable-IsByte c.key nonce 0 (replicate 64 0) in
    chap_tag-poly1305 s1 (tag_key c nonce) aad ct p long small a b
    ∙ sym (chap_tag-poly1305 s2 (tag_key c nonce) aad ct q long small a b)

module _ (t : Target) (avx2 neon : List ℕ → List ℕ → ℕ → List ℕ → List ℕ) (c : ChapCtx)
    (portable : c.path ≡ SimdPath.portable) where
  runs :
      (nonce : List ℕ) (n : ℕ) (xs : List ℕ)
      → chacha_xor t avx2 neon c.path c.key nonce n xs ≡ chacha_xor_portable c.key nonce n xs
  unfolding chacha_xor
  runs nonce n xs = ap (λ p. chacha_xor t avx2 neon p c.key nonce n xs) portable

  seal-plain :
      (s1 s2 nonce aad pt : List ℕ)
      → lr_chap_seal t avx2 neon s1 c nonce aad pt
        ≡ seal (cipher c nonce) (tag_of c s1 nonce aad) (tag_of c s2 nonce aad) pt
  unfolding lr_chap_seal mac_key_of
  seal-plain s1 s2 nonce aad pt =
      ap₂ (λ k out. out ++ chap_tag s1 k aad out) (runs nonce 0 (replicate 64 0))
        (ap (λ l. if length pt == 0 then [] else l) (runs nonce 1 pt)
          ∙ skip_empty c.key nonce 1 pt (length pt) refl)

  open-plain :
      (s1 s2 nonce aad ct : List ℕ)
      → lr_chap_open t avx2 neon s2 c nonce aad ct
        ≡ opened (cipher c nonce) (tag_of c s1 nonce aad) (tag_of c s2 nonce aad) ct
  unfolding lr_chap_open mac_key_of
  open-plain s1 s2 nonce aad ct =
      ap₂
        (λ k l.
          if ltb (length ct) 16
          then none
          else if not (ct_eq16 (chap_tag s2 k aad (body ct)) (sent ct))
          then none
          else some l)
        (runs nonce 0 (replicate 64 0))
        (ap (λ l. if length ct - 16 == 0 then [] else l) (runs nonce 1 (body ct))
          ∙ skip_empty c.key nonce 1 (body ct) (length ct - 16)
              (omega (arith, length-take (length ct - 16) ct)))

  law :
      (s1 s2 nonce aad : List ℕ)
      → length s1 ≡ 16
      → length s2 ≡ 16
      → All IsByte aad
      → IsScheme (cipher c nonce) (tag_of c s1 nonce aad) (tag_of c s2 nonce aad)
  law s1 s2 nonce aad room1 room2 a = record {
    undoes = chacha_xor_portable_twice c.key nonce 1;
    bytes = chacha_xor_portable-IsByte c.key nonce 1;
    agree = λ xs b. tag_any_stack c s1 s2 nonce aad xs room1 room2 a b;
    whole = length-chap_tag s1 (tag_key c nonce) aad;
    whole' = length-chap_tag s2 (tag_key c nonce) aad;
    tag_bytes = chap_tag-IsByte s2 (tag_key c nonce) aad;
  }

  -- On the portable path a message opens to a plaintext exactly when it is what sealing that
  -- plaintext gives under the same context, nonce and associated data, whatever the two calls find
  -- in their buffers of 16 bytes; strings are of bytes.
  pub lr_chap_open-lr_chap_seal :
      (s1 s2 nonce aad pt ct : List ℕ)
      → length s1 ≡ 16
      → length s2 ≡ 16
      → All IsByte aad
      → All IsByte pt
      → All IsByte ct
      → (lr_chap_open t avx2 neon s2 c nonce aad ct ≡ some pt)
        ↔ (ct ≡ lr_chap_seal t avx2 neon s1 c nonce aad pt)
  lr_chap_open-lr_chap_seal s1 s2 nonce aad pt ct room1 room2 a p small =
      let same =
        opened-seal (cipher c nonce) (tag_of c s1 nonce aad) (tag_of c s2 nonce aad)
          (law s1 s2 nonce aad room1 room2 a) ct small pt p in
      (
        λ h. same.0 (sym (open-plain s1 s2 nonce aad ct) ∙ h) ∙ sym (seal-plain s1 s2 nonce aad pt),
        λ e. open-plain s1 s2 nonce aad ct ∙ same.1 (e ∙ seal-plain s1 s2 nonce aad pt),
      )

  pub lr_chap_seal-IsByte :
      (s1 nonce aad pt : List ℕ)
      → length s1 ≡ 16
      → All IsByte aad
      → All IsByte (lr_chap_seal t avx2 neon s1 c nonce aad pt)
  lr_chap_seal-IsByte s1 nonce aad pt room a =
      subst (All IsByte) (sym (seal-plain s1 s1 nonce aad pt)) (
        seal-IsByte (cipher c nonce) (tag_of c s1 nonce aad) (tag_of c s1 nonce aad)
          (law s1 s1 nonce aad room room a) pt)

  pub length-lr_chap_seal :
      (s1 nonce aad pt : List ℕ)
      → length (lr_chap_seal t avx2 neon s1 c nonce aad pt) ≡ length pt + 16
  length-lr_chap_seal s1 nonce aad pt =
      ap length (seal-plain s1 s1 nonce aad pt)
      ∙ omega (
        arith,
        length-append (cipher c nonce pt) (tag_of c s1 nonce aad (cipher c nonce pt)),
        length-chap_tag s1 (tag_key c nonce) aad (cipher c nonce pt),
        length-chacha_xor_portable c.key nonce 1 pt,
      )
