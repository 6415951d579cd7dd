-- ===== src/Simd/Gcm/Sealed.antt =====
-- lr_gcm_open opens what lr_gcm_seal seals, and nothing else, on the portable path.
use linerate.Base.{
  ℕ, suc, ◌+◌, ◌*◌, ◌%◌, ◌^◌, ◌≡◌, refl, sym, ap, subst, ◌∙◌, ◌↔◌, Bool, true, false, not, none,
  some, List, [], ◌∷◌, ◌++◌, ◌==◌, ltb, if◌then◌else◌, length, take, replicate, All, length-take,
  length-append, arith,
}
use linerate.Base.Words.{IsByte, bit_xor-lt}
use linerate.Base.Bytes.{be_bytes}
use linerate.Simd.{ct_eq16, xor_loop}
use linerate.Simd.Sealing.{
  IsScheme, seal, opened, opened-seal, seal-IsByte, length-seal, body, sent,
}
use linerate.Simd.Paths.{Target, SimdPath}
use linerate.Simd.Aes.{aes_ctr_portable}
use linerate.Simd.Aes.Keys.{AreKeys}
use linerate.Simd.Aes.Ctr.{
  IsCounter, next_counter-IsCounter, aes_ctr_portable_twice, aes_ctr_portable-IsByte,
  length-aes_ctr_portable,
}
use linerate.Simd.Gcm.{
  GcmCtx, GcmVectors, ghash_block_portable, xor_into, ghash_blocks, ghash_update_portable, gcm_ctr,
  gcm_ghash, gcm_lengths, gcm_middle, gcm_core, lr_gcm_seal, lr_gcm_open,
}

-- The first counter block, and what counter mode gives for it: the next one and the mask of the tag.
abbrev start : List ℕ → List ℕ
start nonce = take 12 nonce ++ (0 ∷ 0 ∷ 0 ∷ 1 ∷ [])

abbrev first : GcmCtx → List ℕ → List ℕ × List ℕ
first c nonce = aes_ctr_portable c.rk (start nonce) (replicate 16 0)

abbrev cipher : GcmCtx → List ℕ → List ℕ → List ℕ
cipher c nonce xs = (aes_ctr_portable c.rk (first c nonce).0 xs).1

-- The hash of a ciphertext of `n` bytes after the associated data.
abbrev hash : GcmCtx → List ℕ → ℕ → List ℕ → List ℕ
hash c aad n ct =
    let y =
      if length aad == 0 then replicate 16 0 else ghash_update_portable c (replicate 16 0) aad in
    if n == 0 then y else ghash_update_portable c y ct

abbrev tag_of : GcmCtx → List ℕ → List ℕ → ℕ → List ℕ → List ℕ
tag_of c nonce aad n ct =
    xor_into
      (ghash_update_portable c (hash c aad n ct)
        (be_bytes 8 (length aad * 8 % 2 ^ 64) ++ be_bytes 8 (n * 8 % 2 ^ 64)))
      (first c nonce).1

-- What gcm_core gives on the portable path, for the ciphertext of either direction.
abbrev core : GcmCtx → List ℕ → List ℕ → List ℕ → Bool → List ℕ × List ℕ
core c nonce aad xs encrypt =
    (cipher c nonce xs, tag_of c nonce aad (length xs) (if encrypt then cipher c nonce xs else xs))

abbrev on_portable : GcmCtx → GcmCtx
on_portable c = record c { path = SimdPath.portable }

nonempty : (x : ℕ) (xs : List ℕ) → (length (x ∷ xs) == 0) ≡ false
nonempty x xs = ground arith

cipher-nil : (c : GcmCtx) (nonce : List ℕ) → cipher c nonce [] ≡ []
unfolding aes_ctr_portable xor_loop
cipher-nil c nonce = refl

module _ (t : Target) (x86 arm : GcmVectors) where
  core-on_portable :
      (c : GcmCtx) (nonce aad xs : List ℕ) (encrypt : Bool)
      → gcm_core t x86 arm (on_portable c) nonce aad xs encrypt
        ≡ core (on_portable c) nonce aad xs encrypt
  unfolding gcm_core gcm_middle gcm_ctr gcm_ghash gcm_lengths
  core-on_portable c nonce aad [] encrypt =
      ap (λ l. (l, tag_of (on_portable c) nonce aad 0 [])) (sym (cipher-nil (on_portable c) nonce))
  core-on_portable c nonce aad (x ∷ xs) true = rw (nonempty x xs) refl
  core-on_portable c nonce aad (x ∷ xs) false = rw (nonempty x xs) refl

  on_portable_self : (c : GcmCtx) → c.path ≡ SimdPath.portable → c ≡ on_portable c
  on_portable_self c e = ap (λ p. let d : GcmCtx = record c { path = p } in d) e

  core-plain :
      (c : GcmCtx) (nonce aad xs : List ℕ) (encrypt : Bool)
      → c.path ≡ SimdPath.portable
      → gcm_core t x86 arm c nonce aad xs encrypt ≡ core c nonce aad xs encrypt
  core-plain c nonce aad xs encrypt e =
      subst (λ d. gcm_core t x86 arm d nonce aad xs encrypt ≡ core d nonce aad xs encrypt)
        (sym (on_portable_self c e)) (core-on_portable c nonce aad xs encrypt)

length-xor_into : (ys m : List ℕ) → length (xor_into ys m) ≡ length ys
unfolding xor_into
length-xor_into [] m = refl
length-xor_into (y ∷ ys) [] = refl
length-xor_into (y ∷ ys) (b ∷ m) = ap suc (length-xor_into ys m)

xor_into-IsByte : (ys m : List ℕ) → All IsByte ys → All IsByte m → All IsByte (xor_into ys m)
unfolding xor_into
xor_into-IsByte [] m p q = tt
xor_into-IsByte (y ∷ ys) [] p q = p
xor_into-IsByte (y ∷ ys) (b ∷ m) p q = (bit_xor-lt 8 y b p.0 q.0, xor_into-IsByte ys m p.1 q.1)

block-whole :
    (c : GcmCtx) (x : List ℕ)
    → (length (ghash_block_portable c x) ≡ 16) × All IsByte (ghash_block_portable c x)
unfolding ghash_block_portable be_bytes
block-whole c x = (refl, omega arith)

-- The hash of the lengths is a block, whatever came before.
lengths-whole :
    (c : GcmCtx) (y : List ℕ) (a b : ℕ)
    → let h = ghash_update_portable c y (be_bytes 8 a ++ be_bytes 8 b) in
      (length h ≡ 16) × All IsByte h
unfolding ghash_update_portable ghash_blocks be_bytes
lengths-whole c y a b = block-whole c _

module _ (c : GcmCtx) (keys : AreKeys c.rk) (nonce : List ℕ) (twelve : length nonce ≡ 12) where
  start-IsCounter : IsCounter (start nonce)
  start-IsCounter =
      omega (arith, length-append (take 12 nonce) (0 ∷ 0 ∷ 0 ∷ 1 ∷ []), length-take 12 nonce)

  first-IsCounter : IsCounter (first c nonce).0
  unfolding aes_ctr_portable xor_loop
  first-IsCounter = next_counter-IsCounter (start nonce) start-IsCounter

  tag-whole :
      (aad ct : List ℕ) (n : ℕ)
      → (length (tag_of c nonce aad n ct) ≡ 16) × All IsByte (tag_of c nonce aad n ct)
  tag-whole aad ct n =
      let (long, bytes) =
        lengths-whole c (hash c aad n ct) (length aad * 8 % 2 ^ 64) (n * 8 % 2 ^ 64) in
      (
        length-xor_into _ (first c nonce).1 ∙ long,
        xor_into-IsByte _ (first c nonce).1 bytes
            (aes_ctr_portable-IsByte c.rk (start nonce) (replicate 16 0) keys start-IsCounter),
      )

  abbrev tag : List ℕ → List ℕ → List ℕ
  tag aad ct = tag_of c nonce aad (length ct) ct

  law : (aad : List ℕ) → IsScheme (cipher c nonce) (tag aad) (tag aad)
  law aad = record {
    undoes =
        λ xs small. aes_ctr_portable_twice c.rk (first c nonce).0 xs keys first-IsCounter small;
    bytes = λ xs. aes_ctr_portable-IsByte c.rk (first c nonce).0 xs keys first-IsCounter;
    agree = λ xs small. refl;
    whole = λ xs. (tag-whole aad xs (length xs)).0;
    whole' = λ xs. (tag-whole aad xs (length xs)).0;
    tag_bytes = λ xs. (tag-whole aad xs (length xs)).1;
  }

  length-cipher : (xs : List ℕ) → length (cipher c nonce xs) ≡ length xs
  length-cipher xs = length-aes_ctr_portable c.rk (first c nonce).0 xs keys first-IsCounter

  module _ (t : Target) (x86 arm : GcmVectors) (portable : c.path ≡ SimdPath.portable) where
    seal-plain :
        (aad pt : List ℕ)
        → lr_gcm_seal t x86 arm c nonce aad pt ≡ seal (cipher c nonce) (tag aad) (tag aad) pt
    unfolding lr_gcm_seal
    seal-plain aad pt =
        ap (λ p. p.0 ++ p.1) (core-plain t x86 arm c nonce aad pt true portable)
        ∙ ap (λ n. cipher c nonce pt ++ tag_of c nonce aad n (cipher c nonce pt))
            (sym (length-cipher pt))

    open-plain :
        (aad ct : List ℕ)
        → lr_gcm_open t x86 arm c nonce aad ct ≡ opened (cipher c nonce) (tag aad) (tag aad) ct
    unfolding lr_gcm_open
    open-plain aad ct =
        ap
          (λ p.
            if ltb (length ct) 16
            then none
            else if not (ct_eq16 p.1 (sent ct))
            then none
            else some p.0)
          (core-plain t x86 arm c nonce aad (body ct) false portable)

    -- Opening accepts exactly what sealing gives.
    pub lr_gcm_open-lr_gcm_seal :
        (aad pt ct : List ℕ)
        → All IsByte pt
        → All IsByte ct
        → (lr_gcm_open t x86 arm c nonce aad ct ≡ some pt)
          ↔ (ct ≡ lr_gcm_seal t x86 arm c nonce aad pt)
    lr_gcm_open-lr_gcm_seal aad pt ct p small =
        let same = opened-seal (cipher c nonce) (tag aad) (tag aad) (law aad) ct small pt p in
        (
          λ h. same.0 (sym (open-plain aad ct) ∙ h) ∙ sym (seal-plain aad pt),
          λ e. open-plain aad ct ∙ same.1 (e ∙ seal-plain aad pt),
        )

    pub lr_gcm_seal-IsByte : (aad pt : List ℕ) → All IsByte (lr_gcm_seal t x86 arm c nonce aad pt)
    lr_gcm_seal-IsByte aad pt =
        subst (All IsByte) (sym (seal-plain aad pt))
          (seal-IsByte (cipher c nonce) (tag aad) (tag aad) (law aad) pt)

    pub length-lr_gcm_seal :
        (aad pt : List ℕ) → length (lr_gcm_seal t x86 arm c nonce aad pt) ≡ length pt + 16
    length-lr_gcm_seal aad pt =
        ap length (seal-plain aad pt)
        ∙ length-seal (cipher c nonce) (tag aad) (tag aad) (law aad) pt (length-cipher pt)
