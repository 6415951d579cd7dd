-- ===== src/Simd/Sealing.antt =====
-- Encryption with a tag over the ciphertext: opening accepts exactly what sealing gives.
use linerate.Base.{
  ℕ, ◌+◌, ◌-◌, ◌≤◌, ◌≡◌, refl, sym, ap, subst, ◌∙◌, ◌↔◌, inl, inr, Bool, true, false, not, Option,
  none, some, List, ◌++◌, ltb, if◌then◌else◌, Bool-cases, length, take, drop, All, All-take,
  All-drop, All-append, length-append, take-append, drop-append, take-drop, length-drop, arith,
}
use linerate.Base.Words.{IsByte}
use linerate.Simd.{ct_eq16}
use linerate.Simd.Compare.{ct_eq16_iff}

-- The two parts of what arrives: the ciphertext and the tag sent with it.
abbrev pub body : List ℕ → List ℕ
body ct = take (length ct - 16) ct

abbrev pub sent : List ℕ → List ℕ
sent ct = drop (length ct - 16) ct

body-append : (out tag : List ℕ) → length tag ≡ 16 → body (out ++ tag) ≡ out
body-append out tag h =
    ap (λ n. take n (out ++ tag)) {x = length (out ++ tag) - 16} {y = length out}
      (omega (arith, length-append out tag))
    ∙ take-append out tag

sent-append : (out tag : List ℕ) → length tag ≡ 16 → sent (out ++ tag) ≡ tag
sent-append out tag h =
    ap (λ n. drop n (out ++ tag)) {x = length (out ++ tag) - 16} {y = length out}
      (omega (arith, length-append out tag))
    ∙ drop-append out tag

if_opened :
    (b : Bool) (x pt : List ℕ) → (if not b then none else some x) ≡ some pt → (b ≡ true) × (pt ≡ x)
if_opened true x pt h = (refl, cc)
if_opened false x pt h = cc

-- A cipher that undoes itself on bytes, and the tags that the two sides compute of a ciphertext.
pub record IsScheme (cipher tag1 tag2 : List ℕ → List ℕ) : Type 0 where
  pub undoes : (xs : List ℕ) → All IsByte xs → cipher (cipher xs) ≡ xs
  pub bytes : (xs : List ℕ) → All IsByte (cipher xs)
  pub agree : (xs : List ℕ) → All IsByte xs → tag1 xs ≡ tag2 xs
  pub whole : (xs : List ℕ) → length (tag1 xs) ≡ 16
  pub whole' : (xs : List ℕ) → length (tag2 xs) ≡ 16
  pub tag_bytes : (xs : List ℕ) → All IsByte (tag2 xs)

module _ (cipher tag1 tag2 : List ℕ → List ℕ) where
  abbrev pub seal : List ℕ → List ℕ
  seal pt = cipher pt ++ tag1 (cipher pt)

  abbrev pub opened : List ℕ → Option (List ℕ)
  opened ct =
      if ltb (length ct) 16
      then none
      else if not (ct_eq16 (tag2 (body ct)) (sent ct))
      then none
      else some (cipher (body ct))

  pub seal-IsByte : IsScheme cipher tag1 tag2 → (pt : List ℕ) → All IsByte (seal pt)
  seal-IsByte law pt =
      All-append IsByte (cipher pt) (tag1 (cipher pt)) (law.bytes pt) (
        subst (All IsByte) (sym (law.agree (cipher pt) (law.bytes pt))) (law.tag_bytes (cipher pt)))

  pub length-seal :
      IsScheme cipher tag1 tag2
      → (pt : List ℕ) → length (cipher pt) ≡ length pt
      → length (seal pt) ≡ length pt + 16
  length-seal law pt same =
      omega (arith, length-append (cipher pt) (tag1 (cipher pt)), law.whole (cipher pt), same)

  module _ (law : IsScheme cipher tag1 tag2) (ct : List ℕ) (small : All IsByte ct) where
    equal_tags :
        16 ≤ length ct → (ct_eq16 (tag2 (body ct)) (sent ct) ≡ true) ↔ (tag2 (body ct) ≡ sent ct)
    equal_tags long =
        ct_eq16_iff (tag2 (body ct)) (sent ct) (law.whole' (body ct))
          (omega (arith, length-drop (length ct - 16) ct)) (law.tag_bytes (body ct))
          (All-drop IsByte (length ct - 16) ct small)

    opened-tagged : 16 ≤ length ct → tag2 (body ct) ≡ sent ct → opened ct ≡ some (cipher (body ct))
    opened-tagged long same =
        let enough : ltb (length ct) 16 ≡ false = ground arith in
        rw enough
          (ap (λ b. if not b then none else some (cipher (body ct))) ((equal_tags long).1 same))

    opened-some :
        (pt : List ℕ)
        → opened ct ≡ some pt
        → (16 ≤ length ct) × (tag2 (body ct) ≡ sent ct) × (pt ≡ cipher (body ct))
    opened-some pt h = elim (Bool-cases (ltb (length ct) 16)) [
      | inl short ↦ let refused : opened ct ≡ none = rw short refl in cc (sym refused ∙ h)
      | inr enough ↦
          let long : 16 ≤ length ct = ground arith in
          let past : opened ct ≡ (
              if not (ct_eq16 (tag2 (body ct)) (sent ct)) then none else some (cipher (body ct))) =
            rw enough refl in
          let (same, is) =
            if_opened (ct_eq16 (tag2 (body ct)) (sent ct)) (cipher (body ct)) pt (sym past ∙ h) in
          (long, (equal_tags long).0 same, is)
    ]

    pub opened-seal : (pt : List ℕ) → All IsByte pt → (opened ct ≡ some pt) ↔ (ct ≡ seal pt)
    opened-seal pt p = (
      λ h.
          let (long, same, is) = opened-some pt h in
          let part = All-take IsByte (length ct - 16) ct small in
          let front : cipher pt ≡ body ct = ap cipher is ∙ law.undoes (body ct) part in
          sym (take-drop (length ct - 16) ct)
          ∙ ap (λ l. body ct ++ l) (sym same ∙ sym (law.agree (body ct) part))
          ∙ ap (λ l. l ++ tag1 l) (sym front),
      λ e.
          let out = cipher pt in
          let front : body ct ≡ out = ap body e ∙ body-append out (tag1 out) (law.whole out) in
          let back : sent ct ≡ tag1 out = ap sent e ∙ sent-append out (tag1 out) (law.whole out) in
          let long : 16 ≤ length ct =
            omega (arith, ap length e, length-append out (tag1 out), law.whole out) in
          opened-tagged long (ap tag2 front ∙ sym (law.agree out (law.bytes pt)) ∙ sym back)
          ∙ ap (λ l. some (cipher l)) front
          ∙ ap some (law.undoes pt p),
    )
