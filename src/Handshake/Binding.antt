-- ===== src/Handshake/Binding.antt =====
-- The comparison of tags, and what a message must carry to be accepted.
use Prim.Native.String.{String}
use linerate.Base.{
  ℕ, sym, ap, ap₂, refl, ◌∙◌, ◌≡◌, ◌↔◌, inl, inr, true, Option, some, List, [], ◌∷◌, ◌++◌, length,
  take, drop, bit_or, bit_xor, ==_iff, length-take, Bool-cases, Option-cases, arith,
}
use mathlib.Core.Option.{some-injective}
use mathlib.Core.Bool.{false≢true}
use linerate.Base.Xor.{bit_or-zero, bit_xor-zero, bit_xor_self}
use linerate.Keys.{Hkdf}
use linerate.Handshake.{
  pub_len, Endpoint, difference, ct_eq, binder, read_init_write_resp, read_resp,
}

difference-zero :
    (d : ℕ) (a b : List ℕ) → length a ≡ length b → difference d a b ≡ 0 → (d ≡ 0) × (a ≡ b)
difference-zero d [] [] same h = (h, refl)
difference-zero d [] (y ∷ b) same h = absurd (omega arith)
difference-zero d (x ∷ a) [] same h = absurd (omega arith)
difference-zero d (x ∷ a) (y ∷ b) same h =
    let (d_zero, rest) = difference-zero (bit_or d (bit_xor x y)) a b (omega arith) h in
    let (before, here) = bit_or-zero d (bit_xor x y) d_zero in
    (before, ap₂ (λ p q. p ∷ q) (bit_xor-zero x y here) rest)

difference_self : (a : List ℕ) → difference 0 a a ≡ 0
difference_self [] = refl
difference_self (x ∷ a) =
    ap (λ d. difference d a a) (ap (bit_or 0) (bit_xor_self x) ∙ refl) ∙ difference_self a

-- Tags of one length are found equal when they are, and only then.
pub ct_eq_iff : (a b : List ℕ) → length a ≡ length b → (ct_eq a b ≡ true) ↔ (a ≡ b)
unfolding ct_eq
ct_eq_iff a b same = (
  (λ h. (difference-zero 0 a b same ((==_iff (difference 0 a b) 0).0 h)).1),
  (λ e. (==_iff (difference 0 a b) 0).1 (ap (difference 0 a) (sym e) ∙ difference_self a)),
)

-- HKDF-Expand gives as many bytes as it is asked for.
abbrev pub GivesLength : Hkdf → Type 0
GivesLength hkdf =
    (salt ikm : List ℕ) (info : String) (n : ℕ) (out : List ℕ)
    → hkdf salt ikm info n ≡ some out
    → length out ≡ n

module _ (hkdf : Hkdf) where
  binder-length :
      (psk transcript tag : List ℕ)
      → GivesLength hkdf
      → binder hkdf psk transcript ≡ some tag
      → length tag ≡ 16
  unfolding binder
  binder-length psk transcript tag sized h =
      elim (Option-cases (hkdf psk transcript "linerate binder" 32)) [
        | inl e ↦ absurd (cc (h, e))
        | inr (full, e) ↦
            let cut : tag ≡ take 16 full = some-injective _ _ (sym h ∙ found full e) in
            omega (arith, ap length cut, length-take 16 full, sized _ _ _ _ _ e)
      ]
    where
      found :
          (full : List ℕ)
          → hkdf psk transcript "linerate binder" 32 ≡ some full
          → binder hkdf psk transcript ≡ some (take 16 full)
      found full e = rw (e, binder) refl

  -- The tag that follows the public key in a message.
  abbrev pub tag_of : List ℕ → List ℕ
  tag_of m = take 16 (drop pub_len m)

  accepted_tag :
      (psk transcript m expect : List ℕ)
      → GivesLength hkdf
      → length (tag_of m) ≡ 16
      → binder hkdf psk transcript ≡ some expect
      → ct_eq expect (tag_of m) ≡ true
      → binder hkdf psk transcript ≡ some (tag_of m)
  accepted_tag psk transcript m expect sized full h same =
      h
      ∙ ap some (
          (ct_eq_iff expect (tag_of m) (binder-length psk transcript expect sized h ∙ sym full)).0
            same)

module _ {E : Type 0} (hkdf : Hkdf) (keygen : ℕ → Option (E × List ℕ))
    (exchange : E → List ℕ → Option (List ℕ)) where
  -- Where HKDF gives as many bytes as it is asked for and the message holds a whole tag, the
  -- initiator accepts a response only if the tag in it is the binder, under its own
  -- pre-shared key, of its public key followed by the one in the response.
  pub read_resp_binds :
      (h : Endpoint E) (m : List ℕ)
      → GivesLength hkdf
      → length (tag_of hkdf m) ≡ 16
      → (read_resp hkdf keygen exchange h m).1.ok ≡ true
      → binder hkdf h.psk (h.my_pub ++ take pub_len m) ≡ some (tag_of hkdf m)
  unfolding read_resp
  read_resp_binds h m sized full ok =
      elim (Option-cases (binder hkdf h.psk (h.my_pub ++ take pub_len m))) [
        | inl e ↦ absurd (false≢true (rw (e, read_resp) at ok))
        | inr (expect, e) ↦ elim (Bool-cases (ct_eq expect (tag_of hkdf m))) [
          | inl same ↦
              accepted_tag hkdf h.psk (h.my_pub ++ take pub_len m) m expect sized full e same
          | inr differs ↦ absurd (false≢true (rw (e, differs, read_resp) at ok))
        ]
      ]

  -- Where HKDF gives as many bytes as it is asked for and the message holds a whole tag, the
  -- responder answers a first message only if the tag in it is the binder, under its own
  -- pre-shared key, of the public key in it.
  pub read_init_binds :
      (i : ℕ) (h : Endpoint E) (m : List ℕ)
      → GivesLength hkdf
      → length (tag_of hkdf m) ≡ 16
      → (read_init_write_resp hkdf keygen exchange i h m).2.ok ≡ true
      → binder hkdf h.psk (take pub_len m) ≡ some (tag_of hkdf m)
  unfolding read_init_write_resp
  read_init_binds i h m sized full ok = elim (Option-cases (binder hkdf h.psk (take pub_len m))) [
    | inl e ↦ absurd (false≢true (rw (e, read_init_write_resp) at ok))
    | inr (expect, e) ↦ elim (Bool-cases (ct_eq expect (tag_of hkdf m))) [
      | inl same ↦ accepted_tag hkdf h.psk (take pub_len m) m expect sized full e same
      | inr differs ↦ absurd (false≢true (rw (e, differs, read_init_write_resp) at ok))
    ]
  ]
