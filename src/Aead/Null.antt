-- ===== src/Aead/Null.antt =====
-- The null control keeps the packet's shape and returns the payload.
use linerate.Base.{
  ℕ, zero, suc, ◌+◌, ◌-◌, ◌≡◌, refl, ap, some, List, [], ◌++◌, length, arith, length-append,
  take-append,
}
use mathlib.Core.Path.{subst}
use mathlib.Core.Option
use linerate.Aead.{nonce_tag, null_seal, null_open}

pub length-nonce_tag : (nonce : List ℕ) (i n : ℕ) → length (nonce_tag nonce i n) ≡ n
unfolding nonce_tag
length-nonce_tag nonce i zero = refl
length-nonce_tag nonce i (suc n) = ap suc (length-nonce_tag nonce (i + 1) n)

null_open-append :
    (nonce aad pt tag : List ℕ) → length tag ≡ 16 → null_open nonce aad (pt ++ tag) ≡ some pt
unfolding null_open
null_open-append nonce aad pt tag h =
    let body : length (pt ++ tag) - 16 ≡ length pt = omega (arith, length-append pt tag) in
    rw body (ground (arith, length-append pt tag, take-append pt tag))

-- What the null control seals under any nonce and header, it opens under any other nonce and
-- header to the same payload: it authenticates nothing.
pub null_open-null_seal :
    (nonce nonce' aad aad' pt : List ℕ) {ct : List ℕ}
    → null_seal nonce aad pt ≡ some ct
    → null_open nonce' aad' ct ≡ some pt
unfolding null_seal
null_open-null_seal nonce nonce' aad aad' pt {ct} e =
    subst (λ c. null_open nonce' aad' c ≡ some pt) (ap (λ o. Option.get_or o []) e)
      (null_open-append nonce' aad' pt (nonce_tag nonce 0 16) (length-nonce_tag nonce 0 16))

pub length-null_seal :
    (nonce aad pt : List ℕ) {ct : List ℕ}
    → null_seal nonce aad pt ≡ some ct
    → length ct ≡ length pt + 16
unfolding null_seal
length-null_seal nonce aad pt e =
    subst (λ c. length c ≡ length pt + 16) (ap (λ o. Option.get_or o []) e)
      (omega (arith, length-append pt (nonce_tag nonce 0 16), length-nonce_tag nonce 0 16))
