-- ===== src/Simd/Compare.antt =====
-- ct_eq16 finds tags of 16 bytes equal exactly when they are.
use linerate.Base.{
  ℕ, zero, suc, ◌≡◌, refl, sym, ap, ap₂, ◌∙◌, ◌↔◌, true, List, [], ◌∷◌, length, All, bit_or,
  bit_xor, ◌==◌, arith,
}
use linerate.Base.Xor.{bit_or-zero, bit_xor-zero, bit_xor_self}
use linerate.Base.Words.{IsByte, byte, bit_xor-lt}
use linerate.Simd.{gather16, ct_eq16}

gather_zero :
    (n d : ℕ) (a b : List ℕ)
    → length a ≡ n
    → length b ≡ n
    → All IsByte a
    → All IsByte b
    → gather16 n d a b ≡ 0
    → (d ≡ 0) × (a ≡ b)
unfolding gather16
gather_zero zero d [] [] p q s t h = (h, refl)
gather_zero zero d [] (y ∷ b) p q s t h = absurd (omega arith)
gather_zero zero d (x ∷ a) b p q s t h = absurd (omega arith)
gather_zero (suc n) d [] b p q s t h = absurd (omega arith)
gather_zero (suc n) d (x ∷ a) [] p q s t h = absurd (omega arith)
gather_zero (suc n) d (x ∷ a) (y ∷ b) p q s t h =
    let (zeros, rest) =
      gather_zero n (bit_or d (byte (bit_xor x y))) a b (omega arith) (omega arith) s.1 t.1 h in
    let (first, same) = bit_or-zero d (byte (bit_xor x y)) zeros in
    let whole : byte (bit_xor x y) ≡ bit_xor x y = omega (arith, bit_xor-lt 8 x y s.0 t.0) in
    (first, ap₂ (λ u v. u ∷ v) (bit_xor-zero x y (sym whole ∙ same)) rest)

gather_self : (n : ℕ) (a : List ℕ) → length a ≡ n → gather16 n 0 a a ≡ 0
unfolding gather16
gather_self zero a p = refl
gather_self (suc n) [] p = absurd (omega arith)
gather_self (suc n) (x ∷ a) p =
    ap (λ k. gather16 n (bit_or 0 (byte k)) a a) (bit_xor_self x) ∙ gather_self n a (omega arith)

-- Two tags of 16 bytes are found equal exactly when they are.
pub ct_eq16_iff :
    (a b : List ℕ)
    → length a ≡ 16
    → length b ≡ 16
    → All IsByte a
    → All IsByte b
    → (ct_eq16 a b ≡ true) ↔ (a ≡ b)
unfolding ct_eq16
ct_eq16_iff a b p q s t = (
  λ e. (gather_zero 16 0 a b p q s t (ground arith)).1,
  λ e. ap (λ l. gather16 16 0 a l == 0) (sym e) ∙ ap (λ k. k == 0) (gather_self 16 a p),
)
