-- ===== src/Loadgen/Digits.antt =====
-- What the digits of a number and the printed fields of a reply are made of.
use linerate.Base.{
  ℕ, zero, suc, ◌+◌, ◌/◌, ◌%◌, ◌≡◌, refl, inl, inr, false, List, [], ◌∷◌, ◌++◌, ◌==◌, arith, All,
  All-append, Bool-cases,
}
use linerate.Ctrl.{is_space, Fields}
use linerate.Ctrl.Fields.{IsToken, IsField, print_fields}
use linerate.Ctrl.Lines.{IsLine}
use linerate.Loadgen.Commands.{digits_of, decimal}

digits_of-All :
    (P : ℕ → Type 0) (digit : (n : ℕ) → P (48 + n % 10)) (fuel n : ℕ) (s : List ℕ)
    → All P s
    → All P (digits_of fuel n s)
unfolding digits_of
digits_of-All P digit zero n s h = h
digits_of-All P digit (suc fuel) n s h = elim (Bool-cases (n / 10 == 0)) [
  | inl e ↦ rw e (digit n, h)
  | inr e ↦ rw e (digits_of-All P digit fuel (n / 10) _ (digit n, h))
]

pub decimal-IsToken : (n : ℕ) → IsToken (decimal n)
decimal-IsToken n = digits_of-All (λ c. is_space c ≡ false) (λ n. ground arith) 20 n [] tt

pub decimal-no_colon : (n : ℕ) → All (λ c. (c == 58) ≡ false) (decimal n)
decimal-no_colon n = digits_of-All (λ c. (c == 58) ≡ false) (λ n. ground arith) 20 n [] tt

no_feed : (c : ℕ) → is_space c ≡ false → (c == 10) ≡ false
no_feed c h = ground arith

IsToken-IsLine : (s : List ℕ) → IsToken s → IsLine s
IsToken-IsLine [] h = tt
IsToken-IsLine (c ∷ s) h = (no_feed c h.0, IsToken-IsLine s h.1)

pub print_fields-IsLine : (fs : Fields) → All IsField fs → IsLine (print_fields fs)
print_fields-IsLine [] h = tt
print_fields-IsLine ((k, v) ∷ fs) h = (
  refl,
  All-append (λ c. (c == 10) ≡ false) (k ++ (61 ∷ v)) (print_fields fs)
      (All-append (λ c. (c == 10) ≡ false) k (61 ∷ v) (IsToken-IsLine k h.0.0.0)
        (refl, IsToken-IsLine v h.0.1))
      (print_fields-IsLine fs h.1),
)
