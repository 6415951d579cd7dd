-- ===== src/Ctrl/Token.antt =====
-- one_token of src/apps/lr_loadgend.cpp, which makes a field's value of an error text.
use linerate.Base.{
  ℕ, zero, suc, ◌<◌, ◌≤◌, ◌≡◌, refl, false, ◌||◌, List, [], ◌∷◌, length, take, map, length-take,
  if◌then◌else◌, ◌==◌, All, arith,
}
use linerate.Ctrl.{is_space, Fields, parse_kv}
use linerate.Ctrl.Fields.{IsToken, IsName, print_fields, parse_kv-print_fields}

-- A blank, tab, line feed or carriage return becomes '_'.
abbrev pub blank_out : ℕ → ℕ
blank_out c = if (c == 32 || c == 9) || (c == 10 || c == 13) then 95 else c

-- "unknown"
abbrev pub unknown : List ℕ
unknown = 117 ∷ 110 ∷ 107 ∷ 110 ∷ 111 ∷ 119 ∷ 110 ∷ []

abbrev pub or_unknown : List ℕ → List ℕ
or_unknown [] = unknown
or_unknown (c ∷ s) = c ∷ s

-- At most 160 bytes of it.
unfoldable pub one_token : List ℕ → List ℕ
one_token s = take 160 (or_unknown (map blank_out s))

-- Neither a vertical tab nor a form feed, which it leaves.
abbrev pub IsPlain : List ℕ → Type 0
IsPlain s = All (λ c. (c == 11 || c == 12) ≡ false) s

blank_out-lem : (c : ℕ) → (c == 11 || c == 12) ≡ false → is_space (blank_out c) ≡ false
blank_out-lem c h = ground arith

map-IsToken : (s : List ℕ) → IsPlain s → IsToken (map blank_out s)
map-IsToken [] h = tt
map-IsToken (c ∷ s) h = (blank_out-lem c h.0, map-IsToken s h.1)

take-IsToken : (n : ℕ) (s : List ℕ) → IsToken s → IsToken (take n s)
take-IsToken zero s h = tt
take-IsToken (suc n) [] h = tt
take-IsToken (suc n) (c ∷ s) h = (h.0, take-IsToken n s h.1)

or_unknown-IsToken : (s : List ℕ) → IsToken s → IsToken (or_unknown s)
or_unknown-IsToken [] h = (refl, (refl, (refl, (refl, (refl, (refl, (refl, tt)))))))
or_unknown-IsToken (c ∷ s) h = h

or_unknown-length : (s : List ℕ) → 0 < length (or_unknown s)
or_unknown-length [] = omega arith
or_unknown-length (c ∷ s) = omega arith

-- Of a text without vertical tabs and form feeds `one_token` makes a token of 1 to 160 bytes, which
-- stands whole after its name where parse_kv reads it back.
pub one_token_reads :
    (name s : List ℕ)
    → IsName name
    → IsPlain s
    → (0 < length (one_token s))
      × (length (one_token s) ≤ 160)
      × (parse_kv (print_fields ((name, one_token s) ∷ [])) ≡ (name, one_token s) ∷ [])
unfolding one_token
one_token_reads name s named plain =
    let size = length-take 160 (or_unknown (map blank_out s)) in
    let some_byte = or_unknown-length (map blank_out s) in
    let token = take-IsToken 160 _ (or_unknown-IsToken _ (map-IsToken s plain)) in
    (
      omega (arith, size, some_byte),
      omega (arith, size),
      unfold linerate.Ctrl.assign in
          parse_kv-print_fields ((name, take 160 (or_unknown (map blank_out s))) ∷ [])
            ((named, token), tt),
    )
