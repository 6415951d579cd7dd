-- ===== src/Ctrl/Fields.antt =====
-- What parse_kv reads back from the fields that the daemon prints.
use linerate.Base.{
  ℕ, ◌≡◌, refl, sym, ap, ◌∙◌, false, some, List, [], ◌∷◌, ◌++◌, All, map, append_assoc, append-nil,
  ◌==◌,
}
use linerate.Ctrl.{is_space, flush, tokens, cut_equals, Fields, assign, collect, parse_kv}

-- No byte of it parts tokens.
abbrev pub IsToken : List ℕ → Type 0
IsToken s = All (λ c. is_space c ≡ false) s

-- A name has no '=' either.
abbrev pub IsName : List ℕ → Type 0
IsName s = IsToken s × All (λ c. (c == 61) ≡ false) s

abbrev pub IsField : List ℕ × List ℕ → Type 0
IsField (k, v) = IsName k × IsToken v

abbrev pub field_text : List ℕ × List ℕ → List ℕ
field_text (k, v) = k ++ (61 ∷ v)

-- Each field after a space, as in the replies.
abbrev pub print_fields : Fields → List ℕ
print_fields [] = []
print_fields (f ∷ fs) = (32 ∷ field_text f) ++ print_fields fs

-- The assignments in order: of two fields of one name the later one stays.
abbrev pub assign_all : Fields → Fields → Fields
assign_all [] m = m
assign_all ((k, v) ∷ fs) m = assign_all fs (assign k v m)

tokens_through : (tok s cur : List ℕ) → IsToken tok → tokens (tok ++ s) cur ≡ tokens s (cur ++ tok)
unfolding tokens
tokens_through [] s cur h = ap (tokens s) (sym (append-nil cur))
tokens_through (c ∷ tok) s cur h =
    rw (h.0, tokens)
      (tokens_through tok s (cur ++ (c ∷ [])) h.1 ∙ ap (tokens s) (append_assoc cur (c ∷ []) tok))

field_text-IsToken : (k v : List ℕ) → IsToken k → IsToken v → IsToken (k ++ (61 ∷ v))
field_text-IsToken [] v hk hv = (refl, hv)
field_text-IsToken (c ∷ k) v hk hv = (hk.0, field_text-IsToken k v hk.1 hv)

flush_field :
    (k v : List ℕ) (rest : List (List ℕ)) → flush (k ++ (61 ∷ v)) rest ≡ (k ++ (61 ∷ v)) ∷ rest
flush_field [] v rest = refl
flush_field (c ∷ k) v rest = refl

tokens-print_fields :
    (fs : Fields) (cur : List ℕ)
    → All IsField fs
    → tokens (print_fields fs) cur ≡ flush cur (map field_text fs)
unfolding tokens
tokens-print_fields [] cur h = refl
tokens-print_fields ((k, v) ∷ fs) cur h = ap (flush cur) (
    tokens_through (k ++ (61 ∷ v)) (print_fields fs) [] (field_text-IsToken k v h.0.0.0 h.0.1)
    ∙ tokens-print_fields fs (k ++ (61 ∷ v)) h.1
    ∙ flush_field k v (map field_text fs))

cut_equals-field_text :
    (k v : List ℕ) → All (λ c. (c == 61) ≡ false) k → cut_equals (k ++ (61 ∷ v)) ≡ some (k, v)
unfolding cut_equals
cut_equals-field_text [] v h = refl
cut_equals-field_text (c ∷ k) v h = rw (h.0, cut_equals-field_text k v h.1, cut_equals) refl

collect-map : (fs m : Fields) → All IsField fs → collect (map field_text fs) m ≡ assign_all fs m
unfolding collect
collect-map [] m h = refl
collect-map ((k, v) ∷ fs) m h =
    rw (cut_equals-field_text k v h.0.0.1, collect) (collect-map fs (assign k v m) h.1)

-- Where no name holds a blank or '=' and no value holds a blank, the printed fields are read back
-- as the assignments of those fields in order.
pub parse_kv-print_fields :
    (fs : Fields) → All IsField fs → parse_kv (print_fields fs) ≡ assign_all fs []
unfolding parse_kv
parse_kv-print_fields fs h =
    ap (λ toks. collect toks []) (tokens-print_fields fs [] h) ∙ collect-map fs [] h
