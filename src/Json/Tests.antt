-- ===== src/Json/Tests.antt =====
-- The emitter at concrete texts.
use linerate.Base.{ℕ, ◌≡◌, refl, true, false, some, List, [], ◌∷◌, ◌++◌}
use linerate.Json.{Writer, escape, line_break, kv_strs}
use linerate.Json.Escape.{plain, read, read-escape}
use linerate.Json.Layout.{IsBetween, heading, listing, closing, kv_strs_layout}

-- A quote, a backslash, a line feed, byte 1 and a letter.
abbrev odd_text : List ℕ
odd_text = 34 ∷ 92 ∷ 10 ∷ 1 ∷ 65 ∷ []

escape_odd : escape odd_text ≡ 92 ∷ 34 ∷ 92 ∷ 92 ∷ 92 ∷ 110 ∷ 92 ∷ 117 ∷ 48 ∷ 48 ∷ 48 ∷ 49 ∷ 65 ∷ []
unfolding escape
escape_odd = refl

read-escape_example : read (escape odd_text ++ (34 ∷ 44 ∷ [])) plain ≡ some (odd_text, 44 ∷ [])
read-escape_example = read-escape odd_text (44 ∷ [])

-- Inside an object that has a member.
abbrev in_object : Writer
in_object = record {
  out = 123 ∷ 49 ∷ [];
  in_arr = false ∷ [];
  need_sep = true;
  after_key = false;
  step = 2;
}

kv_strs_layout_example :
    let w = kv_strs (97 ∷ []) ((98 ∷ []) ∷ odd_text ∷ []) in_object in
    (w.out
      ≡ (123 ∷ 49 ∷ [])
        ++ (heading in_object (97 ∷ [])
            ++ (listing (line_break (true ∷ false ∷ []) 2) ((98 ∷ []) ∷ odd_text ∷ [])
                ++ closing in_object)))
    × IsBetween w (false ∷ []) 2
    × (w.need_sep ≡ true)
kv_strs_layout_example = kv_strs_layout (97 ∷ []) ((98 ∷ []) ∷ odd_text ∷ []) in_object refl
