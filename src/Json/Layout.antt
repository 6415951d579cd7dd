-- ===== src/Json/Layout.antt =====
-- The text of a key with an array of strings.
use linerate.Base.{
  ℕ, ◌≡◌, refl, sym, ap, ap₂, subst, ◌∙◌, Bool, true, false, List, [], ◌∷◌, ◌++◌, append_assoc,
  append-nil, if◌then◌else◌,
}
use linerate.Json.{
  Writer, indent, quoted, line_break, sep, open_with, close_with, pop_back, arr_open, arr_close,
  key, raw, vals, kv_strs,
}

-- The elements after the first: each on its own line, after a comma.
abbrev pub more : List ℕ → List (List ℕ) → List ℕ
more line [] = []
more line (s ∷ rest) = (44 ∷ line) ++ (quoted s ++ more line rest)

abbrev pub listing : List ℕ → List (List ℕ) → List ℕ
listing line [] = []
listing line (s ∷ rest) = line ++ (quoted s ++ more line rest)

-- Between values inside an open array or object.
abbrev pub IsBetween : Writer → List Bool → ℕ → Type 0
IsBetween w nest step = (w.in_arr ≡ nest) × (w.step ≡ step) × (w.after_key ≡ false)

-- What `sep` writes before a value that does not follow its key.
abbrev lead : Writer → List ℕ
lead w = (if w.need_sep then 44 ∷ [] else []) ++ line_break w.in_arr w.step

raw_text :
    (r : List ℕ) (w : Writer)
    → w.after_key ≡ false
    → raw r w ≡ record w { out = w.out ++ (lead w ++ r); need_sep = true; after_key = false }
unfolding raw sep
raw_text r w free = rw (free, raw) (ap (after w) (append_assoc w.out (lead w) r))
  where
    after : Writer → List ℕ → Writer
    after w o = record w { out = o; need_sep = true; after_key = false }

vals-more :
    (v : List (List ℕ)) (w : Writer)
    → w.after_key ≡ false
    → w.need_sep ≡ true
    → ((vals v w).out ≡ w.out ++ more (line_break w.in_arr w.step) v)
      × IsBetween (vals v w) w.in_arr w.step
unfolding vals
vals-more [] w free due = (sym (append-nil w.out), (refl, refl, free))
vals-more (s ∷ v) w free due =
    let w' : Writer = record w {
      out = w.out ++ (lead w ++ quoted s);
      need_sep = true;
      after_key = false;
    } in
    let (text, between) = vals-more v w' refl refl in
    let line = line_break w.in_arr w.step in
    let comma : lead w ≡ 44 ∷ line = ap (λ b. (if b then 44 ∷ [] else []) ++ line) due in
    subst
      (λ (x : Writer).
        ((vals v x).out ≡ w.out ++ more line (s ∷ v)) × IsBetween (vals v x) w.in_arr w.step)
      (sym (raw_text (quoted s) w free))
      (
        text
            ∙ append_assoc w.out (lead w ++ quoted s) (more line v)
            ∙ ap (λ l. w.out ++ l)
                (append_assoc (lead w) (quoted s) (more line v)
                  ∙ ap (λ l. l ++ (quoted s ++ more line v)) comma),
        between,
      )

vals_text :
    (v : List (List ℕ)) (w : Writer)
    → w.after_key ≡ false
    → w.need_sep ≡ false
    → ((vals v w).out ≡ w.out ++ listing (line_break w.in_arr w.step) v)
      × IsBetween (vals v w) w.in_arr w.step
unfolding vals
vals_text [] w free first = (sym (append-nil w.out), (refl, refl, free))
vals_text (s ∷ v) w free first =
    let w' : Writer = record w {
      out = w.out ++ (lead w ++ quoted s);
      need_sep = true;
      after_key = false;
    } in
    let (text, between) = vals-more v w' refl refl in
    let line = line_break w.in_arr w.step in
    let bare : lead w ≡ line = ap (λ b. (if b then 44 ∷ [] else []) ++ line) first in
    subst
      (λ (x : Writer).
        ((vals v x).out ≡ w.out ++ listing line (s ∷ v)) × IsBetween (vals v x) w.in_arr w.step)
      (sym (raw_text (quoted s) w free))
      (
        text
            ∙ append_assoc w.out (lead w ++ quoted s) (more line v)
            ∙ ap (λ l. w.out ++ l)
                (append_assoc (lead w) (quoted s) (more line v)
                  ∙ ap (λ l. l ++ (quoted s ++ more line v)) bare),
        between,
      )

-- The name and the opening bracket.
abbrev pub heading : Writer → List ℕ → List ℕ
heading w k = lead w ++ (quoted k ++ (58 ∷ 32 ∷ 91 ∷ []))

-- The closing bracket, on a line of its own.
abbrev pub closing : Writer → List ℕ
closing w = (10 ∷ []) ++ (indent w.in_arr w.step ++ (93 ∷ []))

array_opened :
    (k : List ℕ) (w : Writer)
    → w.after_key ≡ false
    → arr_open (key k w) ≡ record w {
      out = w.out ++ heading w k;
      in_arr = true ∷ w.in_arr;
      need_sep = false;
      after_key = false;
    }
unfolding key sep open_with
array_opened k w free =
    rw (free, key)
      (ap opened (
        append_assoc (w.out ++ lead w) (quoted k ++ (58 ∷ 32 ∷ [])) (91 ∷ [])
        ∙ append_assoc w.out (lead w) ((quoted k ++ (58 ∷ 32 ∷ [])) ++ (91 ∷ []))
        ∙ ap (λ l. w.out ++ (lead w ++ l)) (append_assoc (quoted k) (58 ∷ 32 ∷ []) (91 ∷ []))))
  where
    opened : List ℕ → Writer
    opened o = record w { out = o; in_arr = true ∷ w.in_arr; need_sep = false; after_key = false }

-- Where a key may come, `kv_strs` appends the name, each string on a line of its own with commas
-- between, and the brackets; it leaves the writer in the object it was in, where a comma is due.
pub kv_strs_layout :
    (k : List ℕ) (v : List (List ℕ)) (w : Writer)
    → w.after_key ≡ false
    → ((kv_strs k v w).out
        ≡ w.out ++ (heading w k ++ (listing (line_break (true ∷ w.in_arr) w.step) v ++ closing w)))
      × IsBetween (kv_strs k v w) w.in_arr w.step
      × ((kv_strs k v w).need_sep ≡ true)
unfolding kv_strs close_with
kv_strs_layout k v w free =
    let started : Writer = record w {
      out = w.out ++ heading w k;
      in_arr = true ∷ w.in_arr;
      need_sep = false;
      after_key = false;
    } in
    let (text, (nest, step, keyless)) = vals_text v started refl refl in
    let items = listing (line_break (true ∷ w.in_arr) w.step) v in
    let back = ap pop_back nest in
    subst
      (λ (x : Writer).
        ((arr_close (vals v x)).out ≡ w.out ++ (heading w k ++ (items ++ closing w)))
        × IsBetween (arr_close (vals v x)) w.in_arr w.step
        × ((arr_close (vals v x)).need_sep ≡ true))
      (sym (array_opened k w free))
      (
        ap₂ (λ o c. o ++ c) text (ap₂ (λ n d. (10 ∷ []) ++ (indent n d ++ (93 ∷ []))) back step)
            ∙ append_assoc (w.out ++ heading w k) items (closing w)
            ∙ append_assoc w.out (heading w k) (items ++ closing w),
        (back, step, keyless),
        refl,
      )
