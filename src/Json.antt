-- ===== src/Json.antt =====
-- The JSON emitter of include/lr/json.hpp and src/core/json.cpp. Text is a list of bytes. The
-- formatting of a double by `snprintf` is not modelled: the numbers' texts are arguments.
pub mod Escape
pub mod Layout
mod Tests
use linerate.Base.{
  ℕ, zero, suc, ◌+◌, ◌/◌, ◌%◌, Bool, true, false, Option, none, some, List, [], ◌∷◌, ◌++◌,
  replicate, ltb, ◌==◌, if◌then◌else◌,
}

-- A lower-case hexadecimal digit.
abbrev pub hex_digit : ℕ → ℕ
hex_digit d = if ltb d 10 then 48 + d else 87 + d

-- What `escape` appends for one byte: `\u` and four digits for the other control characters.
abbrev pub escape_byte : ℕ → List ℕ
escape_byte c =
    if c == 34
    then 92 ∷ 34 ∷ []
    else if c == 92
    then 92 ∷ 92 ∷ []
    else if c == 10
    then 92 ∷ 110 ∷ []
    else if c == 13
    then 92 ∷ 114 ∷ []
    else if c == 9
    then 92 ∷ 116 ∷ []
    else if ltb c 32
    then 92 ∷ 117 ∷ 48 ∷ 48 ∷ hex_digit (c / 16) ∷ hex_digit (c % 16) ∷ []
    else c ∷ []

unfoldable pub escape : List ℕ → List ℕ
escape [] = []
escape (c ∷ s) = escape_byte c ++ escape s

-- class Writer: the text so far, the open objects (false) and arrays (true), and the two flags
-- that `sep` reads.
pub record Writer : Type 0 where
  pub out : List ℕ
  pub in_arr : List Bool
  pub need_sep : Bool
  pub after_key : Bool
  pub step : ℕ

abbrev pub put : Writer → List ℕ → Writer
put w t = record w { out = w.out ++ t }

-- The indentation: `step_` spaces for each open object or array.
abbrev pub indent : List Bool → ℕ → List ℕ
indent [] step = []
indent (_ ∷ rest) step = replicate step 32 ++ indent rest step

abbrev pub quoted : List ℕ → List ℕ
quoted s = (34 ∷ []) ++ (escape s ++ (34 ∷ []))

-- The line break of `sep`, which the outermost value does not get.
abbrev pub line_break : List Bool → ℕ → List ℕ
line_break [] step = []
line_break (a ∷ rest) step = (10 ∷ []) ++ indent (a ∷ rest) step

unfoldable pub sep : Writer → Writer
sep w = if w.after_key then record w { after_key = false } else record w {
  out = w.out ++ ((if w.need_sep then 44 ∷ [] else []) ++ line_break w.in_arr w.step);
  need_sep = true;
}

-- obj_open and arr_open.
unfoldable pub open_with : Bool → ℕ → Writer → Writer
open_with arr bracket w =
    let w' = put (sep w) (bracket ∷ []) in record w' { in_arr = arr ∷ w'.in_arr; need_sep = false }

abbrev pub obj_open : Writer → Writer
obj_open w = open_with false 123 w

abbrev pub arr_open : Writer → Writer
arr_open w = open_with true 91 w

-- `in_arr_.pop_back()`; on an empty vector it is undefined, and nothing here.
abbrev pub pop_back : List Bool → List Bool
pop_back [] = []
pop_back (_ ∷ rest) = rest

unfoldable pub close_with : ℕ → Writer → Writer
close_with bracket w =
    let rest = pop_back w.in_arr in
    record w {
      in_arr = rest;
      out = w.out ++ ((10 ∷ []) ++ (indent rest w.step ++ (bracket ∷ [])));
      need_sep = true;
    }

abbrev pub obj_close : Writer → Writer
obj_close w = close_with 125 w

abbrev pub arr_close : Writer → Writer
arr_close w = close_with 93 w

unfoldable pub key : List ℕ → Writer → Writer
key k w = let w' = put (sep w) (quoted k ++ (58 ∷ 32 ∷ [])) in record w' { after_key = true }

-- `val` of a string, and `raw`, which the other values share: they differ in the text only.
unfoldable pub raw : List ℕ → Writer → Writer
raw r w = put (sep w) r

abbrev pub val : List ℕ → Writer → Writer
val s w = raw (quoted s) w

pub vals : List (List ℕ) → Writer → Writer
vals [] w = w
vals (s ∷ rest) w = vals rest (val s w)

unfoldable pub kv_strs : List ℕ → List (List ℕ) → Writer → Writer
unfolding vals
kv_strs k v w = arr_close (vals v (arr_open (key k w)))
