-- ===== src/Json/Escape.antt =====
-- A reader of JSON strings gets back what `escape` was given.
use linerate.Base.{
  ℕ, ◌+◌, ◌-◌, ◌*◌, ◌≡◌, refl, ap, ◌∙◌, ◌&&◌, Option, none, some, List, [], ◌∷◌, ◌++◌, ltb, leb,
  ◌==◌, if◌then◌else◌, arith, append_assoc,
}
use linerate.Json.{escape_byte, escape}

-- The reader, after the string grammar of RFC 8259: in plain text, after a backslash, or with
-- hexadecimal digits to come and a value so far.
pub data Mode : Type 0 where
  plain : Mode
  escaped : Mode
  hex : ℕ → ℕ → Mode

pub data Turn : Type 0 where
  reject : Turn
  finish : Turn
  go : Mode → Turn
  emit : ℕ → Turn

abbrev pub digit_value : ℕ → Option ℕ
digit_value c =
    if leb 48 c && ltb c 58
    then some (c - 48)
    else if leb 97 c && ltb c 103
    then some (c - 87)
    else if leb 65 c && ltb c 71
    then some (c - 55)
    else none

abbrev pub turn : Mode → ℕ → Turn
turn plain c =
    if c == 34 then finish else if c == 92 then go escaped else if ltb c 32 then reject else emit c
turn escaped c =
    if c == 34
    then emit 34
    else if c == 92
    then emit 92
    else if c == 47
    then emit 47
    else if c == 98
    then emit 8
    else if c == 102
    then emit 12
    else if c == 110
    then emit 10
    else if c == 114
    then emit 13
    else if c == 116
    then emit 9
    else if c == 117
    then go (hex 4 0)
    else reject
turn (hex n v) c = elim (digit_value c) [
  | none ↦ reject
  | some d ↦ if leb n 1 then emit (16 * v + d) else go (hex (n - 1) (16 * v + d))
]

abbrev prepend : ℕ → Option (List ℕ × List ℕ) → Option (List ℕ × List ℕ)
prepend c none = none
prepend c (some (s, rest)) = some (c ∷ s, rest)

-- The string that the text begins with, up to its closing quote, and the text after the quote.
unfoldable pub read : List ℕ → Mode → Option (List ℕ × List ℕ)
read [] m = none
read (c ∷ t) m = elim (turn m c) [
  | reject ↦ none
  | finish ↦ some ([], t)
  | go m' ↦ read t m'
  | emit d ↦ prepend d (read t plain)
]

read-escape_byte : (c : ℕ) (t : List ℕ) → read (escape_byte c ++ t) plain ≡ prepend c (read t plain)
unfolding read
read-escape_byte c t = ground arith

-- A reader that follows the string grammar of RFC 8259, given an escaped text, a closing quote and
-- anything after it, reads back the text as it was and stops at that quote.
pub read-escape : (s rest : List ℕ) → read (escape s ++ (34 ∷ rest)) plain ≡ some (s, rest)
unfolding read escape
read-escape [] rest = refl
read-escape (c ∷ s) rest =
    ap (λ t. read t plain) (append_assoc (escape_byte c) (escape s) (34 ∷ rest))
    ∙ read-escape_byte c (escape s ++ (34 ∷ rest))
    ∙ ap (prepend c) (read-escape s rest)
