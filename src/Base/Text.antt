-- ===== src/Base/Text.antt =====
-- A literal as the bytes that the code writes; the literals are ASCII.
use Prim.Native.String.{String, [] as empty, ◌∷◌ as ◌then◌}
use Prim.Native.Char.{code}
use Prim.Native.Nat.{ℕ}
use mathlib.Core.List.{List, [], ◌∷◌}

abbrev pub text : String → List ℕ
text empty = []
text (c then s) = code c ∷ text s
