-- ===== src/Replay/Spec.antt =====
-- What the window promises: a packet is admitted exactly once, unless it is too far behind.
-- The specification remembers every number that was admitted, newest first.
use linerate.Base.{
  ℕ, ◌+◌, Bool, true, false, not, ◌&&◌, ◌||◌, List, [], ◌∷◌, ltb, ◌==◌, if◌then◌else◌,
}

unfoldable pub contains : ℕ → List ℕ → Bool
contains x [] = false
contains x (y ∷ ys) = x == y || contains x ys

unfoldable pub highest : List ℕ → ℕ
highest [] = 0
highest (x ∷ xs) = if ltb (highest xs) x then x else highest xs

unfoldable pub admits : ℕ → List ℕ → ℕ → Bool
admits width [] seq = true
admits width (x ∷ xs) seq = not (contains seq (x ∷ xs)) && ltb (highest (x ∷ xs)) (seq + width)

abbrev pub remember : Bool → ℕ → List ℕ → List ℕ
remember true seq admitted = seq ∷ admitted
remember false seq admitted = admitted

unfoldable pub verdicts : ℕ → List ℕ → List ℕ → List Bool
verdicts width admitted [] = []
verdicts width admitted (seq ∷ rest) =
    let ok = admits width admitted seq in ok ∷ verdicts width (remember ok seq admitted) rest
