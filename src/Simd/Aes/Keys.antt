-- ===== src/Simd/Aes/Keys.antt =====
-- The expanded key of AES-256: fifteen round keys of 16 bytes.
use linerate.Base.{
  ℕ, zero, suc, ◌+◌, ◌-◌, ◌*◌, ◌%◌, ◌≤◌, ◌<◌, ◌≡◌, refl, ap, ◌∙◌, inl, inr, List, [], ◌∷◌, ◌++◌,
  ◌==◌, if◌then◌else◌, Bool-cases, length, get_or, take, drop, length-append, length-take,
  length-drop, arith,
}
use linerate.Simd.{xor_bytes}
use linerate.Simd.Stream.{length-xor_bytes}
use linerate.Simd.Aes.{schedule_core, expand_words, key_words, round_keys, aes256_expand_portable}

-- Every word of the list has four bytes.
abbrev AreWords : List (List ℕ) → Type 0
AreWords w = (i : ℕ) → i < length w → length (get_or w i []) ≡ 4

-- The first fifteen round keys are there, of 16 bytes each.
abbrev pub AreKeys : List (List ℕ) → Type 0
AreKeys rk = (r : ℕ) → r < 15 → length (get_or rk r []) ≡ 16

length-schedule_core :
    (i rcon : ℕ) (t : List ℕ) → length t ≡ 4 → length ((schedule_core i rcon t).0) ≡ 4
unfolding schedule_core
length-schedule_core i rcon t h = elim (Bool-cases (i % 8 == 0)) [
  | inl e ↦ rw e refl
  | inr e ↦ elim (Bool-cases (i % 8 == 4)) [ inl f ↦ rw (e, f) refl | inr f ↦ rw (e, f) h ]
]

get_or-snoc :
    (w : List (List ℕ)) (x : List ℕ) (i : ℕ)
    → i < suc (length w)
    → (get_or (w ++ (x ∷ [])) i [] ≡ (if i == length w then x else get_or w i []))
get_or-snoc [] x zero h = refl
get_or-snoc [] x (suc i) h = absurd (omega arith)
get_or-snoc (y ∷ w) x zero h = ground arith
get_or-snoc (y ∷ w) x (suc i) h = get_or-snoc w x i (omega arith) ∙ ground arith

snoc-AreWords :
    (w : List (List ℕ)) (x : List ℕ) → AreWords w → length x ≡ 4 → AreWords (w ++ (x ∷ []))
snoc-AreWords w x words four i h =
    let inside : i < suc (length w) = omega (arith, length-append w (x ∷ [])) in
    elim (Bool-cases (i == length w)) [
      | inl e ↦ ap length (get_or-snoc w x i inside) ∙ rw e four
      | inr e ↦ ap length (get_or-snoc w x i inside) ∙ rw e (words i (ground arith))
    ]

expand_words-AreWords :
    (n i rcon : ℕ) (w : List (List ℕ))
    → 8 ≤ i
    → length w ≡ i
    → AreWords w
    → AreWords (expand_words n i rcon w) × (length (expand_words n i rcon w) ≡ n + i)
unfolding expand_words
expand_words-AreWords zero i rcon w h long words = (words, omega arith)
expand_words-AreWords (suc n) i rcon w h long words =
    let t = (schedule_core i rcon (get_or w (i - 1) [])).0 in
    let four = length-schedule_core i rcon (get_or w (i - 1) []) (words (i - 1) (omega arith)) in
    let old = words (i - 8) (omega arith) in
    let new = length-xor_bytes (get_or w (i - 8) []) t (omega (arith, old, four)) ∙ old in
    let (rest, count) =
      expand_words-AreWords n (i + 1) (schedule_core i rcon (get_or w (i - 1) [])).1
        (w ++ (xor_bytes (get_or w (i - 8) []) t ∷ [])) (omega arith)
        (omega (arith, length-append w (xor_bytes (get_or w (i - 8) []) t ∷ []), long))
        (snoc-AreWords w (xor_bytes (get_or w (i - 8) []) t) words new) in
    (rest, omega arith)

key_words-AreWords :
    (n : ℕ) (key : List ℕ)
    → length key ≡ 4 * n
    → AreWords (key_words n key) × (length (key_words n key) ≡ n)
unfolding key_words
key_words-AreWords zero key h = (λ i lt. absurd (omega arith), refl)
key_words-AreWords (suc n) key h =
    let (rest, count) = key_words-AreWords n (drop 4 key) (omega (arith, length-drop 4 key)) in
    (
      all_words (take 4 key) (key_words n (drop 4 key)) (omega (arith, length-take 4 key)) rest,
      ap suc count,
    )
  where
    all_words : (x : List ℕ) (w : List (List ℕ)) → length x ≡ 4 → AreWords w → AreWords (x ∷ w)
    all_words x w four words zero lt = four
    all_words x w four words (suc i) lt = words i (omega arith)

round_keys-AreKeys :
    (n r : ℕ) (w : List (List ℕ))
    → 4 * (r + n) ≤ length w
    → AreWords w
    → (k : ℕ) → k < n
    → length (get_or (round_keys n r w) k []) ≡ 16
unfolding round_keys
round_keys-AreKeys zero r w long words k h = absurd (omega arith)
round_keys-AreKeys (suc n) r w long words zero h = omega (
  arith,
  length-append (get_or w (4 * r) [])
      (get_or w (4 * r + 1) [] ++ (get_or w (4 * r + 2) [] ++ get_or w (4 * r + 3) [])),
  length-append (get_or w (4 * r + 1) []) (get_or w (4 * r + 2) [] ++ get_or w (4 * r + 3) []),
  length-append (get_or w (4 * r + 2) []) (get_or w (4 * r + 3) []),
  words (4 * r) (omega arith),
  words (4 * r + 1) (omega arith),
  words (4 * r + 2) (omega arith),
  words (4 * r + 3) (omega arith),
)
round_keys-AreKeys (suc n) r w long words (suc k) h =
    round_keys-AreKeys n (r + 1) w (omega arith) words k (omega arith)

-- A key of 32 bytes gives fifteen round keys of 16 bytes.
pub expand-AreKeys : (key : List ℕ) → length key ≡ 32 → AreKeys (aes256_expand_portable key)
unfolding aes256_expand_portable
expand-AreKeys key h r lt =
    let (words, count) = key_words-AreWords 8 key (omega arith) in
    let (all, total) = expand_words-AreWords 52 8 1 (key_words 8 key) (omega arith) count words in
    round_keys-AreKeys 15 0 (expand_words 52 8 1 (key_words 8 key)) (omega arith) all r lt
