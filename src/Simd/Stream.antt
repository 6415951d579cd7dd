-- ===== src/Simd/Stream.antt =====
-- The loop of the stream ciphers combines a message with the blocks of the states in turn, and undoes
-- itself.
use linerate.Base.{
  ℕ, zero, suc, ◌*◌, ◌≤◌, ◌<◌, ◌≡◌, ◌≢◌, refl, sym, ap, ap₂, ◌∙◌, inl, inr, false, List, [], ◌∷◌,
  ◌++◌, length, take, drop, All, All-append, ltb, ◌==◌, if◌then◌else◌, bit_xor, arith, Bool-cases,
  length-append, take_all, drop_all, length-drop,
}
use linerate.Base.Words.{IsByte, byte, bit_xor_cancel, bit_xor-lt}
use linerate.Simd.{xor_bytes, xor_loop}

pub xor_bytes-append :
    (xs ks ls : List ℕ)
    → xor_bytes xs (ks ++ ls)
      ≡ xor_bytes (take (length ks) xs) ks ++ xor_bytes (drop (length ks) xs) ls
xor_bytes-append xs [] ls = refl
xor_bytes-append [] (k ∷ ks) ls = refl
xor_bytes-append (x ∷ xs) (k ∷ ks) ls = ap (λ l. byte (bit_xor x k) ∷ l) (xor_bytes-append xs ks ls)

pub xor_bytes-IsByte : (xs ks : List ℕ) → All IsByte (xor_bytes xs ks)
xor_bytes-IsByte [] ks = tt
xor_bytes-IsByte (x ∷ xs) [] = tt
xor_bytes-IsByte (x ∷ xs) (k ∷ ks) = (omega arith, xor_bytes-IsByte xs ks)

pub length-xor_bytes :
    (xs ks : List ℕ) → length xs ≤ length ks → length (xor_bytes xs ks) ≡ length xs
length-xor_bytes [] ks h = refl
length-xor_bytes (x ∷ xs) [] h = absurd (omega arith)
length-xor_bytes (x ∷ xs) (k ∷ ks) h = ap suc (length-xor_bytes xs ks (omega arith))

xor_byte_twice : (x k : ℕ) → x < 256 → k < 256 → byte (bit_xor (byte (bit_xor x k)) k) ≡ x
xor_byte_twice x k p q =
    let whole : byte (bit_xor x k) ≡ bit_xor x k = omega (arith, bit_xor-lt 8 x k p q) in
    ap (λ t. byte (bit_xor t k)) whole ∙ ap byte (bit_xor_cancel x k) ∙ omega arith

pub xor_bytes_twice :
    (xs ks : List ℕ)
    → All IsByte xs
    → All IsByte ks
    → length xs ≤ length ks
    → xor_bytes (xor_bytes xs ks) ks ≡ xs
xor_bytes_twice [] ks p q h = refl
xor_bytes_twice (x ∷ xs) [] p q h = absurd (omega arith)
xor_bytes_twice (x ∷ xs) (k ∷ ks) p q h =
    ap₂ (λ a b. a ∷ b) (xor_byte_twice x k p.0 q.0) (xor_bytes_twice xs ks p.1 q.1 (omega arith))

turn_takes :
    (size : ℕ) (xs : List ℕ)
    → (take (if ltb (length xs) size then length xs else size) xs ≡ take size xs)
      × (drop (if ltb (length xs) size then length xs else size) xs ≡ drop size xs)
turn_takes size xs = elim (Bool-cases (ltb (length xs) size)) [
  | inl short ↦ rw short (
    take_all (length xs) xs (omega arith) ∙ sym (take_all size xs (ground arith)),
    drop_all (length xs) xs (omega arith) ∙ sym (drop_all size xs (ground arith)),
  )
  | inr long ↦ rw long (refl, refl)
]

module _ {S : Type 0} (size : ℕ) (block : S → List ℕ) (next : S → S) where
  -- The first `n` blocks from a state on.
  abbrev pub blocks : ℕ → S → List ℕ
  blocks zero s = []
  blocks (suc n) s = block s ++ blocks n (next s)

  loop_turn :
      (fuel : ℕ) (s : S) (xs : List ℕ)
      → length xs ≢ 0
      → (xor_loop size block next (suc fuel) s xs).1
        ≡ xor_bytes (take size xs) (block s)
          ++ (xor_loop size block next fuel (next s) (drop size xs)).1
  unfolding xor_loop
  loop_turn fuel s xs some_left =
      let more : (length xs == 0) ≡ false = ground arith in
      rw more (
        ap₂ (λ a b. xor_bytes a (block s) ++ (xor_loop size block next fuel (next s) b).1)
          (turn_takes size xs).0 (turn_takes size xs).1)

  pub blocks-IsByte :
      (bytes : (s : S) → All IsByte (block s)) (n : ℕ) (s : S) → All IsByte (blocks n s)
  blocks-IsByte bytes zero s = tt
  blocks-IsByte bytes (suc n) s =
      All-append IsByte (block s) (blocks n (next s)) (bytes s) (blocks-IsByte bytes n (next s))

  module _ (Fits : S → Type 0) (some_bytes : 0 < size)
      (full : (s : S) → Fits s → length (block s) ≡ size)
      (keeps : (s : S) → Fits s → Fits (next s)) where
    pub length-blocks : (n : ℕ) (s : S) → Fits s → length (blocks n s) ≡ n * size
    length-blocks zero s w = omega arith
    length-blocks (suc n) s w = omega (
      arith,
      length-append (block s) (blocks n (next s)),
      full s w,
      length-blocks n (next s) (keeps s w),
    )

    -- With a fuel of the bytes at least, the loop combines them with the blocks from the state on.
    pub xor_loop-blocks :
        (fuel n : ℕ) (s : S) (xs : List ℕ)
        → Fits s
        → length xs ≤ fuel
        → length xs ≤ n * size
        → (xor_loop size block next fuel s xs).1 ≡ xor_bytes xs (blocks n s)
    unfolding xor_loop
    xor_loop-blocks zero n s [] w f m = refl
    xor_loop-blocks zero n s (x ∷ xs) w f m = absurd (omega arith)
    xor_loop-blocks (suc fuel) n s [] w f m = refl
    xor_loop-blocks (suc fuel) zero s (x ∷ xs) w f m = absurd (omega arith)
    xor_loop-blocks (suc fuel) (suc n) s (x ∷ xs) w f m =
        loop_turn fuel s (x ∷ xs) (λ e. absurd (omega arith))
        ∙ ap (λ l. xor_bytes (take size (x ∷ xs)) (block s) ++ l)
            (xor_loop-blocks fuel n (next s) (drop size (x ∷ xs)) (keeps s w)
              (omega (arith, length-drop size (x ∷ xs))) (omega (arith, length-drop size (x ∷ xs))))
        ∙ ap
            (λ k.
              xor_bytes (take k (x ∷ xs)) (block s)
              ++ xor_bytes (drop k (x ∷ xs)) (blocks n (next s)))
            (sym (full s w))
        ∙ sym (xor_bytes-append (x ∷ xs) (block s) (blocks n (next s)))

    enough : (m : ℕ) → m ≤ m * size
    enough m = grind arith

    pub length-xor_loop :
        (s : S) (xs : List ℕ)
        → Fits s
        → length ((xor_loop size block next (length xs) s xs).1) ≡ length xs
    length-xor_loop s xs w =
        ap length
          (xor_loop-blocks (length xs) (length xs) s xs w (omega arith) (enough (length xs)))
        ∙ length-xor_bytes xs (blocks (length xs) s)
            (omega (arith, length-blocks (length xs) s w, enough (length xs)))

    -- The loop run on its own output from the same state gives the message back.
    pub xor_loop_twice :
        ((s : S) → All IsByte (block s))
        → (s : S) (xs : List ℕ) → Fits s
        → All IsByte xs
        → let ys = (xor_loop size block next (length xs) s xs).1 in
          (xor_loop size block next (length ys) s ys).1 ≡ xs
    xor_loop_twice bytes s xs w small =
        let ys = (xor_loop size block next (length xs) s xs).1 in
        let n = length xs in
        let room : length xs ≤ length (blocks n s) = omega (arith, length-blocks n s w, enough n) in
        let same = length-xor_loop s xs w in
        xor_loop-blocks (length ys) n s ys w (omega arith) (omega (arith, same, enough n))
        ∙ ap (λ l. xor_bytes l (blocks n s)) (xor_loop-blocks n n s xs w (omega arith) (enough n))
        ∙ xor_bytes_twice xs (blocks n s) small (blocks-IsByte bytes n s) room

-- Two ways to make the blocks that agree on the states that come up give one output.
pub xor_loop_same :
    {S : Type 0}
    → (size : ℕ) (block block' : S → List ℕ) (next : S → S) (Fits : S → Type 0)
    → ((s : S) → Fits s → block s ≡ block' s)
    → ((s : S) → Fits s → Fits (next s))
    → (fuel : ℕ) (s : S) (xs : List ℕ) → Fits s
    → xor_loop size block next fuel s xs ≡ xor_loop size block' next fuel s xs
unfolding xor_loop
xor_loop_same size block block' next Fits same kept zero s xs h = refl
xor_loop_same {S} size block block' next Fits same kept (suc fuel) s xs h =
    let n = if ltb (length xs) size then length xs else size in
    ap₂
      (λ (b : List ℕ) (rest : S × List ℕ).
        if length xs == 0 then (s, []) else (rest.0, xor_bytes (take n xs) b ++ rest.1))
      (same s h)
      (xor_loop_same size block block' next Fits same kept fuel (next s) (drop n xs) (kept s h))
