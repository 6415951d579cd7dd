-- ===== src/Simd/Poly/Absorb.antt =====
-- The buffer of poly1305_update: however a message is cut into pieces, the state stands for the
-- whole of it.
use linerate.Base.{
  ℕ, zero, suc, ◌+◌, ◌*◌, ◌/◌, ◌%◌, ◌<◌, ◌≡◌, sym, ap, ap₂, ◌∙◌, false, List, [], ◌∷◌, ◌++◌, length,
  take, drop, no_elements, length-drop, take_inside, drop_inside, arith,
}
use linerate.Base.Bytes.{le_value}
use linerate.Simd.Poly.{Poly1305State, poly1305_blocks}
use linerate.Simd.Poly.Turn.{prime, value, AreLimbs, IsKey, AreBytes}
use linerate.Simd.Poly.Message.{evaluate, blocks_loop-evaluate}

-- A state stands for the whole blocks `done`, `n` of them, and the bytes `rest` in its buffer.
pub record Holds (st : Poly1305State) (n : ℕ) (done rest : List ℕ) : Type 0 where
  pub key : IsKey st.r
  pub limbs : AreLimbs st.h
  pub open_end : st.final ≡ false
  pub room : length st.buffer ≡ 16
  pub few : st.leftover < 16
  pub whole : length done ≡ 16 * n
  pub left : length rest ≡ st.leftover
  pub kept : take st.leftover st.buffer ≡ rest
  pub sum : value st.h % prime ≡ evaluate n (value st.r) 0 done % prime

-- Blocks after blocks.
pub evaluate-append :
    (n k r acc : ℕ) (xs ys : List ℕ)
    → length xs ≡ 16 * n
    → evaluate (n + k) r acc (xs ++ ys) ≡ evaluate k r (evaluate n r acc xs) ys
evaluate-append zero k r acc xs ys h =
    ap₂ (λ i l. evaluate i r acc l) {x = zero + k} {y = k} (omega arith)
      (ap (λ l. l ++ ys) (no_elements xs (omega arith)))
evaluate-append (suc n) k r acc xs ys h =
    ap (λ i. evaluate i r acc (xs ++ ys)) {x = suc n + k} {y = suc (n + k)} (omega arith)
    ∙ ap₂ (λ a l. evaluate (n + k) r ((acc + le_value (a ++ (1 ∷ []))) * r % prime) l)
        (take_inside 16 xs ys (omega arith)) (drop_inside 16 xs ys (omega arith))
    ∙ evaluate-append n k r ((acc + le_value (take 16 xs ++ (1 ∷ []))) * r % prime) (drop 16 xs) ys
        (omega (arith, length-drop 16 xs))

pub AreBytes-take : (n : ℕ) (m : List ℕ) → AreBytes m → AreBytes (take n m)
AreBytes-take zero m small i = omega arith
AreBytes-take (suc n) [] small i = omega arith
AreBytes-take (suc n) (x ∷ m) small zero = small 0
AreBytes-take (suc n) (x ∷ m) small (suc i) = AreBytes-take n m (λ j. small (suc j)) i

pub AreBytes-append : (xs ys : List ℕ) → AreBytes xs → AreBytes ys → AreBytes (xs ++ ys)
AreBytes-append [] ys p q i = q i
AreBytes-append (x ∷ xs) ys p q zero = p 0
AreBytes-append (x ∷ xs) ys p q (suc i) = AreBytes-append xs ys (λ j. p (suc j)) q i

-- Whole blocks move into the accumulator.
pub blocks-Holds :
    (st : Poly1305State) (n k : ℕ) (done rest xs : List ℕ)
    → Holds st n done rest
    → AreBytes xs
    → length xs ≡ 16 * k
    → AreLimbs (poly1305_blocks st xs).h
      × (value (poly1305_blocks st xs).h % prime
          ≡ evaluate (n + k) (value st.r) 0 (done ++ xs) % prime)
unfolding poly1305_blocks
blocks-Holds st n k done rest xs holds small long =
    let turns : length xs / 16 ≡ k = omega arith in
    let run =
      blocks_loop-evaluate k st.r st.h xs (evaluate n (value st.r) 0 done) holds.key holds.limbs
        small (omega arith) holds.sum in
    rw (turns, holds.open_end)
      (
        run.0,
        run.1 ∙ ap (λ t. t % prime) (sym (evaluate-append n k (value st.r) 0 done xs holds.whole)),
      )
