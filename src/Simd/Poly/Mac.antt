-- ===== src/Simd/Poly/Mac.antt =====
-- What poly1305_finish gives after a message: the value of its polynomial, plus the pad.
use native.Mathlib.Nat.{add-mul-mod_self_left, mod-eq_of_lt, mod-mod}
use linerate.Base.{
  ℕ, zero, suc, ◌+◌, ◌-◌, ◌*◌, ◌/◌, ◌%◌, ◌^◌, ◌<◌, ◌≡◌, refl, sym, ap, ap₂, subst, ◌∙◌, inl, inr,
  List, [], ◌∷◌, ◌++◌, length, take, replicate, ◌==◌, Bool-cases, append-nil, no_elements,
  length-append, length-replicate, get_or-replicate, take_all, arith,
}
use linerate.Base.Bytes.{le_bytes, le_value}
use linerate.Simd.Poly.{
  Limbs, Poly1305State, add_block, products, carry, blocks_loop, poly1305_blocks, finish_block,
  carry_all, reduce, poly1305_finish,
}
use linerate.Simd.Poly.Turn.{prime, value, AreLimbs, AreBytes, digits, turn-value}
use linerate.Simd.Poly.Message.{evaluate, mod-times, digits-cons}
use linerate.Simd.Poly.Absorb.{Holds, AreBytes-append, evaluate-append}
use linerate.Simd.Poly.Pieces.{Absorbed, rest-AreBytes}
use linerate.Simd.Poly.Finish.{carry_all-IsKey, reduce-value, pad_value, add_pad-value}

-- The authenticator of a message for a multiplier and a pad, as RFC 8439 has it: the polynomial of
-- its blocks modulo 2^130 - 5, plus the pad, modulo 2^128, as bytes.
abbrev pub mac : ℕ → ℕ → List ℕ → List ℕ
mac r s m = le_bytes 16 (evaluate ((length m + 15) / 16) r 0 m + s)

evaluate-lt : (n r acc : ℕ) (m : List ℕ) → acc < prime → evaluate n r acc m < prime
evaluate-lt zero r acc m h = h
evaluate-lt (suc n) r acc m h = evaluate-lt n r _ _ (omega arith)

digits-le_value : (n : ℕ) (m : List ℕ) → length m ≡ n → digits n 0 m ≡ le_value m
unfolding le_value
digits-le_value zero [] h = refl
digits-le_value zero (x ∷ m) h = absurd (omega arith)
digits-le_value (suc n) [] h = absurd (omega arith)
digits-le_value (suc n) (x ∷ m) h =
    omega (arith, digits-cons n 0 x m, digits-le_value n m (omega arith))

zeros-value : (n : ℕ) → le_value (replicate n 0) ≡ 0
unfolding le_value
zeros-value zero = refl
zeros-value (suc n) = omega (arith, zeros-value n)

le_value-zeros :
    (xs : List ℕ) (n : ℕ) → le_value (xs ++ (1 ∷ replicate n 0)) ≡ le_value (xs ++ (1 ∷ []))
unfolding le_value
le_value-zeros [] n = omega (arith, zeros-value n)
le_value-zeros (x ∷ xs) n = omega (arith, le_value-zeros xs n)

one_zeros-AreBytes : (n : ℕ) → AreBytes (1 ∷ replicate n 0)
one_zeros-AreBytes n zero = omega arith
one_zeros-AreBytes n (suc i) = omega (arith, get_or-replicate {A = ℕ} n i 0)

module _ (st : Poly1305State) (n : ℕ) (done rest : List ℕ) (holds : Holds st n done rest)
    (small : AreBytes rest) where
  abbrev last : List ℕ
  last = rest ++ (1 ∷ replicate (15 - st.leftover) 0)

  length-last : length last ≡ 16
  length-last = omega (
    arith,
    length-append rest (1 ∷ replicate (15 - st.leftover) 0),
    length-replicate {A = ℕ} (15 - st.leftover) 0,
    holds.left,
    holds.few,
  )

  last-value : digits 16 0 last ≡ le_value (take 16 rest ++ (1 ∷ []))
  last-value =
      digits-le_value 16 last length-last
      ∙ le_value-zeros rest (15 - st.leftover)
      ∙ ap (λ l. le_value (l ++ (1 ∷ [])))
          (sym (take_all 16 rest (omega (arith, holds.left, holds.few))))

  one_more :
      evaluate (n + 1) (value st.r) 0 (done ++ rest)
      ≡ (evaluate n (value st.r) 0 done + le_value (take 16 rest ++ (1 ∷ []))) * value st.r % prime
  one_more = evaluate-append n 1 (value st.r) 0 done rest holds.whole

  last_turn :
      AreLimbs (carry (products st.r (add_block 0 st.h last)))
      × (value (carry (products st.r (add_block 0 st.h last))) % prime
          ≡ evaluate (n + 1) (value st.r) 0 (done ++ rest) % prime)
  last_turn =
      let (next, turn) =
        turn-value st.r st.h last 0 holds.key holds.limbs
          (AreBytes-append rest (1 ∷ replicate (15 - st.leftover) 0) small
            (one_zeros-AreBytes (15 - st.leftover)))
          (omega arith) in
      let block : ℕ = le_value (take 16 rest ++ (1 ∷ [])) in
      let acc : ℕ = evaluate n (value st.r) 0 done in
      let sums : (value st.h + digits 16 0 last + 2 ^ 128 * 0) % prime ≡ (acc + block) % prime =
        omega (arith, last-value, holds.sum) in
      (
        next,
        turn
            ∙ sym (mod-times (value st.h + digits 16 0 last + 2 ^ 128 * 0) (value st.r))
            ∙ ap (λ t. t * value st.r % prime) sums
            ∙ mod-times (acc + block) (value st.r)
            ∙ sym (ap (λ t. t % prime) one_more ∙ mod-mod ((acc + block) * value st.r) prime),
      )

  one_block : length last / 16 ≡ 1
  one_block = omega (arith, length-last)

  count : length (done ++ rest) ≡ 16 * n + st.leftover
  count = omega (arith, length-append done rest, holds.whole, holds.left)

  value_at :
      (k j : ℕ)
      → k ≡ j
      → evaluate k (value st.r) 0 (done ++ rest) % prime
        ≡ evaluate j (value st.r) 0 (done ++ rest) % prime
  value_at k j e = ap (λ i. evaluate i (value st.r) 0 (done ++ rest) % prime) e

  nothing_left :
      rest ≡ [] → evaluate n (value st.r) 0 done ≡ evaluate n (value st.r) 0 (done ++ rest)
  nothing_left e = ap (evaluate n (value st.r) 0) (sym (ap (λ l. done ++ l) e ∙ append-nil done))

  finish_block-value :
      AreLimbs (finish_block st).h
      × (value (finish_block st).h % prime
          ≡ evaluate ((length (done ++ rest) + 15) / 16) (value st.r) 0 (done ++ rest) % prime)
      × ((finish_block st).pad ≡ st.pad)
  unfolding finish_block poly1305_blocks blocks_loop
  finish_block-value = elim (Bool-cases (st.leftover == 0)) [
    | inl whole ↦
        let empty : st.leftover ≡ 0 = ground arith in
        rw whole (
          holds.limbs,
          holds.sum
              ∙ ap (λ t. t % prime)
                  (nothing_left (no_elements rest (omega (arith, holds.left, empty))))
              ∙ value_at n ((length (done ++ rest) + 15) / 16) (omega (arith, count, empty)),
          refl,
        )
    | inr more ↦
        let waiting : 0 < st.leftover = ground arith in
        rw (more, holds.kept, one_block)
          (
            last_turn.0,
            last_turn.1
                ∙ value_at (n + 1) ((length (done ++ rest) + 15) / 16)
                    (omega (arith, count, waiting, holds.few)),
            refl,
          )
  ]

-- The tag of a finished state is the authenticator of the message that it has taken in.
pub poly1305_finish-mac :
    (origin st : Poly1305State) (m : List ℕ)
    → Absorbed origin st m
    → poly1305_finish st ≡ mac (value origin.r) (pad_value origin.pad) m
unfolding poly1305_finish
poly1305_finish-mac origin st m a =
    let (n, done, rest, holds, parts) = a.holds in
    let (limbs, sum, pad) =
      finish_block-value st n done rest holds
        (rest-AreBytes done rest (subst AreBytes (sym parts) a.small)) in
    let h : Limbs = (finish_block st).h in
    let (q, carried, key) = carry_all-IsKey h limbs in
    let (least, key') = reduce-value (carry_all h) key in
    let k : ℕ = (length m + 15) / 16 in
    let residue : value (reduce (carry_all h)) ≡ evaluate k (value st.r) 0 m =
      least
      ∙ sym (add-mul-mod_self_left (value (carry_all h)) prime q)
      ∙ ap (λ t. t % prime) (sym carried)
      ∙ sum
      ∙ ap (λ l. evaluate ((length l + 15) / 16) (value st.r) 0 l % prime) parts
      ∙ mod-eq_of_lt (evaluate-lt k (value st.r) 0 m (omega arith)) in
    add_pad-value (reduce (carry_all h)) (finish_block st).pad key'
    ∙ ap₂ (λ v p. le_bytes 16 (v + pad_value p)) residue pad
    ∙ ap₂ (λ l p. le_bytes 16 (evaluate k (value l) 0 m + pad_value p)) a.multiplier a.same_pad
