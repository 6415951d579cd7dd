-- ===== src/Simd/Poly/Message.antt =====
-- Poly1305 as arithmetic: the value of a message block by block, and the loop of poly1305_blocks
-- against it.
use native.Mathlib.Nat.{pow-suc, add-mul-mod_self_left, mod-mod}
use linerate.Base.{
  ℕ, zero, suc, ◌+◌, ◌*◌, ◌/◌, ◌%◌, ◌^◌, ◌≤◌, ◌≡◌, refl, sym, ap, ◌∙◌, List, [], ◌∷◌, ◌++◌, length,
  get_or, take, drop, length-drop, arith,
}
use linerate.Base.Bytes.{le_value}
use linerate.Simd.Poly.{Limbs, add_block, products, carry, blocks_loop}
use linerate.Simd.Poly.Turn.{prime, value, AreLimbs, IsKey, AreBytes, digits, turn-value}

-- The first `n` blocks of 16 bytes of a message, each with a byte 1 appended, as the coefficients of
-- a polynomial at `r`. A shorter last block ends the message.
abbrev pub evaluate : ℕ → ℕ → ℕ → List ℕ → ℕ
evaluate zero r acc m = acc
evaluate (suc n) r acc m =
    evaluate n r ((acc + le_value (take 16 m ++ (1 ∷ []))) * r % prime) (drop 16 m)

pub mod-times : (a r : ℕ) → a % prime * r % prime ≡ a * r % prime
mod-times a r =
    sym (add-mul-mod_self_left (a % prime * r) prime (a / prime * r))
    ∙ ap (λ t. t % prime) {x = a % prime * r + prime * (a / prime * r)} {y = a * r}
        (omega (arith, ap (λ (t : ℕ). t * r) (parts a)))
  where
    parts : (a : ℕ) → a ≡ a % prime + prime * (a / prime)
    parts a = omega arith

pub digits-cons : (n i x : ℕ) (m : List ℕ) → digits n (suc i) (x ∷ m) ≡ digits n i m
digits-cons zero i x m = refl
digits-cons (suc n) i x m = ap (λ t. get_or m i 0 + 256 * t) (digits-cons n (suc i) x m)

-- The value of a whole block with its byte 1.
pub le_value-block :
    (n : ℕ) (m : List ℕ) → n ≤ length m → le_value (take n m ++ (1 ∷ [])) ≡ digits n 0 m + 256 ^ n
unfolding le_value
le_value-block zero m h = refl
le_value-block (suc n) [] h = absurd (omega arith)
le_value-block (suc n) (x ∷ m) h =
    omega (arith, le_value-block n m (omega arith), digits-cons n 0 x m, pow-suc 256 n)

pub get_or-drop : (n i : ℕ) (m : List ℕ) → get_or (drop n m) i 0 ≡ get_or m (n + i) 0
get_or-drop zero i m = ap (λ k. get_or m k 0) {x = i} {y = 0 + i} (omega arith)
get_or-drop (suc n) i [] = refl
get_or-drop (suc n) i (x ∷ m) =
    get_or-drop n i m ∙ ap (λ k. get_or (x ∷ m) k 0) {x = suc (n + i)} {y = suc n + i} (omega arith)

pub AreBytes-drop : (n : ℕ) (m : List ℕ) → AreBytes m → AreBytes (drop n m)
AreBytes-drop n m small i = omega (arith, get_or-drop n i m, small (n + i))

-- Over whole blocks the limbs stay in their bounds and stand for the value of the blocks.
pub blocks_loop-evaluate :
    (n : ℕ) (r h : Limbs) (m : List ℕ) (acc : ℕ)
    → IsKey r
    → AreLimbs h
    → AreBytes m
    → 16 * n ≤ length m
    → value h % prime ≡ acc % prime
    → AreLimbs (blocks_loop n (2 ^ 24) r h m)
      × (value (blocks_loop n (2 ^ 24) r h m) % prime ≡ evaluate n (value r) acc m % prime)
unfolding blocks_loop
blocks_loop-evaluate zero r h m acc key limbs small long same = (limbs, same)
blocks_loop-evaluate (suc n) r h m acc key limbs small long same =
    let (next, turn) = turn-value r h m 1 key limbs small (omega arith) in
    let block : ℕ = le_value (take 16 m ++ (1 ∷ [])) in
    let is : block ≡ digits 16 0 m + 2 ^ 128 * 1 = le_value-block 16 m (omega arith) in
    let sums : (value h + digits 16 0 m + 2 ^ 128 * 1) % prime ≡ (acc + block) % prime =
      omega arith in
    blocks_loop-evaluate n r (carry (products r (add_block (2 ^ 24) h m))) (drop 16 m)
      ((acc + block) * value r % prime) key next (AreBytes-drop 16 m small)
      (omega (arith, length-drop 16 m))
      (turn
        ∙ sym (mod-times (value h + digits 16 0 m + 2 ^ 128 * 1) (value r))
        ∙ ap (λ t. t * value r % prime) sums
        ∙ mod-times (acc + block) (value r)
        ∙ sym (mod-mod ((acc + block) * value r) prime))
