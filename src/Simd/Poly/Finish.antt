-- ===== src/Simd/Poly/Finish.antt =====
-- The arithmetic of poly1305_finish: the last carries, the choice of the least residue, and the pad.
use linerate.Base.{
  ℕ, suc, ◌+◌, ◌-◌, ◌*◌, ◌/◌, ◌%◌, ◌^◌, ◌≤◌, ◌<◌, ◌≡◌, refl, sym, ap, ap₂, subst, ◌∙◌, ◌⊎◌, inl,
  inr, List, [], ◌∷◌, ◌++◌, get_or, bit_or, ltb, Bool-cases, ltb→lt, arith,
}
use linerate.Base.Bits.{bit_and-zero}
use linerate.Base.Words.{byte, u32, bit_and-ones, bit_or-add, bit_or-zero_right, zero_or}
use linerate.Base.Bytes.{le_bytes}
use linerate.Simd.{add32, shl32, store32_le}
use linerate.Simd.Poly.{Limbs, carry_all, add_five, choose, reduce, add_pad}
use linerate.Simd.Poly.Turn.{prime, value, AreLimbs, IsKey}

-- Limbs below 2^26 are read by `& 0x3ffffff` after each carry.
module _ (h : Limbs) (limbs : AreLimbs h) where
  pub carry_all-IsKey : (q : ℕ) × (value h ≡ value (carry_all h) + prime * q) × IsKey (carry_all h)
  unfolding carry_all
  carry_all-IsKey =
      let h2 : ℕ = add32 h.l2 (h.l1 / 2 ^ 26) in
      let h3 : ℕ = add32 h.l3 (h2 / 2 ^ 26) in
      let h4 : ℕ = add32 h.l4 (h3 / 2 ^ 26) in
      let h0 : ℕ = add32 h.l0 (u32 (h4 / 2 ^ 26 * 5)) in
      let s2 : h2 ≡ h.l2 + h.l1 / 2 ^ 26 = omega arith in
      let s3 : h3 ≡ h.l3 + h2 / 2 ^ 26 = omega arith in
      let s4 : h4 ≡ h.l4 + h3 / 2 ^ 26 = omega arith in
      let s0 : h0 ≡ h.l0 + h4 / 2 ^ 26 * 5 = omega arith in
      let t0 : (carry_all h).l0 ≡ h0 % 2 ^ 26 = bit_and-ones 26 h0 in
      let t1 : (carry_all h).l1 ≡ h.l1 % 2 ^ 26 + h0 / 2 ^ 26 =
        omega (arith, bit_and-ones 26 h.l1) in
      let t2 : (carry_all h).l2 ≡ h2 % 2 ^ 26 = bit_and-ones 26 h2 in
      let t3 : (carry_all h).l3 ≡ h3 % 2 ^ 26 = bit_and-ones 26 h3 in
      let t4 : (carry_all h).l4 ≡ h4 % 2 ^ 26 = bit_and-ones 26 h4 in
      (
        h4 / 2 ^ 26,
        omega (arith, t0, t1, t2, t3, t4, s0, s2, s3, s4),
        omega (arith, t0, t1, t2, t3, t4, s0, s2, s3, s4),
      )

choose-zero : (h g : ℕ) → h < 2 ^ 32 → choose 0 h g ≡ h
unfolding choose
choose-zero h g p =
    ap₂ bit_or (bit_and-ones 32 h ∙ omega arith) (bit_and-zero g) ∙ bit_or-zero_right h

choose-ones : (h g : ℕ) → g < 2 ^ 32 → choose (2 ^ 32 - 1) h g ≡ g
unfolding choose
choose-ones h g p = ap₂ bit_or (bit_and-zero h) (bit_and-ones 32 g ∙ omega arith) ∙ zero_or g

module _ (h : Limbs) (key : IsKey h) where
  -- The limbs of the sum, the last with its wrap-around.
  add_five-value :
      IsKey (record (add_five h) { l4 = 0 })
      × (((value h + 5 < 2 ^ 130) × ((add_five h).l4 / 2 ^ 31 ≡ 1))
          ⊎ ((value (add_five h) + 2 ^ 130 ≡ value h + 5) × ((add_five h).l4 < 2 ^ 26)))
  unfolding add_five
  add_five-value =
      let g0 : ℕ = add32 h.l0 5 in
      let g1 : ℕ = add32 h.l1 (g0 / 2 ^ 26) in
      let g2 : ℕ = add32 h.l2 (g1 / 2 ^ 26) in
      let g3 : ℕ = add32 h.l3 (g2 / 2 ^ 26) in
      let s0 : g0 ≡ h.l0 + 5 = omega arith in
      let s1 : g1 ≡ h.l1 + g0 / 2 ^ 26 = omega arith in
      let s2 : g2 ≡ h.l2 + g1 / 2 ^ 26 = omega arith in
      let s3 : g3 ≡ h.l3 + g2 / 2 ^ 26 = omega arith in
      let t0 = bit_and-ones 26 g0 in
      let t1 = bit_and-ones 26 g1 in
      let t2 = bit_and-ones 26 g2 in
      let t3 = bit_and-ones 26 g3 in
      (
        omega (arith, t0, t1, t2, t3),
        elim (Bool-cases (ltb (h.l4 + g3 / 2 ^ 26) (2 ^ 26))) [
          | inl low ↦
              let low' : h.l4 + g3 / 2 ^ 26 < 2 ^ 26 = ltb→lt _ _ low in
              inl (omega (arith, s0, s1, s2, s3), omega arith)
          | inr high ↦
              let high' : 2 ^ 26 ≤ h.l4 + g3 / 2 ^ 26 = ground arith in
              inr (omega (arith, t0, t1, t2, t3, s0, s1, s2, s3), omega (arith, s3, s2, s1, s0))
        ],
      )

  -- `h` where the sum stays below 2^130, and else the sum less 2^130: the least residue.
  pub reduce-value : (value (reduce h) ≡ value h % prime) × IsKey (reduce h)
  unfolding reduce
  reduce-value =
      let (low, cases) = add_five-value in
      elim cases [
        | inl (small, top) ↦
            let mask : u32 ((add_five h).l4 / 2 ^ 31 + 2 ^ 32 - 1) ≡ 0 = omega arith in
            let is : reduce h ≡ h =
              rw
                (
                  mask,
                  choose-zero h.l0 (add_five h).l0 (omega arith),
                  choose-zero h.l1 (add_five h).l1 (omega arith),
                  choose-zero h.l2 (add_five h).l2 (omega arith),
                  choose-zero h.l3 (add_five h).l3 (omega arith),
                  choose-zero h.l4 (add_five h).l4 (omega arith),
                )
                refl in
            subst (λ l. (value l ≡ value h % prime) × IsKey l) (sym is) (omega arith, key)
        | inr (same, top) ↦
            let mask : u32 ((add_five h).l4 / 2 ^ 31 + 2 ^ 32 - 1) ≡ 2 ^ 32 - 1 = omega arith in
            let is : reduce h ≡ add_five h =
              rw
                (
                  mask,
                  choose-ones h.l0 (add_five h).l0 (omega arith),
                  choose-ones h.l1 (add_five h).l1 (omega arith),
                  choose-ones h.l2 (add_five h).l2 (omega arith),
                  choose-ones h.l3 (add_five h).l3 (omega arith),
                  choose-ones h.l4 (add_five h).l4 (omega arith),
                )
                refl in
            subst (λ l. (value l ≡ value h % prime) × IsKey l) (sym is) (omega arith, omega arith)
      ]

-- The number that the four words of the pad stand for.
abbrev pub pad_value : List ℕ → ℕ
pad_value pad =
    get_or pad 0 0 + 2 ^ 32 * get_or pad 1 0 + 2 ^ 64 * get_or pad 2 0 + 2 ^ 96 * get_or pad 3 0

bytes-mod : (x y : ℕ) → x % 2 ^ 32 ≡ y % 2 ^ 32 → store32_le x ≡ le_bytes 4 y
unfolding store32_le le_bytes
bytes-mod x y e =
    ap₂ (λ a b. a ∷ b) {x = byte x} {y = y % 256} (omega arith)
      (ap₂ (λ a b. a ∷ b) {x = byte (x / 2 ^ 8)} {y = y / 256 % 256} (omega arith)
        (ap₂ (λ a b. a ∷ b) {x = byte (x / 2 ^ 16)} {y = y / 256 / 256 % 256} (omega arith)
          (ap (λ a. a ∷ []) {x = byte (x / 2 ^ 24)} {y = y / 256 / 256 / 256 % 256} (omega arith))))

le_bytes-word :
    (n x : ℕ) → le_bytes (suc (suc (suc (suc n)))) x ≡ le_bytes 4 x ++ le_bytes n (x / 2 ^ 32)
unfolding le_bytes
le_bytes-word n x =
    ap
      (λ t.
        x % 256 ∷ x / 256 % 256 ∷ x / 256 / 256 % 256 ∷ x / 256 / 256 / 256 % 256 ∷ le_bytes n t)
      {x = x / 256 / 256 / 256 / 256} {y = x / 2 ^ 32} (omega arith)

four_words :
    (x w0 w1 w2 w3 : ℕ)
    → w0 % 2 ^ 32 ≡ x % 2 ^ 32
    → w1 % 2 ^ 32 ≡ x / 2 ^ 32 % 2 ^ 32
    → w2 % 2 ^ 32 ≡ x / 2 ^ 64 % 2 ^ 32
    → w3 % 2 ^ 32 ≡ x / 2 ^ 96 % 2 ^ 32
    → store32_le w0 ++ (store32_le w1 ++ (store32_le w2 ++ store32_le w3)) ≡ le_bytes 16 x
four_words x w0 w1 w2 w3 e0 e1 e2 e3 =
    ap₂ (λ a b. a ++ b) (bytes-mod w0 x e0)
      (ap₂ (λ a b. a ++ b) (bytes-mod w1 (x / 2 ^ 32) (omega arith))
        (ap₂ (λ a b. a ++ b) (bytes-mod w2 (x / 2 ^ 32 / 2 ^ 32) (omega arith))
          (bytes-mod w3 (x / 2 ^ 32 / 2 ^ 32 / 2 ^ 32) (omega arith))))
    ∙ sym (
        le_bytes-word 12 x
        ∙ ap (λ l. le_bytes 4 x ++ l)
            (le_bytes-word 8 (x / 2 ^ 32)
              ∙ ap (λ l. le_bytes 4 (x / 2 ^ 32) ++ l) (le_bytes-word 4 (x / 2 ^ 32 / 2 ^ 32))))

-- A word of the packed number: the upper limb fills what the lower leaves of its 32 bits.
packed : (k l u v : ℕ) → l < 2 ^ k → shl32 u k ≡ v * 2 ^ k → bit_or l (shl32 u k) ≡ l + v * 2 ^ k
packed k l u v p e = ap (bit_or l) e ∙ bit_or-add k l v p

pub add_pad-value :
    (h : Limbs) (pad : List ℕ) → IsKey h → add_pad h pad ≡ le_bytes 16 (value h + pad_value pad)
unfolding add_pad
add_pad-value h pad key =
    let p0 = packed 26 h.l0 h.l1 (h.l1 % 2 ^ 6) (omega arith) (omega arith) in
    let p1 = packed 20 (h.l1 / 2 ^ 6) h.l2 (h.l2 % 2 ^ 12) (omega arith) (omega arith) in
    let p2 = packed 14 (h.l2 / 2 ^ 12) h.l3 (h.l3 % 2 ^ 18) (omega arith) (omega arith) in
    let p3 = packed 8 (h.l3 / 2 ^ 18) h.l4 (h.l4 % 2 ^ 24) (omega arith) (omega arith) in
    four_words (value h + pad_value pad) _ _ _ _ (omega (arith, p0)) (omega (arith, p0, p1))
      (omega (arith, p0, p1, p2)) (omega (arith, p0, p1, p2, p3))
