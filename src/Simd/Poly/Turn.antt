-- ===== src/Simd/Poly/Turn.antt =====
-- One turn of poly1305_blocks: no sum or product wraps, and the limbs stand for the product modulo
-- 2^130 - 5.
use native.Mathlib.Nat.{mul-le-mul, add-mul-mod_self_left}
use linerate.Base.{
  ℕ, zero, suc, ◌+◌, ◌-◌, ◌*◌, ◌/◌, ◌%◌, ◌^◌, ◌≤◌, ◌<◌, ◌≡◌, sym, ap, ◌∙◌, List, bit_and, bit_or,
  get_or, arith,
}
use linerate.Base.Words.{u32, bit_and-ones, bit_or-add}
use linerate.Simd.{add32, shl32, load32_le}
use linerate.Simd.Poly.{Limbs, u64, add_block, products, carry}

abbrev pub prime : ℕ
prime = 2 ^ 130 - 5

-- The number that five limbs stand for.
abbrev pub value : Limbs → ℕ
value l = l.l0 + 2 ^ 26 * l.l1 + 2 ^ 52 * l.l2 + 2 ^ 78 * l.l3 + 2 ^ 104 * l.l4

-- Limbs between two turns: the second may be a little above 26 bits.
pub record AreLimbs (l : Limbs) : Type 0 where
  pub lt0 : l.l0 < 2 ^ 26
  pub lt1 : l.l1 < 2 ^ 26 + 2 ^ 6
  pub lt2 : l.l2 < 2 ^ 26
  pub lt3 : l.l3 < 2 ^ 26
  pub lt4 : l.l4 < 2 ^ 26

-- The limbs of the multiplier.
pub record IsKey (l : Limbs) : Type 0 where
  pub lt0 : l.l0 < 2 ^ 26
  pub lt1 : l.l1 < 2 ^ 26
  pub lt2 : l.l2 < 2 ^ 26
  pub lt3 : l.l3 < 2 ^ 26
  pub lt4 : l.l4 < 2 ^ 26

-- Limbs after a block is added.
record AreFed (l : Limbs) : Type 0 where
  lt0 : l.l0 < 2 ^ 27
  lt1 : l.l1 < 2 ^ 27 + 2 ^ 6
  lt2 : l.l2 < 2 ^ 27
  lt3 : l.l3 < 2 ^ 27
  lt4 : l.l4 < 2 ^ 27

abbrev pub AreBytes : List ℕ → Type 0
AreBytes m = (i : ℕ) → get_or m i 0 < 256

or_shifted : (n a b : ℕ) → a < 2 ^ n → b * 2 ^ n < 2 ^ 32 → bit_or a (shl32 b n) ≡ a + b * 2 ^ n
or_shifted n a b p q =
    ap (bit_or a) {x = shl32 b n} {y = b * 2 ^ n} (omega arith) ∙ bit_or-add n a b p

pub load32_le-bytes :
    (m : List ℕ) (i : ℕ)
    → AreBytes m
    → load32_le m i
      ≡ get_or m i 0
        + 2 ^ 8 * get_or m (i + 1) 0
        + 2 ^ 16 * get_or m (i + 2) 0
        + 2 ^ 24 * get_or m (i + 3) 0
unfolding load32_le
load32_le-bytes m i small =
    let two =
      or_shifted 8 (get_or m i 0) (get_or m (i + 1) 0) (omega (arith, small i))
        (omega (arith, small (i + 1))) in
    let three =
      or_shifted 16 (bit_or (get_or m i 0) (shl32 (get_or m (i + 1) 0) 8)) (get_or m (i + 2) 0)
        (omega (arith, small i, small (i + 1))) (omega (arith, small (i + 2))) in
    let four =
      or_shifted 24
        (bit_or (bit_or (get_or m i 0) (shl32 (get_or m (i + 1) 0) 8))
          (shl32 (get_or m (i + 2) 0) 16))
        (get_or m (i + 3) 0) (omega (arith, small i, small (i + 1), small (i + 2)))
        (omega (arith, small (i + 3))) in
    omega arith

module _ (h : Limbs) (fed : AreFed h) where
  part : (x y : ℕ) → x ≤ 2 ^ 27 + 2 ^ 6 → y ≤ 5 * 2 ^ 26 → x * y ≤ (2 ^ 27 + 2 ^ 6) * (5 * 2 ^ 26)
  part x y p q = mul-le-mul p q

  -- A sum of five products fits 64 bits.
  row :
      (a b c d e : ℕ)
      → a ≤ 5 * 2 ^ 26
      → b ≤ 5 * 2 ^ 26
      → c ≤ 5 * 2 ^ 26
      → d ≤ 5 * 2 ^ 26
      → e ≤ 5 * 2 ^ 26
      → (u64 (h.l0 * a + h.l1 * b + h.l2 * c + h.l3 * d + h.l4 * e)
          ≡ h.l0 * a + h.l1 * b + h.l2 * c + h.l3 * d + h.l4 * e)
        × (h.l0 * a + h.l1 * b + h.l2 * c + h.l3 * d + h.l4 * e < 2 ^ 58)
  row a b c d e p q s t u = omega (
    arith,
    part h.l0 a (omega arith) p,
    part h.l1 b (omega arith) q,
    part h.l2 c (omega arith) s,
    part h.l3 d (omega arith) t,
    part h.l4 e (omega arith) u,
  )

-- The products without their wrap-around.
abbrev plain : Limbs → Limbs → Limbs
plain r h = record {
  l0 = h.l0 * r.l0 + h.l1 * (r.l4 * 5) + h.l2 * (r.l3 * 5) + h.l3 * (r.l2 * 5) + h.l4 * (r.l1 * 5);
  l1 = h.l0 * r.l1 + h.l1 * r.l0 + h.l2 * (r.l4 * 5) + h.l3 * (r.l3 * 5) + h.l4 * (r.l2 * 5);
  l2 = h.l0 * r.l2 + h.l1 * r.l1 + h.l2 * r.l0 + h.l3 * (r.l4 * 5) + h.l4 * (r.l3 * 5);
  l3 = h.l0 * r.l3 + h.l1 * r.l2 + h.l2 * r.l1 + h.l3 * r.l0 + h.l4 * (r.l4 * 5);
  l4 = h.l0 * r.l4 + h.l1 * r.l3 + h.l2 * r.l2 + h.l3 * r.l1 + h.l4 * r.l0;
}

record AreSmall (d : Limbs) : Type 0 where
  lt0 : d.l0 < 2 ^ 58
  lt1 : d.l1 < 2 ^ 58
  lt2 : d.l2 < 2 ^ 58
  lt3 : d.l3 < 2 ^ 58
  lt4 : d.l4 < 3 * 2 ^ 54

module _ (r h : Limbs) (key : IsKey r) (fed : AreFed h) where
  times_five : (x : ℕ) → x < 2 ^ 26 → u32 (x * 5) ≡ x * 5
  times_five x p = omega arith

  products-plain :
      ((products r h).l0 ≡ (plain r h).l0)
      × ((products r h).l1 ≡ (plain r h).l1)
      × ((products r h).l2 ≡ (plain r h).l2)
      × ((products r h).l3 ≡ (plain r h).l3)
      × ((products r h).l4 ≡ (plain r h).l4)
  unfolding products
  products-plain =
      rw
        (
          times_five r.l1 key.lt1,
          times_five r.l2 key.lt2,
          times_five r.l3 key.lt3,
          times_five r.l4 key.lt4,
        )
        (
          (row h fed r.l0 (r.l4 * 5) (r.l3 * 5) (r.l2 * 5) (r.l1 * 5) (omega arith) (omega arith)
              (omega arith) (omega arith) (omega arith)).0,
          (row h fed r.l1 r.l0 (r.l4 * 5) (r.l3 * 5) (r.l2 * 5) (omega arith) (omega arith)
              (omega arith) (omega arith) (omega arith)).0,
          (row h fed r.l2 r.l1 r.l0 (r.l4 * 5) (r.l3 * 5) (omega arith) (omega arith) (omega arith)
              (omega arith) (omega arith)).0,
          (row h fed r.l3 r.l2 r.l1 r.l0 (r.l4 * 5) (omega arith) (omega arith) (omega arith)
              (omega arith) (omega arith)).0,
          (row h fed r.l4 r.l3 r.l2 r.l1 r.l0 (omega arith) (omega arith) (omega arith)
              (omega arith) (omega arith)).0,
        )

  last_part : (x y : ℕ) → x ≤ 2 ^ 27 + 2 ^ 6 → y ≤ 2 ^ 26 → x * y ≤ (2 ^ 27 + 2 ^ 6) * 2 ^ 26
  last_part x y p q = mul-le-mul p q

  plain-AreSmall : AreSmall (plain r h)
  plain-AreSmall = record {
    lt0 =
        (row h fed r.l0 (r.l4 * 5) (r.l3 * 5) (r.l2 * 5) (r.l1 * 5) (omega arith) (omega arith)
          (omega arith) (omega arith) (omega arith)).1;
    lt1 =
        (row h fed r.l1 r.l0 (r.l4 * 5) (r.l3 * 5) (r.l2 * 5) (omega arith) (omega arith)
          (omega arith) (omega arith) (omega arith)).1;
    lt2 =
        (row h fed r.l2 r.l1 r.l0 (r.l4 * 5) (r.l3 * 5) (omega arith) (omega arith) (omega arith)
          (omega arith) (omega arith)).1;
    lt3 =
        (row h fed r.l3 r.l2 r.l1 r.l0 (r.l4 * 5) (omega arith) (omega arith) (omega arith)
          (omega arith) (omega arith)).1;
    lt4 = omega (
      arith,
      last_part h.l0 r.l4 (omega arith) (omega arith),
      last_part h.l1 r.l3 (omega arith) (omega arith),
      last_part h.l2 r.l2 (omega arith) (omega arith),
      last_part h.l3 r.l1 (omega arith) (omega arith),
      last_part h.l4 r.l0 (omega arith) (omega arith),
    );
  }

-- What the products leave out is a multiple of the prime.
plain_product :
    (r h : Limbs)
    → value h * value r
      ≡ value (plain r h)
        + prime
          * (h.l1 * r.l4
              + h.l2 * r.l3
              + h.l3 * r.l2
              + h.l4 * r.l1
              + 2 ^ 26 * (h.l2 * r.l4 + h.l3 * r.l3 + h.l4 * r.l2)
              + 2 ^ 52 * (h.l3 * r.l4 + h.l4 * r.l3)
              + 2 ^ 78 * (h.l4 * r.l4))
plain_product r h = omega arith

-- `(uint32_t)x & 0x3ffffff`.
pub low26 : (x : ℕ) → bit_and (u32 x) 0x3ffffff ≡ x % 2 ^ 26
low26 x = omega (arith, bit_and-ones 26 (u32 x))

carry-value :
    (d : Limbs)
    → AreSmall d
    → (q : ℕ) × (value d ≡ value (carry d) + prime * q) × AreLimbs (carry d)
unfolding carry
carry-value d small =
    let d1 : ℕ = u64 (d.l1 + d.l0 / 2 ^ 26) in
    let d2 : ℕ = u64 (d.l2 + d1 / 2 ^ 26) in
    let d3 : ℕ = u64 (d.l3 + d2 / 2 ^ 26) in
    let d4 : ℕ = u64 (d.l4 + d3 / 2 ^ 26) in
    let s1 : d1 ≡ d.l1 + d.l0 / 2 ^ 26 = omega arith in
    let s2 : d2 ≡ d.l2 + d1 / 2 ^ 26 = omega arith in
    let s3 : d3 ≡ d.l3 + d2 / 2 ^ 26 = omega arith in
    let s4 : d4 ≡ d.l4 + d3 / 2 ^ 26 = omega arith in
    let h0 : ℕ = add32 (bit_and (u32 d.l0) 0x3ffffff) (u32 (u64 (d4 / 2 ^ 26 * 5))) in
    let s0 : h0 ≡ d.l0 % 2 ^ 26 + d4 / 2 ^ 26 * 5 = omega (arith, low26 d.l0) in
    let t0 : (carry d).l0 ≡ h0 % 2 ^ 26 = bit_and-ones 26 h0 in
    let t1 : (carry d).l1 ≡ d1 % 2 ^ 26 + h0 / 2 ^ 26 = omega (arith, low26 d1) in
    let t2 : (carry d).l2 ≡ d2 % 2 ^ 26 = low26 d2 in
    let t3 : (carry d).l3 ≡ d3 % 2 ^ 26 = low26 d3 in
    let t4 : (carry d).l4 ≡ d4 % 2 ^ 26 = low26 d4 in
    (
      d4 / 2 ^ 26,
      omega (arith, s0, s1, s2, s3, s4, t0, t1, t2, t3, t4),
      record {
        lt0 = omega (arith, t0);
        lt1 = omega (arith, t1, s0, s4, s3);
        lt2 = omega (arith, t2);
        lt3 = omega (arith, t3);
        lt4 = omega (arith, t4);
      },
    )

-- The `n` bytes from index `i` on as a number, lowest byte first.
abbrev pub digits : ℕ → ℕ → List ℕ → ℕ
digits zero i m = 0
digits (suc n) i m = get_or m i 0 + 256 * digits n (suc i) m

module _ (h : Limbs) (m : List ℕ) (b : ℕ) (limbs : AreLimbs h) (small : AreBytes m)
    (flag : b < 2) where
  last_limb : bit_or (load32_le m 12 / 2 ^ 8) (b * 2 ^ 24) ≡ load32_le m 12 / 2 ^ 8 + b * 2 ^ 24
  last_limb =
      bit_or-add 24 (load32_le m 12 / 2 ^ 8) b
        (omega (arith, load32_le-bytes m 12 small, small 12, small 13, small 14, small 15))

  add_block-value :
      (value (add_block (b * 2 ^ 24) h m) ≡ value h + digits 16 0 m + 2 ^ 128 * b)
      × AreFed (add_block (b * 2 ^ 24) h m)
  unfolding add_block
  add_block-value =
      let e0 = bit_and-ones 26 (load32_le m 0) in
      let e1 = bit_and-ones 26 (load32_le m 3 / 2 ^ 2) in
      let e2 = bit_and-ones 26 (load32_le m 6 / 2 ^ 4) in
      let e3 = bit_and-ones 26 (load32_le m 9 / 2 ^ 6) in
      let f0 = load32_le-bytes m 0 small in
      let f1 = load32_le-bytes m 3 small in
      let f2 = load32_le-bytes m 6 small in
      let f3 = load32_le-bytes m 9 small in
      let f4 = load32_le-bytes m 12 small in
      (
        omega (
          arith,
          small 0,
          small 1,
          small 2,
          small 3,
          small 4,
          small 5,
          small 6,
          small 7,
          small 8,
          small 9,
          small 10,
          small 11,
          small 12,
          small 13,
          small 14,
          small 15,
          e0,
          e1,
          e2,
          e3,
          f0,
          f1,
          f2,
          f3,
          f4,
          last_limb,
        ),
        omega (
          arith,
          small 0,
          small 1,
          small 2,
          small 3,
          small 4,
          small 5,
          small 6,
          small 7,
          small 8,
          small 9,
          small 10,
          small 11,
          small 12,
          small 13,
          small 14,
          small 15,
          e0,
          e1,
          e2,
          e3,
          f0,
          f1,
          f2,
          f3,
          f4,
          last_limb,
        ),
      )

-- One turn of the loop over blocks, `b` being the bit above the block's 16 bytes: the limbs stay in
-- their bounds and stand, modulo the prime, for the sum times the multiplier.
pub turn-value :
    (r h : Limbs) (m : List ℕ) (b : ℕ)
    → IsKey r
    → AreLimbs h
    → AreBytes m
    → b < 2
    → AreLimbs (carry (products r (add_block (b * 2 ^ 24) h m)))
      × (value (carry (products r (add_block (b * 2 ^ 24) h m))) % prime
          ≡ (value h + digits 16 0 m + 2 ^ 128 * b) * value r % prime)
turn-value r h m b key limbs small flag =
    let a : Limbs = add_block (b * 2 ^ 24) h m in
    let (sum, fed) = add_block-value h m b limbs small flag in
    let fields = products-plain r a key fed in
    let little = plain-AreSmall r a key fed in
    let little' : AreSmall (products r a) = omega (arith, fields, little) in
    let (q, whole, next) = carry-value (products r a) little' in
    let same : value (plain r a) ≡ value (carry (products r a)) + prime * q =
      omega (arith, fields, whole) in
    (
      next,
      sym (add-mul-mod_self_left (value (carry (products r a))) prime q)
          ∙ ap (λ t. t % prime) (sym same)
          ∙ sym (add-mul-mod_self_left (value (plain r a)) prime _)
          ∙ ap (λ t. t % prime) (sym (plain_product r a))
          ∙ ap (λ t. t * value r % prime) sum,
    )
