-- ===== src/Simd/Poly/Key.antt =====
-- The key of Poly1305: the limbs that poly1305_init stores are the number that RFC 8439 prescribes.
use linerate.Base.{
  ℕ, zero, suc, ◌+◌, ◌*◌, ◌/◌, ◌%◌, ◌^◌, ◌≤◌, ◌<◌, ◌≡◌, refl, ap, List, [], ◌∷◌, length, get_or,
  take, drop, bit_and, arith, length-drop,
}
use linerate.Base.Words.{bit_and-parts, bit_and-low}
use linerate.Base.Bytes.{le_value}
use linerate.Simd.{load32_le}
use linerate.Simd.Poly.{poly1305_init}
use linerate.Simd.Poly.Turn.{value, AreBytes, digits, load32_le-bytes}
use linerate.Simd.Poly.Message.{digits-cons, get_or-drop}
use linerate.Simd.Poly.Finish.{pad_value}

-- The multiplier and the pad that RFC 8439 takes from the two halves of a key.
abbrev pub multiplier : List ℕ → ℕ
multiplier key = bit_and (le_value (take 16 key)) 0x0ffffffc0ffffffc0ffffffc0fffffff

abbrev pub pad_of : List ℕ → ℕ
pad_of key = le_value (take 16 (drop 16 key))

pub le_value-take : (n : ℕ) (m : List ℕ) → n ≤ length m → le_value (take n m) ≡ digits n 0 m
unfolding le_value
le_value-take zero m h = refl
le_value-take (suc n) [] h = absurd (omega arith)
le_value-take (suc n) (x ∷ m) h =
    omega (arith, le_value-take n m (omega arith), digits-cons n 0 x m)

-- Five slices of 26 bits under a mask.
slices :
    (x0 x1 x2 x3 x4 : ℕ)
    → x0 < 2 ^ 26
    → x1 < 2 ^ 26
    → x2 < 2 ^ 26
    → x3 < 2 ^ 26
    → bit_and
        (x0 + (x1 + (x2 + (x3 + x4 * 2 ^ 26) * 2 ^ 26) * 2 ^ 26) * 2 ^ 26)
        0x0ffffffc0ffffffc0ffffffc0fffffff
      ≡ bit_and x0 0x3ffffff
        + (bit_and x1 0x3ffff03
            + (bit_and x2 0x3ffc0ff
                + (bit_and x3 0x3f03fff + bit_and x4 0x00fffff * 2 ^ 26) * 2 ^ 26)
              * 2 ^ 26)
          * 2 ^ 26
slices x0 x1 x2 x3 x4 p0 p1 p2 p3 =
    let m4 : ℕ = 0x00fffff in
    let m3 : ℕ = 0x3f03fff + m4 * 2 ^ 26 in
    let m2 : ℕ = 0x3ffc0ff + m3 * 2 ^ 26 in
    let m1 : ℕ = 0x3ffff03 + m2 * 2 ^ 26 in
    let y3 : ℕ = x3 + x4 * 2 ^ 26 in
    let y2 : ℕ = x2 + y3 * 2 ^ 26 in
    let y1 : ℕ = x1 + y2 * 2 ^ 26 in
    omega (
      arith,
      bit_and-parts 26 x0 y1 0x3ffffff m1 p0 (omega arith),
      bit_and-parts 26 x1 y2 0x3ffff03 m2 p1 (omega arith),
      bit_and-parts 26 x2 y3 0x3ffc0ff m3 p2 (omega arith),
      bit_and-parts 26 x3 x4 0x3f03fff m4 p3 (omega arith),
    )

module _ (buffer key : List ℕ) (small : AreBytes key) (long : 32 ≤ length key) where
  abbrev word : ℕ → ℕ
  word i = load32_le key i

  sixteen :
      le_value (take 16 key)
      ≡ word 0 % 2 ^ 26
        + (word 3 / 2 ^ 2 % 2 ^ 26
            + (word 6 / 2 ^ 4 % 2 ^ 26
                + (word 9 / 2 ^ 6 % 2 ^ 26 + word 12 / 2 ^ 8 * 2 ^ 26) * 2 ^ 26)
              * 2 ^ 26)
          * 2 ^ 26
  sixteen = omega (
    arith,
    le_value-take 16 key (omega arith),
    load32_le-bytes key 0 small,
    load32_le-bytes key 3 small,
    load32_le-bytes key 6 small,
    load32_le-bytes key 9 small,
    load32_le-bytes key 12 small,
    small 0,
    small 1,
    small 2,
    small 3,
    small 4,
    small 5,
    small 6,
    small 7,
    small 8,
    small 9,
    small 10,
    small 11,
    small 12,
    small 13,
    small 14,
    small 15,
  )

  pub multiplier-limbs : value (poly1305_init buffer key).r ≡ multiplier key
  unfolding poly1305_init
  multiplier-limbs = omega (
    arith,
    ap (λ t. bit_and t 0x0ffffffc0ffffffc0ffffffc0fffffff) sixteen,
    slices (word 0 % 2 ^ 26) (word 3 / 2 ^ 2 % 2 ^ 26) (word 6 / 2 ^ 4 % 2 ^ 26)
        (word 9 / 2 ^ 6 % 2 ^ 26) (word 12 / 2 ^ 8) (omega arith) (omega arith) (omega arith)
        (omega arith),
    bit_and-low 26 (word 0) 0x3ffffff (omega arith),
    bit_and-low 26 (word 3 / 2 ^ 2) 0x3ffff03 (omega arith),
    bit_and-low 26 (word 6 / 2 ^ 4) 0x3ffc0ff (omega arith),
    bit_and-low 26 (word 9 / 2 ^ 6) 0x3f03fff (omega arith),
  )

  second_half : (i : ℕ) → get_or (drop 16 key) i 0 ≡ get_or key (16 + i) 0
  second_half i = get_or-drop 16 i key

  pub pad-words : pad_value (poly1305_init buffer key).pad ≡ pad_of key
  unfolding poly1305_init
  pad-words = omega (
    arith,
    le_value-take 16 (drop 16 key) (omega (arith, length-drop 16 key)),
    load32_le-bytes key 16 small,
    load32_le-bytes key 20 small,
    load32_le-bytes key 24 small,
    load32_le-bytes key 28 small,
    second_half 0,
    second_half 1,
    second_half 2,
    second_half 3,
    second_half 4,
    second_half 5,
    second_half 6,
    second_half 7,
    second_half 8,
    second_half 9,
    second_half 10,
    second_half 11,
    second_half 12,
    second_half 13,
    second_half 14,
    second_half 15,
  )
