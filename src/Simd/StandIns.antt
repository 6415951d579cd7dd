-- ===== src/Simd/StandIns.antt =====
-- Stand-ins for the vector instructions, on which the theorems are tried: registers are rows of
-- numbers, cut to words where they are seen.
pub mod Pairs
use native.Mathlib.Nat.{pow-suc, mul-le-mul_right, div-add-mod', mod-lt, one-le-pow, div-le_self}
use linerate.Base.{
  ℕ, zero, suc, ◌+◌, ◌-◌, ◌*◌, ◌/◌, ◌%◌, ◌^◌, ◌≤◌, ◌<◌, ◌≡◌, refl, sym, ap, ap₂, ◌∙◌, inl, inr,
  List, [], ◌∷◌, ◌++◌, get_or, bit_xor, bit_or, arith, ltb, ◌==◌, if◌then◌else◌, Bool-cases, All,
}
use linerate.Base.Words.{byte, u32, IsByte, bit_xor-lt}
use linerate.Simd.{add32, shl32, load32_le, store32_le}
use linerate.Simd.Poly.Turn.{AreBytes}
use linerate.Simd.Rows.{Row, row_map, row_zip, row_at, row_bytes, IsWord, AreWords}
use linerate.Simd.Rows.State.{load32_le-lt}
use linerate.Simd.Neon as Neon
use linerate.Simd.Avx2 as Avx2
use linerate.Simd.Avx2.Laws.{word_of, selected, byte_of, shuffled, row_down, loaded, IsHalf, IsAvx2}

abbrev pub cut : Row → Row
cut = row_map u32

pub cut-AreWords : (r : Row) → AreWords (cut r)
cut-AreWords r = (omega arith, omega arith, omega arith, omega arith)

pub cut_settled : (r : Row) → AreWords r → cut r ≡ r
cut_settled r (h0, h1, h2, h3) =
    let e0 : u32 r.w0 ≡ r.w0 = omega (arith, h0) in
    let e1 : u32 r.w1 ≡ r.w1 = omega (arith, h1) in
    let e2 : u32 r.w2 ≡ r.w2 = omega (arith, h2) in
    let e3 : u32 r.w3 ≡ r.w3 = omega (arith, h3) in
    λ j. record { w0 = e0 j; w1 = e1 j; w2 = e2 j; w3 = e3 j }

-- An operation on words gives words.
pub map_settled :
    (f : ℕ → ℕ) (r : Row)
    → ((x : ℕ) → IsWord x → IsWord (f x))
    → cut (row_map f (cut r)) ≡ row_map f (cut r)
map_settled f r h =
    let (h0, h1, h2, h3) = cut-AreWords r in
    cut_settled (row_map f (cut r)) (h _ h0, h _ h1, h _ h2, h _ h3)

pub zip_settled :
    (f : ℕ → ℕ → ℕ) (r s : Row)
    → ((x y : ℕ) → IsWord x → IsWord y → IsWord (f x y))
    → cut (row_zip f (cut r) (cut s)) ≡ row_zip f (cut r) (cut s)
zip_settled f r s h =
    let (h0, h1, h2, h3) = cut-AreWords r in
    let (k0, k1, k2, k3) = cut-AreWords s in
    cut_settled (row_zip f (cut r) (cut s)) (h _ _ h0 k0, h _ _ h1 k1, h _ _ h2 k2, h _ _ h3 k3)

pow_split : (n m : ℕ) → 2 ^ n * 2 ^ m ≡ 2 ^ (n + m)
pow_split zero m = omega (arith, ap (λ (t : ℕ). 2 ^ t) {x = m} {y = 0 + m} (omega arith))
pow_split (suc n) m = omega (
  arith,
  ap (λ (t : ℕ). t * 2 ^ m) (pow-suc 2 n),
  pow_split n m,
  ap (λ (t : ℕ). 2 ^ t) {x = suc n + m} {y = suc (n + m)} (omega arith),
  pow-suc 2 (n + m),
)

quotient-lt : (a b x : ℕ) → 1 ≤ a → x < b * a → x / a < b
quotient-lt a b x p h = elim (Bool-cases (ltb (x / a) b)) [
  | inl e ↦ ground arith
  | inr e ↦
      let le : b ≤ x / a = ground arith in
      absurd (omega (arith, mul-le-mul_right a le, div-add-mod' x a))
]

inserted-lt :
    (n v w : ℕ)
    → n ≤ 32
    → IsWord v
    → IsWord w
    → IsWord (v / 2 ^ (32 - n) * 2 ^ (32 - n) + w / 2 ^ n)
inserted-lt n v w le p q =
    let a : ℕ = 2 ^ (32 - n) in
    let b : ℕ = 2 ^ n in
    let e : b * a ≡ 2 ^ 32 =
      pow_split n (32 - n) ∙ ap (λ (t : ℕ). 2 ^ t) {x = n + (32 - n)} {y = 32} (omega arith) in
    let high : v / a < b =
      quotient-lt a b v (one-le-pow (32 - n) 2 (omega arith)) (omega (arith, e)) in
    let low : w / b < a = quotient-lt b a w (one-le-pow n 2 (omega arith)) (omega (arith, e)) in
    let up : v / a + 1 ≤ b = omega (arith, high) in omega (arith, mul-le-mul_right a up, e, low)

abbrev pub eight : Row → Row → List ℕ
eight r s = r.w0 ∷ r.w1 ∷ r.w2 ∷ r.w3 ∷ s.w0 ∷ s.w1 ∷ s.w2 ∷ s.w3 ∷ []

abbrev pub neon_rows : Neon.Intrinsics Row
neon_rows = record {
  vld1q_u32 = λ st k. row_at st k;
  vst1q_u32 = λ x. row_bytes (cut x);
  vaddq_u32 = λ x y. row_zip add32 (cut x) (cut y);
  veorq_u32 = λ x y. row_zip bit_xor (cut x) (cut y);
  vshlq_n_u32 = λ x n. row_map (λ w. shl32 w n) (cut x);
  vsriq_n_u32 =
      λ x y n. row_zip (λ v w. v / 2 ^ (32 - n) * 2 ^ (32 - n) + w / 2 ^ n) (cut x) (cut y);
  vextq_u32 = λ x y n. row_at (eight (cut x) (cut y)) n;
}

pub get_or-lt : (b : ℕ) (l : List ℕ) (n : ℕ) → 0 < b → All (λ x. x < b) l → get_or l n 0 < b
get_or-lt b [] n p h = p
get_or-lt b (x ∷ l) zero p h = h.0
get_or-lt b (x ∷ l) (suc n) p h = get_or-lt b l n p h.1

eight-lt : (r s : Row) (n : ℕ) → AreWords r → AreWords s → IsWord (get_or (eight r s) n 0)
eight-lt r s n (h0, h1, h2, h3) (k0, k1, k2, k3) =
    get_or-lt (2 ^ 32) (eight r s) n (omega arith)
      (h0, (h1, (h2, (h3, (k0, (k1, (k2, (k3, tt))))))))

pub word_of-lt : (r : Row) (n : ℕ) → AreWords r → IsWord (word_of r n)
word_of-lt r n (h0, h1, h2, h3) =
    get_or-lt (2 ^ 32) (r.w0 ∷ r.w1 ∷ r.w2 ∷ r.w3 ∷ []) n (omega arith) (h0, (h1, (h2, (h3, tt))))

pub neon_rows-IsNeon : Neon.IsNeon neon_rows cut
neon_rows-IsNeon = record {
  fits = cut-AreWords;
  loads = λ st k h. cut_settled (row_at st k) h;
  stores = λ x. refl;
  adds = λ x y. zip_settled add32 x y (λ v w p q. omega arith);
  xors = λ x y. zip_settled bit_xor x y (bit_xor-lt 32);
  shifts = λ x n h. map_settled (λ w. shl32 w n) x (λ w p. omega arith);
  inserts = λ x y n h. zip_settled _ x y (λ v w p q. inserted-lt n v w h p q);
  extracts = λ x y n h.
      let at = λ (k : ℕ). eight-lt (cut x) (cut y) k (cut-AreWords x) (cut-AreWords y) in
      cut_settled (row_at (eight (cut x) (cut y)) n)
        (at n, at (suc n), at (suc (suc n)), at (suc (suc (suc n))));
}

-- A row that is given by its bytes.
abbrev pub row_by : (ℕ → ℕ) → Row
row_by f = record {
  w0 = f 0 + 2 ^ 8 * f 1 + 2 ^ 16 * f 2 + 2 ^ 24 * f 3;
  w1 = f 4 + 2 ^ 8 * f 5 + 2 ^ 16 * f 6 + 2 ^ 24 * f 7;
  w2 = f 8 + 2 ^ 8 * f 9 + 2 ^ 16 * f 10 + 2 ^ 24 * f 11;
  w3 = f 12 + 2 ^ 8 * f 13 + 2 ^ 16 * f 14 + 2 ^ 24 * f 15;
}

four_bytes :
    (a b c d : ℕ)
    → IsByte a
    → IsByte b
    → IsByte c
    → IsByte d
    → store32_le (a + 2 ^ 8 * b + 2 ^ 16 * c + 2 ^ 24 * d) ≡ a ∷ b ∷ c ∷ d ∷ []
unfolding store32_le
four_bytes a b c d p q r s =
    let x : ℕ = a + 2 ^ 8 * b + 2 ^ 16 * c + 2 ^ 24 * d in
    let e0 : byte x ≡ a = omega (arith, p, q, r, s) in
    let e1 : byte (x / 2 ^ 8) ≡ b = omega (arith, p, q, r, s) in
    let e2 : byte (x / 2 ^ 16) ≡ c = omega (arith, p, q, r, s) in
    let e3 : byte (x / 2 ^ 24) ≡ d = omega (arith, p, q, r, s) in
    λ j. e0 j ∷ e1 j ∷ e2 j ∷ e3 j ∷ []

abbrev sixteen : (ℕ → ℕ) → List ℕ
sixteen f =
    f 0
    ∷ f 1
    ∷ f 2
    ∷ f 3
    ∷ f 4
    ∷ f 5
    ∷ f 6
    ∷ f 7
    ∷ f 8
    ∷ f 9
    ∷ f 10
    ∷ f 11
    ∷ f 12
    ∷ f 13
    ∷ f 14
    ∷ f 15
    ∷ []

row_bytes-row_by : (f : ℕ → ℕ) → ((k : ℕ) → IsByte (f k)) → row_bytes (row_by f) ≡ sixteen f
row_bytes-row_by f h =
    ap₂ (λ a b. a ++ b) (four_bytes (f 0) (f 1) (f 2) (f 3) (h 0) (h 1) (h 2) (h 3))
      (ap₂ (λ a b. a ++ b) (four_bytes (f 4) (f 5) (f 6) (f 7) (h 4) (h 5) (h 6) (h 7))
        (ap₂ (λ a b. a ++ b) (four_bytes (f 8) (f 9) (f 10) (f 11) (h 8) (h 9) (h 10) (h 11))
          (four_bytes (f 12) (f 13) (f 14) (f 15) (h 12) (h 13) (h 14) (h 15))))

get_or-sixteen : (f : ℕ → ℕ) (k : ℕ) → k < 16 → get_or (sixteen f) k 0 ≡ f k
get_or-sixteen f zero h = refl
get_or-sixteen f (suc zero) h = refl
get_or-sixteen f (suc (suc zero)) h = refl
get_or-sixteen f (suc (suc (suc zero))) h = refl
get_or-sixteen f (suc (suc (suc (suc zero)))) h = refl
get_or-sixteen f (suc (suc (suc (suc (suc zero))))) h = refl
get_or-sixteen f (suc (suc (suc (suc (suc (suc zero)))))) h = refl
get_or-sixteen f (suc (suc (suc (suc (suc (suc (suc zero))))))) h = refl
get_or-sixteen f (suc (suc (suc (suc (suc (suc (suc (suc zero)))))))) h = refl
get_or-sixteen f (suc (suc (suc (suc (suc (suc (suc (suc (suc zero))))))))) h = refl
get_or-sixteen f (suc (suc (suc (suc (suc (suc (suc (suc (suc (suc zero)))))))))) h = refl
get_or-sixteen f (suc (suc (suc (suc (suc (suc (suc (suc (suc (suc (suc zero))))))))))) h = refl
get_or-sixteen f (suc (suc (suc (suc (suc (suc (suc (suc (suc (suc (suc (suc zero)))))))))))) h =
    refl
get_or-sixteen f (suc (suc (suc (suc (suc (suc (suc (suc (suc (suc (suc (suc (suc zero)))))))))))))
      h =
    refl
get_or-sixteen f
      (suc (suc (suc (suc (suc (suc (suc (suc (suc (suc (suc (suc (suc (suc zero)))))))))))))) h =
    refl
get_or-sixteen f
      (suc (suc (suc (suc (suc (suc (suc (suc (suc (suc (suc (suc (suc (suc (suc zero)))))))))))))))
      h =
    refl
get_or-sixteen f
      (suc
        (suc (suc (suc (suc (suc (suc (suc (suc (suc (suc (suc (suc (suc (suc (suc k))))))))))))))))
      h =
    absurd (omega arith)

pub byte_of-row_by :
    (f : ℕ → ℕ) (k : ℕ) → ((k : ℕ) → IsByte (f k)) → k < 16 → byte_of (cut (row_by f)) k ≡ f k
byte_of-row_by f k h lt =
    ap (λ r. byte_of r k)
      (cut_settled (row_by f) (
        omega (arith, h 0, h 1, h 2, h 3),
        omega (arith, h 4, h 5, h 6, h 7),
        omega (arith, h 8, h 9, h 10, h 11),
        omega (arith, h 12, h 13, h 14, h 15),
      ))
    ∙ ap (λ l. get_or l k 0) (row_bytes-row_by f h)
    ∙ get_or-sixteen f k lt

row_bytes-IsByte : (r : Row) → All IsByte (row_bytes r)
unfolding store32_le
row_bytes-IsByte r = omega arith

pub byte_of-lt : (r : Row) (k : ℕ) → IsByte (byte_of r k)
byte_of-lt r k = get_or-lt 256 (row_bytes r) k (omega arith) (row_bytes-IsByte r)

pub shuffled-lt : (r : Row) (m : ℕ) → IsByte (shuffled r m)
shuffled-lt r m = elim (Bool-cases (ltb 127 m)) [
  | inl e ↦ rw e (omega arith)
  | inr e ↦ rw e (byte_of-lt r (m % 16))
]
