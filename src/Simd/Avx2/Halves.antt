-- ===== src/Simd/Avx2/Halves.antt =====
-- In each half of a register the operations of the AVX2 version act word by word.
use linerate.Base.{
  ℕ, ◌+◌, ◌-◌, ◌*◌, ◌/◌, ◌^◌, ◌<◌, ◌≡◌, refl, ap, ap₂, ◌∙◌, List, get_or, bit_or, arith, length,
  All, take, ◌++◌, get_or-append_left, get_or-append_right,
}
use linerate.Base.Words.{byte, IsByte}
use linerate.Simd.{shl32, rotl32, store32_le}
use linerate.Simd.Rows.{Row, row_map, row_zip, IsWord}
use linerate.Simd.Rows.State.{rotl32-parts}
use linerate.Simd.Rows.Seen.{IsLanes}
use linerate.Simd.Avx2.{Intrinsics, mask16, mask8, rotl_avx2_16, rotl_avx2_8, avx2_lanes}
use linerate.Simd.Avx2.Laws.{byte_of, shuffled, IsHalf}

-- A word is made of its four bytes.
joined :
    (x : ℕ)
    → IsWord x
    → x
      ≡ byte x + 2 ^ 8 * byte (x / 2 ^ 8) + 2 ^ 16 * byte (x / 2 ^ 16) + 2 ^ 24 * byte (x / 2 ^ 24)
joined x h = omega arith

-- A word whose bytes are those of another moved up by two places, or by one.
moved16 :
    (x y : ℕ)
    → IsWord x
    → IsWord y
    → byte y ≡ byte (x / 2 ^ 16)
    → byte (y / 2 ^ 8) ≡ byte (x / 2 ^ 24)
    → byte (y / 2 ^ 16) ≡ byte x
    → byte (y / 2 ^ 24) ≡ byte (x / 2 ^ 8)
    → y ≡ rotl32 x 16
moved16 x y p q e0 e1 e2 e3 =
    omega (arith, rotl32-parts 16 x (omega arith) (omega arith), joined x p, joined y q)

moved8 :
    (x y : ℕ)
    → IsWord x
    → IsWord y
    → byte y ≡ byte (x / 2 ^ 24)
    → byte (y / 2 ^ 8) ≡ byte x
    → byte (y / 2 ^ 16) ≡ byte (x / 2 ^ 8)
    → byte (y / 2 ^ 24) ≡ byte (x / 2 ^ 16)
    → y ≡ rotl32 x 8
moved8 x y p q e0 e1 e2 e3 =
    omega (arith, rotl32-parts 8 x (omega arith) (omega arith), joined x p, joined y q)

module _ {W H : Type 0} (i : Intrinsics W H) (view : W → Row) (top : ℕ)
    (l : IsHalf i view top) where
  -- The byte that a mask written in the code puts at place `k`.
  masked :
      (x : W) (mask : List ℕ) (k m : ℕ)
      → All IsByte mask
      → k < 16
      → get_or mask (top - k) 0 ≡ m
      → byte_of (view (i.mm256_shuffle_epi8 x (i.mm256_set_epi8 mask))) k ≡ shuffled (view x) m
  masked x mask k m small lt e =
      l.shuffles8 x (i.mm256_set_epi8 mask) k lt
      ∙ ap (shuffled (view x)) (l.sets8 mask k small lt ∙ e)

  rotl_avx2-row :
      (x : W) (n m : ℕ)
      → n < 32
      → m < 32
      → view (i.mm256_or_si256 (i.mm256_slli_epi32 x n) (i.mm256_srli_epi32 x m))
        ≡ row_map (λ w. bit_or (shl32 w n) (w / 2 ^ m)) (view x)
  rotl_avx2-row x n m p q =
      l.ors (i.mm256_slli_epi32 x n) (i.mm256_srli_epi32 x m)
      ∙ ap₂ (row_zip bit_or) (l.shifts_left x n p) (l.shifts_right x m q)

  module _
      (half16 : (k : ℕ) → k < 16 → get_or mask16 (top - k) 0 ≡ get_or (take 16 mask16) (15 - k) 0)
      (half8 : (k : ℕ)
        → k < 16
        → get_or mask8 (top - k) 0 ≡ get_or (take 16 mask8) (15 - k) 0) where
    rotl_avx2_16-row : (x : W) → view (rotl_avx2_16 i x) ≡ row_map (λ w. rotl32 w 16) (view x)
    unfolding store32_le
    rotl_avx2_16-row x =
        let r : Row = view x in
        let s : Row = view (rotl_avx2_16 i x) in
        let (p0, p1, p2, p3) = l.fits x in
        let (q0, q1, q2, q3) = l.fits (rotl_avx2_16 i x) in
        let at : (k : ℕ) → k < 16 → byte_of s k ≡ shuffled r (get_or (take 16 mask16) (15 - k) 0) =
          λ k lt. masked x mask16 k _ (omega arith) lt (half16 k lt) in
        let e0 : s.w0 ≡ rotl32 r.w0 16 =
          moved16 r.w0 s.w0 p0 q0 (at 0 (omega arith)) (at 1 (omega arith)) (at 2 (omega arith))
            (at 3 (omega arith)) in
        let e1 : s.w1 ≡ rotl32 r.w1 16 =
          moved16 r.w1 s.w1 p1 q1 (at 4 (omega arith)) (at 5 (omega arith)) (at 6 (omega arith))
            (at 7 (omega arith)) in
        let e2 : s.w2 ≡ rotl32 r.w2 16 =
          moved16 r.w2 s.w2 p2 q2 (at 8 (omega arith)) (at 9 (omega arith)) (at 10 (omega arith))
            (at 11 (omega arith)) in
        let e3 : s.w3 ≡ rotl32 r.w3 16 =
          moved16 r.w3 s.w3 p3 q3 (at 12 (omega arith)) (at 13 (omega arith)) (at 14 (omega arith))
            (at 15 (omega arith)) in
        λ j. record { w0 = e0 j; w1 = e1 j; w2 = e2 j; w3 = e3 j }

    rotl_avx2_8-row : (x : W) → view (rotl_avx2_8 i x) ≡ row_map (λ w. rotl32 w 8) (view x)
    unfolding store32_le
    rotl_avx2_8-row x =
        let r : Row = view x in
        let s : Row = view (rotl_avx2_8 i x) in
        let (p0, p1, p2, p3) = l.fits x in
        let (q0, q1, q2, q3) = l.fits (rotl_avx2_8 i x) in
        let at : (k : ℕ) → k < 16 → byte_of s k ≡ shuffled r (get_or (take 16 mask8) (15 - k) 0) =
          λ k lt. masked x mask8 k _ (omega arith) lt (half8 k lt) in
        let e0 : s.w0 ≡ rotl32 r.w0 8 =
          moved8 r.w0 s.w0 p0 q0 (at 0 (omega arith)) (at 1 (omega arith)) (at 2 (omega arith))
            (at 3 (omega arith)) in
        let e1 : s.w1 ≡ rotl32 r.w1 8 =
          moved8 r.w1 s.w1 p1 q1 (at 4 (omega arith)) (at 5 (omega arith)) (at 6 (omega arith))
            (at 7 (omega arith)) in
        let e2 : s.w2 ≡ rotl32 r.w2 8 =
          moved8 r.w2 s.w2 p2 q2 (at 8 (omega arith)) (at 9 (omega arith)) (at 10 (omega arith))
            (at 11 (omega arith)) in
        let e3 : s.w3 ≡ rotl32 r.w3 8 =
          moved8 r.w3 s.w3 p3 q3 (at 12 (omega arith)) (at 13 (omega arith)) (at 14 (omega arith))
            (at 15 (omega arith)) in
        λ j. record { w0 = e0 j; w1 = e1 j; w2 = e2 j; w3 = e3 j }

    half-IsLanes : IsLanes (avx2_lanes i) view
    unfolding rotl32
    half-IsLanes = record {
      adds = l.adds;
      xors = l.xors;
      rotates16 = rotl_avx2_16-row;
      rotates12 = λ x. rotl_avx2-row x 12 20 (omega arith) (omega arith);
      rotates8 = rotl_avx2_8-row;
      rotates7 = λ x. rotl_avx2-row x 7 25 (omega arith) (omega arith);
      downs1 = λ x. l.shuffles x 0x39 (omega arith);
      downs2 = λ x. l.shuffles x 0x4e (omega arith);
      downs3 = λ x. l.shuffles x 0x93 (omega arith);
    }

-- A mask repeats its 16 operands.
high_half :
    (h : List ℕ) (k : ℕ) → length h ≡ 16 → k < 16 → get_or (h ++ h) (31 - k) 0 ≡ get_or h (15 - k) 0
high_half h k e lt =
    ap (λ n. get_or (h ++ h) n 0) {x = 31 - k} {y = length h + (15 - k)} (omega arith)
    ∙ get_or-append_right h h (15 - k) 0

module _ {W H : Type 0} (i : Intrinsics W H) (view : W → Row) where
  pub low-IsLanes : IsHalf i view 31 → IsLanes (avx2_lanes i) view
  low-IsLanes l =
      half-IsLanes i view 31 l (λ k. high_half (take 16 mask16) k refl)
        (λ k. high_half (take 16 mask8) k refl)

  pub high-IsLanes : IsHalf i view 15 → IsLanes (avx2_lanes i) view
  high-IsLanes l =
      half-IsLanes i view 15 l
        (λ k lt. get_or-append_left (take 16 mask16) (take 16 mask16) (15 - k) 0 (omega arith))
        (λ k lt. get_or-append_left (take 16 mask8) (take 16 mask8) (15 - k) 0 (omega arith))
