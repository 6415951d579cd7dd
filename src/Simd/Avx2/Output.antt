-- ===== src/Simd/Avx2/Output.antt =====
-- The loop of the AVX2 version that stores: words combined with words are bytes combined with bytes.
use linerate.Base.{
  ℕ, suc, zero, ◌+◌, ◌*◌, ◌/◌, ◌^◌, ◌≤◌, ◌<◌, ◌≡◌, refl, sym, ap, ap₂, ◌∙◌, List, [], ◌∷◌, ◌++◌,
  get_or, bit_xor, arith, length, drop, append_assoc,
}
use linerate.Base.Words.{byte, bit_xor-parts, bit_xor-lt}
use linerate.Simd.{store32_le, load32_le, xor_bytes}
use linerate.Simd.Poly.Turn.{AreBytes, load32_le-bytes}
use linerate.Simd.Rows.{Row, row_zip, row_bytes, IsWord, AreWords}
use linerate.Simd.Avx2.{Intrinsics, xor_out}
use linerate.Simd.Avx2.Laws.{loaded, IsAvx2}

xor_word :
    (x0 x1 x2 x3 w : ℕ)
    → x0 < 256
    → x1 < 256
    → x2 < 256
    → x3 < 256
    → IsWord w
    → store32_le (bit_xor (x0 + 2 ^ 8 * x1 + 2 ^ 16 * x2 + 2 ^ 24 * x3) w)
      ≡ xor_bytes (x0 ∷ x1 ∷ x2 ∷ x3 ∷ []) (store32_le w)
unfolding store32_le
xor_word x0 x1 x2 x3 w p0 p1 p2 p3 h =
    let w0 : ℕ = byte w in
    let w1 : ℕ = byte (w / 2 ^ 8) in
    let w2 : ℕ = byte (w / 2 ^ 16) in
    let w3 : ℕ = byte (w / 2 ^ 24) in
    let y0 : ℕ = bit_xor x0 w0 in
    let y1 : ℕ = bit_xor x1 w1 in
    let y2 : ℕ = bit_xor x2 w2 in
    let y3 : ℕ = bit_xor x3 w3 in
    let q0 : y0 < 256 = bit_xor-lt 8 x0 w0 p0 (omega arith) in
    let q1 : y1 < 256 = bit_xor-lt 8 x1 w1 p1 (omega arith) in
    let q2 : y2 < 256 = bit_xor-lt 8 x2 w2 p2 (omega arith) in
    let q3 : y3 < 256 = bit_xor-lt 8 x3 w3 p3 (omega arith) in
    let v : ℕ = bit_xor (x0 + 2 ^ 8 * x1 + 2 ^ 16 * x2 + 2 ^ 24 * x3) w in
    let e : v ≡ y0 + (y1 + (y2 + y3 * 2 ^ 8) * 2 ^ 8) * 2 ^ 8 =
      ap₂ bit_xor {x = x0 + 2 ^ 8 * x1 + 2 ^ 16 * x2 + 2 ^ 24 * x3}
        {y = x0 + (x1 + (x2 + x3 * 2 ^ 8) * 2 ^ 8) * 2 ^ 8} {u = w}
        {v = w0 + (w1 + (w2 + w3 * 2 ^ 8) * 2 ^ 8) * 2 ^ 8} (omega arith) (omega arith)
      ∙ bit_xor-parts 8 x0 (x1 + (x2 + x3 * 2 ^ 8) * 2 ^ 8) w0 (w1 + (w2 + w3 * 2 ^ 8) * 2 ^ 8) p0
          (omega arith)
      ∙ ap (λ t. y0 + t * 2 ^ 8)
          (bit_xor-parts 8 x1 (x2 + x3 * 2 ^ 8) w1 (w2 + w3 * 2 ^ 8) p1 (omega arith)
            ∙ ap (λ t. y1 + t * 2 ^ 8) (bit_xor-parts 8 x2 x3 w2 w3 p2 (omega arith))) in
    let e0 : byte v ≡ byte y0 = omega (arith, e, q0) in
    let e1 : byte (v / 2 ^ 8) ≡ byte y1 = omega (arith, e, q0, q1) in
    let e2 : byte (v / 2 ^ 16) ≡ byte y2 = omega (arith, e, q0, q1, q2) in
    let e3 : byte (v / 2 ^ 24) ≡ byte y3 = omega (arith, e, q0, q1, q2, q3) in
    λ j. e0 j ∷ e1 j ∷ e2 j ∷ e3 j ∷ []

drop-suc : (xs : List ℕ) (k : ℕ) → k < length xs → drop k xs ≡ get_or xs k 0 ∷ drop (suc k) xs
drop-suc [] k h = absurd (omega arith)
drop-suc (x ∷ xs) zero h = refl
drop-suc (x ∷ xs) (suc k) h = drop-suc xs k (omega arith)

drop-get :
    (xs : List ℕ) (k m : ℕ) → k < length xs → m ≡ k + 1 → drop k xs ≡ get_or xs k 0 ∷ drop m xs
drop-get xs k m h e =
    drop-suc xs k h ∙ ap (λ n. get_or xs k 0 ∷ drop n xs) {x = suc k} {y = m} (omega (arith, e))

four_bytes :
    (xs : List ℕ) (k : ℕ)
    → k + 4 ≤ length xs
    → drop k xs
      ≡ get_or xs k 0
        ∷ get_or xs (k + 1) 0
        ∷ get_or xs (k + 2) 0
        ∷ get_or xs (k + 3) 0
        ∷ drop (k + 4) xs
four_bytes xs k h =
    let e0 = drop-get xs k (k + 1) (omega arith) (omega arith) in
    let e1 = drop-get xs (k + 1) (k + 2) (omega arith) (omega arith) in
    let e2 = drop-get xs (k + 2) (k + 3) (omega arith) (omega arith) in
    let e3 = drop-get xs (k + 3) (k + 4) (omega arith) (omega arith) in
    e0
    ∙ ap (λ l. get_or xs k 0 ∷ l)
        (e1 ∙ ap (λ l. get_or xs (k + 1) 0 ∷ l) (e2 ∙ ap (λ l. get_or xs (k + 2) 0 ∷ l) e3))

-- A word of the input, combined with a word of the key stream.
xor_load :
    (xs rest : List ℕ) (k w : ℕ)
    → k + 4 ≤ length xs
    → AreBytes xs
    → IsWord w
    → xor_bytes (drop k xs) (store32_le w ++ rest)
      ≡ store32_le (bit_xor (load32_le xs k) w) ++ xor_bytes (drop (k + 4) xs) rest
unfolding store32_le
xor_load xs rest k w room small h =
    ap (λ l. xor_bytes l (store32_le w ++ rest)) (four_bytes xs k room)
    ∙ ap (λ l. l ++ xor_bytes (drop (k + 4) xs) rest)
        (sym (
          ap (λ t. store32_le (bit_xor t w)) (load32_le-bytes xs k small)
          ∙ xor_word (get_or xs k 0) (get_or xs (k + 1) 0) (get_or xs (k + 2) 0)
              (get_or xs (k + 3) 0) w (small k) (small (k + 1)) (small (k + 2)) (small (k + 3)) h))

xor_row :
    (xs rest : List ℕ) (k : ℕ) (r : Row)
    → k + 16 ≤ length xs
    → AreBytes xs
    → AreWords r
    → xor_bytes (drop k xs) (row_bytes r ++ rest)
      ≡ row_bytes (row_zip bit_xor (loaded xs k) r) ++ xor_bytes (drop (k + 16) xs) rest
xor_row xs rest k r room small (h0, h1, h2, h3) =
    let v0 = store32_le (bit_xor (load32_le xs k) r.w0) in
    let v1 = store32_le (bit_xor (load32_le xs (k + 4)) r.w1) in
    let v2 = store32_le (bit_xor (load32_le xs (k + 8)) r.w2) in
    ap (xor_bytes (drop k xs)) (row_bytes_append r rest)
    ∙ xor_load xs _ k r.w0 (omega arith) small h0
    ∙ ap (λ l. v0 ++ l)
        (xor_load_at xs _ (k + 4) (k + 8) r.w1 (omega arith) (omega arith) small h1
          ∙ ap (λ l. v1 ++ l)
              (xor_load_at xs _ (k + 8) (k + 12) r.w2 (omega arith) (omega arith) small h2
                ∙ ap (λ l. v2 ++ l)
                    (xor_load_at xs rest (k + 12) (k + 16) r.w3 (omega arith) (omega arith) small
                      h3)))
    ∙ sym (row_bytes_append (row_zip bit_xor (loaded xs k) r) (xor_bytes (drop (k + 16) xs) rest))
  where
    row_bytes_append :
        (r : Row) (rest : List ℕ)
        → row_bytes r ++ rest
          ≡ store32_le r.w0 ++ (store32_le r.w1 ++ (store32_le r.w2 ++ (store32_le r.w3 ++ rest)))
    row_bytes_append r rest = simp append_assoc

    xor_load_at :
        (xs rest : List ℕ) (k m w : ℕ)
        → m ≡ k + 4
        → k + 4 ≤ length xs
        → AreBytes xs
        → IsWord w
        → xor_bytes (drop k xs) (store32_le w ++ rest)
          ≡ store32_le (bit_xor (load32_le xs k) w) ++ xor_bytes (drop m xs) rest
    xor_load_at xs rest k m w e room small h =
        xor_load xs rest k w room small h
        ∙ ap (λ n. store32_le (bit_xor (load32_le xs k) w) ++ xor_bytes (drop n xs) rest)
            {x = k + 4} {y = m} (omega (arith, e))

xor_bytes-nil : (ys : List ℕ) → xor_bytes ys [] ≡ []
xor_bytes-nil [] = refl
xor_bytes-nil (y ∷ ys) = refl

module _ {W H : Type 0} (i : Intrinsics W H) (lo hi : W → Row) (row : H → Row)
    (l : IsAvx2 i lo hi row) where
  -- The bytes of registers in memory.
  abbrev pub stored : List W → List ℕ
  stored [] = []
  stored (o ∷ os) = row_bytes (lo o) ++ (row_bytes (hi o) ++ stored os)

  store-xor :
      (xs : List ℕ) (k : ℕ) (o : W)
      → AreBytes xs
      → i.mm256_storeu_si256 (i.mm256_xor_si256 (i.mm256_loadu_si256 xs k) o)
        ≡ row_bytes (row_zip bit_xor (loaded xs k) (lo o))
          ++ row_bytes (row_zip bit_xor (loaded xs (k + 16)) (hi o))
  store-xor xs k o small =
      let x = i.mm256_loadu_si256 xs k in
      let (e, f) = l.loads xs k small in
      l.stores (i.mm256_xor_si256 x o)
      ∙ ap₂ (λ r s. row_bytes r ++ row_bytes s)
          (l.low.xors x o ∙ ap (λ r. row_zip bit_xor r (lo o)) e)
          (l.high.xors x o ∙ ap (λ r. row_zip bit_xor r (hi o)) f)

  -- What is stored is the input combined with the registers, byte by byte.
  pub xor_out-bytes :
      (xs : List ℕ) (k : ℕ) (os : List W)
      → AreBytes xs
      → k + 32 * length os ≤ length xs
      → xor_out i k os xs ≡ xor_bytes (drop k xs) (stored os)
  unfolding xor_out
  xor_out-bytes xs k [] small room = sym (xor_bytes-nil (drop k xs))
  xor_out-bytes xs k (o ∷ os) small room =
      let a = row_bytes (row_zip bit_xor (loaded xs k) (lo o)) in
      let b = row_bytes (row_zip bit_xor (loaded xs (k + 16)) (hi o)) in
      ap₂ (λ p q. p ++ q) (store-xor xs k o small)
        (xor_out-bytes xs (k + 32) os small (omega arith))
      ∙ append_assoc a b (xor_bytes (drop (k + 32) xs) (stored os))
      ∙ ap (λ q. a ++ q)
          (ap (λ n. b ++ xor_bytes (drop n xs) (stored os)) {x = k + 32} {y = k + 16 + 16}
              (omega arith)
            ∙ sym (xor_row xs (stored os) (k + 16) (hi o) (omega arith) small (l.high.fits o)))
      ∙ sym (xor_row xs (row_bytes (hi o) ++ stored os) k (lo o) (omega arith) small (l.low.fits o))
