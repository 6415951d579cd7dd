-- ===== src/Simd/Rows/Rounds.antt =====
-- A round on rows is a double round of the portable version.
use linerate.Base.{ℕ, zero, suc, ◌≡◌, refl, ap, sym, ◌∙◌, List, [], ◌∷◌, ◌++◌, bit_xor}
use linerate.Simd.{add32, rotl32, store32_le}
use linerate.Simd.Chacha.{
  mix, quarter_round, double_round, double_rounds, add_store, chacha_block_portable,
}
use linerate.Simd.Rows.{
  Row, row_map, row_zip, turn1, turn2, turn3, row_bytes, Regs, Lanes, quarter_rows, to_diagonal,
  to_columns, round_rows, rounds_rows, add_rows,
}

-- Rows as registers, word by word.
abbrev pub plain : Lanes Row
plain = record {
  add = row_zip add32;
  xor = row_zip bit_xor;
  rotl16 = row_map (λ x. rotl32 x 16);
  rotl12 = row_map (λ x. rotl32 x 12);
  rotl8 = row_map (λ x. rotl32 x 8);
  rotl7 = row_map (λ x. rotl32 x 7);
  down1 = turn1;
  down2 = turn2;
  down3 = turn3;
}

pub record Quad : Type 0 where
  pub a : ℕ
  pub b : ℕ
  pub c : ℕ
  pub d : ℕ

-- The quarter round of four words.
quarter : ℕ → ℕ → ℕ → ℕ → Quad
quarter a b c d =
    let a1 = add32 a b in
    let d1 = rotl32 (bit_xor d a1) 16 in
    let c1 = add32 c d1 in
    let b1 = rotl32 (bit_xor b c1) 12 in
    let a2 = add32 a1 b1 in
    let d2 = rotl32 (bit_xor d1 a2) 8 in
    let c2 = add32 c1 d2 in
    let b2 = rotl32 (bit_xor b1 c2) 7 in record { a = a2; b = b2; c = c2; d = d2 }

-- The sixteen words of a state.
abbrev pub words : Regs Row → List ℕ
words g =
    g.a.w0 ∷ g.a.w1 ∷ g.a.w2 ∷ g.a.w3 ∷ g.b.w0 ∷ g.b.w1 ∷ g.b.w2 ∷ g.b.w3 ∷ g.c.w0 ∷ g.c.w1 ∷ g.c.w2
    ∷ g.c.w3 ∷ g.d.w0 ∷ g.d.w1 ∷ g.d.w2 ∷ g.d.w3 ∷ []

module _ (a0 a1 a2 a3 b0 b1 b2 b3 c0 c1 c2 c3 d0 d1 d2 d3 : ℕ) where
  abbrev state : List ℕ
  state = a0 ∷ a1 ∷ a2 ∷ a3 ∷ b0 ∷ b1 ∷ b2 ∷ b3 ∷ c0 ∷ c1 ∷ c2 ∷ c3 ∷ d0 ∷ d1 ∷ d2 ∷ d3 ∷ []

  column0 :
      let q : Quad = quarter a0 b0 c0 d0 in
      quarter_round 0 4 8 12 state
      ≡ q.a ∷ a1 ∷ a2 ∷ a3 ∷ q.b ∷ b1 ∷ b2 ∷ b3 ∷ q.c ∷ c1 ∷ c2 ∷ c3 ∷ q.d ∷ d1 ∷ d2 ∷ d3 ∷ []
  unfolding quarter_round mix quarter
  column0 = refl

  column1 :
      let q : Quad = quarter a1 b1 c1 d1 in
      quarter_round 1 5 9 13 state
      ≡ a0 ∷ q.a ∷ a2 ∷ a3 ∷ b0 ∷ q.b ∷ b2 ∷ b3 ∷ c0 ∷ q.c ∷ c2 ∷ c3 ∷ d0 ∷ q.d ∷ d2 ∷ d3 ∷ []
  unfolding quarter_round mix quarter
  column1 = refl

  column2 :
      let q : Quad = quarter a2 b2 c2 d2 in
      quarter_round 2 6 10 14 state
      ≡ a0 ∷ a1 ∷ q.a ∷ a3 ∷ b0 ∷ b1 ∷ q.b ∷ b3 ∷ c0 ∷ c1 ∷ q.c ∷ c3 ∷ d0 ∷ d1 ∷ q.d ∷ d3 ∷ []
  unfolding quarter_round mix quarter
  column2 = refl

  column3 :
      let q : Quad = quarter a3 b3 c3 d3 in
      quarter_round 3 7 11 15 state
      ≡ a0 ∷ a1 ∷ a2 ∷ q.a ∷ b0 ∷ b1 ∷ b2 ∷ q.b ∷ c0 ∷ c1 ∷ c2 ∷ q.c ∷ d0 ∷ d1 ∷ d2 ∷ q.d ∷ []
  unfolding quarter_round mix quarter
  column3 = refl

  diagonal0 :
      let q : Quad = quarter a0 b1 c2 d3 in
      quarter_round 0 5 10 15 state
      ≡ q.a ∷ a1 ∷ a2 ∷ a3 ∷ b0 ∷ q.b ∷ b2 ∷ b3 ∷ c0 ∷ c1 ∷ q.c ∷ c3 ∷ d0 ∷ d1 ∷ d2 ∷ q.d ∷ []
  unfolding quarter_round mix quarter
  diagonal0 = refl

  diagonal1 :
      let q : Quad = quarter a1 b2 c3 d0 in
      quarter_round 1 6 11 12 state
      ≡ a0 ∷ q.a ∷ a2 ∷ a3 ∷ b0 ∷ b1 ∷ q.b ∷ b3 ∷ c0 ∷ c1 ∷ c2 ∷ q.c ∷ q.d ∷ d1 ∷ d2 ∷ d3 ∷ []
  unfolding quarter_round mix quarter
  diagonal1 = refl

  diagonal2 :
      let q : Quad = quarter a2 b3 c0 d1 in
      quarter_round 2 7 8 13 state
      ≡ a0 ∷ a1 ∷ q.a ∷ a3 ∷ b0 ∷ b1 ∷ b2 ∷ q.b ∷ q.c ∷ c1 ∷ c2 ∷ c3 ∷ d0 ∷ q.d ∷ d2 ∷ d3 ∷ []
  unfolding quarter_round mix quarter
  diagonal2 = refl

  diagonal3 :
      let q : Quad = quarter a3 b0 c1 d2 in
      quarter_round 3 4 9 14 state
      ≡ a0 ∷ a1 ∷ a2 ∷ q.a ∷ q.b ∷ b1 ∷ b2 ∷ b3 ∷ c0 ∷ q.c ∷ c2 ∷ c3 ∷ d0 ∷ d1 ∷ q.d ∷ d3 ∷ []
  unfolding quarter_round mix quarter
  diagonal3 = refl

-- The same on rows: a quarter round in each place.
abbrev quads : Regs Row → Regs Row
quads g =
    let q0 : Quad = quarter g.a.w0 g.b.w0 g.c.w0 g.d.w0 in
    let q1 : Quad = quarter g.a.w1 g.b.w1 g.c.w1 g.d.w1 in
    let q2 : Quad = quarter g.a.w2 g.b.w2 g.c.w2 g.d.w2 in
    let q3 : Quad = quarter g.a.w3 g.b.w3 g.c.w3 g.d.w3 in
    record {
      a = record { w0 = q0.a; w1 = q1.a; w2 = q2.a; w3 = q3.a };
      b = record { w0 = q0.b; w1 = q1.b; w2 = q2.b; w3 = q3.b };
      c = record { w0 = q0.c; w1 = q1.c; w2 = q2.c; w3 = q3.c };
      d = record { w0 = q0.d; w1 = q1.d; w2 = q2.d; w3 = q3.d };
    }

quarter_rows-quads : (g : Regs Row) → quarter_rows plain g ≡ quads g
unfolding quarter_rows quarter
quarter_rows-quads g = refl

columns_done :
    (g : Regs Row)
    → quarter_round 3 7 11 15
        (quarter_round 2 6 10 14 (quarter_round 1 5 9 13 (quarter_round 0 4 8 12 (words g))))
      ≡ words (quads g)
columns_done g = simp (column0, column1, column2, column3)

diagonals_done :
    (g : Regs Row)
    → quarter_round 3 4 9 14
        (quarter_round 2 7 8 13 (quarter_round 1 6 11 12 (quarter_round 0 5 10 15 (words g))))
      ≡ words (to_columns plain (quads (to_diagonal plain g)))
unfolding to_columns to_diagonal
diagonals_done g = simp (diagonal0, diagonal1, diagonal2, diagonal3)

double_round-words : (g : Regs Row) → double_round (words g) ≡ words (round_rows plain g)
unfolding double_round round_rows
double_round-words g =
    ap
      (λ x.
        quarter_round 3 4 9 14
          (quarter_round 2 7 8 13 (quarter_round 1 6 11 12 (quarter_round 0 5 10 15 x))))
      (columns_done g)
    ∙ diagonals_done (quads g)
    ∙ ap (λ h. words (to_columns plain h))
        (sym (quarter_rows-quads (to_diagonal plain (quads g)))
          ∙ ap (λ h. quarter_rows plain (to_diagonal plain h)) (sym (quarter_rows-quads g)))

double_rounds-words :
    (n : ℕ) (g : Regs Row) → double_rounds n (words g) ≡ words (rounds_rows plain n g)
unfolding double_rounds rounds_rows
double_rounds-words zero g = refl
double_rounds-words (suc n) g =
    ap (double_rounds n) (double_round-words g) ∙ double_rounds-words n (round_rows plain g)

-- The bytes of the four rows.
abbrev pub regs_bytes : Regs Row → List ℕ
regs_bytes g = row_bytes g.a ++ (row_bytes g.b ++ (row_bytes g.c ++ row_bytes g.d))

-- The block of a state is computed row by row.
pub block-rows :
    (g : Regs Row)
    → chacha_block_portable (words g) ≡ regs_bytes (add_rows plain (rounds_rows plain 10 g) g)
unfolding chacha_block_portable add_rows add_store store32_le
block-rows g = ap (λ x. add_store x (words g)) (double_rounds-words 10 g)
