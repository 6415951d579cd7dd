-- ===== src/Simd/Rows/Seen.antt =====
-- Registers seen as rows: a version whose operations act word by word computes the portable block.
use linerate.Base.{ℕ, zero, suc, ◌≡◌, refl, ap, sym, ◌∙◌, bit_xor}
use linerate.Simd.{add32, rotl32}
use linerate.Simd.Chacha.{chacha_block_portable}
use linerate.Simd.Rows.{
  Row, row_map, row_zip, turn1, turn2, turn3, Regs, Lanes, quarter_rows, to_diagonal, to_columns,
  round_rows, rounds_rows, add_rows,
}
use linerate.Simd.Rows.Rounds.{plain, words, regs_bytes, block-rows}

-- Operations that act word by word on what `view` sees of a register.
pub record IsLanes {V : Type 0} (o : Lanes V) (view : V → Row) : Type 0 where
  pub adds : (x y : V) → view (o.add x y) ≡ row_zip add32 (view x) (view y)
  pub xors : (x y : V) → view (o.xor x y) ≡ row_zip bit_xor (view x) (view y)
  pub rotates16 : (x : V) → view (o.rotl16 x) ≡ row_map (λ w. rotl32 w 16) (view x)
  pub rotates12 : (x : V) → view (o.rotl12 x) ≡ row_map (λ w. rotl32 w 12) (view x)
  pub rotates8 : (x : V) → view (o.rotl8 x) ≡ row_map (λ w. rotl32 w 8) (view x)
  pub rotates7 : (x : V) → view (o.rotl7 x) ≡ row_map (λ w. rotl32 w 7) (view x)
  pub downs1 : (x : V) → view (o.down1 x) ≡ turn1 (view x)
  pub downs2 : (x : V) → view (o.down2 x) ≡ turn2 (view x)
  pub downs3 : (x : V) → view (o.down3 x) ≡ turn3 (view x)

module _ {V : Type 0} (o : Lanes V) (view : V → Row) (l : IsLanes o view) where
  abbrev pub seen : Regs V → Regs Row
  seen g = record { a = view g.a; b = view g.b; c = view g.c; d = view g.d }

  quarter_rows-seen : (g : Regs V) → seen (quarter_rows o g) ≡ quarter_rows plain (seen g)
  unfolding quarter_rows
  quarter_rows-seen g = simp (l.adds, l.xors, l.rotates16, l.rotates12, l.rotates8, l.rotates7)

  to_diagonal-seen : (g : Regs V) → seen (to_diagonal o g) ≡ to_diagonal plain (seen g)
  unfolding to_diagonal
  to_diagonal-seen g = simp (l.downs1, l.downs2, l.downs3)

  to_columns-seen : (g : Regs V) → seen (to_columns o g) ≡ to_columns plain (seen g)
  unfolding to_columns
  to_columns-seen g = simp (l.downs1, l.downs2, l.downs3)

  round_rows-seen : (g : Regs V) → seen (round_rows o g) ≡ round_rows plain (seen g)
  unfolding round_rows
  round_rows-seen g =
      to_columns-seen (quarter_rows o (to_diagonal o (quarter_rows o g)))
      ∙ ap (to_columns plain) (
          quarter_rows-seen (to_diagonal o (quarter_rows o g))
          ∙ ap (quarter_rows plain)
              (to_diagonal-seen (quarter_rows o g) ∙ ap (to_diagonal plain) (quarter_rows-seen g)))

  rounds_rows-seen : (n : ℕ) (g : Regs V) → seen (rounds_rows o n g) ≡ rounds_rows plain n (seen g)
  unfolding rounds_rows
  rounds_rows-seen zero g = refl
  rounds_rows-seen (suc n) g =
      rounds_rows-seen n (round_rows o g) ∙ ap (rounds_rows plain n) (round_rows-seen g)

  -- What is seen after ten rounds and the last addition is the block of the state that was seen.
  pub block-seen :
      (g : Regs V)
      → regs_bytes (seen (add_rows o (rounds_rows o 10 g) g))
        ≡ chacha_block_portable (words (seen g))
  unfolding add_rows
  block-seen g =
      ap regs_bytes (simp (l.adds) (ap (λ h. add_rows plain h (seen g)) (rounds_rows-seen 10 g)))
      ∙ sym (block-rows (seen g))
