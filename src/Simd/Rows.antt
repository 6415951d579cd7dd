-- ===== src/Simd/Rows.antt =====
-- The form in which the vector versions of ChaCha20 in src/core/simd_crypto.c compute: a state as
-- four rows of four words, on which the steps of a quarter round act word by word. What both
-- versions write is defined over the operations that each gives it from its own instructions.
pub mod Rounds
pub mod Seen
pub mod State
use linerate.Base.{
  ℕ, zero, suc, ◌*◌, ◌/◌, ◌%◌, ◌^◌, ◌<◌, ◌≡◌, List, [], ◌∷◌, ◌++◌, bit_xor, bit_or, get_or,
}
use linerate.Base.Words.{byte, u32}
use linerate.Simd.{add32, shl32, rotl32, store32_le, load32_le}

-- Four words of 32 bits, in the order of memory.
pub record Row : Type 0 where
  pub w0 : ℕ
  pub w1 : ℕ
  pub w2 : ℕ
  pub w3 : ℕ

abbrev pub row_map : (ℕ → ℕ) → Row → Row
row_map f r = record { w0 = f r.w0; w1 = f r.w1; w2 = f r.w2; w3 = f r.w3 }

abbrev pub row_zip : (ℕ → ℕ → ℕ) → Row → Row → Row
row_zip f r s = record { w0 = f r.w0 s.w0; w1 = f r.w1 s.w1; w2 = f r.w2 s.w2; w3 = f r.w3 s.w3 }

abbrev pub turn1 : Row → Row
turn1 r = record { w0 = r.w1; w1 = r.w2; w2 = r.w3; w3 = r.w0 }

abbrev pub turn2 : Row → Row
turn2 r = turn1 (turn1 r)

abbrev pub turn3 : Row → Row
turn3 r = turn1 (turn2 r)

-- Four words of an array, from position `i` on.
abbrev pub row_at : List ℕ → ℕ → Row
row_at st i = record {
  w0 = get_or st i 0;
  w1 = get_or st (suc i) 0;
  w2 = get_or st (suc (suc i)) 0;
  w3 = get_or st (suc (suc (suc i))) 0;
}

-- The 16 bytes of a row in memory.
abbrev pub row_bytes : Row → List ℕ
row_bytes r = store32_le r.w0 ++ (store32_le r.w1 ++ (store32_le r.w2 ++ store32_le r.w3))

abbrev pub IsWord : ℕ → Type 0
IsWord x = x < 2 ^ 32

abbrev pub AreWords : Row → Type 0
AreWords r = IsWord r.w0 × IsWord r.w1 × IsWord r.w2 × IsWord r.w3

-- The registers `a`, `b`, `c` and `d`.
pub record Regs (V : Type 0) : Type 0 where
  pub a : V
  pub b : V
  pub c : V
  pub d : V

-- What a vector version makes of its instructions: `add` and `xor`, the rotations of each word, and
-- the shuffles that move each word down by one, two or three places.
pub record Lanes (V : Type 0) : Type 0 where
  pub add : V → V → V
  pub xor : V → V → V
  pub rotl16 : V → V
  pub rotl12 : V → V
  pub rotl8 : V → V
  pub rotl7 : V → V
  pub down1 : V → V
  pub down2 : V → V
  pub down3 : V → V

module _ {V : Type 0} (o : Lanes V) where
  -- `a += b; d = rotl(d ^ a, 16); c += d; b = rotl(b ^ c, 12);`, then the same with 8 and 7.
  unfoldable pub quarter_rows : Regs V → Regs V
  quarter_rows g =
      let a1 : V = o.add g.a g.b in
      let d1 : V = o.rotl16 (o.xor g.d a1) in
      let c1 : V = o.add g.c d1 in
      let b1 : V = o.rotl12 (o.xor g.b c1) in
      let a2 : V = o.add a1 b1 in
      let d2 : V = o.rotl8 (o.xor d1 a2) in
      let c2 : V = o.add c1 d2 in
      let b2 : V = o.rotl7 (o.xor b1 c2) in record { a = a2; b = b2; c = c2; d = d2 }

  -- The shuffles before and after the diagonal step.
  unfoldable pub to_diagonal : Regs V → Regs V
  to_diagonal g = record { a = g.a; b = o.down1 g.b; c = o.down2 g.c; d = o.down3 g.d }

  unfoldable pub to_columns : Regs V → Regs V
  to_columns g = record { a = g.a; b = o.down3 g.b; c = o.down2 g.c; d = o.down1 g.d }

  -- The body of the loop.
  unfoldable pub round_rows : Regs V → Regs V
  round_rows g = to_columns (quarter_rows (to_diagonal (quarter_rows g)))

  unfoldable pub rounds_rows : ℕ → Regs V → Regs V
  rounds_rows zero g = g
  rounds_rows (suc n) g = rounds_rows n (round_rows g)

  -- `a + a0` and so on, after the loop.
  unfoldable pub add_rows : Regs V → Regs V → Regs V
  add_rows g g0 = record {
    a = o.add g.a g0.a;
    b = o.add g.b g0.b;
    c = o.add g.c g0.c;
    d = o.add g.d g0.d;
  }
