-- ===== src/Simd/Poly.antt =====
-- Poly1305 of src/core/simd_crypto.c: numbers of 130 bits in five limbs of 26, and a message taken
-- in pieces through a buffer of 16 bytes. The sums of `unsigned long long` wrap at 2^64.
pub mod Turn
pub mod Message
pub mod Absorb
pub mod Update
pub mod Pieces
pub mod Finish
pub mod Mac
pub mod Key
pub mod Rfc
use linerate.Base.{
  ℕ, zero, suc, ◌+◌, ◌-◌, ◌*◌, ◌/◌, ◌%◌, ◌^◌, Bool, true, false, List, [], ◌∷◌, ◌++◌, bit_and,
  bit_or, bit_xor, ltb, ◌==◌, if◌then◌else◌, length, get_or, take, drop, replicate, min,
}
use linerate.Base.Words.{u32}
use linerate.Simd.{add32, shl32, load32_le, store32_le}

abbrev pub u64 : ℕ → ℕ
u64 x = x % 2 ^ 64

-- A `uint32_t[5]`.
pub record Limbs : Type 0 where
  pub l0 : ℕ
  pub l1 : ℕ
  pub l2 : ℕ
  pub l3 : ℕ
  pub l4 : ℕ

pub record Poly1305State : Type 0 where
  pub r : Limbs
  pub h : Limbs
  pub pad : List ℕ
  pub leftover : ℕ
  pub buffer : List ℕ
  pub final : Bool

-- The state before the call holds what memory held: `buffer` stays as it is.
unfoldable pub poly1305_init : List ℕ → List ℕ → Poly1305State
poly1305_init buffer key = record {
  r = record {
    l0 = bit_and (load32_le key 0) 0x3ffffff;
    l1 = bit_and (load32_le key 3 / 2 ^ 2) 0x3ffff03;
    l2 = bit_and (load32_le key 6 / 2 ^ 4) 0x3ffc0ff;
    l3 = bit_and (load32_le key 9 / 2 ^ 6) 0x3f03fff;
    l4 = bit_and (load32_le key 12 / 2 ^ 8) 0x00fffff;
  };
  h = record { l0 = 0; l1 = 0; l2 = 0; l3 = 0; l4 = 0 };
  pad = load32_le key 16 ∷ load32_le key 20 ∷ load32_le key 24 ∷ load32_le key 28 ∷ [];
  leftover = 0;
  buffer = buffer;
  final = false;
}

-- The sums `h0 += ...` to `h4 += ...` of a turn of poly1305_blocks.
unfoldable pub add_block : ℕ → Limbs → List ℕ → Limbs
add_block hibit h m = record {
  l0 = add32 h.l0 (bit_and (load32_le m 0) 0x3ffffff);
  l1 = add32 h.l1 (bit_and (load32_le m 3 / 2 ^ 2) 0x3ffffff);
  l2 = add32 h.l2 (bit_and (load32_le m 6 / 2 ^ 4) 0x3ffffff);
  l3 = add32 h.l3 (bit_and (load32_le m 9 / 2 ^ 6) 0x3ffffff);
  l4 = add32 h.l4 (bit_or (load32_le m 12 / 2 ^ 8) hibit);
}

-- The products d0 to d4.
unfoldable pub products : Limbs → Limbs → Limbs
products r h =
    let s1 = u32 (r.l1 * 5) in
    let s2 = u32 (r.l2 * 5) in
    let s3 = u32 (r.l3 * 5) in
    let s4 = u32 (r.l4 * 5) in
    record {
      l0 = u64 (h.l0 * r.l0 + h.l1 * s4 + h.l2 * s3 + h.l3 * s2 + h.l4 * s1);
      l1 = u64 (h.l0 * r.l1 + h.l1 * r.l0 + h.l2 * s4 + h.l3 * s3 + h.l4 * s2);
      l2 = u64 (h.l0 * r.l2 + h.l1 * r.l1 + h.l2 * r.l0 + h.l3 * s4 + h.l4 * s3);
      l3 = u64 (h.l0 * r.l3 + h.l1 * r.l2 + h.l2 * r.l1 + h.l3 * r.l0 + h.l4 * s4);
      l4 = u64 (h.l0 * r.l4 + h.l1 * r.l3 + h.l2 * r.l2 + h.l3 * r.l1 + h.l4 * r.l0);
    }

-- The carries from one product to the next, and from the last to the first.
unfoldable pub carry : Limbs → Limbs
carry d =
    let d1 = u64 (d.l1 + d.l0 / 2 ^ 26) in
    let d2 = u64 (d.l2 + d1 / 2 ^ 26) in
    let d3 = u64 (d.l3 + d2 / 2 ^ 26) in
    let d4 = u64 (d.l4 + d3 / 2 ^ 26) in
    let h0 = add32 (bit_and (u32 d.l0) 0x3ffffff) (u32 (u64 (d4 / 2 ^ 26 * 5))) in
    record {
      l0 = bit_and h0 0x3ffffff;
      l1 = add32 (bit_and (u32 d1) 0x3ffffff) (h0 / 2 ^ 26);
      l2 = bit_and (u32 d2) 0x3ffffff;
      l3 = bit_and (u32 d3) 0x3ffffff;
      l4 = bit_and (u32 d4) 0x3ffffff;
    }

-- The loop of poly1305_blocks, for the `n` blocks that `bytes` holds.
unfoldable pub blocks_loop : ℕ → ℕ → Limbs → Limbs → List ℕ → Limbs
blocks_loop zero hibit r h m = h
blocks_loop (suc n) hibit r h m =
    blocks_loop n hibit r (carry (products r (add_block hibit h m))) (drop 16 m)

unfoldable pub poly1305_blocks : Poly1305State → List ℕ → Poly1305State
poly1305_blocks st m =
    let hibit = if st.final then 0 else 2 ^ 24 in
    record st { h = blocks_loop (length m / 16) hibit st.r st.h m }

-- memcpy to offset `i` of a buffer that has the room.
unfoldable pub copy_to : ℕ → List ℕ → List ℕ → List ℕ
copy_to i src dst = take i dst ++ (src ++ drop (i + length src) dst)

-- The end of poly1305_update: `if (bytes) { memcpy ... }`.
unfoldable pub keep_rest : Poly1305State → List ℕ → Poly1305State
keep_rest st m =
    if length m == 0
    then st
    else record st { buffer = copy_to st.leftover m st.buffer; leftover = st.leftover + length m }

-- What poly1305_update does once its buffer is empty; `bytes & ~15` are the bytes of whole blocks.
unfoldable pub take_blocks : Poly1305State → List ℕ → Poly1305State
take_blocks st m =
    let want = length m - length m % 16 in
    if ltb (length m) 16
    then keep_rest st m
    else keep_rest (poly1305_blocks st (take want m)) (drop want m)

unfoldable pub poly1305_update : Poly1305State → List ℕ → Poly1305State
poly1305_update st m =
    let want = min (16 - st.leftover) (length m) in
    let filled : Poly1305State = record st {
      buffer = copy_to st.leftover (take want m) st.buffer;
      leftover = st.leftover + want;
    } in
    if st.leftover == 0
    then take_blocks st m
    else if ltb filled.leftover 16
    then filled
    else take_blocks (record (poly1305_blocks filled filled.buffer) { leftover = 0 }) (drop want m)

-- The last block: a byte 1 after what is left, then zeros.
unfoldable pub finish_block : Poly1305State → Poly1305State
finish_block st =
    if st.leftover == 0
    then st
    else let buffer = take st.leftover st.buffer ++ (1 ∷ replicate (15 - st.leftover) 0) in
      poly1305_blocks (record st { buffer = buffer; final = true }) buffer

-- The carries with which poly1305_finish begins.
unfoldable pub carry_all : Limbs → Limbs
carry_all h =
    let h2 = add32 h.l2 (h.l1 / 2 ^ 26) in
    let h3 = add32 h.l3 (h2 / 2 ^ 26) in
    let h4 = add32 h.l4 (h3 / 2 ^ 26) in
    let h0 = add32 h.l0 (u32 (h4 / 2 ^ 26 * 5)) in
    record {
      l0 = bit_and h0 0x3ffffff;
      l1 = add32 (bit_and h.l1 0x3ffffff) (h0 / 2 ^ 26);
      l2 = bit_and h2 0x3ffffff;
      l3 = bit_and h3 0x3ffffff;
      l4 = bit_and h4 0x3ffffff;
    }

-- g0 to g4: the number plus 5, less 2^130. `-` of two `uint32_t` wraps.
unfoldable pub add_five : Limbs → Limbs
add_five h =
    let g0 = add32 h.l0 5 in
    let g1 = add32 h.l1 (g0 / 2 ^ 26) in
    let g2 = add32 h.l2 (g1 / 2 ^ 26) in
    let g3 = add32 h.l3 (g2 / 2 ^ 26) in
    record {
      l0 = bit_and g0 0x3ffffff;
      l1 = bit_and g1 0x3ffffff;
      l2 = bit_and g2 0x3ffffff;
      l3 = bit_and g3 0x3ffffff;
      l4 = u32 (h.l4 + g3 / 2 ^ 26 + 2 ^ 32 - 2 ^ 26);
    }

-- The choice between `h` and `g` by masks, without a branch.
unfoldable pub choose : ℕ → ℕ → ℕ → ℕ
choose mask h g = bit_or (bit_and h (2 ^ 32 - 1 - mask)) (bit_and g mask)

unfoldable pub reduce : Limbs → Limbs
unfolding choose
reduce h =
    let g = add_five h in
    let mask = u32 (g.l4 / 2 ^ 31 + 2 ^ 32 - 1) in
    record {
      l0 = choose mask h.l0 g.l0;
      l1 = choose mask h.l1 g.l1;
      l2 = choose mask h.l2 g.l2;
      l3 = choose mask h.l3 g.l3;
      l4 = choose mask h.l4 g.l4;
    }

-- The low 128 bits as four words, the pad added.
unfoldable pub add_pad : Limbs → List ℕ → List ℕ
add_pad h pad =
    let f0 = bit_or h.l0 (shl32 h.l1 26) + get_or pad 0 0 in
    let f1 = bit_or (h.l1 / 2 ^ 6) (shl32 h.l2 20) + get_or pad 1 0 + f0 / 2 ^ 32 in
    let f2 = bit_or (h.l2 / 2 ^ 12) (shl32 h.l3 14) + get_or pad 2 0 + f1 / 2 ^ 32 in
    let f3 = bit_or (h.l3 / 2 ^ 18) (shl32 h.l4 8) + get_or pad 3 0 + f2 / 2 ^ 32 in
    store32_le (u32 f0) ++ (store32_le (u32 f1) ++ (store32_le (u32 f2) ++ store32_le (u32 f3)))

unfoldable pub poly1305_finish : Poly1305State → List ℕ
poly1305_finish st = let st' = finish_block st in add_pad (reduce (carry_all st'.h)) st'.pad
