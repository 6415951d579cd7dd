-- ===== src/Simd/Aes/Ctr.antt =====
-- AES in counter mode: blocks of 16 bytes of key stream, which undo themselves.
use linerate.Base.{
  ℕ, zero, suc, ◌+◌, ◌*◌, ◌≤◌, ◌≡◌, refl, sym, ap, subst, ◌∙◌, inl, inr, List, [], ◌==◌,
  if◌then◌else◌, Bool-cases, length, get_or, All, length-set, arith,
}
use linerate.Base.Words.{IsByte}
use linerate.Simd.{xor_bytes}
use linerate.Simd.Stream.{
  blocks, xor_loop-blocks, length-xor_loop, xor_loop_twice, length-xor_bytes, xor_bytes-IsByte,
}
use linerate.Simd.Aes.{
  sub_shift, mix_column, mix_columns, rounds, aes256_encrypt_portable, next_counter,
  aes_ctr_portable,
}
use linerate.Simd.Aes.Keys.{AreKeys}

length-sub_shift : (n i : ℕ) (s : List ℕ) → length (sub_shift n i s) ≡ n
unfolding sub_shift
length-sub_shift zero i s = refl
length-sub_shift (suc n) i s = ap suc (length-sub_shift n (i + 1) s)

length-mix_columns : (n c : ℕ) (t : List ℕ) → length (mix_columns n c t) ≡ 4 * n
unfolding mix_columns mix_column
length-mix_columns zero c t = omega arith
length-mix_columns (suc n) c t = omega (arith, length-mix_columns n (c + 1) t)

-- What a round adds its key to.
length-mixed :
    (r : ℕ) (s : List ℕ)
    → length (if r == 14 then sub_shift 16 0 s else mix_columns 4 0 (sub_shift 16 0 s)) ≡ 16
length-mixed r s = elim (Bool-cases (r == 14)) [
  | inl e ↦ rw e (length-sub_shift 16 0 s)
  | inr e ↦ rw e (length-mix_columns 4 0 (sub_shift 16 0 s))
]

rounds-IsByte :
    (n r : ℕ) (rk : List (List ℕ)) (s : List ℕ) → All IsByte s → All IsByte (rounds n r rk s)
unfolding rounds
rounds-IsByte zero r rk s w = w
rounds-IsByte (suc n) r rk s w =
    let t = sub_shift 16 0 s in
    rounds-IsByte n (r + 1) rk _
      (xor_bytes-IsByte (if r == 14 then t else mix_columns 4 0 t) (get_or rk r []))

encrypt-IsByte : (rk : List (List ℕ)) (s : List ℕ) → All IsByte (aes256_encrypt_portable rk s)
unfolding aes256_encrypt_portable
encrypt-IsByte rk s =
    rounds-IsByte 14 1 rk (xor_bytes s (get_or rk 0 [])) (xor_bytes-IsByte s (get_or rk 0 []))

length-rounds :
    (n r : ℕ) (rk : List (List ℕ)) (s : List ℕ)
    → AreKeys rk
    → n + r ≤ 15
    → length s ≡ 16
    → length (rounds n r rk s) ≡ 16
unfolding rounds
length-rounds zero r rk s keys h w = w
length-rounds (suc n) r rk s keys h w =
    let t = if r == 14 then sub_shift 16 0 s else mix_columns 4 0 (sub_shift 16 0 s) in
    let full = length-mixed r s in
    let key = keys r (omega arith) in
    length-rounds n (r + 1) rk (xor_bytes t (get_or rk r [])) keys (omega arith)
      (length-xor_bytes t (get_or rk r []) (omega (arith, full, key)) ∙ full)

-- The cipher takes a block to a block.
length-encrypt :
    (rk : List (List ℕ)) (s : List ℕ)
    → AreKeys rk
    → length s ≡ 16
    → length (aes256_encrypt_portable rk s) ≡ 16
unfolding aes256_encrypt_portable
length-encrypt rk s keys w =
    let key = keys 0 (omega arith) in
    length-rounds 14 1 rk (xor_bytes s (get_or rk 0 [])) keys (omega arith)
      (length-xor_bytes s (get_or rk 0 []) (omega (arith, key)) ∙ w)

-- A counter block has 16 bytes.
abbrev pub IsCounter : List ℕ → Type 0
IsCounter ctr = length ctr ≡ 16

pub next_counter-IsCounter : (ctr : List ℕ) → IsCounter ctr → IsCounter (next_counter ctr)
unfolding next_counter
next_counter-IsCounter ctr w =
    length-set _ 15 _ ∙ length-set _ 14 _ ∙ length-set _ 13 _ ∙ length-set ctr 12 _ ∙ w

pub length-aes_ctr_portable :
    (rk : List (List ℕ)) (ctr xs : List ℕ)
    → AreKeys rk
    → IsCounter ctr
    → length ((aes_ctr_portable rk ctr xs).1) ≡ length xs
unfolding aes_ctr_portable
length-aes_ctr_portable rk ctr xs keys w =
    length-xor_loop 16 (aes256_encrypt_portable rk) next_counter IsCounter (omega arith)
      (λ s h. length-encrypt rk s keys h) next_counter-IsCounter ctr xs w

pub aes_ctr_portable-IsByte :
    (rk : List (List ℕ)) (ctr xs : List ℕ)
    → AreKeys rk
    → IsCounter ctr
    → All IsByte ((aes_ctr_portable rk ctr xs).1)
unfolding aes_ctr_portable
aes_ctr_portable-IsByte rk ctr xs keys w =
    subst (All IsByte)
      (sym (
        xor_loop-blocks 16 (aes256_encrypt_portable rk) next_counter IsCounter (omega arith)
          (λ s h. length-encrypt rk s keys h) next_counter-IsCounter (length xs) (length xs) ctr xs
          w (omega arith) (omega arith)))
      (xor_bytes-IsByte xs (blocks 16 (aes256_encrypt_portable rk) next_counter (length xs) ctr))

-- Under one expanded key and counter block, counter mode applied to its own output gives the message
-- back, for a message of bytes.
pub aes_ctr_portable_twice :
    (rk : List (List ℕ)) (ctr xs : List ℕ)
    → AreKeys rk
    → IsCounter ctr
    → All IsByte xs
    → (aes_ctr_portable rk ctr ((aes_ctr_portable rk ctr xs).1)).1 ≡ xs
unfolding aes_ctr_portable
aes_ctr_portable_twice rk ctr xs keys w small =
    xor_loop_twice 16 (aes256_encrypt_portable rk) next_counter IsCounter (omega arith)
      (λ s h. length-encrypt rk s keys h) next_counter-IsCounter (encrypt-IsByte rk) ctr xs w small
