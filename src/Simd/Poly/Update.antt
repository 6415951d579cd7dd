-- ===== src/Simd/Poly/Update.antt =====
-- poly1305_update takes a piece of the message into the state, whatever is in the buffer.
use linerate.Base.{
  ℕ, ◌+◌, ◌-◌, ◌*◌, ◌/◌, ◌%◌, ◌≤◌, ◌<◌, ◌≡◌, refl, sym, ap, subst, ◌∙◌, inl, inr, List, [], ◌++◌,
  length, take, drop, min, ltb, ◌==◌, Bool-cases, append_assoc, append-nil, no_elements,
  length-append, length-drop, take-drop, take_all, length-take, take-append, take-split, arith,
}
use linerate.Simd.Poly.{
  Poly1305State, poly1305_blocks, copy_to, keep_rest, take_blocks, poly1305_update,
}
use linerate.Simd.Poly.Turn.{AreBytes}
use linerate.Simd.Poly.Message.{AreBytes-drop}
use linerate.Simd.Poly.Absorb.{Holds, blocks-Holds, AreBytes-take, AreBytes-append}

module _ (i : ℕ) (src dst : List ℕ) (fits : i + length src ≤ length dst) where
  length-front : length (take i dst) ≡ i
  length-front = omega (arith, length-take i dst)

  length-copy_to : length (copy_to i src dst) ≡ length dst
  unfolding copy_to
  length-copy_to = omega (
    arith,
    length-append (take i dst) (src ++ drop (i + length src) dst),
    length-append src (drop (i + length src) dst),
    length-drop (i + length src) dst,
    length-front,
  )

  take-copy_to : take (i + length src) (copy_to i src dst) ≡ take i dst ++ src
  unfolding copy_to
  take-copy_to =
      ap (λ k. take k (copy_to i src dst)) {x = i + length src}
        {y = length (take i dst) + length src} (omega (arith, length-front))
      ∙ take-split (take i dst) (src ++ drop (i + length src) dst) (length src)
      ∙ ap (λ l. take i dst ++ l) (take-append src (drop (i + length src) dst))

module _ (st : Poly1305State) (n : ℕ) (done rest m : List ℕ) (holds : Holds st n done rest)
    (fits : st.leftover + length m ≤ 16) where
  -- The state after memcpy into the buffer.
  abbrev filled : Poly1305State
  filled = record st { buffer = copy_to st.leftover m st.buffer; leftover = st.leftover + length m }

  filled-length : length filled.buffer ≡ 16
  filled-length = length-copy_to st.leftover m st.buffer (omega (arith, holds.room)) ∙ holds.room

  filled-take : take (st.leftover + length m) filled.buffer ≡ rest ++ m
  filled-take =
      take-copy_to st.leftover m st.buffer (omega (arith, holds.room)) ∙ ap (λ l. l ++ m) holds.kept

  filled-Holds : st.leftover + length m < 16 → Holds filled n done (rest ++ m)
  filled-Holds short = record {
    key = holds.key;
    limbs = holds.limbs;
    open_end = holds.open_end;
    room = filled-length;
    few = short;
    whole = holds.whole;
    left = omega (arith, length-append rest m, holds.left);
    kept = filled-take;
    sum = holds.sum;
  }

  keep_rest-Holds : st.leftover + length m < 16 → Holds (keep_rest st m) n done (rest ++ m)
  unfolding keep_rest
  keep_rest-Holds short = elim (Bool-cases (length m == 0)) [
    | inl none_left ↦ rw (none_left, no_elements m (ground arith), append-nil rest) holds
    | inr some_left ↦ rw some_left (filled-Holds short)
  ]

-- The same state with whole blocks taken in and the buffer empty.
abbrev advanced : Poly1305State → List ℕ → Poly1305State
advanced st xs = record (poly1305_blocks st xs) { leftover = 0 }

advanced-Holds :
    (st : Poly1305State) (n k : ℕ) (done rest xs : List ℕ)
    → Holds st n done rest
    → AreBytes xs
    → length xs ≡ 16 * k
    → Holds (advanced st xs) (n + k) (done ++ xs) []
unfolding poly1305_blocks
advanced-Holds st n k done rest xs holds small long =
    let (limbs, sum) = blocks-Holds st n k done rest xs holds small long in
    record {
      key = holds.key;
      limbs = limbs;
      open_end = holds.open_end;
      room = holds.room;
      few = omega arith;
      whole = omega (arith, length-append done xs, holds.whole);
      left = refl;
      kept = refl;
      sum = sum;
    }

-- The state stands for the message `m`, however it is divided.
abbrev pub HoldsAll : Poly1305State → List ℕ → Type 0
HoldsAll st m =
    (n : ℕ) × (done : List ℕ) × (rest : List ℕ) × Holds st n done rest × (done ++ rest ≡ m)

not_waiting : (st : Poly1305State) → st.leftover ≡ 0 → st ≡ record st { leftover = 0 }
not_waiting st e = ap (λ l. let s : Poly1305State = record st { leftover = l } in s) e

same_leftover : (st : Poly1305State) (xs : List ℕ) → (poly1305_blocks st xs).leftover ≡ st.leftover
unfolding poly1305_blocks
same_leftover st xs = refl

take_blocks-HoldsAll :
    (st : Poly1305State) (n : ℕ) (done m : List ℕ)
    → Holds st n done []
    → AreBytes m
    → HoldsAll (take_blocks st m) (done ++ m)
unfolding take_blocks
take_blocks-HoldsAll st n done m holds small = elim (Bool-cases (ltb (length m) 16)) [
  | inl short ↦ rw short (
    n,
    done,
    m,
    keep_rest-Holds st n done [] m holds (ground (arith, holds.left)) (ground (arith, holds.left)),
    refl,
  )
  | inr long ↦
      let want : ℕ = length m - length m % 16 in
      let xs = take want m in
      let ys = drop want m in
      let blocks =
        advanced-Holds st n (length m / 16) done [] xs holds (AreBytes-take want m small)
          (omega (arith, length-take want m)) in
      let kept =
        keep_rest-Holds (advanced st xs) (n + length m / 16) (done ++ xs) [] ys blocks
          (omega (arith, length-drop want m)) (omega (arith, length-drop want m)) in
      rw long (
        n + length m / 16,
        done ++ xs,
        ys,
        subst (λ s. Holds (keep_rest s ys) (n + length m / 16) (done ++ xs) ys)
            (sym (not_waiting (poly1305_blocks st xs) (same_leftover st xs ∙ sym holds.left))) kept,
        append_assoc done xs ys ∙ ap (λ l. done ++ l) (take-drop want m),
      )
]

-- No piece changes the multiplier or the pad.
pub update-keeps :
    (st : Poly1305State) (m : List ℕ)
    → ((poly1305_update st m).r ≡ st.r) × ((poly1305_update st m).pad ≡ st.pad)
unfolding poly1305_update take_blocks keep_rest poly1305_blocks
update-keeps st m = ground arith

module _ (st : Poly1305State) (n : ℕ) (done rest m : List ℕ) (holds : Holds st n done rest)
    (old : AreBytes rest) (small : AreBytes m) where
  from_empty : st.leftover ≡ 0 → HoldsAll (take_blocks st m) ((done ++ rest) ++ m)
  from_empty empty =
      let none_left : rest ≡ [] = no_elements rest (omega (arith, holds.left)) in
      subst (HoldsAll (take_blocks st m))
        (sym (ap (λ l. (done ++ l) ++ m) none_left ∙ ap (λ l. l ++ m) (append-nil done)))
        (take_blocks-HoldsAll st n done m (subst (Holds st n done) none_left holds) small)

  abbrev want : ℕ
  want = min (16 - st.leftover) (length m)

  few : length (take want m) ≡ want
  few = omega (arith, length-take want m)

  fits : st.leftover + length (take want m) ≤ 16
  fits = omega (arith, few, holds.few)

  -- The state after the buffer is filled, by the bytes wanted.
  abbrev topped : ℕ → Poly1305State
  topped k = record st {
    buffer = copy_to st.leftover (take want m) st.buffer;
    leftover = st.leftover + k;
  }

  not_full : st.leftover + want < 16 → HoldsAll (topped want) ((done ++ rest) ++ m)
  not_full short = (
    n,
    done,
    rest ++ take want m,
    subst (λ k. Holds (topped k) n done (rest ++ take want m)) few
        (filled-Holds st n done rest (take want m) holds fits (omega (arith, few))),
    sym (append_assoc done rest (take want m))
        ∙ ap (λ l. (done ++ rest) ++ l) (take_all want m (omega (arith, holds.few))),
  )

  full_buffer : st.leftover + want ≡ 16 → (topped want).buffer ≡ rest ++ take want m
  full_buffer full =
      sym (
        take_all (st.leftover + length (take want m)) (topped want).buffer
          (omega (arith, filled-length st n done rest (take want m) holds fits, few)))
      ∙ filled-take st n done rest (take want m) holds fits

  full_Holds :
      st.leftover + want ≡ 16
      → Holds
          (advanced (topped want) (topped want).buffer)
          (n + 1)
          (done ++ (rest ++ take want m))
          []
  unfolding poly1305_blocks
  full_Holds full =
      let b = full_buffer full in
      let emptied : Holds (record (topped want) { leftover = 0 }) n done [] = record {
        key = holds.key;
        limbs = holds.limbs;
        open_end = holds.open_end;
        room = filled-length st n done rest (take want m) holds fits;
        few = omega arith;
        whole = holds.whole;
        left = refl;
        kept = refl;
        sum = holds.sum;
      } in
      subst (λ l. Holds (advanced (topped want) (topped want).buffer) (n + 1) (done ++ l) []) b
        (advanced-Holds (record (topped want) { leftover = 0 }) n 1 done [] (topped want).buffer
          emptied
          (subst AreBytes (sym b)
            (AreBytes-append rest (take want m) old (AreBytes-take want m small)))
          (filled-length st n done rest (take want m) holds fits))

  from_full :
      st.leftover + want ≡ 16
      → HoldsAll
          (take_blocks (advanced (topped want) (topped want).buffer) (drop want m))
          ((done ++ rest) ++ m)
  from_full full =
      subst (HoldsAll (take_blocks (advanced (topped want) (topped want).buffer) (drop want m)))
        (ap (λ l. l ++ drop want m) (sym (append_assoc done rest (take want m)))
          ∙ append_assoc (done ++ rest) (take want m) (drop want m)
          ∙ ap (λ l. (done ++ rest) ++ l) (take-drop want m))
        (take_blocks-HoldsAll (advanced (topped want) (topped want).buffer) (n + 1)
          (done ++ (rest ++ take want m)) (drop want m) (full_Holds full)
          (AreBytes-drop want m small))

  pub update-HoldsAll : HoldsAll (poly1305_update st m) ((done ++ rest) ++ m)
  unfolding poly1305_update
  update-HoldsAll = elim (Bool-cases (st.leftover == 0)) [
    | inl empty ↦ rw empty (from_empty (ground arith))
    | inr waiting ↦ elim (Bool-cases (ltb (st.leftover + want) 16)) [
      | inl short ↦ rw (waiting, short) (not_full (ground arith))
      | inr full ↦ rw (waiting, full) (from_full (ground (arith, holds.few)))
    ]
  ]
