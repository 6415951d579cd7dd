-- ===== src/Replay/Refine.antt =====
-- The bitmap of ReplayWindow behaves as a memory of every number that was admitted.
use linerate.Base.{
  ℕ, zero, ◌+◌, ◌-◌, ◌*◌, ◌/◌, ◌%◌, ◌≤◌, ◌<◌, ◌≡◌, refl, sym, ap, ap₂, ◌∙◌, inl, inr, Bool, true,
  false, not, ◌&&◌, List, [], ◌∷◌, bit_or, bit_and, ltb, leb, ◌==◌, if◌then◌else◌, get_or, set,
  arith, Bool-cases, length, length-set, length-map, length-replicate, get_or-replicate,
}
use linerate.Base.Bits.{shl, bit_or-lt}
use linerate.Replay.{
  ReplayWindow, word_mod, at_least_word, create, reset, moved, advance, check_behind, accept,
  accept_all,
}
use linerate.Replay.Spec.{contains, highest, admits, remember, verdicts}
use linerate.Replay.Shift.{
  bit, AreWords, bit-shift_bits, length-shift_bits, set-AreWords, shift_bits-AreWords,
}
use linerate.Replay.Bitmap.{
  bit_test, bit-mark, bit-mark_back, bit-clear, bit-zeros, bit-first, fill_zero-AreWords,
  one-shl-lt,
}

abbrev pub is_nonempty : List ℕ → Bool
is_nonempty [] = false
is_nonempty (x ∷ xs) = true

-- `w` stands for the memory `l`: bit `k` of the bitmap says whether `high - k` was admitted.
pub record Tracks (w : ReplayWindow) (l : List ℕ) : Type 0 where
  pub words : AreWords w.bits
  pub sized : 64 * length w.bits ≡ w.width
  pub wide : 64 ≤ w.width
  pub started : w.seen ≡ is_nonempty l
  pub top : w.high ≡ highest l
  pub marks : (k : ℕ) → k < w.width → bit w.bits k ≡ (leb k w.high && contains (w.high - k) l)

pub contains_above : (x : ℕ) (l : List ℕ) → highest l < x → contains x l ≡ false
unfolding contains highest
contains_above x [] h = refl
contains_above x (y ∷ ys) h = ground (arith, contains_above x ys)

pub create-Tracks : (n : ℕ) → n + 63 < word_mod → Tracks (create n) []
unfolding create highest contains
create-Tracks n h = record {
  words = λ i. rw (get_or-replicate {A = ℕ} _ i 0) (omega arith);
  sized = omega (arith, length-replicate {A = ℕ} (width / 64) 0);
  wide = ground arith;
  started = refl;
  top = refl;
  marks = λ k q. bit-zeros _ k ∙ ground arith;
}
  where
    width : ℕ
    width = (at_least_word n + 63) % word_mod / 64 * 64

module _ (w : ReplayWindow) (l : List ℕ) (t : Tracks w l) (seq : ℕ) where
  bit-moved :
      (k : ℕ)
      → k < w.width
      → bit (moved w seq) k
        ≡ (if ltb k (seq - w.high) then false else bit w.bits (k - (seq - w.high)))
  unfolding moved
  bit-moved k h = ground (
    arith,
    bit-clear w.bits k,
    bit-shift_bits (w.width / 64) (seq - w.high) k w.bits t.words,
    t.sized,
  )

  length-moved : length (moved w seq) ≡ length w.bits
  unfolding moved
  length-moved = ground (
    arith,
    length-map (λ (x : ℕ). zero) w.bits,
    length-shift_bits (w.width / 64) (seq - w.high) w.bits,
  )

  moved-AreWords : AreWords (moved w seq)
  unfolding moved
  moved-AreWords = elim (Bool-cases (leb w.width (seq - w.high))) [
    | inl e ↦ rw e (fill_zero-AreWords w.bits)
    | inr e ↦ rw e (shift_bits-AreWords (w.width / 64) (seq - w.high) w.bits t.words)
  ]

  -- The bitmap keeps its place for every packet, and has room for the new one.
  advance-marks :
      (k : ℕ)
      → w.high < seq
      → k < w.width
      → bit (advance w seq).bits k ≡ (leb k seq && contains (seq - k) (seq ∷ l))
  unfolding advance contains
  advance-marks k h q = ground (
    arith,
    bit-mark (moved w seq) 0 0 k,
    bit-moved k q,
    length-moved,
    t.marks (k - (seq - w.high)),
    contains_above (seq - k) l,
  )

  advance-Tracks : w.high < seq → w.seen ≡ true → Tracks (advance w seq) (seq ∷ l)
  unfolding advance highest
  advance-Tracks h e = record {
    words =
        set-AreWords (moved w seq) 0 (bit_or (get_or (moved w seq) 0 0) 1) moved-AreWords
          (bit_or-lt 64 _ 1 (moved-AreWords 0) (omega arith));
    sized =
        omega
          (arith, length-set (moved w seq) 0 (bit_or (get_or (moved w seq) 0 0) 1), length-moved);
    wide = t.wide;
    started = e;
    top = ground arith;
    marks = λ k q. advance-marks k h q;
  }

admits_started :
    (width : ℕ) (l : List ℕ) (seq : ℕ)
    → is_nonempty l ≡ true
    → admits width l seq ≡ (not (contains seq l) && ltb (highest l) (seq + width))
unfolding admits
admits_started width [] seq e = cc
admits_started width (x ∷ xs) seq e = refl

-- Nothing changes but the two counters.
Tracks-counted :
    {w : ReplayWindow} {l : List ℕ} (dup old : ℕ)
    → Tracks w l
    → Tracks (record w { dup = dup; old = old }) l
Tracks-counted dup old t = record {
  words = t.words;
  sized = t.sized;
  wide = t.wide;
  started = t.started;
  top = t.top;
  marks = t.marks;
}

nonempty-false : (l : List ℕ) → is_nonempty l ≡ false → l ≡ []
nonempty-false [] e = refl
nonempty-false (x ∷ xs) e = cc

admits_empty : (width : ℕ) (l : List ℕ) (seq : ℕ) → l ≡ [] → admits width l seq ≡ true
unfolding admits
admits_empty width l seq e = rw e

module _ (w : ReplayWindow) (l : List ℕ) (t : Tracks w l) (seq : ℕ) where
  first-Tracks :
      l ≡ [] → Tracks (record w { seen = true; high = seq; bits = set w.bits 0 1 }) (seq ∷ [])
  unfolding highest contains
  first-Tracks e = record {
    words = set-AreWords w.bits 0 1 t.words (omega arith);
    sized = omega (arith, t.sized, length-set w.bits 0 1);
    wide = t.wide;
    started = refl;
    top = ground arith;
    marks = λ k q. ground (arith, bit-first w.bits k, t.marks k q, t.sized, t.wide, e);
  }

  behind_mark-Tracks :
      seq ≤ w.high
      → w.seen ≡ true
      → w.high < seq + w.width
      → let i = (w.high - seq) / 64 in
        Tracks
          (record w {
            bits = set w.bits i (bit_or (get_or w.bits i 0) (shl 1 ((w.high - seq) % 64)));
          })
          (seq ∷ l)
  unfolding highest contains
  behind_mark-Tracks h e near = record {
    words = set-AreWords w.bits _ _ t.words (bit_or-lt 64 _ _ (t.words _) (one-shl-lt _));
    sized = omega (
      arith,
      t.sized,
      length-set w.bits ((w.high - seq) / 64)
          (bit_or (get_or w.bits ((w.high - seq) / 64) 0) (shl 1 ((w.high - seq) % 64))),
    );
    wide = t.wide;
    started = e;
    top = ground arith;
    marks = λ k q. ground (arith, bit-mark_back w.bits (w.high - seq) k, t.marks k q, t.sized);
  }

  -- What `accept` answers once a packet has been seen.
  admits_seen :
      w.seen ≡ true → admits w.width l seq ≡ (not (contains seq l) && ltb w.high (seq + w.width))
  admits_seen e = rw t.top (admits_started w.width l seq (sym t.started ∙ e))

  -- The test of the bit at `high - seq` looks the number up in the memory.
  lookup_bit :
      seq ≤ w.high
      → w.high < seq + w.width
      → (bit_and (get_or w.bits ((w.high - seq) / 64) 0) (shl 1 ((w.high - seq) % 64)) == 0)
        ≡ not (contains seq l)
  lookup_bit h near =
      bit_test w.bits (w.high - seq) ∙ ap not (t.marks (w.high - seq) (omega arith) ∙ found)
    where
      found : (leb (w.high - seq) w.high && contains (w.high - (w.high - seq)) l) ≡ contains seq l
      found = let e : w.high - (w.high - seq) ≡ seq = omega arith in rw e (ground arith)

  abbrev Refined : ReplayWindow × Bool → Bool → Type 0
  Refined r verdict = (r.1 ≡ verdict) × Tracks r.0 (remember verdict seq l)

  behind_refines :
      seq ≤ w.high → w.seen ≡ true → Refined (check_behind w seq) (admits w.width l seq)
  unfolding check_behind
  behind_refines h e = elim (Bool-cases (leb w.width (w.high - seq))) [
    | inl far ↦
        let verdict : admits w.width l seq ≡ false = admits_seen e ∙ ground arith in
        rw (verdict, far, check_behind) (refl, Tracks-counted w.dup _ t)
    | inr near ↦ elim (Bool-cases (contains seq l)) [
      | inl dup ↦
          let verdict : admits w.width l seq ≡ false = admits_seen e ∙ ground arith in
          let test = lookup_bit h (ground arith) ∙ ap not dup in
          rw (verdict, near, check_behind) (rw test (refl, Tracks-counted _ w.old t))
      | inr fresh ↦
          let verdict : admits w.width l seq ≡ true = admits_seen e ∙ ground arith in
          let test = lookup_bit h (ground arith) ∙ ap not fresh in
          rw (verdict, near, check_behind) (rw test (refl, behind_mark-Tracks h e (ground arith)))
    ]
  ]

  -- Each call answers as the memory does, and stays in step with it.
  pub accept_refines : Refined (accept w seq) (admits w.width l seq)
  unfolding accept
  accept_refines = elim (Bool-cases w.seen) [
    | inl e ↦ elim (Bool-cases (ltb w.high seq)) [
      | inl ahead ↦
          let verdict : admits w.width l seq ≡ true =
            admits_seen e ∙ ground (arith, contains_above seq l, t.top, t.wide) in
          rw verdict (simp (e, ahead) (refl, advance-Tracks w l t seq (ground arith) e))
      | inr behind ↦ simp (e, behind) (behind_refines (ground arith) e)
    ]
    | inr e ↦
        let empty : l ≡ [] = nonempty-false l (sym t.started ∙ e) in
        let verdict : admits w.width l seq ≡ true = admits_empty w.width l seq empty in
        rw verdict (simp e (refl, rw empty (first-Tracks empty)))
  ]

pub width-accept : (w : ReplayWindow) (seq : ℕ) → (accept w seq).0.width ≡ w.width
unfolding accept advance check_behind
width-accept w seq = ground arith

pub accept_all_refines :
    (w : ReplayWindow) (l seqs : List ℕ)
    → Tracks w l
    → (accept_all w seqs).1 ≡ verdicts w.width l seqs
unfolding accept_all verdicts
accept_all_refines w l [] t = refl
accept_all_refines w l (seq ∷ rest) t =
    let step = accept_refines w l t seq in
    let later = accept_all_refines (accept w seq).0 _ rest step.1 in
    ap₂ ◌∷◌ step.0 (
      later
      ∙ ap (λ v. verdicts v (remember (admits w.width l seq) seq l) rest) (width-accept w seq))

-- From a new window of `n` bits, any sequence of calls is answered as by a memory of every number
-- admitted so far: a number is admitted if and only if it was not admitted before and is less than
-- the width behind the highest one. `n + 63` must not wrap.
pub create_refines :
    (n : ℕ) (seqs : List ℕ)
    → n + 63 < word_mod
    → (accept_all (create n) seqs).1 ≡ verdicts (create n).width [] seqs
create_refines n seqs h = accept_all_refines (create n) [] seqs (create-Tracks n h)

-- After `reset`, a window in step with any memory answers as a window that has seen nothing.
pub reset_refines :
    (w : ReplayWindow) (l seqs : List ℕ)
    → Tracks w l
    → (accept_all (reset w) seqs).1 ≡ verdicts w.width [] seqs
unfolding reset
reset_refines w l seqs t = accept_all_refines (reset w) [] seqs (record {
  words = fill_zero-AreWords w.bits;
  sized = omega (arith, t.sized, length-map (λ (x : ℕ). zero) w.bits);
  wide = t.wide;
  started = refl;
  top = unfold highest in refl;
  marks = λ k q. bit-clear w.bits k ∙ unfold contains in ground arith;
})
