-- ===== src/Replay/Safety.antt =====
-- What follows for the packets themselves, and the counters that the window keeps.
use linerate.Base.{
  ℕ, ◌+◌, ◌*◌, ◌/◌, ◌%◌, ◌≤◌, ◌<◌, ◌≡◌, refl, ◌⊎◌, inl, inr, Bool, true, false, ◌&&◌, List, [], ◌∷◌,
  arith, length, length-replicate, if◌then◌else◌, Bool-cases, leb,
}
use linerate.Replay.{
  ReplayWindow, word_mod, at_least_word, create, advance, check_behind, accept, accept_all,
}
use linerate.Replay.Spec.{contains, admits, verdicts}
use linerate.Replay.Refine.{create_refines}

-- The numbers of a run that were admitted, by the verdicts returned.
pub admitted : List ℕ → List Bool → List ℕ
admitted (seq ∷ seqs) (true ∷ vs) = seq ∷ admitted seqs vs
admitted (seq ∷ seqs) (false ∷ vs) = admitted seqs vs
admitted _ _ = []

abbrev pub Distinct : List ℕ → Type 0
Distinct [] = Unit {0}
Distinct (x ∷ xs) = (contains x xs ≡ false) × Distinct xs

admits-fresh :
    (width : ℕ) (l : List ℕ) (seq : ℕ) → admits width l seq ≡ true → contains seq l ≡ false
unfolding admits contains
admits-fresh width [] seq e = refl
admits-fresh width (x ∷ xs) seq e = ground arith

-- A number once remembered is never admitted by the specification.
remembered_not_admitted :
    (width : ℕ) (l seqs : List ℕ) (x : ℕ)
    → contains x l ≡ true
    → contains x (admitted seqs (verdicts width l seqs)) ≡ false
unfolding admitted verdicts contains
remembered_not_admitted width l [] x h = refl
remembered_not_admitted width l (seq ∷ rest) x h = elim (Bool-cases (admits width l seq)) [
  | inl e ↦
      let later = remembered_not_admitted width (seq ∷ l) rest x (ground arith) in
      simp e (ground (arith, admits-fresh width l seq e, later))
  | inr e ↦ simp e (remembered_not_admitted width l rest x h)
]

verdicts-Distinct : (width : ℕ) (l seqs : List ℕ) → Distinct (admitted seqs (verdicts width l seqs))
unfolding admitted verdicts
verdicts-Distinct width l [] = tt
verdicts-Distinct width l (seq ∷ rest) = elim (Bool-cases (admits width l seq)) [
  | inl e ↦ simp e (
    remembered_not_admitted width (seq ∷ l) rest seq (unfold contains in ground arith),
    verdicts-Distinct width (seq ∷ l) rest,
  )
  | inr e ↦ simp e (verdicts-Distinct width l rest)
]

-- No run of calls on a new window of `n` bits admits the same sequence number twice, where
-- `n + 63` does not wrap.
pub admitted_once :
    (n : ℕ) (seqs : List ℕ)
    → n + 63 < word_mod
    → Distinct (admitted seqs (accept_all (create n) seqs).1)
admitted_once n seqs h = rw (create_refines n seqs h) (verdicts-Distinct (create n).width [] seqs)

-- A new window has at least the width asked for and less than 64 bits more (64 bits at least),
-- in whole words, all of them stored, where the width asked for plus 63 does not wrap.
pub create_bounds :
    (n : ℕ)
    → n + 63 < word_mod
    → (n ≤ (create n).width)
      × ((create n).width < at_least_word n + 64)
      × ((create n).width % 64 ≡ 0)
      × (64 * length (create n).bits ≡ (create n).width)
unfolding create
create_bounds n h = (
  ground arith,
  ground arith,
  omega arith,
  omega (arith, length-replicate {A = ℕ} ((at_least_word n + 63) % word_mod / 64 * 64 / 64) 0),
)

-- One call of `accept`, while neither counter is at its limit. A refusal changes nothing but one
-- counter, which goes up by one. An admission leaves the counters, and `high` is the number
-- itself if it is the first or the highest so far, and stays otherwise.
pub accept_counts :
    (w : ReplayWindow) (seq : ℕ)
    → w.dup + 1 < word_mod
    → w.old + 1 < word_mod
    → if (accept w seq).1
      then ((accept w seq).0.dup ≡ w.dup)
        × ((accept w seq).0.old ≡ w.old)
        × ((accept w seq).0.high ≡ (if w.seen && leb seq w.high then w.high else seq))
      else ((accept w seq).0 ≡ record w { dup = w.dup + 1 })
      ⊎ ((accept w seq).0 ≡ record w { old = w.old + 1 })
unfolding accept advance check_behind
accept_counts w seq p q = ground arith

-- The two branches that a window in use takes for a number ahead of it and one too far behind.
pub accept_ahead :
    (w : ReplayWindow) (seq : ℕ)
    → w.seen ≡ true
    → w.high < seq
    → accept w seq ≡ (advance w seq, true)
unfolding accept
accept_ahead w seq seen ahead = simp seen (ground arith)

pub accept_too_old :
    (w : ReplayWindow) (seq : ℕ)
    → w.seen ≡ true
    → seq + w.width ≤ w.high
    → accept w seq ≡ (record w { old = (w.old + 1) % word_mod }, false)
unfolding accept check_behind
accept_too_old w seq seen far = simp seen (ground arith)

pub advance_fields :
    (w : ReplayWindow) (seq : ℕ)
    → ((advance w seq).high ≡ seq)
      × ((advance w seq).width ≡ w.width)
      × ((advance w seq).seen ≡ w.seen)
unfolding advance
advance_fields w seq = (refl, refl, refl)
