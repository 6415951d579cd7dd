-- ===== src/Replay/Tests.antt =====
-- Concrete runs of the window, and the theorems of Refine and Safety at concrete inputs.
use linerate.Base.{ℕ, ◌≡◌, refl, true, false, ◌&&◌, ◌⊎◌, List, [], ◌∷◌, arith, leb, if◌then◌else◌}
use linerate.Replay.{ReplayWindow, create, accept, accept_all}
use linerate.Replay.{moved, advance, check_behind, shift_bits, store_down, split_word, aligned_word}
use linerate.Replay.Spec.{verdicts}
use linerate.Replay.Shift.{AreWords}
use linerate.Replay.Refine.{create_refines}
use linerate.Replay.Safety.{admitted, Distinct, admitted_once, accept_counts}

-- A jump of 70, a duplicate, an old packet that is new, one too far behind.
abbrev arrivals : List ℕ
arrivals = 100 ∷ 170 ∷ 100 ∷ 150 ∷ 150 ∷ 43 ∷ 42 ∷ 400 ∷ 400 ∷ []

run_128 :
    (accept_all (create 100) arrivals).1
    ≡ true ∷ true ∷ false ∷ true ∷ false ∷ true ∷ false ∷ true ∷ false ∷ []
unfolding accept_all create accept advance check_behind moved shift_bits store_down split_word
    aligned_word
run_128 = refl

counters_128 :
    ((accept_all (create 100) arrivals).0.dup ≡ 3) × ((accept_all (create 100) arrivals).0.old ≡ 1)
unfolding accept_all create accept advance check_behind moved shift_bits store_down split_word
    aligned_word
counters_128 = (refl, refl)

-- Half a window, with marks in both words.
abbrev half_full : List ℕ
half_full = 0x8000_0000_0000_0001 ∷ 3 ∷ []

half_full-AreWords : AreWords half_full
half_full-AreWords i = ground arith

create_refines_example :
    (accept_all (create 100) arrivals).1 ≡ verdicts (create 100).width [] arrivals
create_refines_example = create_refines 100 arrivals (omega arith)

admitted_once_example : Distinct (admitted arrivals (accept_all (create 100) arrivals).1)
admitted_once_example = admitted_once 100 arrivals (omega arith)

abbrev busy : ReplayWindow
busy = record { width = 64; bits = 5 ∷ []; high = 9; seen = true; dup = 1; old = 2 }

accept_counts_example :
    if (accept busy 7).1
    then ((accept busy 7).0.dup ≡ 1)
      × ((accept busy 7).0.old ≡ 2)
      × ((accept busy 7).0.high ≡ (if true && leb 7 9 then 9 else 7))
    else ((accept busy 7).0 ≡ record busy { dup = 2 })
    ⊎ ((accept busy 7).0 ≡ record busy { old = 3 })
accept_counts_example = accept_counts busy 7 (omega arith) (omega arith)
