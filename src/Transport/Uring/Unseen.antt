-- ===== src/Transport/Uring/Unseen.antt =====
-- What send_batch reports of the sends that fail.
use linerate.Base.{
  ℕ, zero, suc, ◌+◌, ◌≤◌, ◌<◌, ◌≡◌, refl, ap, sym, ◌∙◌, Bool, true, false, List, [], ◌∷◌, ◌++◌,
  length, take, drop, arith, ◌==◌, length-take, length-drop, length-append, append_assoc,
  append-nil, inl, inr, Bool-cases,
}
use linerate.Transport.Uring.{
  Ring, Uring, count_call, queue_sends, wait_sends, send_loop, send_batch,
}

-- A ring whose submissions succeed. It has so many entries, and none left when as many sends are
-- prepared and not submitted; `handed` are the sends that the kernel has taken. Nothing is said of
-- how a send ends, or of what a wait returns.
pub record IsTaking {R : Type 0} (io : Ring R) : Type 0 where
  pub entries : ℕ
  pub prepared : R → List (List ℕ)
  pub handed : R → List (List ℕ)
  pub prep_law :
      (r : R) (i : ℕ) (p : List ℕ)
      → length (prepared r) < entries
      → ((io.prep_sendmsg r i p).1 ≡ true)
        × (prepared (io.prep_sendmsg r i p).0 ≡ prepared r ++ (p ∷ []))
        × (handed (io.prep_sendmsg r i p).0 ≡ handed r)
  pub submit_law :
      (r : R) → (prepared (io.submit r).0 ≡ []) × (handed (io.submit r).0 ≡ handed r ++ prepared r)
  pub wait_law :
      (r : R) → (prepared (io.wait_cqe r).0 ≡ prepared r) × (handed (io.wait_cqe r).0 ≡ handed r)
  pub seen_law :
      (r : R) → (prepared (io.cqe_seen r) ≡ prepared r) × (handed (io.cqe_seen r) ≡ handed r)

take-rest : (k : ℕ) (xs : List (List ℕ)) → take k xs ++ drop (length (take k xs)) xs ≡ xs
take-rest zero xs = refl
take-rest (suc k) [] = refl
take-rest (suc k) (x ∷ xs) = ap (λ t. x ∷ t) (take-rest k xs)

module _ {R : Type 0} (io : Ring R) (taking : IsTaking io) where
  queue_sends_each :
      (ps : List (List ℕ)) (i : ℕ) (r : R)
      → length (taking.prepared r) + length ps ≤ taking.entries
      → ((queue_sends io ps i r).1 ≡ i + length ps)
        × (taking.prepared (queue_sends io ps i r).0 ≡ taking.prepared r ++ ps)
        × (taking.handed (queue_sends io ps i r).0 ≡ taking.handed r)
  unfolding queue_sends
  queue_sends_each [] i r room = (omega arith, sym (append-nil (taking.prepared r)), refl)
  queue_sends_each (p ∷ ps) i r room =
      let (ok, q, hd) = taking.prep_law r i p (omega arith) in
      let (n, q', hd') =
        queue_sends_each ps (suc i) (io.prep_sendmsg r i p).0
          (omega (arith, ap length q, length-append (taking.prepared r) (p ∷ []))) in
      rw ok (
        n ∙ omega arith,
        q' ∙ ap (λ t. t ++ ps) q ∙ append_assoc (taking.prepared r) (p ∷ []) ps,
        hd' ∙ hd,
      )

  wait_sends_keeps :
      (sqpoll : Bool) (left : ℕ) (r : R) (sys : ℕ)
      → (taking.prepared (wait_sends io sqpoll left r sys).0 ≡ taking.prepared r)
        × (taking.handed (wait_sends io sqpoll left r sys).0 ≡ taking.handed r)
  unfolding wait_sends
  wait_sends_keeps sqpoll zero r sys = (refl, refl)
  wait_sends_keeps sqpoll (suc left) r sys =
      let (q, hd) = taking.wait_law r in
      let (q', hd') = taking.seen_law (io.wait_cqe r).0 in
      let (q'', hd'') =
        wait_sends_keeps sqpoll left (io.cqe_seen (io.wait_cqe r).0) (count_call io sqpoll sys) in
      elim (Bool-cases (io.wait_cqe r).1) [
        | inl ok ↦ rw ok (q'' ∙ q' ∙ q, hd'' ∙ hd' ∙ hd)
        | inr failed ↦ rw failed (q, hd)
      ]

  module _ (u : Uring R) (p : List ℕ) (ps : List (List ℕ)) where
    abbrev chunk : List (List ℕ)
    chunk = take u.batch (p ∷ ps)

    abbrev queued : ℕ
    queued = (queue_sends io chunk 0 u.ring).1

    abbrev waited : R × ℕ
    waited =
        wait_sends io u.sqpoll queued (io.submit (queue_sends io chunk 0 u.ring).0).0
          (count_call io u.sqpoll u.sys)

    -- One turn: its chunk is queued, and the kernel has it afterwards.
    turn_hands :
        u.batch ≤ taking.entries
        → taking.prepared u.ring ≡ []
        → (queued ≡ length chunk)
          × (taking.prepared waited.0 ≡ [])
          × (taking.handed waited.0 ≡ taking.handed u.ring ++ chunk)
    turn_hands room empty =
        let taken = length-take u.batch (p ∷ ps) in
        let (n, q, hd) =
          queue_sends_each chunk 0 u.ring (omega (arith, room, taken, ap length empty)) in
        let r1 = (queue_sends io chunk 0 u.ring).0 in
        let (q', hd') = taking.submit_law r1 in
        let (q'', hd'') =
          wait_sends_keeps u.sqpoll queued (io.submit r1).0 (count_call io u.sqpoll u.sys) in
        (n ∙ omega arith, q'' ∙ q', hd'' ∙ hd' ∙ (λ j. hd j ++ (q ∙ ap (λ t. t ++ chunk) empty) j))

  send_loop_hands :
      (fuel : ℕ) (u : Uring R) (ps : List (List ℕ))
      → 0 < u.batch
      → u.batch ≤ taking.entries
      → taking.prepared u.ring ≡ []
      → length ps ≤ fuel
      → ((send_loop io fuel u ps).1 ≡ length ps)
        × (taking.handed (send_loop io fuel u ps).0.ring ≡ taking.handed u.ring ++ ps)
  unfolding send_loop
  send_loop_hands zero u [] pos room empty h = (refl, sym (append-nil (taking.handed u.ring)))
  send_loop_hands zero u (p ∷ ps) pos room empty h = absurd (omega arith)
  send_loop_hands (suc fuel) u [] pos room empty h = (refl, sym (append-nil (taking.handed u.ring)))
  send_loop_hands (suc fuel) u (p ∷ ps) pos room empty h =
      let (n, q, hd) = turn_hands u p ps room empty in
      let taken = length-take u.batch (p ∷ ps) in
      let left = drop (queued u p ps) (p ∷ ps) in
      let (counted, handed) =
        send_loop_hands fuel (record u { ring = (waited u p ps).0; sys = (waited u p ps).1 }) left
          pos room q (omega (arith, n, taken, length-drop (queued u p ps) (p ∷ ps))) in
      let more : (queued u p ps == 0) ≡ false = ground (arith, n, taken) in
      rw more (
        omega (arith, counted, n, taken, length-drop (queued u p ps) (p ∷ ps)),
        handed
            ∙ ap (λ t. t ++ left) hd
            ∙ append_assoc (taking.handed u.ring) (chunk u p ps) left
            ∙ ap (λ t. taking.handed u.ring ++ t)
                (ap (λ m. chunk u p ps ++ drop m (p ∷ ps)) n ∙ take-rest u.batch (p ∷ ps)),
      )

  -- Over a ring whose submissions succeed, with entries for a batch and no send prepared, and with
  -- a batch of one or more: send_batch hands every packet to the kernel, once and in order, and
  -- reports every one as sent, however the sends end and whatever the waits return.
  pub send_batch_counts :
      (u : Uring R) (ps : List (List ℕ))
      → 0 < u.batch
      → u.batch ≤ taking.entries
      → taking.prepared u.ring ≡ []
      → ((send_batch io u ps).1 ≡ length ps)
        × (taking.handed (send_batch io u ps).0.ring ≡ taking.handed u.ring ++ ps)
  send_batch_counts u ps pos room empty =
      send_loop_hands (length ps) u ps pos room empty (omega arith)
