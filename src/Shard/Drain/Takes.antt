-- ===== src/Shard/Drain/Takes.antt =====
-- What a drain takes from a transport that keeps the contract of Fifo.
use Prim.Native.String.{String}
use linerate.Base.{
  ℕ, zero, suc, sym, subst, List-cases, if_any-cons, ap, ap₂, refl, ◌∙◌, ◌+◌, ◌-◌, ◌<◌, ◌≡◌, inl,
  inr, min, true, Option, some, List, [], ◌∷◌, ◌++◌, length, take, drop, length-append, append-nil,
  append_assoc, take-split, drop-split, no_elements, ltb, ltb→lt, arith, Bool-cases, Option-cases,
}
use linerate.Aead.{Aead}
use linerate.Keys.{Hkdf}
use linerate.Transport.{Transport}
use linerate.Transport.Fifo.{Fifo}
use linerate.Shard.{Shard, process, process_all}
use linerate.Shard.Drain.{Drained, send_some, drain_loop, finish, drain}

module _ {Hist S : Type 0} (hkdf : Hkdf) (make_aead : String → List ℕ → Option Aead) (clock : ℕ → ℕ)
    (add_ticks : ℕ → Hist → Hist) (tx : Transport S) (F : Fifo tx) where
  abbrev run : Shard Hist → List (List ℕ) → Shard Hist × List (List ℕ)
  run s ps = process_all hkdf make_aead clock add_ticks s ps

  -- Two batches one after the other are one batch.
  run-append :
      (s : Shard Hist) (xs ys : List (List ℕ))
      → (run s (xs ++ ys)).0 ≡ (run (run s xs).0 ys).0
        × (run s (xs ++ ys)).1 ≡ (run s xs).1 ++ (run (run s xs).0 ys).1
  unfolding process_all
  run-append s [] ys = (refl, refl)
  run-append s (x ∷ xs) ys =
      let step = process hkdf make_aead clock add_ticks s x in
      let later = run-append (process hkdf make_aead clock add_ticks s x).0 xs ys in
      elim (Option-cases (process hkdf make_aead clock add_ticks s x).1) [
        | inl e ↦ rw (e, process_all) later
        | inr (o, e) ↦ rw (e, process_all) (later.0, ap (λ l. o ∷ l) later.1)
      ]

  -- The first `k` waiting packets have been processed in their order, and what they gave was sent.
  pub record Took (k : ℕ) (s : Shard Hist) (t : S) (r : Shard Hist × S × ℕ) : Type 0 where
    pub processed : r.0 ≡ (run s (take k (F.pending t))).0
    pub left : F.pending r.1 ≡ drop k (F.pending t)
    pub sent : F.outbox r.1 ≡ F.outbox t ++ (run s (take k (F.pending t))).1

  send_some-ready : (t : S) (outs : List (List ℕ)) → F.IsReady t → F.IsReady (send_some tx t outs)
  send_some-ready t [] h = h
  send_some-ready t (o ∷ outs) h = F.send_ready t (o ∷ outs) h

  send_some-pending :
      (t : S) (outs : List (List ℕ)) → F.IsReady t → F.pending (send_some tx t outs) ≡ F.pending t
  send_some-pending t [] h = refl
  send_some-pending t (o ∷ outs) h = F.send_pending t (o ∷ outs) h

  send_some-outbox :
      (t : S) (outs : List (List ℕ))
      → F.IsReady t
      → F.outbox (send_some tx t outs) ≡ F.outbox t ++ outs
  send_some-outbox t [] h = sym (append-nil (F.outbox t))
  send_some-outbox t (o ∷ outs) h = F.send_outbox t (o ∷ outs) h

  -- A batch, and then what the rest of the loop takes.
  batch-Took :
      (k : ℕ) (s : Shard Hist) (t : S) (n : ℕ) (r : Shard Hist × S × ℕ)
      → F.IsReady t
      → let (t', ps) = tx.recv_batch t n in
        let (s', outs) = run s ps in Took k s' (send_some tx t' outs) r → Took (length ps + k) s t r
  batch-Took k s t n r ready took =
      let (t', ps) = tx.recv_batch t n in
      let (s', outs) = run s ps in
      let ready' = F.recv_ready t n ready in
      let waits = send_some-pending t' outs ready' in
      let first : take (length ps + k) (F.pending t) ≡ ps ++ take k (F.pending t') =
        ap (take (length ps + k)) (sym (F.recv_splits t n ready))
        ∙ take-split ps (F.pending t') k in
      let same : run s (take (length ps + k) (F.pending t)) ≡ run s (ps ++ take k (F.pending t')) =
        ap (run s) first in
      let both = run-append s ps (take k (F.pending t')) in
      record {
        processed =
            took.processed
            ∙ ap (λ q. (run s' (take k q)).0) waits
            ∙ sym both.0
            ∙ sym (ap (λ x. x.0) same);
        left =
            took.left
            ∙ ap (drop k) waits
            ∙ sym (drop-split ps (F.pending t') k)
            ∙ ap (drop (length ps + k)) (F.recv_splits t n ready);
        sent =
            took.sent
            ∙ ap₂ (λ o q. o ++ (run s' (take k q)).1)
                (send_some-outbox t' outs ready' ∙ ap (λ o. o ++ outs) (F.recv_outbox t n ready))
                waits
            ∙ append_assoc (F.outbox t) outs (run s' (take k (F.pending t'))).1
            ∙ ap (λ l. F.outbox t ++ l) (sym both.1 ∙ sym (ap (λ x. x.1) same));
      }

  none-Took :
      (s : Shard Hist) (t t' : S) (n : ℕ)
      → F.pending t' ≡ F.pending t
      → F.outbox t' ≡ F.outbox t
      → Took 0 s t (s, t', n)
  unfolding process_all
  none-Took s t t' n p o = record {
    processed = refl;
    left = p;
    sent = o ∙ sym (append-nil (F.outbox t));
  }

  -- A turn that receives something goes on to the next.
  next_turn :
      (fuel : ℕ) (s : Shard Hist) (t : S) (budget processed : ℕ) (x : List ℕ) (xs : List (List ℕ))
      → ltb processed budget ≡ true
      → let (t', ps) = tx.recv_batch t (min (budget - processed) (tx.max_batch t)) in
        let (s', outs) = run s ps in
        ps ≡ x ∷ xs
        → drain_loop hkdf make_aead clock add_ticks tx (suc fuel) s t budget processed
          ≡ drain_loop hkdf make_aead clock add_ticks tx fuel s'
              (send_some tx t' outs)
              budget
              (processed + length ps)
  unfolding drain_loop
  next_turn fuel s t budget processed x xs e f = rw (e, drain_loop) (if_any-cons _ _ f)

  idle_of : (n : ℕ) {m : ℕ} → (0 < n → 0 < m) → m ≡ 0 → n ≡ 0
  idle_of zero h e = refl
  idle_of (suc n) h e = absurd (omega (arith, h (omega arith)))

  -- The loop, given a fuel above what is left of the budget.
  loop_takes :
      (fuel : ℕ) (s : Shard Hist) (t : S) (budget processed : ℕ)
      → F.IsReady t
      → budget - processed < fuel
      → (r : Shard Hist × S × ℕ) × (drain_loop hkdf make_aead clock add_ticks tx fuel s t budget
            processed
          ≡ some r)
        × Took (min (budget - processed) (length (F.pending t))) s t r
        × (r.2 ≡ processed + min (budget - processed) (length (F.pending t)))
  unfolding drain_loop
  loop_takes zero s t budget processed ready h = absurd (omega arith)
  loop_takes (suc fuel) s t budget processed ready h = elim (Bool-cases (ltb processed budget)) [
    | inr e ↦ (
      (s, t, processed),
      rw (e, drain_loop) refl,
      subst (λ k. Took k s t (s, t, processed)) (ground arith)
          (none-Took s t t processed refl refl),
      ground arith,
    )
    | inl e ↦
        let want = min (budget - processed) (tx.max_batch t) in
        let t' = (tx.recv_batch t want).0 in
        let ps = (tx.recv_batch t want).1 in
        let splits = F.recv_splits t want ready in
        let below = ltb→lt processed budget e in
        let deep = F.depth t ready in
        let small = F.recv_le t want ready in
        let total : length ps + length (F.pending t') ≡ length (F.pending t) =
          sym (length-append ps (F.pending t')) ∙ ap length splits in
        let waits = send_some-pending t' (run s ps).1 (F.recv_ready t want ready) in
        elim (List-cases (tx.recv_batch t want).1) [
          | inl f ↦
              let idle : length (F.pending t) ≡ 0 =
                idle_of (length (F.pending t)) (F.recv_some t want ready (omega arith))
                  (ap length f) in
              (
                (s, t', processed),
                rw (e, f, drain_loop) refl,
                subst (λ k. Took k s t (s, t', processed)) (omega (arith, idle))
                    (none-Took s t t' processed
                      (no_elements (F.pending t') (omega (arith, total, idle))
                        ∙ sym (no_elements (F.pending t) idle))
                      (F.recv_outbox t want ready)),
                omega (arith, idle),
              )
          | inr (x, xs, f) ↦
              let some_came : 0 < length ps = subst (λ l. 0 < length l) (sym f) (omega arith) in
              let (r, runs, took, count) =
                loop_takes fuel (run s ps).0 (send_some tx t' (run s ps).1) budget
                  (processed + length ps)
                  (send_some-ready t' (run s ps).1 (F.recv_ready t want ready))
                  (omega (arith, some_came, h, below)) in
              let rest_length = ap length waits in
              let k =
                min (budget - (processed + length ps))
                  (length (F.pending (send_some tx t' (run s ps).1))) in
              let all_told : length ps + k ≡ min (budget - processed) (length (F.pending t)) =
                omega (arith, total, rest_length, small) in
              (
                r,
                next_turn fuel s t budget processed x xs e f ∙ runs,
                subst (λ k. Took k s t r) all_told (batch-Took k s t want r ready took),
                omega (arith, count, all_told),
              )
        ]
  ]

  -- On a transport that keeps the contract of Fifo and is ready, a drain ends, given a fuel above
  -- its budget. It takes the first packets that wait, as many as the budget allows: the shard is what processing them in
  -- one batch between two readings of the clock makes it, the packets after them still wait, and
  -- what the processing gave has been sent in order.
  pub drain_takes :
      (fuel base busy : ℕ) (s : Shard Hist) (t : S) (budget : ℕ)
      → F.IsReady t
      → budget < fuel
      → let k = min budget (length (F.pending t)) in
        let (s', outs) = run (record s { reads = s.reads + 1 }) (take k (F.pending t)) in
        (d : Drained Hist S) × (drain hkdf make_aead clock add_ticks tx fuel base busy s t budget
          ≡ some d)
        × (d.processed ≡ k)
        × (d.shard ≡ record s' { reads = s'.reads + 1 })
        × (F.pending d.link ≡ drop k (F.pending t))
        × (F.outbox d.link ≡ F.outbox t ++ outs)
  unfolding drain
  drain_takes fuel base busy s t budget ready enough =
      let started : Shard Hist = record s { reads = s.reads + 1 } in
      let (r, runs, took, count) = loop_takes fuel started t budget 0 ready (omega arith) in
      let whole : budget - 0 ≡ budget = omega arith in
      let all = subst (λ b. Took (min b (length (F.pending t))) started t r) whole took in
      (
        finish hkdf make_aead clock add_ticks tx (clock s.reads) base busy r,
        rw (runs, drain) refl,
        omega (arith, count),
        ap {A = Shard Hist} {B = Shard Hist} (λ x. record x { reads = x.reads + 1 }) all.processed,
        all.left,
        all.sent,
      )

module _ {Hist S R : Type 0} (hkdf : Hkdf) (make_aead : String → List ℕ → Option Aead)
    (clock : ℕ → ℕ) (add_ticks : ℕ → Hist → Hist) (tx : Transport S) (F : Fifo tx)
    (ty : Transport R) (G : Fifo ty) where
  -- Two transports that keep the contract of Fifo and are ready, on which the same packets wait and
  -- which had sent the same, drain alike, given a fuel above the budget: the shard,
  -- the number of packets taken and the packets sent do not depend on the transport.
  pub drain_agree :
      (fuel base busy base' busy' : ℕ) (s : Shard Hist) (t : S) (u : R) (budget : ℕ)
      → F.IsReady t
      → G.IsReady u
      → budget < fuel
      → F.pending t ≡ G.pending u
      → F.outbox t ≡ G.outbox u
      → (d : Drained Hist S) × (e : Drained Hist R) × (drain hkdf make_aead clock add_ticks tx fuel
            base busy s t budget
          ≡ some d)
        × (drain hkdf make_aead clock add_ticks ty fuel base' busy' s u budget ≡ some e)
        × (d.shard ≡ e.shard)
        × (d.processed ≡ e.processed)
        × (F.pending d.link ≡ G.pending e.link)
        × (F.outbox d.link ≡ G.outbox e.link)
  drain_agree fuel base busy base' busy' s t u budget ready ready' enough same_in same_out =
      let (d, runs_d, count_d, shard_d, left_d, sent_d) =
        drain_takes hkdf make_aead clock add_ticks tx F fuel base busy s t budget ready enough in
      let (e, runs_e, count_e, shard_e, left_e, sent_e) =
        drain_takes hkdf make_aead clock add_ticks ty G fuel base' busy' s u budget ready' enough in
      (
        d,
        e,
        runs_d,
        runs_e,
        cc (shard_d, shard_e, same_in),
        cc (count_d, count_e, same_in),
        cc (left_d, left_e, same_in),
        cc (sent_d, sent_e, same_in, same_out),
      )
