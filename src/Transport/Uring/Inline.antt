-- ===== src/Transport/Uring/Inline.antt =====
-- The loops of recv_batch over a ring that completes each receive when it is submitted, as it does
-- without the submission poller.
use linerate.Base.{
  ℕ, zero, suc, ◌+◌, ◌≤◌, ◌<◌, ◌≡◌, refl, ap, sym, ◌∙◌, Bool, true, none, some, List, [], ◌∷◌, ◌++◌,
  length, take, drop, arith, All, append_assoc, append-nil, length-append, set,
}
use linerate.Transport.Uring.{Result, received, other, Ring, queue_recvs, read_cqes, drain_pending}

-- What a receive of a datagram reports: an empty one has the result 0.
abbrev answer : List ℕ → Result
answer [] = other
answer (x ∷ p) = received (x ∷ p)

-- What the socket gives to the receives of some slots.
abbrev pub completions : List ℕ → List (List ℕ) → List (ℕ × Result)
completions [] w = []
completions (i ∷ is) [] = (i, other) ∷ completions is []
completions (i ∷ is) (p ∷ w) = (i, answer p) ∷ completions is w

-- The ring's views: the slots queued, the completions that are ready and the packets that wait at the socket.
pub record IsInline {R : Type 0} (io : Ring R) : Type 0 where
  pub entries : ℕ
  pub queued : R → List ℕ
  pub ready : R → List (ℕ × Result)
  pub waiting : R → List (List ℕ)
  pub prep_law :
      (r : R) (i : ℕ)
      → length (queued r) < entries
      → ((io.prep_recvmsg r i).1 ≡ true)
        × (queued (io.prep_recvmsg r i).0 ≡ queued r ++ (i ∷ []))
        × (ready (io.prep_recvmsg r i).0 ≡ ready r)
        × (waiting (io.prep_recvmsg r i).0 ≡ waiting r)
  pub submit_law :
      (r : R)
      → ((io.submit r).1 ≡ true)
        × (queued (io.submit r).0 ≡ [])
        × (ready (io.submit r).0 ≡ ready r ++ completions (queued r) (waiting r))
        × (waiting (io.submit r).0 ≡ drop (length (queued r)) (waiting r))
  pub peek_none : (r : R) → ready r ≡ [] → io.peek_cqe r ≡ none
  pub peek_some :
      (r : R) (c : ℕ × Result) (cs : List (ℕ × Result)) → ready r ≡ c ∷ cs → io.peek_cqe r ≡ some c
  pub seen_law :
      (r : R) (c : ℕ × Result) (cs : List (ℕ × Result))
      → ready r ≡ c ∷ cs
      → (ready (io.cqe_seen r) ≡ cs)
        × (queued (io.cqe_seen r) ≡ queued r)
        × (waiting (io.cqe_seen r) ≡ waiting r)

abbrev pub IsFull : List ℕ → Type 0
IsFull p = 0 < length p

abbrev pub range : ℕ → ℕ → List ℕ
range i zero = []
range i (suc k) = i ∷ range (suc i) k

-- The first buffers hold the packets.
abbrev pub filled : ℕ → List (List ℕ) → List (List ℕ) → List (List ℕ)
filled zero w rest = rest
filled (suc k) [] rest = rest
filled (suc k) (p ∷ w) [] = []
filled (suc k) (p ∷ w) (b ∷ rest) = p ∷ filled k w rest

pub length-range : (i k : ℕ) → length (range i k) ≡ k
length-range i zero = refl
length-range i (suc k) = ap suc (length-range (suc i) k)

pub filled-take :
    (k : ℕ) (w rest : List (List ℕ))
    → k ≤ length rest
    → take (length (take k w)) (filled k w rest) ≡ take k w
filled-take zero w rest h = refl
filled-take (suc k) [] rest h = refl
filled-take (suc k) (p ∷ w) [] h = absurd (omega arith)
filled-take (suc k) (p ∷ w) (b ∷ rest) h = ap (λ t. p ∷ t) (filled-take k w rest (omega arith))

set_next :
    (done : List (List ℕ)) (b p : List ℕ) (rest : List (List ℕ))
    → set (done ++ (b ∷ rest)) (length done) p ≡ (done ++ (p ∷ [])) ++ rest
set_next [] b p rest = refl
set_next (d ∷ done) b p rest = ap (λ t. d ∷ t) (set_next done b p rest)

module _ {R : Type 0} (io : Ring R) (inline : IsInline io) (sqpoll : Bool) where
  pub queue_recvs_each :
      (left i : ℕ) (r : R)
      → length (inline.queued r) + left ≤ inline.entries
      → ((queue_recvs io sqpoll left i r).1 ≡ i + left)
        × (inline.queued (queue_recvs io sqpoll left i r).0 ≡ inline.queued r ++ range i left)
        × (inline.ready (queue_recvs io sqpoll left i r).0 ≡ inline.ready r)
        × (inline.waiting (queue_recvs io sqpoll left i r).0 ≡ inline.waiting r)
  unfolding queue_recvs
  queue_recvs_each zero i r h = (omega arith, sym (append-nil (inline.queued r)), refl, refl)
  queue_recvs_each (suc left) i r h =
      let (ok, q, rd, w) = inline.prep_law r i (omega arith) in
      let r' = (io.prep_recvmsg r i).0 in
      let (n, q', rd', w') =
        queue_recvs_each left (suc i) r'
          (omega (arith, ap length q, length-append (inline.queued r) (i ∷ []))) in
      rw ok (
        n ∙ omega arith,
        q'
            ∙ ap (λ t. t ++ range (suc i) left) q
            ∙ append_assoc (inline.queued r) (i ∷ []) (range (suc i) left),
        rd' ∙ rd,
        w' ∙ w,
      )

  read_cqes_failed :
      (left i got : ℕ) (r : R) (sys : ℕ) (bufs : List (List ℕ))
      → inline.ready r ≡ completions (range i left) []
      → ((read_cqes io sqpoll left got r sys bufs).2 ≡ bufs)
        × ((read_cqes io sqpoll left got r sys bufs).3 ≡ got)
        × (inline.ready (read_cqes io sqpoll left got r sys bufs).0 ≡ [])
        × (inline.queued (read_cqes io sqpoll left got r sys bufs).0 ≡ inline.queued r)
        × (inline.waiting (read_cqes io sqpoll left got r sys bufs).0 ≡ inline.waiting r)
  unfolding read_cqes
  read_cqes_failed zero i got r sys bufs e = (refl, refl, e, refl, refl)
  read_cqes_failed (suc left) i got r sys bufs e =
      let here = inline.peek_some r _ _ e in
      let (rd, q, w) = inline.seen_law r _ _ e in
      let (b, g, rd', q', w') = read_cqes_failed left (suc i) got (io.cqe_seen r) sys bufs rd in
      rw (here, read_cqes) (b, g, rd', q' ∙ q, w' ∙ w)

  pub read_cqes_each :
      (left got : ℕ) (w : List (List ℕ)) (r : R) (sys : ℕ) (done rest : List (List ℕ))
      → inline.ready r ≡ completions (range (length done) left) w
      → left ≤ length rest
      → All IsFull w
      → ((read_cqes io sqpoll left got r sys (done ++ rest)).2 ≡ done ++ filled left w rest)
        × ((read_cqes io sqpoll left got r sys (done ++ rest)).3 ≡ got + length (take left w))
        × (inline.ready (read_cqes io sqpoll left got r sys (done ++ rest)).0 ≡ [])
        × (inline.queued (read_cqes io sqpoll left got r sys (done ++ rest)).0 ≡ inline.queued r)
        × (inline.waiting (read_cqes io sqpoll left got r sys (done ++ rest)).0 ≡ inline.waiting r)
  unfolding read_cqes
  read_cqes_each zero got w r sys done rest e h full = (refl, omega arith, e, refl, refl)
  read_cqes_each (suc left) got [] r sys done rest e h full =
      let (b, g, rd, q, w) = read_cqes_failed (suc left) (length done) got r sys (done ++ rest) e in
      (b, g ∙ omega arith, rd, q, w)
  read_cqes_each (suc left) got ([] ∷ w) r sys done rest e h full = absurd (omega (arith, full.0))
  read_cqes_each (suc left) got ((x ∷ p) ∷ w) r sys done [] e h full = absurd (omega arith)
  read_cqes_each (suc left) got ((x ∷ p) ∷ w) r sys done (b ∷ rest) e h full =
      let here = inline.peek_some r _ _ e in
      let (rd, q, wt) = inline.seen_law r _ _ e in
      let (bs, g, rd', q', wt') =
        read_cqes_each left (suc got) w (io.cqe_seen r) sys (done ++ ((x ∷ p) ∷ [])) rest
          (rd
            ∙ ap (λ n. completions (range n left) w)
                (sym (length-append done ((x ∷ p) ∷ []) ∙ omega arith)))
          (omega arith) full.1 in
      rw (here, read_cqes, set_next done b (x ∷ p) rest)
        (
          bs ∙ append_assoc done ((x ∷ p) ∷ []) (filled left w rest),
          g ∙ omega arith,
          rd',
          q' ∙ q,
          wt' ∙ wt,
        )

  pub drain_none : (fuel : ℕ) (r : R) → inline.ready r ≡ [] → drain_pending io sqpoll fuel r ≡ r
  unfolding drain_pending
  drain_none zero r e = refl
  drain_none (suc fuel) r e = rw (inline.peek_none r e, drain_pending) refl
