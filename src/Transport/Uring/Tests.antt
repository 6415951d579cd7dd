-- ===== src/Transport/Uring/Tests.antt =====
-- The io_uring transport over rings that are lists.
use linerate.Base.{
  ℕ, ◌+◌, ◌-◌, ◌≡◌, refl, ap, true, false, Option, none, some, List, [], ◌∷◌, ◌++◌, length, take,
  drop, ltb, if◌then◌else◌, arith, replicate,
}
use linerate.Transport.Uring.{
  Result, other, Ring, Uring, queue_recvs, read_cqes, recv_batch, send_batch,
}
use linerate.Transport.Uring.Inline.{completions, IsInline}
use linerate.Transport.Uring.Receive.{IsIdle, recv_batch_takes}
use linerate.Transport.Uring.Unseen.{IsTaking, send_batch_counts}

record RingLists : Type 0 where
  queued : List ℕ
  ready : List (ℕ × Result)
  waiting : List (List ℕ)

abbrev first : List (ℕ × Result) → Option (ℕ × Result)
first [] = none
first (c ∷ cs) = some c

abbrev lists : Ring RingLists
lists = record {
  prep_recvmsg = λ r i.
      if ltb (length r.queued) 8
      then (record r { queued = r.queued ++ (i ∷ []) }, true)
      else (r, false);
  prep_sendmsg = λ r i p. (r, false);
  submit = λ r. (
    record {
      queued = [];
      ready = r.ready ++ completions r.queued r.waiting;
      waiting = drop (length r.queued) r.waiting;
    },
    true,
  );
  peek_cqe = λ r. first r.ready;
  wait_cqe_timeout = λ r. (r, none);
  wait_cqe = λ r. (r, true);
  cqe_seen = λ r. record r { ready = drop 1 r.ready };
  cq_entries = 16;
}

abbrev lists-IsInline : IsInline lists
lists-IsInline = record {
  entries = 8;
  queued = λ r. r.queued;
  ready = λ r. r.ready;
  waiting = λ r. r.waiting;
  prep_law = λ r i h.
      let e : ltb (length r.queued) 8 ≡ true = ground arith in rw e (refl, refl, refl, refl);
  submit_law = λ r. (refl, refl, refl, refl);
  peek_none = λ r e. ap first e;
  peek_some = λ r c cs e. ap first e;
  seen_law = λ r c cs e. (ap (drop 1) e, refl, refl);
}

abbrev uring : Uring RingLists
uring = record {
  ring = record { queued = []; ready = []; waiting = (1 ∷ []) ∷ (2 ∷ 3 ∷ []) ∷ [] };
  batch = 4;
  sqpoll = false;
  sys = 0;
}

abbrev buffers : List (List ℕ)
buffers = replicate 8 []

recv_batch_takes_example :
    ((recv_batch lists uring buffers 3).2 ≡ 2)
    × (take ((recv_batch lists uring buffers 3).2) ((recv_batch lists uring buffers 3).1)
        ≡ (1 ∷ []) ∷ (2 ∷ 3 ∷ []) ∷ [])
    × ((recv_batch lists uring buffers 3).0.ring.waiting ≡ [])
    × IsIdle lists lists-IsInline ((recv_batch lists uring buffers 3).0.ring)
recv_batch_takes_example =
    recv_batch_takes lists lists-IsInline uring buffers 3 (refl, refl)
      (omega arith, (omega arith, tt)) (omega arith) (omega arith) (omega arith)

-- An empty datagram between two others: two are counted, and the second of the two counted buffers is
-- as it was.
abbrev with_empty : Uring RingLists
with_empty = record uring {
  ring = record { queued = []; ready = []; waiting = (1 ∷ []) ∷ [] ∷ (2 ∷ 3 ∷ []) ∷ [] };
}

empty_between :
    (recv_batch lists with_empty buffers 3).1 ≡ (1 ∷ []) ∷ [] ∷ (2 ∷ 3 ∷ []) ∷ replicate 5 []
unfolding recv_batch queue_recvs read_cqes
empty_between = refl

empty_counted : (recv_batch lists with_empty buffers 3).2 ≡ 2
unfolding recv_batch queue_recvs read_cqes
empty_counted = refl

-- A ring of four entries on which every send fails: the sends prepared, those that the kernel has, and how
-- many completions are ready.
record SendLists : Type 0 where
  prepared : List (List ℕ)
  handed : List (List ℕ)
  ready : ℕ

abbrev failing : Ring SendLists
failing = record {
  prep_recvmsg = λ r i. (r, false);
  prep_sendmsg = λ r i p.
      if ltb (length r.prepared) 4
      then (record r { prepared = r.prepared ++ (p ∷ []) }, true)
      else (r, false);
  submit = λ r. (
    record { prepared = []; handed = r.handed ++ r.prepared; ready = r.ready + length r.prepared },
    true,
  );
  peek_cqe = λ r. if ltb 0 r.ready then some (0, other) else none;
  wait_cqe_timeout = λ r. (r, if ltb 0 r.ready then some (0, other) else none);
  wait_cqe = λ r. (r, ltb 0 r.ready);
  cqe_seen = λ r. record r { ready = r.ready - 1 };
  cq_entries = 8;
}

abbrev failing-IsTaking : IsTaking failing
failing-IsTaking = record {
  entries = 4;
  prepared = λ r. r.prepared;
  handed = λ r. r.handed;
  prep_law =
      λ r i p h. let e : ltb (length r.prepared) 4 ≡ true = ground arith in rw e (refl, refl, refl);
  submit_law = λ r. (refl, refl);
  wait_law = λ r. (refl, refl);
  seen_law = λ r. (refl, refl);
}

abbrev sender : Uring SendLists
sender = record {
  ring = record { prepared = []; handed = []; ready = 0 };
  batch = 4;
  sqpoll = false;
  sys = 0;
}

abbrev packets : List (List ℕ)
packets = (1 ∷ []) ∷ (2 ∷ []) ∷ (3 ∷ []) ∷ (4 ∷ []) ∷ (5 ∷ []) ∷ (6 ∷ []) ∷ []

send_batch_counts_example :
    ((send_batch failing sender packets).1 ≡ 6)
    × ((send_batch failing sender packets).0.ring.handed ≡ packets)
send_batch_counts_example =
    send_batch_counts failing failing-IsTaking sender packets (omega arith) (omega arith) refl
