-- ===== src/Transport/Uring.antt =====
-- class UringTransport of src/core/transport_uring.cpp. The ring of liburing is a parameter: what
-- the calls do to its state and what they return. A submission names its slot, and so does its
-- completion; with the completion of a receive come the bytes that the kernel has put into the
-- slot's buffer. A buffer is the list of its `len` bytes.
pub mod Inline
pub mod Receive
pub mod Unseen
mod Tests
use linerate.Base.{
  ℕ, zero, suc, ◌+◌, ◌-◌, ◌%◌, ◌^◌, Bool, true, false, not, Option, none, some, List, [], ◌∷◌,
  length, take, drop, min, ltb, ◌==◌, if◌then◌else◌, set,
}

-- `cqe->res`: a receive of so many bytes, at least one, or any other result.
pub data Result : Type 0 where
  received : List ℕ → Result
  other : Result

pub record Ring (R : Type 0) : Type 0 where
  -- io_uring_get_sqe and the preparation of the entry; false where there is none.
  pub prep_recvmsg : R → ℕ → R × Bool
  pub prep_sendmsg : R → ℕ → List ℕ → R × Bool
  -- io_uring_submit; false where it is negative.
  pub submit : R → R × Bool
  pub peek_cqe : R → Option (ℕ × Result)
  pub wait_cqe_timeout : R → R × Option (ℕ × Result)
  pub wait_cqe : R → R × Bool
  pub cqe_seen : R → R
  -- How many completions the ring holds.
  pub cq_entries : ℕ

pub record Uring (R : Type 0) : Type 0 where
  pub ring : R
  pub batch : ℕ
  pub sqpoll : Bool
  pub sys : ℕ

-- A completion that recv_batch reads: the count and the buffers after it.
abbrev pub store : ℕ × Result → ℕ → List (List ℕ) → ℕ × List (List ℕ)
store (i, received p) got bufs = (suc got, set bufs i p)
store (i, other) got bufs = (got, bufs)

module _ {R : Type 0} (io : Ring R) (sqpoll : Bool) where
  abbrev pub count_call : ℕ → ℕ
  count_call sys = if sqpoll then sys else (sys + 1) % 2 ^ 64

  -- The first loop of recv_batch: slots from `i` on, and how many are queued in the end.
  unfoldable pub queue_recvs : ℕ → ℕ → R → R × ℕ
  queue_recvs zero i r = (r, i)
  queue_recvs (suc left) i r =
      let (r', ok) = io.prep_recvmsg r i in
      let rest = queue_recvs left (suc i) r' in if ok then rest else (r', i)

  -- The second: the ring, the counter of calls, the buffers and the packets counted.
  unfoldable pub read_cqes : ℕ → ℕ → R → ℕ → List (List ℕ) → R × ℕ × List (List ℕ) × ℕ
  read_cqes zero got r sys bufs = (r, sys, bufs, got)
  read_cqes (suc left) got r sys bufs = elim (io.peek_cqe r) [
    | some c ↦ let (got', bufs') = store c got bufs in read_cqes left got' (io.cqe_seen r) sys bufs'
    | none ↦ elim (ltb 0 got) [
      | true ↦ (r, sys, bufs, got)
      | false ↦ elim (io.wait_cqe_timeout r).1 [
        | none ↦ ((io.wait_cqe_timeout r).0, count_call sys, bufs, got)
        | some c ↦
            let (got', bufs') = store c got bufs in
            read_cqes left got' (io.cqe_seen (io.wait_cqe_timeout r).0) (count_call sys) bufs'
      ]
    ]
  ]

  -- Its fuel is what the ring holds.
  unfoldable pub drain_pending : ℕ → R → R
  drain_pending zero r = r
  drain_pending (suc fuel) r =
      let rest = drain_pending fuel (io.cqe_seen r) in
      elim (io.peek_cqe r) [ none ↦ r | some c ↦ rest ]

module _ {R : Type 0} (io : Ring R) where
  -- The buffers after it, and the count returned.
  unfoldable pub recv_batch : Uring R → List (List ℕ) → ℕ → Uring R × List (List ℕ) × ℕ
  recv_batch u bufs max_n =
      let (r1, n) = queue_recvs io u.sqpoll (min max_n u.batch) 0 u.ring in
      let (r2, ok) = io.submit r1 in
      let (r3, sys, bufs', got) =
        read_cqes io u.sqpoll n 0 r2 (count_call io u.sqpoll u.sys) bufs in
      let r4 = drain_pending io u.sqpoll io.cq_entries r3 in
      if min max_n u.batch == 0
      then (u, bufs, 0)
      else if n == 0
      then (record u { ring = r1 }, bufs, 0)
      else if not ok
      then (record u { ring = r2; sys = count_call io u.sqpoll u.sys }, bufs, 0)
      else (record u { ring = r4; sys = sys }, bufs', got)

  -- The first loop of a turn of send_batch: how many of the packets are queued.
  unfoldable pub queue_sends : List (List ℕ) → ℕ → R → R × ℕ
  queue_sends [] i r = (r, i)
  queue_sends (p ∷ ps) i r =
      let (r', ok) = io.prep_sendmsg r i p in
      let rest = queue_sends ps (suc i) r' in if ok then rest else (r', i)

  -- The second waits for their completions, and looks at no result.
  unfoldable pub wait_sends : Bool → ℕ → R → ℕ → R × ℕ
  wait_sends sqpoll zero r sys = (r, sys)
  wait_sends sqpoll (suc left) r sys =
      let (r', ok) = io.wait_cqe r in
      let rest = wait_sends sqpoll left (io.cqe_seen r') (count_call io sqpoll sys) in
      if ok then rest else (r', count_call io sqpoll sys)

  -- The outer loop on the packets that are left. Each turn that goes on queues one at least, so a fuel of
  -- their number is enough.
  unfoldable pub send_loop : ℕ → Uring R → List (List ℕ) → Uring R × ℕ
  send_loop zero u ps = (u, 0)
  send_loop (suc fuel) u [] = (u, 0)
  send_loop (suc fuel) u (p ∷ ps) =
      let (r1, queued) = queue_sends (take u.batch (p ∷ ps)) 0 u.ring in
      let r2 = (io.submit r1).0 in
      let (r3, sys) = wait_sends u.sqpoll queued r2 (count_call io u.sqpoll u.sys) in
      let (u', rest) = send_loop fuel (record u { ring = r3; sys = sys }) (drop queued (p ∷ ps)) in
      if queued == 0 then (record u { ring = r1 }, 0) else (u', queued + rest)

  abbrev pub send_batch : Uring R → List (List ℕ) → Uring R × ℕ
  send_batch u ps = send_loop (length ps) u ps
