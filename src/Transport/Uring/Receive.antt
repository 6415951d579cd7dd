-- ===== src/Transport/Uring/Receive.antt =====
-- recv_batch over a ring that completes each receive when it is submitted.
use linerate.Base.{
  ℕ, ◌≤◌, ◌<◌, ◌≡◌, ◌==◌, refl, ap, sym, ◌∙◌, true, false, List, [], ◌++◌, length, take, drop, min,
  arith, All, subst,
}
use linerate.Transport.Uring.{Ring, Uring, queue_recvs, read_cqes, recv_batch, count_call}
use linerate.Transport.Uring.Inline.{
  completions, IsInline, IsFull, range, length-range, filled-take, queue_recvs_each, read_cqes_each,
  drain_none,
}

module _ {R : Type 0} (io : Ring R) (inline : IsInline io) where
  -- Nothing is queued, and no completion is left.
  abbrev pub IsIdle : R → Type 0
  IsIdle r = (inline.queued r ≡ []) × (inline.ready r ≡ [])

  module _ (u : Uring R) (bufs : List (List ℕ)) (max_n : ℕ) where
    abbrev asked : ℕ
    asked = min max_n u.batch

    abbrev submitted : R
    submitted = (io.submit (queue_recvs io u.sqpoll asked 0 u.ring).0).0

    abbrev kept : R × ℕ × List (List ℕ) × ℕ
    kept = read_cqes io u.sqpoll asked 0 submitted (count_call io u.sqpoll u.sys) bufs

    recv_batch_runs :
        0 < asked
        → (queue_recvs io u.sqpoll asked 0 u.ring).1 ≡ asked
        → (io.submit (queue_recvs io u.sqpoll asked 0 u.ring).0).1 ≡ true
        → inline.ready kept.0 ≡ []
        → recv_batch io u bufs max_n ≡ (record u { ring = kept.0; sys = kept.1 }, kept.2, kept.3)
    unfolding recv_batch
    recv_batch_runs some_asked all ok none_left =
        let zero_asked : (asked == 0) ≡ false = ground arith in
        rw (all, zero_asked, ok, drain_none io inline u.sqpoll io.cq_entries kept.0 none_left) refl

    submitted_views :
        IsIdle u.ring
        → asked ≤ inline.entries
        → ((queue_recvs io u.sqpoll asked 0 u.ring).1 ≡ asked)
          × ((io.submit (queue_recvs io u.sqpoll asked 0 u.ring).0).1 ≡ true)
          × (inline.queued submitted ≡ [])
          × (inline.ready submitted ≡ completions (range 0 asked) (inline.waiting u.ring))
          × (inline.waiting submitted ≡ drop asked (inline.waiting u.ring))
    submitted_views idle room =
        let (n, q, rd, w) =
          queue_recvs_each io inline u.sqpoll asked 0 u.ring
            (omega (arith, room, ap length idle.0)) in
        let (ok, q2, rd2, w2) = inline.submit_law (queue_recvs io u.sqpoll asked 0 u.ring).0 in
        let slots = q ∙ ap (λ t. t ++ range 0 asked) idle.0 in
        (
          n ∙ omega arith,
          ok,
          q2,
          rd2 ∙ (λ j. (rd ∙ idle.1) j ++ completions (slots j) (w j)),
          w2 ∙ (λ j. drop ((ap length slots ∙ length-range 0 asked) j) (w j)),
        )

  -- Over a ring that completes each receive when it is submitted, with nothing queued or left,
  -- where no datagram that waits is empty, and asked for one packet or more, with entries and
  -- buffers for as many as the batch allows: recv_batch returns the count of the packets that
  -- wait, up to the number asked for and the batch; the first buffers hold them in their order,
  -- they are taken off the socket and no other is, and the ring is left with nothing queued or
  -- left.
  pub recv_batch_takes :
      (u : Uring R) (bufs : List (List ℕ)) (max_n : ℕ)
      → IsIdle u.ring
      → All IsFull (inline.waiting u.ring)
      → 0 < min max_n u.batch
      → min max_n u.batch ≤ inline.entries
      → min max_n u.batch ≤ length bufs
      → ((recv_batch io u bufs max_n).2 ≡ length (take (min max_n u.batch) (inline.waiting u.ring)))
        × (take ((recv_batch io u bufs max_n).2) ((recv_batch io u bufs max_n).1)
            ≡ take (min max_n u.batch) (inline.waiting u.ring))
        × (inline.waiting ((recv_batch io u bufs max_n).0.ring)
            ≡ drop (min max_n u.batch) (inline.waiting u.ring))
        × IsIdle ((recv_batch io u bufs max_n).0.ring)
  recv_batch_takes u bufs max_n idle full some_asked room space =
      let w = inline.waiting u.ring in
      let n = min max_n u.batch in
      let (all, ok, q, rd, wt) = submitted_views u bufs max_n idle room in
      let (bs, g, rd', q', wt') =
        read_cqes_each io inline u.sqpoll n 0 w (submitted u bufs max_n)
          (count_call io u.sqpoll u.sys) [] bufs rd space full in
      let count : (kept u bufs max_n).3 ≡ length (take n w) = omega (arith, g) in
      subst
        (λ (o : Uring R × List (List ℕ) × ℕ).
          (o.2 ≡ length (take n w))
          × (take o.2 o.1 ≡ take n w)
          × (inline.waiting o.0.ring ≡ drop n w)
          × IsIdle o.0.ring)
        (sym (recv_batch_runs u bufs max_n some_asked all ok rd'))
        (count, (λ j. take (count j) (bs j)) ∙ filled-take n w bufs space, wt' ∙ wt, (q' ∙ q, rd'))
