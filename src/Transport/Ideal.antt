-- ===== src/Transport/Ideal.antt =====
-- On a socket that loses nothing the backends posix and mmsg keep the contract of Fifo.
use linerate.Base.{
  ℕ, zero, suc, ◌+◌, ◌%◌, ◌^◌, ◌<◌, ◌≤◌, ◌≡◌, refl, sym, ap, ap₂, subst, ◌∙◌, inl, inr, min, false,
  none, some, List, [], ◌∷◌, ◌++◌, length, take, drop, All, length-take, length-append, List-cases,
  append_assoc, append-nil, ltb, arith,
}
use linerate.Transport.{
  accepted, Socket, Backend, posix_recv, posix_send, mmsg_recv, mmsg_send, posix, mmsg,
}
use linerate.Transport.Fifo.{Fifo}

-- What recv, recvmmsg, sendto and sendmmsg document, on a socket that loses nothing: `waiting` is
-- its receive queue and `gone` what it has sent.
pub record Ideal {K : Type 0} (os : Socket K) : Type 0 where
  pub waiting : K → List (List ℕ)
  pub gone : K → List (List ℕ)
  pub recv_none :
      (k : K)
      → waiting k ≡ []
      → ((os.recv k).1 ≡ none) × (waiting (os.recv k).0 ≡ []) × (gone (os.recv k).0 ≡ gone k)
  pub recv_first :
      (k : K) (p : List ℕ) (ps : List (List ℕ))
      → waiting k ≡ p ∷ ps
      → ((os.recv k).1 ≡ some p) × (waiting (os.recv k).0 ≡ ps) × (gone (os.recv k).0 ≡ gone k)
  pub recvmmsg_takes :
      (k : K) (n : ℕ)
      → ((os.recvmmsg k n).1 ≡ some (take n (waiting k)))
        × (waiting (os.recvmmsg k n).0 ≡ drop n (waiting k))
        × (gone (os.recvmmsg k n).0 ≡ gone k)
  pub sendto_adds :
      (k : K) (p : List ℕ)
      → ((os.sendto k p).1 ≡ accepted (length p))
        × (waiting (os.sendto k p).0 ≡ waiting k)
        × (gone (os.sendto k p).0 ≡ gone k ++ (p ∷ []))
  pub sendmmsg_adds :
      (k : K) (ps : List (List ℕ))
      → ((os.sendmmsg k ps).1 ≡ accepted (length ps))
        × (waiting (os.sendmmsg k ps).0 ≡ waiting k)
        × (gone (os.sendmmsg k ps).0 ≡ gone k ++ ps)

-- A datagram of no byte makes PosixTransport::recv_batch stop as on an empty socket.
abbrev pub HasBytes : List ℕ → Type 0
HasBytes p = 0 < length p

take-drop {ℓ} : {A : Type ℓ} (n : ℕ) (xs : List A) → take n xs ++ drop n xs ≡ xs
take-drop zero xs = refl
take-drop (suc n) [] = refl
take-drop (suc n) (x ∷ xs) = ap (λ l. x ∷ l) (take-drop n xs)

pub All-drop {ℓ κ} :
    {A : Type ℓ} (P : A → Type κ) (n : ℕ) (xs : List A) → All P xs → All P (drop n xs)
All-drop P zero xs h = h
All-drop P (suc n) [] h = h
All-drop P (suc n) (x ∷ xs) h = All-drop P n xs h.1

ltb_self : (n : ℕ) → ltb n n ≡ false
ltb_self n = ground arith

module _ {K : Type 0} (os : Socket K) (I : Ideal os) where
  -- A receive that leaves these packets waiting and has returned those.
  abbrev Received : Backend K → ℕ → Backend K → List (List ℕ) → Type 0
  Received b n b' ps =
      (ps ≡ take n (I.waiting b.socket))
      × (I.waiting b'.socket ≡ drop n (I.waiting b.socket))
      × (I.gone b'.socket ≡ I.gone b.socket)
      × (b'.batch ≡ b.batch)

  abbrev Sent : Backend K → List (List ℕ) → Backend K → Type 0
  Sent b ps b' =
      (I.waiting b'.socket ≡ I.waiting b.socket)
      × (I.gone b'.socket ≡ I.gone b.socket ++ ps)
      × (b'.batch ≡ b.batch)

  first_came :
      (b : Backend K) (n : ℕ) (p : List ℕ) (ps : List (List ℕ))
      → I.waiting b.socket ≡ p ∷ ps
      → HasBytes p
      → (os.recv b.socket).1 ≡ some p
      → I.waiting (os.recv b.socket).0 ≡ ps
      → I.gone (os.recv b.socket).0 ≡ I.gone b.socket
      → let b1 : Backend K = record b {
        socket = (os.recv b.socket).0;
        sys = (b.sys + 1) % 2 ^ 64;
      } in
        Received b1 n (posix_recv os b1 n).0 (posix_recv os b1 n).1
        → Received b (suc n) (posix_recv os b (suc n)).0 (posix_recv os b (suc n)).1
  unfolding posix_recv
  first_came b n [] ps e full got left same later = absurd (omega arith)
  first_came b n (x ∷ p) ps e full got left same (ps_eq, waits, gone, batch) =
      rw (got, e, posix_recv)
        (
          ap (λ l. (x ∷ p) ∷ l) (ps_eq ∙ ap (take n) left),
          waits ∙ ap (drop n) left,
          gone ∙ same,
          batch,
        )

  -- The loop of single receives takes the first packets, if none of those that wait is empty.
  pub posix_recv_takes :
      (n : ℕ) (b : Backend K)
      → All HasBytes (I.waiting b.socket)
      → Received b n (posix_recv os b n).0 (posix_recv os b n).1
  unfolding posix_recv
  posix_recv_takes zero b full = (refl, refl, refl, refl)
  posix_recv_takes (suc n) b full = elim (List-cases (I.waiting b.socket)) [
    | inl e ↦
        let (got, left, same) = I.recv_none b.socket e in
        rw (got, e, posix_recv) (refl, left, same, refl)
    | inr (p, ps, e) ↦
        let (got, left, same) = I.recv_first b.socket p ps e in
        let full' = subst (All HasBytes) e full in
        let later =
          posix_recv_takes n
            (record b { socket = (os.recv b.socket).0; sys = (b.sys + 1) % 2 ^ 64 })
            (subst (All HasBytes) (sym left) full'.1) in
        first_came b n p ps e full'.0 got left same later
  ]

  pub posix_send_adds :
      (ps : List (List ℕ)) (b : Backend K)
      → Sent b ps (posix_send os b ps).0 × ((posix_send os b ps).1 ≡ length ps)
  unfolding posix_send
  posix_send_adds [] b = ((refl, sym (append-nil (I.gone b.socket)), refl), refl)
  posix_send_adds (p ∷ ps) b =
      let (res, same, more) = I.sendto_adds b.socket p in
      let ((waits, gone, batch), count) =
        posix_send_adds ps
          (record b { socket = (os.sendto b.socket p).0; sys = (b.sys + 1) % 2 ^ 64 }) in
      rw (res, posix_send)
        (
          (
            waits ∙ same,
            gone ∙ ap (λ g. g ++ ps) more ∙ append_assoc (I.gone b.socket) (p ∷ []) ps,
            batch,
          ),
          ap suc count,
        )

  pub mmsg_recv_takes :
      (n : ℕ) (b : Backend K) → Received b (min n b.batch) (mmsg_recv os b n).0 (mmsg_recv os b n).1
  unfolding mmsg_recv
  mmsg_recv_takes n b =
      let (res, left, same) = I.recvmmsg_takes b.socket (min n b.batch) in
      rw (res, mmsg_recv) (refl, left, same, refl)

  pub mmsg_send_adds :
      (fuel : ℕ) (b : Backend K) (ps : List (List ℕ))
      → 0 < b.batch
      → length ps ≤ fuel
      → Sent b ps (mmsg_send os fuel b ps).0 × ((mmsg_send os fuel b ps).1 ≡ length ps)
  unfolding mmsg_send
  mmsg_send_adds zero b [] deep enough = ((refl, sym (append-nil (I.gone b.socket)), refl), refl)
  mmsg_send_adds zero b (p ∷ ps) deep enough = absurd (omega arith)
  mmsg_send_adds (suc fuel) b [] deep enough =
      ((refl, sym (append-nil (I.gone b.socket)), refl), refl)
  mmsg_send_adds (suc fuel) b (p ∷ ps) deep enough =
      let chunk = take b.batch (p ∷ ps) in
      let rest = drop b.batch (p ∷ ps) in
      let (res, same, more) = I.sendmmsg_adds b.socket chunk in
      let cut = take-drop b.batch (p ∷ ps) in
      let lens = length-append chunk rest in
      let lens' = ap length cut in
      let size = length-take b.batch (p ∷ ps) in
      let ((waits, gone, batch), count) =
        mmsg_send_adds fuel
          (record b { socket = (os.sendmmsg b.socket chunk).0; sys = (b.sys + 1) % 2 ^ 64 }) rest
          deep (omega (arith, lens, lens', size)) in
      rw (res, ltb_self (length chunk), mmsg_send)
        (
          (
            waits ∙ same,
            gone
                ∙ ap (λ g. g ++ rest) more
                ∙ append_assoc (I.gone b.socket) chunk rest
                ∙ ap (λ l. I.gone b.socket ++ l) cut,
            batch,
          ),
          omega (arith, lens, lens', count),
        )

  pub got_length :
      (b b' : Backend K) (n : ℕ) (ps : List (List ℕ))
      → Received b n b' ps
      → length ps ≡ min n (length (I.waiting b.socket))
  got_length b b' n ps got = ap length got.0 ∙ length-take n (I.waiting b.socket)

  pub got_splits :
      (b b' : Backend K) (n : ℕ) (ps : List (List ℕ))
      → Received b n b' ps
      → ps ++ I.waiting b'.socket ≡ I.waiting b.socket
  got_splits b b' n ps got = ap₂ (λ x y. x ++ y) got.0 got.1 ∙ take-drop n (I.waiting b.socket)

  -- The backend posix keeps the contract while no datagram that waits is empty.
  unfoldable pub posix_fifo : Fifo (posix os)
  posix_fifo = record {
    IsReady = λ b. All HasBytes (I.waiting b.socket);
    pending = λ b. I.waiting b.socket;
    outbox = λ b. I.gone b.socket;
    depth = λ b full. omega arith;
    recv_ready = λ b n full.
        subst (All HasBytes) (sym (posix_recv_takes n b full).1)
          (All-drop HasBytes n (I.waiting b.socket) full);
    send_ready = λ b ps full. subst (All HasBytes) (sym (posix_send_adds ps b).0.0) full;
    recv_some = λ b n full asked waits.
        let got =
          got_length b (posix_recv os b n).0 n (posix_recv os b n).1 (posix_recv_takes n b full) in
        omega (arith, got);
    recv_le = λ b n full.
        let got =
          got_length b (posix_recv os b n).0 n (posix_recv os b n).1 (posix_recv_takes n b full) in
        omega (arith, got);
    recv_splits = λ b n full.
        got_splits b (posix_recv os b n).0 n (posix_recv os b n).1 (posix_recv_takes n b full);
    recv_outbox = λ b n full. (posix_recv_takes n b full).2;
    send_pending = λ b ps full. (posix_send_adds ps b).0.0;
    send_outbox = λ b ps full. (posix_send_adds ps b).0.1;
  }

  -- The backend mmsg keeps it at any depth above 0.
  unfoldable pub mmsg_fifo : Fifo (mmsg os)
  mmsg_fifo = record {
    IsReady = λ b. 0 < b.batch;
    pending = λ b. I.waiting b.socket;
    outbox = λ b. I.gone b.socket;
    depth = λ b deep. deep;
    recv_ready = λ b n deep. subst (λ d. 0 < d) (sym (mmsg_recv_takes n b).3) deep;
    send_ready = λ b ps deep. subst (λ d. 0 < d) (sym (sends b ps deep).0.2) deep;
    recv_some = λ b n deep asked waits.
        let got =
          got_length b (mmsg_recv os b n).0 (min n b.batch) (mmsg_recv os b n).1
            (mmsg_recv_takes n b) in
        omega (arith, got);
    recv_le = λ b n deep.
        let got =
          got_length b (mmsg_recv os b n).0 (min n b.batch) (mmsg_recv os b n).1
            (mmsg_recv_takes n b) in
        omega (arith, got);
    recv_splits = λ b n deep.
        got_splits b (mmsg_recv os b n).0 (min n b.batch) (mmsg_recv os b n).1
          (mmsg_recv_takes n b);
    recv_outbox = λ b n deep. (mmsg_recv_takes n b).2;
    send_pending = λ b ps deep. (sends b ps deep).0.0;
    send_outbox = λ b ps deep. (sends b ps deep).0.1;
  }
    where
      sends :
          (b : Backend K) (ps : List (List ℕ))
          → 0 < b.batch
          → Sent b ps (mmsg_send os (length ps) b ps).0
            × ((mmsg_send os (length ps) b ps).1 ≡ length ps)
      sends b ps deep = mmsg_send_adds (length ps) b ps deep (omega arith)
