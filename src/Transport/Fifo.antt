-- ===== src/Transport/Fifo.antt =====
-- The contract that a client of a transport relies on: packets that wait come in their order, none
-- is lost, and what is sent goes out in its order.
use linerate.Base.{ℕ, ◌<◌, ◌≤◌, ◌≡◌, List, ◌++◌, length}
use linerate.Transport.{Transport}

pub record Fifo {S : Type 0} (T : Transport S) : Type 1 where
  -- An invariant of the backend, the packets that wait in it and those it has sent.
  pub IsReady : S → Type 0
  pub pending : S → List (List ℕ)
  pub outbox : S → List (List ℕ)
  pub depth : (s : S) → IsReady s → 0 < T.max_batch s
  pub recv_ready : (s : S) (n : ℕ) → IsReady s → IsReady (T.recv_batch s n).0
  pub send_ready : (s : S) (ps : List (List ℕ)) → IsReady s → IsReady (T.send_batch s ps).0
  pub recv_some :
      (s : S) (n : ℕ) → IsReady s → 0 < n → 0 < length (pending s) → 0 < length (T.recv_batch s n).1
  pub recv_le : (s : S) (n : ℕ) → IsReady s → length (T.recv_batch s n).1 ≤ n
  pub recv_splits :
      (s : S) (n : ℕ) → IsReady s → (T.recv_batch s n).1 ++ pending (T.recv_batch s n).0 ≡ pending s
  pub recv_outbox : (s : S) (n : ℕ) → IsReady s → outbox (T.recv_batch s n).0 ≡ outbox s
  pub send_pending :
      (s : S) (ps : List (List ℕ)) → IsReady s → pending (T.send_batch s ps).0 ≡ pending s
  pub send_outbox :
      (s : S) (ps : List (List ℕ)) → IsReady s → outbox (T.send_batch s ps).0 ≡ outbox s ++ ps
