-- ===== src/Ctrl/Lines.antt =====
-- A request and its reply over a connection that stays up.
use linerate.Base.{
  ℕ, zero, suc, ◌<◌, ◌≤◌, ◌≡◌, refl, ◌∙◌, true, false, some, List, [], ◌∷◌, ◌++◌, length, drop, All,
  ◌==◌, arith,
}
use linerate.Ctrl.{Conn, done, send_all, recv_line, request}

-- A connection that stays up: `incoming` is what the peer will have sent, and a send takes a byte
-- or more.
pub record Peer {K : Type 0} (conn : Conn K) : Type 0 where
  pub incoming : K → List ℕ
  pub recv_next :
      (k : K) (c : ℕ) (s : List ℕ)
      → incoming k ≡ c ∷ s
      → ((conn.recv k).1 ≡ some c) × (incoming (conn.recv k).0 ≡ s)
  pub send_takes :
      (k : K) (c : ℕ) (s : List ℕ)
      → (w : ℕ) × ((conn.send k (c ∷ s)).1 ≡ some w)
        × (0 < w)
        × (incoming (conn.send k (c ∷ s)).0 ≡ incoming k)

-- No line feed in it.
abbrev pub IsLine : List ℕ → Type 0
IsLine s = All (λ c. (c == 10) ≡ false) s

length-drop-le : (n : ℕ) (s : List ℕ) → length (drop n s) ≤ length s
length-drop-le zero s = omega arith
length-drop-le (suc n) [] = omega arith
length-drop-le (suc n) (c ∷ s) = omega (arith, length-drop-le n s)

drop_shorter : (n c : ℕ) (s : List ℕ) → 0 < n → length (drop n (c ∷ s)) ≤ length s
drop_shorter zero c s h = absurd (omega arith)
drop_shorter (suc n) c s h = length-drop-le n s

module _ {K : Type 0} (conn : Conn K) (p : Peer conn) where
  send_all_done :
      (fuel : ℕ) (k : K) (s : List ℕ)
      → length s ≤ fuel
      → ((send_all conn fuel k s).1 ≡ true) × (p.incoming (send_all conn fuel k s).0 ≡ p.incoming k)
  unfolding send_all
  send_all_done zero k s h = (refl, refl)
  send_all_done (suc fuel) k [] h = (refl, refl)
  send_all_done (suc fuel) k (c ∷ s) h =
      let (w, took, some_taken, same) = p.send_takes k c s in
      let (all, still) =
        send_all_done fuel (conn.send k (c ∷ s)).0 (drop w (c ∷ s))
          (omega (arith, drop_shorter w c s some_taken)) in
      rw (took, send_all) (all, still ∙ same)

  recv_line_reads :
      (room : ℕ) (k : K) (reply rest : List ℕ)
      → p.incoming k ≡ reply ++ (10 ∷ rest)
      → IsLine reply
      → length reply ≤ room
      → ((recv_line conn room k).1 ≡ done reply) × (p.incoming (recv_line conn room k).0 ≡ rest)
  unfolding recv_line
  recv_line_reads zero k [] rest e h fits =
      let (got, left) = p.recv_next k 10 rest e in rw (got, recv_line) (refl, left)
  recv_line_reads zero k (c ∷ s) rest e h fits = absurd (omega arith)
  recv_line_reads (suc room) k [] rest e h fits =
      let (got, left) = p.recv_next k 10 rest e in rw (got, recv_line) (refl, left)
  recv_line_reads (suc room) k (c ∷ s) rest e h fits =
      let (got, left) = p.recv_next k c (s ++ (10 ∷ rest)) e in
      let (text, after) = recv_line_reads room (conn.recv k).0 s rest left h.1 (omega arith) in
      rw (got, h.0, text, recv_line) (refl, after)

  -- On a connection that stays up, a request gets the reply line that the peer sends, of at most
  -- 4096 bytes, without its line feed; what follows the line is left for the next request.
  pub request_replies :
      (k : K) (line reply rest : List ℕ)
      → p.incoming k ≡ reply ++ (10 ∷ rest)
      → IsLine reply
      → length reply ≤ 4096
      → (k' : K) × (request conn (some k) line ≡ (some k', done reply)) × (p.incoming k' ≡ rest)
  unfolding request
  request_replies k line reply rest e h fits =
      let out = line ++ (10 ∷ []) in
      let (sent, same) = send_all_done (length out) k out (omega arith) in
      let (text, after) =
        recv_line_reads 4096 (send_all conn (length out) k out).0 reply rest (same ∙ e) h fits in
      (
        (recv_line conn 4096 (send_all conn (length out) k out).0).0,
        rw (sent, text, request) refl,
        after,
      )
