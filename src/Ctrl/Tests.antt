-- ===== src/Ctrl/Tests.antt =====
-- A connection for runs of the control channel.
use linerate.Base.{ℕ, refl, Option, none, some, List, [], ◌∷◌, arith}
use linerate.Ctrl.{Conn}
use linerate.Ctrl.Lines.{Peer}

-- A connection whose state is what will come in, and which takes two bytes at a time.
abbrev pub next_byte : List ℕ → List ℕ × Option ℕ
next_byte [] = ([], none)
next_byte (c ∷ s) = (s, some c)

abbrev pub script : Conn (List ℕ)
script = record { send = λ k s. (k, some 2); recv = next_byte }

abbrev pub script-Peer : Peer script
script-Peer = record {
  incoming = λ k. k;
  recv_next = λ k c s e. rw e (refl, refl);
  send_takes = λ k c s. (2, refl, omega arith, refl);
}
