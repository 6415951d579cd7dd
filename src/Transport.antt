-- ===== src/Transport.antt =====
-- The transports of include/lr/transport.hpp, src/core/transport_posix.cpp and
-- src/core/transport_mmsg.cpp. The kernel's socket calls are parameters: a `Socket` says what
-- recv, sendto, recvmmsg and sendmmsg do to the socket and what they return. A packet is the list
-- of the `len` bytes in its slot; a receive gives the packets in the slots it filled.
pub mod Fifo
pub mod Ideal
pub mod Choice
pub mod Uring
use linerate.Base.{
  ℕ, zero, suc, ◌+◌, ◌-◌, ◌%◌, ◌^◌, Bool, Option, none, some, List, [], ◌∷◌, length, take, drop,
  min, ltb, if◌then◌else◌,
}

-- class Transport, for a backend whose objects are of type `S`.
pub record Transport (S : Type 0) : Type 0 where
  pub recv_batch : S → ℕ → S × List (List ℕ)
  pub send_batch : S → List (List ℕ) → S × ℕ
  pub max_batch : S → ℕ
  pub syscalls : S → ℕ

-- What a send reports: a count, ECONNREFUSED, or another error.
pub data SendResult : Type 0 where
  accepted : ℕ → SendResult
  refused : SendResult
  failed : SendResult

-- The system calls on a socket of state `K`; a receive that fails gives `none`.
pub record Socket (K : Type 0) : Type 0 where
  pub recv : K → K × Option (List ℕ)
  pub sendto : K → List ℕ → K × SendResult
  pub recvmmsg : K → ℕ → K × Option (List (List ℕ))
  pub sendmmsg : K → List (List ℕ) → K × SendResult

-- class PosixTransport and class MmsgTransport: the socket, the depth and the counter `sys_`.
pub record Backend (K : Type 0) : Type 0 where
  pub socket : K
  pub batch : ℕ
  pub sys : ℕ

module _ {K : Type 0} (os : Socket K) where
  abbrev called : Backend K → K → Backend K
  called b k = record b { socket = k; sys = (b.sys + 1) % 2 ^ 64 }

  -- One `recv` for each packet, up to the first that gives no byte.
  unfoldable pub posix_recv : Backend K → ℕ → Backend K × List (List ℕ)
  posix_recv b zero = (b, [])
  posix_recv b (suc n) =
      let (k, r) = os.recv b.socket in
      let (b', rest) = posix_recv (called b k) n in
      elim r [
        | none ↦ (called b k, [])
        | some [] ↦ (called b k, [])
        | some (x ∷ p) ↦ (b', (x ∷ p) ∷ rest)
      ]

  -- One `sendto` for each packet, up to the first error other than ECONNREFUSED.
  unfoldable pub posix_send : Backend K → List (List ℕ) → Backend K × ℕ
  posix_send b [] = (b, 0)
  posix_send b (p ∷ ps) =
      let (k, r) = os.sendto b.socket p in
      let (b', rest) = posix_send (called b k) ps in
      elim r [ accepted n ↦ (b', suc rest) | refused ↦ (b', suc rest) | failed ↦ (called b k, 0) ]

  unfoldable pub mmsg_recv : Backend K → ℕ → Backend K × List (List ℕ)
  mmsg_recv b max_n =
      let (k, r) = os.recvmmsg b.socket (min max_n b.batch) in
      elim r [ none ↦ (called b k, []) | some ps ↦ (called b k, ps) ]

  -- The loop of MmsgTransport::send_batch on the packets that are left. Each turn that goes on
  -- takes at least one packet off the list, so a fuel of its length is enough.
  unfoldable pub mmsg_send : ℕ → Backend K → List (List ℕ) → Backend K × ℕ
  mmsg_send zero b ps = (b, 0)
  mmsg_send (suc fuel) b [] = (b, 0)
  mmsg_send (suc fuel) b (p ∷ ps) =
      let chunk = take b.batch (p ∷ ps) in
      let (k, r) = os.sendmmsg b.socket chunk in
      let (b', rest) = mmsg_send fuel (called b k) (drop b.batch (p ∷ ps)) in
      elim r [
        | accepted n ↦ if ltb n (length chunk) then (called b k, n) else (b', n + rest)
        | refused ↦ (b', length chunk + rest)
        | failed ↦ (called b k, 0)
      ]

  abbrev pub posix : Transport (Backend K)
  posix = record {
    recv_batch = posix_recv;
    send_batch = posix_send;
    max_batch = λ b. 1;
    syscalls = λ b. b.sys;
  }

  abbrev pub mmsg : Transport (Backend K)
  mmsg = record {
    recv_batch = mmsg_recv;
    send_batch = λ b ps. mmsg_send (length ps) b ps;
    max_batch = λ b. b.batch;
    syscalls = λ b. b.sys;
  }
