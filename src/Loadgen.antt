-- ===== src/Loadgen.antt =====
-- The unit of the load generator's daemon, src/apps/lr_loadgend.cpp: struct Unit, start_unit,
-- stop_unit and the turns of the two threads that a unit runs. `emit` is Generator::emit on a
-- generator of type `G`; whether the return port can be bound is an argument, and the waiting of the
-- paced sender is left out. A turn of a thread is atomic; the turns that it takes before stop_unit
-- has joined it come before the call.
pub mod Commands
pub mod Session
pub mod Quiet
pub mod Lines
pub mod Digits
pub mod Replies
pub mod Requests
mod Tests
use linerate.Base.{
  ℕ, ◌+◌, ◌-◌, Bool, true, false, not, Option, none, some, List, [], ◌++◌, length, ltb, ◌==◌,
  if◌then◌else◌,
}
use linerate.Base.Text.{text}
use linerate.Ctrl.{StopReply}
use linerate.Ctrl.Token.{one_token}
use linerate.Wire.{WireHdr, decode, lr_hdr, lr_magic}
use linerate.Shard.{u64}

-- ctrl::StartRequest, for doubles of type `D` and `int`s of type `I`.
pub record StartRequest (D I : Type 0) : Type 0 where
  pub cipher : List ℕ
  pub payload : ℕ
  pub pps : D
  pub seconds : D
  pub dst_addr : List ℕ
  pub dst_port : ℕ
  pub return_port : ℕ
  pub epoch_packets : ℕ
  pub cpu : I

-- The sender's thread: none or joined, begun with a request, in its loop, or returned.
pub data Sender (G Q : Type 0) : Type 0 where
  idle : Sender G Q
  begun : Q → Sender G Q
  sending : G → ℕ → Sender G Q
  returned_early : Sender G Q

-- How the constructors of the sender end: with the text of an error, or a generator.
pub data Made (G : Type 0) : Type 0 where
  shard_error : List ℕ → Made G
  generator_error : List ℕ → Made G
  generator : G → Made G

-- struct Unit; `has_socket` is `return_fd >= 0`, where the second thread runs.
pub record LoadUnit (G Q Hist : Type 0) : Type 0 where
  pub stop : Bool
  pub active : Bool
  pub sender : Sender G Q
  pub has_socket : Bool
  pub sent : ℕ
  pub refused : ℕ
  pub returned : ℕ
  pub rtt : Hist
  pub fault : List ℕ

module _ {G Q Hist : Type 0} where
  abbrev pub new_unit : Hist → LoadUnit G Q Hist
  new_unit empty = record {
    stop = false;
    active = false;
    sender = idle;
    has_socket = false;
    sent = 0;
    refused = 0;
    returned = 0;
    rtt = empty;
    fault = [];
  }

  -- `fail`: the first reason is kept.
  abbrev pub fail : LoadUnit G Q Hist → List ℕ → LoadUnit G Q Hist
  fail u why = if length u.fault == 0 then record u { fault = one_token why } else u

  -- The sender builds its shard and its generator.
  unfoldable pub sender_begins : LoadUnit G Q Hist → Made G → LoadUnit G Q Hist
  sender_begins u made = elim u.sender [
    | idle ↦ u
    | begun q ↦ elim made [
      | shard_error e ↦ fail (record u { sender = returned_early }) (text "shard:" ++ e)
      | generator_error e ↦ fail (record u { sender = returned_early }) (text "generator:" ++ e)
      | generator g ↦ record u { sender = sending g 0 }
    ]
    | sending g seq ↦ u
    | returned_early ↦ u
  ]

  -- One turn of its loop, paced or not.
  unfoldable pub sender_turn : (G → ℕ → G × Bool) → LoadUnit G Q Hist → LoadUnit G Q Hist
  sender_turn emit u = elim u.sender [
    | idle ↦ u
    | begun q ↦ u
    | sending g seq ↦
        let (g', ok) = emit g seq in
        let u' : LoadUnit G Q Hist = record u { sender = sending g' (u64 (seq + 1)) } in
        if u.stop
        then record u { sender = returned_early }
        else if ok
        then record u' { sent = u64 (u.sent + 1) }
        else record u' { refused = u64 (u.refused + 1) }
    | returned_early ↦ u
  ]

  -- A datagram at the return socket, read at tick `now`; `add` puts a span of ticks into the
  -- histogram.
  unfoldable pub returner_turn :
      (ℕ → Hist → Hist) → LoadUnit G Q Hist → ℕ → List ℕ → LoadUnit G Q Hist
  returner_turn add u now p =
      let h : WireHdr = decode p in
      let timed = if ltb h.tsc now then add (now - h.tsc) u.rtt else u.rtt in
      if not u.has_socket
      then u
      else if u.stop
      then u
      else if ltb (length p) lr_hdr
      then u
      else if not (h.magic == lr_magic)
      then u
      else record u { rtt = timed; returned = u64 (u.returned + 1) }

module _ {G D I Hist : Type 0} where
  -- The unit after the call, and the error.
  unfoldable pub start_unit :
      Hist
      → (ℕ → Bool)
      → LoadUnit G (StartRequest D I) Hist
      → StartRequest D I
      → LoadUnit G (StartRequest D I) Hist × Option (List ℕ)
  start_unit empty binds u q =
      let u0 : LoadUnit G (StartRequest D I) Hist = record u {
        stop = false;
        sent = 0;
        refused = 0;
        returned = 0;
        rtt = empty;
        fault = [];
      } in
      let u1 : LoadUnit G (StartRequest D I) Hist = record u0 {
        has_socket = not (q.return_port == 0);
      } in
      if u.active
      then (u, some (text "already running"))
      else if q.return_port == 0
      then (record u0 { sender = begun q; active = true }, none)
      else if not (binds q.return_port)
      then (record u0 { has_socket = false }, some (text "cannot bind return port"))
      else (record u1 { sender = begun q; active = true }, none)

-- The quantiles that stop_unit reports.
pub record Quantiles (Hist D : Type 0) : Type 0 where
  pub p50 : Hist → D
  pub p99 : Hist → D
  pub p999 : Hist → D
  pub nil : D

module _ {G Q D Hist : Type 0} (quantiles : Quantiles Hist D) where
  -- The unit after the call, and the reply; one that was not running leaves the reply blank.
  unfoldable pub stop_unit : LoadUnit G Q Hist → LoadUnit G Q Hist × StopReply D
  stop_unit u =
      let blank : StopReply D = record {
        sent = 0;
        refused = 0;
        returned = 0;
        rtt_p50_ns = quantiles.nil;
        rtt_p99_ns = quantiles.nil;
        rtt_p999_ns = quantiles.nil;
        fault = [];
      } in
      let full : StopReply D = record {
        sent = u.sent;
        refused = u.refused;
        returned = u.returned;
        rtt_p50_ns = quantiles.p50 u.rtt;
        rtt_p99_ns = quantiles.p99 u.rtt;
        rtt_p999_ns = quantiles.p999 u.rtt;
        fault = u.fault;
      } in
      if not u.active
      then (u, blank)
      else (record u { stop = true; sender = idle; has_socket = false; active = false }, full)
