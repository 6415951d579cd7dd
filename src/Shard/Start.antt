-- ===== src/Shard/Start.antt =====
-- The constructor of class Shard and reset_stats, src/core/worker.cpp. Parameters: HKDF and the
-- cipher factory; `open_udp addr rcvbuf sndbuf`, the port of the new socket; `open_backend`, what
-- the factory's maker gives. Pinning the thread and the text of the errors are left out.
pub mod Layout
use Prim.Native.String.{String}
use text.Mathlib.Text.{◌==◌ as str_eq}
use linerate.Base.{
  ℕ, zero, suc, ◌+◌, ◌*◌, ◌%◌, ◌≤◌, ◌<◌, ◌≡◌, refl, ap, sym, subst, ◌∙◌, inl, inr, Bool, true,
  false, not, ◌&&◌, Option, none, some, List, [], ◌∷◌, ◌++◌, length, take, replicate, ltb,
  if◌then◌else◌, All, All-append, arith, Bool-cases, Option-cases, length-append, length-replicate,
  take-append,
}
use linerate.Base.Words.{IsByte}
use linerate.Aead.{Aead}
use linerate.Keys.{KeySchedule, Hkdf, for_epoch, create as create_keys}
use linerate.Replay.{create as create_window}
use linerate.Transport.Choice.{Maker, make_transport}
use linerate.Wire.{lr_hdr, lr_tag}
use linerate.Shard.{u64, Shard, Stats}

pub data Source : Type 0 where
  loopback : Source
  wire : Source

-- struct ShardConfig, less the processor to pin to.
pub record ShardConfig : Type 0 where
  pub cipher : String
  pub backend : String
  pub batch : ℕ
  pub payload : ℕ
  pub latency : Bool
  pub replay : Bool
  pub epoch_packets : ℕ
  pub source : Source
  pub bind_addr : String
  pub bind_port : ℕ
  pub peer_addr : String
  pub peer_port : ℕ

-- struct TransportConfig, less the name of the backend.
pub record TransportConfig : Type 0 where
  pub batch : ℕ
  pub bind_addr : String
  pub bind_port : ℕ
  pub peer_addr : String
  pub peer_port : ℕ
  pub rcvbuf : ℕ
  pub sndbuf : ℕ
  pub reuseport : Bool

-- What the constructor asks a new transport.
pub record Opened : Type 0 where
  pub max_batch : ℕ
  pub local_port : ℕ

-- struct PacketBuf; `base` counts from the start of the arena.
pub record Slot : Type 0 where
  pub base : ℕ
  pub cap : ℕ

pub record Started (Hist : Type 0) : Type 0 where
  pub shard : Shard Hist
  pub port : ℕ
  pub arena : List ℕ
  pub out : List ℕ
  pub tmpl : List ℕ
  pub rslots : List Slot
  pub sslots : List Slot

-- How the constructor ends: the early returns, and a shard.
pub data Outcome (Hist : Type 0) : Type 0 where
  unknown_cipher : Outcome Hist
  no_black_hole : Outcome Hist
  no_transport : Outcome Hist
  no_loader : Outcome Hist
  started : Started Hist → Outcome Hist

abbrev pub lr_max_payload : ℕ
lr_max_payload = 1432

unfoldable pub clamp : ℕ → ℕ
clamp payload = if ltb lr_max_payload payload then lr_max_payload else payload

unfoldable pub wire_len : ℕ → ℕ
wire_len payload = lr_hdr + payload + lr_tag

-- `n` slots of one capacity, of which the first has the index `i`.
unfoldable pub slots : ℕ → ℕ → ℕ → List Slot
slots zero i cap = []
slots (suc n) i cap = record { base = i * cap; cap = cap } ∷ slots n (i + 1) cap

-- The fill of the plaintext: `n` bytes from the index `i`.
unfoldable pub pattern : ℕ → ℕ → List ℕ
pattern zero i = []
pattern (suc n) i = (i * 31 + 7) % 256 ∷ pattern n (i + 1)

abbrev pub or_default : String → String → String
or_default text other = if str_eq text "" then other else text

abbrev pub wire_transport : ShardConfig → TransportConfig
wire_transport cfg = record {
  batch = cfg.batch;
  bind_addr = or_default cfg.bind_addr "0.0.0.0";
  bind_port = cfg.bind_port;
  peer_addr = or_default cfg.peer_addr "127.0.0.1";
  peer_port = cfg.peer_port;
  rcvbuf = 16777216;
  sndbuf = 16777216;
  reuseport = false;
}

abbrev pub hole_transport : ShardConfig → ℕ → TransportConfig
hole_transport cfg hole_port = record {
  batch = cfg.batch;
  bind_addr = "127.0.0.1";
  bind_port = 0;
  peer_addr = "127.0.0.1";
  peer_port = hole_port;
  rcvbuf = 16777216;
  sndbuf = 16777216;
  reuseport = false;
}

abbrev pub no_stats : {Hist : Type 0} → Hist → Stats Hist
no_stats lat = record {
  packets = 0;
  bytes = 0;
  auth_fail = 0;
  replay_drop = 0;
  rekeys = 0;
  lat = lat;
}

-- Shard::reset_stats: the shard, and the base that drain takes its count of system calls from.
unfoldable pub reset_stats : {Hist : Type 0} → Hist → ℕ → Shard Hist → Shard Hist × ℕ
reset_stats empty syscalls s = (record s { stats = no_stats empty }, syscalls)

-- A step that may fail, as an early return.
abbrev pub or_stop : {Hist A : Type 0} → Outcome Hist → (A → Outcome Hist) → Option A → Outcome Hist
or_stop stop next none = stop
or_stop stop next (some a) = next a

abbrev pub by_source : {A : Type 0} → Source → A → A → A
by_source loopback x y = x
by_source wire x y = y

module _ {Hist : Type 0} (hkdf : Hkdf) (make_aead : String → List ℕ → Option Aead) (empty : Hist)
    (open_udp : String → ℕ → ℕ → Option ℕ)
    (open_backend : Maker → TransportConfig → Option Opened) where
  -- The buffers and slots, once the sockets are there.
  unfoldable pub lay_out : ShardConfig → KeySchedule → Opened → Started Hist
  lay_out cfg keys tx =
      let payload : ℕ = clamp cfg.payload in
      let cap : ℕ = wire_len payload + 64 in
      let shard : Shard Hist = record {
        payload = payload;
        latency = cfg.latency;
        keys = keys;
        replay = if cfg.replay then some (create_window 1024) else none;
        plain = pattern payload 0 ++ replicate 64 0;
        seq = 0;
        stats = no_stats empty;
        reads = 0;
      } in
      record {
        shard = shard;
        port = tx.local_port;
        arena = replicate (tx.max_batch * cap) 0;
        out = replicate (tx.max_batch * cap) 0;
        tmpl = replicate cap 0;
        rslots = slots tx.max_batch 0 cap;
        sslots = slots tx.max_batch 0 cap;
      }

  -- The loader's socket is opened in loopback mode only.
  unfoldable pub open_loader : ShardConfig → KeySchedule → Opened → Outcome Hist
  open_loader cfg keys tx =
      let done = started (lay_out cfg keys tx) in
      by_source cfg.source (or_stop no_loader (λ port. done) (open_udp "127.0.0.1" 1024 33554432))
        done

  unfoldable pub open_transport : ShardConfig → KeySchedule → TransportConfig → Outcome Hist
  open_transport cfg keys tc =
      or_stop no_transport
        (λ maker. or_stop no_transport (open_loader cfg keys) (open_backend maker tc))
        (make_transport cfg.backend)

  -- Shard::Shard
  unfoldable pub start : ShardConfig → List ℕ → Outcome Hist
  start cfg secret =
      let keys = create_keys hkdf make_aead secret cfg.cipher cfg.epoch_packets in
      let next = open_transport cfg keys in
      or_stop unknown_cipher
        (λ a.
          by_source cfg.source
            (or_stop no_black_hole (λ port. next (hole_transport cfg port))
              (open_udp "127.0.0.1" 1024 1024))
            (next (wire_transport cfg)))
        (for_epoch keys 0)
