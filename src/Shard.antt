-- ===== src/Shard.antt =====
-- The shard and the timed hot path of include/lr/worker.hpp and src/core/worker.cpp.
-- Parameters: HKDF and the cipher factory (as in Keys); `clock k`, the k-th reading of
-- clk::ticks(); the histogram with `add_ticks d`, which is lat.add(clk::ticks_to_ns(d)).
-- A packet is the list of the `len` bytes in its slot.
pub mod Process
pub mod Drain
pub mod Forward
pub mod Forgery
pub mod Stall
pub mod Loader
pub mod Start
mod Tests
use Prim.Native.String.{String}
use linerate.Base.{
  ℕ, zero, suc, ◌+◌, ◌-◌, ◌*◌, ◌/◌, ◌%◌, ◌^◌, Bool, true, false, not, ◌&&◌, Option, none, some,
  List, [], ◌∷◌, ◌++◌, length, take, drop, ltb, ◌==◌, if◌then◌else◌,
}
use linerate.Aead.{Aead}
use linerate.Keys.{KeySchedule, Hkdf, for_epoch, nonce, maybe_rekey}
use linerate.Replay.{ReplayWindow, accept}
use linerate.Wire.{WireHdr, encode, decode, lr_magic, lr_hdr, lr_tag, wt_data}

abbrev pub u64 : ℕ → ℕ
u64 n = n % 2 ^ 64

-- struct ShardStats, less the two fields that `drain` sets at its end.
pub record Stats (Hist : Type 0) : Type 0 where
  pub packets : ℕ
  pub bytes : ℕ
  pub auth_fail : ℕ
  pub replay_drop : ℕ
  pub rekeys : ℕ
  pub lat : Hist

-- The part of class Shard that the hot path reads and writes. `reads` counts clock readings.
pub record Shard (Hist : Type 0) : Type 0 where
  pub payload : ℕ
  pub latency : Bool
  pub keys : KeySchedule
  pub replay : Option ReplayWindow
  pub plain : List ℕ
  pub seq : ℕ
  pub stats : Stats Hist
  pub reads : ℕ

-- `replay_ && !replay_->accept(h.seq)`, the other way round: whether the packet goes on.
pub check_replay : Option ReplayWindow → ℕ → Option ReplayWindow × Bool
check_replay none seq = (none, true)
check_replay (some w) seq = let (w', ok) = accept w seq in (some w', ok)

module _ {Hist : Type 0} where
  pub count_replay_drop : Shard Hist → Shard Hist
  count_replay_drop s =
      let st : Stats Hist = s.stats in
      record s { stats = record st { replay_drop = u64 (st.replay_drop + 1) } }

  pub count_auth_fail : Shard Hist → Shard Hist
  count_auth_fail s =
      let st : Stats Hist = s.stats in
      record s { stats = record st { auth_fail = u64 (st.auth_fail + 1) } }

  -- A successful open writes the plaintext over the front of the staging buffer.
  pub store_plain : Shard Hist → List ℕ → Shard Hist
  store_plain s pt = record s { plain = pt ++ drop (length pt) s.plain }

module _ {Hist : Type 0} (hkdf : Hkdf) (make_aead : String → List ℕ → Option Aead) (clock : ℕ → ℕ)
    (add_ticks : ℕ → Hist → Hist) where
  -- Shard::make_packet; an empty list is its return value 0.
  unfoldable pub make_packet : Shard Hist → ℕ → Shard Hist × List ℕ
  make_packet s seq =
      let ks : KeySchedule = (maybe_rekey hkdf make_aead s.keys seq).0 in
      let h : WireHdr = record {
        magic = lr_magic;
        type = wt_data;
        epoch = ks.epoch;
        flags = 0;
        seq = seq;
        tsc = clock s.reads;
      } in
      elim (for_epoch ks ks.epoch) [
        | none ↦ (record s { keys = ks }, [])
        | some a ↦
            let s' : Shard Hist = record s { keys = ks; reads = s.reads + 1 } in
            elim (a.seal (nonce ks h.epoch h.seq) (encode h) (take s.payload s.plain)) [
              | none ↦ (s', [])
              | some ct ↦ (s', encode h ++ ct)
            ]
      ]

  -- The end of an iteration: the counters, and the latency sample if it is wanted.
  pub count_packet : Shard Hist → WireHdr → List ℕ → Shard Hist
  count_packet s h pt =
      let st : Stats Hist = s.stats in
      let counted : Stats Hist = record st {
        packets = u64 (st.packets + 1);
        bytes = u64 (st.bytes + length pt);
      } in
      if s.latency
      then record s {
        stats = record counted { lat = add_ticks (u64 (clock s.reads + 2 ^ 64 - h.tsc)) st.lat };
        reads = s.reads + 1;
      }
      else record s { stats = counted }

  -- From `const uint64_t oseq = seq_++` on: re-encrypt and count.
  pub reseal : Shard Hist → WireHdr → List ℕ → Shard Hist × Option (List ℕ)
  reseal s h pt =
      let (ks, turned) = maybe_rekey hkdf make_aead s.keys s.seq in
      let st : Stats Hist = s.stats in
      let s' : Shard Hist = record s {
        keys = ks;
        seq = u64 (s.seq + 1);
        stats = record st { rekeys = if turned then u64 (st.rekeys + 1) else st.rekeys };
      } in
      let oh : WireHdr = record h { epoch = ks.epoch; seq = s.seq } in
      elim (for_epoch ks ks.epoch) [
        | none ↦ (s', none)
        | some ao ↦ elim (ao.seal (nonce ks oh.epoch oh.seq) (encode oh) pt) [
          | none ↦ (s', none)
          | some ct ↦ (count_packet s' h pt, some (encode oh ++ ct))
        ]
      ]

  -- From the choice of the key on: authenticate and decrypt. A cipher that refuses may have written
  -- to the staging buffer.
  pub open_packet : Shard Hist → WireHdr → List ℕ → Shard Hist × Option (List ℕ)
  open_packet s h p = elim (for_epoch s.keys h.epoch) [
    | none ↦ (count_auth_fail s, none)
    | some a ↦ elim (a.open_ct (nonce s.keys h.epoch h.seq) (take lr_hdr p) (drop lr_hdr p)) [
      | none ↦ (
        count_auth_fail
            (store_plain s (a.spill (nonce s.keys h.epoch h.seq) (take lr_hdr p) (drop lr_hdr p))),
        none,
      )
      | some pt ↦ reseal (store_plain s pt) h pt
    ]
  ]

  -- One iteration of the inner loop of Shard::drain: the packet to send, if there is one.
  unfoldable pub process : Shard Hist → List ℕ → Shard Hist × Option (List ℕ)
  process s p =
      let h : WireHdr = decode p in
      let (window, fresh) = check_replay s.replay h.seq in
      let s' : Shard Hist = record s { replay = window } in
      if ltb (length p) (lr_hdr + lr_tag)
      then (s, none)
      else if not (h.magic == lr_magic)
      then (s, none)
      else if fresh
      then open_packet s' h p
      else (count_replay_drop s', none)

  -- The inner loop over one batch: the slots to send, in order.
  unfoldable pub process_all : Shard Hist → List (List ℕ) → Shard Hist × List (List ℕ)
  process_all s [] = (s, [])
  process_all s (p ∷ rest) =
      let (s', out) = process s p in
      let (s'', outs) = process_all s' rest in
      elim out [ none ↦ (s'', outs) | some o ↦ (s'', o ∷ outs) ]
