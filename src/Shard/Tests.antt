-- ===== src/Shard/Tests.antt =====
-- Runs of the hot path and the theorems on it at concrete inputs.
use linerate.Base.{
  ◌⊎◌, ℕ, ◌+◌, ◌*◌, ◌≤◌, ◌≡◌, ap, refl, inr, true, false, none, some, List, [], ◌∷◌, ◌++◌, length,
  take, drop, min, replicate, arith,
}
use linerate.Aead.{Aead, null_aead, null_seal}
use linerate.Aead.Null.{null_open-null_seal, length-null_seal}
use linerate.Base.Bytes.{le_value, le_bytes, be_bytes}
use linerate.Keys.{KeySchedule, for_epoch, nonce, maybe_rekey}
use linerate.Replay.{ReplayWindow, accept}
use linerate.Wire.{WireHdr, encode, decode, lr_magic, wt_data}
use linerate.Fixtures.{toy_hkdf, toy_cipher, toy_aead, Queues, queues, queues-Ideal}
use linerate.Transport.{Backend, posix, mmsg}
use linerate.Transport.Ideal.{posix_fifo, mmsg_fifo}
use linerate.Shard.Loader.{new_generator, emit_all, new_generator_counts}
use linerate.Shard.Drain.{Drained, drain}
use linerate.Shard.Drain.Takes.{drain_takes, drain_agree}
use linerate.Shard.{u64, Shard, check_replay, make_packet, process, process_all}
use linerate.Shard.Process.{process_all_counts}
use linerate.Shard.Forgery.{forgery_shuts_out}
use linerate.Shard.Start.{
  loopback, ShardConfig, Opened, Started, started, lay_out, open_loader, open_transport, start,
}
use linerate.Shard.Start.Layout.{IsLaidOut, start-IsLaidOut}
use linerate.Transport.Choice.{make_transport}
use linerate.Keys.{create as create_keys, derive}
use linerate.Shard.Stall.{Stuck, make_all, rekey_stalls}
use linerate.Shard.Forward.{IsAead, make_packet-process}

abbrev clock : ℕ → ℕ
clock k = 100 * k

abbrev add_ticks : ℕ → ℕ → ℕ
add_ticks d h = d + h

-- In epoch 0; an epoch is four packets.
abbrev keys_of : Aead → ℕ → KeySchedule
keys_of a n = record {
  cipher = "toy";
  per_epoch = n;
  chain = replicate 32 9;
  epoch = 0;
  rekeys = 0;
  aead0 = some a;
  aead1 = none;
  salt0 = replicate 4 1;
  salt1 = replicate 4 0;
  tag0 = 0;
  tag1 = 0;
}

abbrev window : ReplayWindow
window = record { width = 64; bits = 1 ∷ []; high = 5; seen = true; dup = 0; old = 0 }

abbrev shard_of : KeySchedule → Shard ℕ
shard_of ks = record {
  payload = 3;
  latency = true;
  keys = ks;
  replay = some window;
  plain = 11 ∷ 12 ∷ 13 ∷ 14 ∷ [];
  seq = 0;
  stats = record { packets = 0; bytes = 0; auth_fail = 0; replay_drop = 0; rekeys = 0; lat = 0 };
  reads = 1;
}

abbrev toy_shard : Shard ℕ
toy_shard = shard_of (keys_of (toy_cipher "toy" (replicate 32 4)) 4)

abbrev header_of : ℕ → WireHdr
header_of n = record { magic = lr_magic; type = wt_data; epoch = 0; flags = 0; seq = n; tsc = 50 }

-- A tag of zeros.
abbrev forged : ℕ → List ℕ
forged n = encode (header_of n) ++ (1 ∷ 2 ∷ replicate 16 0)

process_all_counts_example :
    let (s, outs) =
      process_all toy_hkdf toy_aead clock add_ticks toy_shard (forged 9 ∷ forged 9 ∷ [] ∷ []) in
    (s.stats.packets ≡ 0 + length outs)
    × (s.stats.auth_fail + s.stats.replay_drop + length outs ≤ 0 + 0 + 3)
    × (0 ≤ s.stats.auth_fail)
    × (0 ≤ s.stats.replay_drop)
process_all_counts_example =
    process_all_counts toy_hkdf toy_aead clock add_ticks toy_shard (forged 9 ∷ forged 9 ∷ [] ∷ [])
      (omega arith) (omega arith)

forgery_shuts_out_example :
    let s' = (process toy_hkdf toy_aead clock add_ticks toy_shard (forged 1000)).0 in
    let (s'', out) = process toy_hkdf toy_aead clock add_ticks s' (forged 6) in
    (out ≡ none)
    × (s''.stats.replay_drop ≡ u64 1)
    × (s''.stats.auth_fail ≡ u64 1)
    × (s''.stats.packets ≡ 0)
unfolding encode decode for_epoch nonce le_value le_bytes
forgery_shuts_out_example =
    forgery_shuts_out toy_hkdf toy_aead clock add_ticks toy_shard window (forged 1000) (forged 6)
      refl refl (omega arith) (omega arith, refl)
      (inr (toy_cipher "toy" (replicate 32 4), refl, refl)) (omega arith, refl) (omega arith)

rekey_stalls_example :
    ((process_all toy_hkdf toy_aead clock add_ticks toy_shard
        (make_all toy_hkdf toy_aead clock add_ticks toy_shard (4 ∷ 5 ∷ 9 ∷ []))).1
      ≡ [])
    × Stuck toy_shard
        (process_all toy_hkdf toy_aead clock add_ticks toy_shard
          (make_all toy_hkdf toy_aead clock add_ticks toy_shard (4 ∷ 5 ∷ 9 ∷ []))).0
rekey_stalls_example =
    rekey_stalls toy_hkdf toy_aead clock add_ticks toy_shard toy_shard 4 (4 ∷ 5 ∷ 9 ∷ [])
      (refl, refl, refl) refl (omega arith)
      ((omega arith, omega arith), ((omega arith, omega arith), ((omega arith, omega arith), tt)))

null_aead-IsAead : IsAead null_aead
unfolding null_aead null_seal
null_aead-IsAead = record {
  opens = λ n aad pt ct long a p e. null_open-null_seal n n aad aad pt e;
  tagged = λ n aad pt ct long e. length-null_seal n aad pt e;
}

abbrev null_shard : Shard ℕ
null_shard = shard_of (keys_of null_aead 0)

make_packet-process_example :
    let s' =
      (process toy_hkdf toy_aead clock add_ticks null_shard
        (make_packet toy_hkdf toy_aead clock add_ticks null_shard 7).1).0 in
    (s'.plain ≡ (11 ∷ 12 ∷ 13 ∷ []) ++ (14 ∷ []))
    × (s'.seq ≡ u64 1)
    × (s'.replay ≡ (check_replay (some window) 7).0)
    × (s'.stats.auth_fail ≡ 0)
    × (s'.stats.replay_drop ≡ 0)
unfolding null_aead null_seal maybe_rekey for_epoch nonce make_packet encode check_replay accept
    le_bytes be_bytes
make_packet-process_example =
    make_packet-process toy_hkdf toy_aead clock add_ticks null_shard null_shard 7 null_aead
      (omega arith) (omega arith) null_aead-IsAead refl refl (λ e. omega (arith, ap length e)) refl
      refl (omega arith) (omega arith)

abbrev backend : ℕ → Backend Queues
backend n = record {
  socket = record { waiting = forged 9 ∷ forged 10 ∷ forged 11 ∷ []; gone = [] };
  batch = n;
  sys = 0;
}

drain_takes_example :
    let k = min 2 3 in
    let (s', outs) =
      process_all toy_hkdf toy_aead clock add_ticks
        (record toy_shard { reads = 2 })
        (take k (forged 9 ∷ forged 10 ∷ forged 11 ∷ [])) in
    (d : Drained ℕ (Backend Queues)) × (drain toy_hkdf toy_aead clock add_ticks
        (posix queues)
        3
        0
        0
        toy_shard
        (backend 1)
        2
      ≡ some d)
    × (d.processed ≡ k)
    × (d.shard ≡ record s' { reads = s'.reads + 1 })
    × (d.link.socket.waiting ≡ drop k (forged 9 ∷ forged 10 ∷ forged 11 ∷ []))
    × (d.link.socket.gone ≡ [] ++ outs)
unfolding encode le_bytes posix_fifo mmsg_fifo
drain_takes_example =
    drain_takes toy_hkdf toy_aead clock add_ticks (posix queues) (posix_fifo queues queues-Ideal) 3
      0 0 toy_shard (backend 1) 2 (omega arith, (omega arith, (omega arith, tt))) (omega arith)

drain_agree_example :
    (d : Drained ℕ (Backend Queues)) × (e : Drained ℕ (Backend Queues)) × (drain toy_hkdf toy_aead
        clock add_ticks
        (posix queues)
        3
        0
        0
        toy_shard
        (backend 1)
        2
      ≡ some d)
    × (drain toy_hkdf toy_aead clock add_ticks (mmsg queues) 3 0 0 toy_shard (backend 8) 2 ≡ some e)
    × (d.shard ≡ e.shard)
    × (d.processed ≡ e.processed)
    × (d.link.socket.waiting ≡ e.link.socket.waiting)
    × (d.link.socket.gone ≡ e.link.socket.gone)
unfolding encode le_bytes posix_fifo mmsg_fifo
drain_agree_example =
    drain_agree toy_hkdf toy_aead clock add_ticks (posix queues) (posix_fifo queues queues-Ideal)
      (mmsg queues) (mmsg_fifo queues queues-Ideal) 3 0 0 0 0 toy_shard (backend 1) (backend 8) 2
      (omega arith, (omega arith, (omega arith, tt))) (omega arith) (omega arith) refl refl

abbrev generator_socket : Queues
generator_socket = record { waiting = []; gone = [] }

new_generator_counts_example :
    let (g, err) = new_generator (λ a. true) (λ a. false) null_shard "127.0.0.1" in
    let (g', k', count) =
      emit_all toy_hkdf toy_aead clock add_ticks queues g generator_socket (7 ∷ 8 ∷ []) in
    (g'.sent ≡ count)
    × (g'.sent + g'.refusals ≡ 2)
    × ((err ≡ none) ⊎ ((k' ≡ generator_socket) × (count ≡ 0)))
new_generator_counts_example =
    new_generator_counts toy_hkdf toy_aead clock add_ticks queues (λ a. true) (λ a. false)
      null_shard "127.0.0.1" generator_socket (7 ∷ 8 ∷ []) (omega arith)

-- A shard of three slots whose payload is clamped.
abbrev loop_config : ShardConfig
loop_config = record {
  cipher = "toy";
  backend = "posix";
  batch = 1;
  payload = 2000;
  latency = false;
  replay = true;
  epoch_packets = 4;
  source = loopback;
  bind_addr = "127.0.0.1";
  bind_port = 0;
  peer_addr = "";
  peer_port = 0;
}

abbrev three_slots : Opened
three_slots = record { max_batch = 3; local_port = 9000 }

abbrev new_shard : Started ℕ
new_shard =
    lay_out toy_hkdf toy_aead 0 (λ addr rcv snd. some 7) (λ maker tc. some three_slots) loop_config
      (create_keys toy_hkdf toy_aead (replicate 32 9) "toy" 4) three_slots

new_shard_starts :
    start toy_hkdf toy_aead 0
      (λ addr rcv snd. some 7)
      (λ maker tc. some three_slots)
      loop_config
      (replicate 32 9)
    ≡ started new_shard
unfolding start open_transport open_loader make_transport create_keys for_epoch derive
new_shard_starts = refl

start-IsLaidOut_example : IsLaidOut new_shard
start-IsLaidOut_example =
    start-IsLaidOut toy_hkdf toy_aead 0 (λ addr rcv snd. some 7) (λ maker tc. some three_slots)
      loop_config (replicate 32 9) new_shard new_shard_starts
