-- ===== src/Lib.antt =====
-- linerate, a packet-processing benchmark, as a library of definitions and theorems.
--
-- The program's core is a tunnel endpoint: a shard receives sealed UDP packets in batches through
-- a transport, drops replays, opens each packet under the key of its epoch, seals the payload
-- again under a new number and sends it on, and counts what it did. A handshake gives the two
-- directional secrets, and a key schedule derives each epoch's cipher from its secret.
--
-- Files and the code they model:
--   Base      shared names; arrays as lists, bits and bytes of numbers.
--   Replay    class ReplayWindow of include/lr/proto.hpp and src/core/proto.cpp. `accept` is the
--             method word by word: `advance` is the branch ahead of the window, with `shift_bits`
--             the two loops over words, and `check_behind` the rest. Replay/Spec has the abstract
--             window, a list of the numbers seen; Replay/Refine relates the two.
--   Aead      the interface of include/lr/aead.hpp, src/core/aead_factory.cpp with its null
--             control, and the adapters of src/core/aead_simd.cpp. OpenSSL's ciphers are
--             a parameter.
--   Simd      the repository's own ciphers, src/core/simd_crypto.c: Simd/Paths chooses the version
--             that runs; Simd/Chacha, Simd/Poly and Simd/Chapoly are ChaCha20-Poly1305, Simd/Aes and
--             Simd/Gcm AES-256-GCM. Simd/Neon and Simd/Avx2 are the vector versions of ChaCha20
--             over their intrinsics, and Simd/Rows what the two share. Simd/Adapter fills the
--             interface of Aead with the two ciphers.
--   Keys      class KeySchedule of src/core/proto.cpp: two slots and the chain. HKDF and the
--             factory are parameters.
--   Handshake class Handshake and handshake_pair of src/core/proto.cpp. X25519 and HKDF are
--             parameters.
--   Wire      struct WireHdr of include/lr/worker.hpp and its memcpy to and from packets, in the
--             little-endian order of the supported hosts.
--   Transport the backends of src/core/transport_posix.cpp and src/core/transport_mmsg.cpp over a
--             socket that is a parameter; Transport/Fifo is the contract their clients use, and
--             Transport/Choice the factory of src/core/transport_factory.cpp. Transport/Uring has
--             recv_batch and send_batch of src/core/transport_uring.cpp over a ring of liburing,
--             which is a parameter: Transport/Uring/Inline is its documented behaviour where
--             receives complete as they are submitted, and
--             Transport/Uring/Unseen where submissions succeed.
--   Shard     Shard::make_packet and Shard::drain of src/core/worker.cpp; `process` is one
--             iteration of the inner loop and Shard/Drain the outer loop over batches;
--             Shard/Loader has Shard::preload and class Generator; Shard/Start has the
--             constructor of Shard, where opening a socket is a parameter.
--   Json      escape and class Writer of src/core/json.cpp; text is bytes.
--   Ctrl      parse_kv and class Client of src/core/ctrl.cpp over a connection that is a
--             parameter; Ctrl/Token is one_token of src/apps/lr_loadgend.cpp.
--   Loadgen   the daemon of src/apps/lr_loadgend.cpp: Loadgen has struct Unit with start_unit,
--             stop_unit and a turn of each of its two threads, Loadgen/Commands what main does on a
--             line, Loadgen/Session its loop over the bytes of a connection. A run is a list of
--             turns of the three threads. Loadgen/Requests has what Client::start of
--             src/core/ctrl.cpp sends it. The generator, the histogram, the clock, the binding of a
--             port and the conversions of the C library are parameters.
--   Latency   class LatencyHist of src/core/stats.cpp: its buckets and the bucket of a quantile.
--   Fixtures  stand-ins for the parameters, for the runs and concrete instances.
--
-- Numbers are natural numbers, and the wrap-around of `uint64_t` is written out where the code's
-- arithmetic can wrap. Bytes in packets are numbers below 256. A pointer result that may be null,
-- and a failed call, are options. The loop of `drain` runs on fuel and gives nothing when it runs
-- out; each turn takes a packet, so a fuel above the budget is enough. The loop of `mmsg_send`
-- runs on the number of packets, which it lessens at each turn, and `send_all` on the number of
-- bytes, and `send_loop` of io_uring on the number of packets. `recv_line` counts the room that is
-- left of the 4096 bytes. `drain_pending` runs on the size of the completion queue, and `digits_of`
-- on 20 digits, as many as a number below 2^64 has.
--
-- The loop of the stream ciphers runs on the number of bytes, of which a turn takes one at least;
-- that of the authenticator on the number of whole blocks.
--
-- The intrinsics are parameters whose documented behaviour is a record of laws, IsNeon and IsAvx2;
-- Simd/StandIns has registers that keep them.
--
-- Not modelled: the vector versions of AES and GHASH, which are parameters; sockets being opened
-- and configured, the setting up of the io_uring ring and its probes, the clock (its readings are a
-- parameter, and so is the histogram of a shard), the connecting of the control channel, the echo
-- server of the load generator and the waiting of its paced sender, the formatting of doubles, and
-- the experiments, which drive measurements in floating point.
pub mod Aead
pub mod Base
pub mod Ctrl
pub mod Fixtures
pub mod Handshake
pub mod Json
pub mod Keys
pub mod Latency
pub mod Loadgen
pub mod Replay
pub mod Shard
pub mod Simd
pub mod Transport
pub mod Wire
