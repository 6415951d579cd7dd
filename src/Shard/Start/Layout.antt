-- ===== src/Shard/Start/Layout.antt =====
-- What a new shard has: a cipher, a payload that fits, and slots apart from each other.
use Prim.Native.String.{String}
use linerate.Base.{
  ℕ, zero, suc, ◌+◌, ◌*◌, ◌≤◌, ◌≡◌, refl, ap, subst, Option, none, some, List, [], ◌∷◌, ◌++◌,
  length, take, replicate, All, All-append, arith, length-replicate, take-append,
}
use linerate.Base.Words.{IsByte}
use linerate.Aead.{Aead}
use linerate.Keys.{KeySchedule, Hkdf, for_epoch, create as create_keys}
use linerate.Transport.Choice.{Maker, make_transport}
use linerate.Shard.{Shard}
use linerate.Shard.Start.{
  Source, loopback, wire, ShardConfig, TransportConfig, Opened, Slot, Started, Outcome,
  unknown_cipher, no_black_hole, no_transport, no_loader, started, lr_max_payload, clamp, wire_len,
  slots, pattern, wire_transport, hole_transport, or_stop, by_source, lay_out, open_loader,
  open_transport, start,
}

length-pattern : (n i : ℕ) → length (pattern n i) ≡ n
unfolding pattern
length-pattern zero i = refl
length-pattern (suc n) i = ap suc (length-pattern n (i + 1))

pattern-IsByte : (n i : ℕ) → All IsByte (pattern n i)
unfolding pattern
pattern-IsByte zero i = tt
pattern-IsByte (suc n) i = (omega arith, pattern-IsByte n (i + 1))

clamp_bound : (n : ℕ) → clamp n ≤ lr_max_payload
unfolding clamp
clamp_bound n = ground arith

-- Slots that lie one after the other from `from` on, each of the capacity `size`, up to `limit`.
unfoldable pub AreApart : List Slot → ℕ → ℕ → ℕ → Type 0
AreApart [] size from limit = from ≤ limit
AreApart (s ∷ rest) size from limit =
    (from ≤ s.base) × (s.cap ≡ size) × AreApart rest size (s.base + s.cap) limit

slots-AreApart :
    (n i size from limit : ℕ)
    → from ≡ i * size
    → limit ≡ (i + n) * size
    → AreApart (slots n i size) size from limit
unfolding slots AreApart
slots-AreApart zero i size from limit e f = omega (arith, e, f)
slots-AreApart (suc n) i size from limit e f = (
  omega (arith, e),
  refl,
  slots-AreApart n (i + 1) size (i * size + size) limit (omega arith) (omega (arith, f)),
)

-- The slots lie in an arena of as many capacities.
arena-AreApart :
    (n size : ℕ) → AreApart (slots n 0 size) size 0 (length {A = ℕ} (replicate (n * size) 0))
arena-AreApart n size =
    slots-AreApart n 0 size 0 _ (omega arith) (omega (arith, length-replicate {A = ℕ} (n * size) 0))

zeros-IsByte : (n : ℕ) → All IsByte (replicate n 0)
zeros-IsByte zero = tt
zeros-IsByte (suc n) = (omega arith, zeros-IsByte n)

-- A shard that can work: a cipher for epoch 0, a payload of bytes that a packet has room for, and
-- receive and send slots apart from each other, inside their arenas, with room for a packet.
abbrev pub IsLaidOut : {Hist : Type 0} → Started Hist → Type 0
IsLaidOut {Hist} st =
    let s : Shard Hist = st.shard in
    let size = wire_len s.payload + 64 in
    ((a : Aead) × (for_epoch s.keys 0 ≡ some a))
    × (s.payload ≤ lr_max_payload)
    × (length (take s.payload s.plain) ≡ s.payload)
    × All IsByte s.plain
    × AreApart st.rslots size 0 (length st.arena)
    × AreApart st.sslots size 0 (length st.out)

abbrev OnStarted : {Hist : Type 0} → (Started Hist → Type 0) → Outcome Hist → Type 0
OnStarted P unknown_cipher = Unit
OnStarted P no_black_hole = Unit
OnStarted P no_transport = Unit
OnStarted P no_loader = Unit
OnStarted P (started st) = P st

or_stop-OnStarted :
    {Hist A : Type 0}
    → (P : Started Hist → Type 0) (stop : Outcome Hist) (next : A → Outcome Hist) (o : Option A)
    → OnStarted P stop
    → ((a : A) → o ≡ some a → OnStarted P (next a))
    → OnStarted P (or_stop stop next o)
or_stop-OnStarted P stop next none p q = p
or_stop-OnStarted P stop next (some a) p q = q a refl

by_source-OnStarted :
    {Hist : Type 0}
    → (P : Started Hist → Type 0) (s : Source) (x y : Outcome Hist) → OnStarted P x
    → OnStarted P y
    → OnStarted P (by_source s x y)
by_source-OnStarted P loopback x y p q = p
by_source-OnStarted P wire x y p q = q

module _ {Hist : Type 0} (hkdf : Hkdf) (make_aead : String → List ℕ → Option Aead) (empty : Hist)
    (open_udp : String → ℕ → ℕ → Option ℕ)
    (open_backend : Maker → TransportConfig → Option Opened) where
  lay_out-IsLaidOut :
      (cfg : ShardConfig) (keys : KeySchedule) (tx : Opened) (a : Aead)
      → for_epoch keys 0 ≡ some a
      → IsLaidOut (lay_out hkdf make_aead empty open_udp open_backend cfg keys tx)
  unfolding lay_out
  lay_out-IsLaidOut cfg keys tx a live =
      let n : ℕ = clamp cfg.payload in
      let size : ℕ = wire_len n + 64 in
      let full = length-pattern n 0 in
      (
        (a, live),
        clamp_bound cfg.payload,
        subst (λ d. length (take d (pattern n 0 ++ replicate 64 0)) ≡ d) full
            (ap length (take-append (pattern n 0) (replicate 64 0))),
        All-append IsByte (pattern n 0) (replicate 64 0) (pattern-IsByte n 0) (zeros-IsByte 64),
        arena-AreApart tx.max_batch size,
        arena-AreApart tx.max_batch size,
      )

  open_loader-IsLaidOut :
      (cfg : ShardConfig) (keys : KeySchedule) (tx : Opened) (a : Aead)
      → for_epoch keys 0 ≡ some a
      → OnStarted IsLaidOut (open_loader hkdf make_aead empty open_udp open_backend cfg keys tx)
  unfolding open_loader
  open_loader-IsLaidOut cfg keys tx a live =
      let done = lay_out-IsLaidOut cfg keys tx a live in
      by_source-OnStarted IsLaidOut cfg.source _ _
        (or_stop-OnStarted IsLaidOut no_loader _ (open_udp "127.0.0.1" 1024 33554432) tt
          (λ port e. done))
        done

  open_transport-IsLaidOut :
      (cfg : ShardConfig) (keys : KeySchedule) (tc : TransportConfig) (a : Aead)
      → for_epoch keys 0 ≡ some a
      → OnStarted IsLaidOut (open_transport hkdf make_aead empty open_udp open_backend cfg keys tc)
  unfolding open_transport
  open_transport-IsLaidOut cfg keys tc a live =
      or_stop-OnStarted IsLaidOut no_transport _ (make_transport cfg.backend) tt (λ maker e.
        or_stop-OnStarted IsLaidOut no_transport _ (open_backend maker tc) tt
          (λ tx e'. open_loader-IsLaidOut cfg keys tx a live))

  outcome-IsLaidOut :
      (cfg : ShardConfig) (secret : List ℕ)
      → OnStarted IsLaidOut (start hkdf make_aead empty open_udp open_backend cfg secret)
  unfolding start
  outcome-IsLaidOut cfg secret =
      let keys = create_keys hkdf make_aead secret cfg.cipher cfg.epoch_packets in
      let next = open_transport-IsLaidOut cfg keys in
      or_stop-OnStarted IsLaidOut unknown_cipher _ (for_epoch keys 0) tt (λ a live.
        by_source-OnStarted IsLaidOut cfg.source _ _
          (or_stop-OnStarted IsLaidOut no_black_hole _ (open_udp "127.0.0.1" 1024 1024) tt
            (λ port e. next (hole_transport cfg port) a live))
          (next (wire_transport cfg) a live))

  -- Where the constructor ends with a shard, epoch 0 has a cipher; the payload is at most 1432 bytes
  -- and the plaintext buffer, of bytes, holds one; and the receive slots lie one after the other in
  -- their arena, each with 64 bytes more than a packet, as do the send slots in theirs.
  pub start-IsLaidOut :
      (cfg : ShardConfig) (secret : List ℕ) (st : Started Hist)
      → start hkdf make_aead empty open_udp open_backend cfg secret ≡ started st
      → IsLaidOut st
  start-IsLaidOut cfg secret st e = subst (OnStarted IsLaidOut) e (outcome-IsLaidOut cfg secret)
