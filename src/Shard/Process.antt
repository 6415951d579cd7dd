-- ===== src/Shard/Process.antt =====
-- One packet through the hot path: what it may change, and how it is counted.
use Prim.Native.String.{String}
use linerate.Base.{
  ℕ, ◌+◌, ◌^◌, ◌≤◌, ◌<◌, ◌≡◌, ap, inl, inr, true, false, Option, none, some, List, [], ◌∷◌, length,
  take, drop, ltb, ◌==◌, if◌then◌else◌, arith, Bool-cases, Option-cases,
}
use linerate.Aead.{Aead}
use linerate.Keys.{KeySchedule, Hkdf, for_epoch, nonce, maybe_rekey}
use linerate.Wire.{WireHdr, encode, decode, lr_magic, lr_hdr, lr_tag}
use linerate.Shard.{
  u64, Stats, Shard, check_replay, count_auth_fail, count_replay_drop, store_plain, count_packet,
  reseal, open_packet, process, process_all,
}

abbrev pub sent : Option (List ℕ) → ℕ
sent none = 0
sent (some p) = 1

sent-le : (out : Option (List ℕ)) → sent out ≤ 1
sent-le none = omega arith
sent-le (some p) = omega arith

module _ {Hist : Type 0} where
  -- Room in the counters for one more packet.
  abbrev pub HasRoom : Shard Hist → Type 0
  HasRoom s =
      (s.stats.packets + 1 < 2 ^ 64)
      × (s.stats.auth_fail + 1 < 2 ^ 64)
      × (s.stats.replay_drop + 1 < 2 ^ 64)

  -- The window as the packet with this number leaves it.
  abbrev pub windowed : Shard Hist → ℕ → Shard Hist
  windowed s seq = record s { replay = (check_replay s.replay seq).0 }

  -- What one packet does to the counters, and to what the configuration fixed: it is forwarded,
  -- refused by the cipher or refused by the window, at most one of these, and counted as that.
  pub record Counted (s s' : Shard Hist) (out : Option (List ℕ)) : Type 0 where
    pub forwarded : s'.stats.packets ≡ s.stats.packets + sent out
    pub once :
        s'.stats.auth_fail + s'.stats.replay_drop + sent out
        ≤ s.stats.auth_fail + s.stats.replay_drop + 1
    pub auth_grows : s.stats.auth_fail ≤ s'.stats.auth_fail
    pub drop_grows : s.stats.replay_drop ≤ s'.stats.replay_drop
    pub fixed : (s'.payload ≡ s.payload) × (s'.latency ≡ s.latency)

module _ {Hist : Type 0} (hkdf : Hkdf) (make_aead : String → List ℕ → Option Aead) (clock : ℕ → ℕ)
    (add_ticks : ℕ → Hist → Hist) where
  -- The state once a sequence number is taken and the rekey check is done.
  abbrev pub turned : Shard Hist → Shard Hist
  turned s =
      let (ks, t) = maybe_rekey hkdf make_aead s.keys s.seq in
      let st : Stats Hist = s.stats in
      record s {
        keys = ks;
        seq = u64 (s.seq + 1);
        stats = record st { rekeys = if t then u64 (st.rekeys + 1) else st.rekeys };
      }

  pub reseal_cases {ℓ} :
      (P : Shard Hist → Option (List ℕ) → Type ℓ) (s : Shard Hist) (h : WireHdr) (pt : List ℕ)
      → P (turned s) none
      → ((out : List ℕ)
          → P (count_packet hkdf make_aead clock add_ticks (turned s) h pt) (some out))
      → P
          (reseal hkdf make_aead clock add_ticks s h pt).0
          (reseal hkdf make_aead clock add_ticks s h pt).1
  unfolding reseal
  reseal_cases P s h pt kept counted = elim (Option-cases (for_epoch ks ks.epoch)) [
    | inl e ↦ rw (e, reseal) kept
    | inr (ao, e) ↦ elim (Option-cases (ao.seal (nonce ks ks.epoch s.seq) (encode oh) pt)) [
      | inl f ↦ rw (e, f, reseal) kept
      | inr (ct, f) ↦ rw (e, f, reseal) (counted _)
    ]
  ]
    where
      ks : KeySchedule
      ks = (maybe_rekey hkdf make_aead s.keys s.seq).0

      oh : WireHdr
      oh = record h { epoch = ks.epoch; seq = s.seq }

  pub open_cases {ℓ} :
      (P : Shard Hist → Option (List ℕ) → Type ℓ) (s : Shard Hist) (h : WireHdr) (p : List ℕ)
      → P (count_auth_fail s) none
      → ((pt : List ℕ) → P (count_auth_fail (store_plain s pt)) none)
      → ((a : Aead) (pt : List ℕ)
          → for_epoch s.keys h.epoch ≡ some a
          → a.open_ct (nonce s.keys h.epoch h.seq) (take lr_hdr p) (drop lr_hdr p) ≡ some pt
          → P
              (reseal hkdf make_aead clock add_ticks (store_plain s pt) h pt).0
              (reseal hkdf make_aead clock add_ticks (store_plain s pt) h pt).1)
      → P
          (open_packet hkdf make_aead clock add_ticks s h p).0
          (open_packet hkdf make_aead clock add_ticks s h p).1
  unfolding open_packet
  open_cases P s h p unknown refused opened = elim (Option-cases (for_epoch s.keys h.epoch)) [
    | inl e ↦ rw (e, open_packet) unknown
    | inr (a, e) ↦
        elim (Option-cases
          (a.open_ct (nonce s.keys h.epoch h.seq) (take lr_hdr p) (drop lr_hdr p))) [
            | inl f ↦ rw (e, f, open_packet) (refused _)
            | inr (pt, f) ↦ rw (e, f, open_packet) (opened a pt e f)
          ]
  ]

  reseal-Counted :
      (s : Shard Hist) (h : WireHdr) (pt : List ℕ)
      → HasRoom s
      → Counted s
          (reseal hkdf make_aead clock add_ticks s h pt).0
          (reseal hkdf make_aead clock add_ticks s h pt).1
  unfolding count_packet
  reseal-Counted s h pt room = reseal_cases (Counted s) s h pt (ground arith) (λ out. ground arith)

  pub open_packet-Counted :
      (s : Shard Hist) (h : WireHdr) (p : List ℕ)
      → HasRoom s
      → Counted s
          (open_packet hkdf make_aead clock add_ticks s h p).0
          (open_packet hkdf make_aead clock add_ticks s h p).1
  unfolding count_auth_fail store_plain
  open_packet-Counted s h p room =
      open_cases (Counted s) s h p (ground arith) (λ pt. ground arith)
        (λ a pt e f. from_plain pt (reseal-Counted (store_plain s pt) h pt room))
    where
      from_plain :
          (pt : List ℕ) {s' : Shard Hist} {out : Option (List ℕ)}
          → Counted (store_plain s pt) s' out
          → Counted s s' out
      from_plain pt c = record {
        forwarded = c.forwarded;
        once = c.once;
        auth_grows = c.auth_grows;
        drop_grows = c.drop_grows;
        fixed = c.fixed;
      }

  pub process_cases {ℓ} :
      (P : Shard Hist → Option (List ℕ) → Type ℓ) (s : Shard Hist) (p : List ℕ)
      → P s none
      → ((check_replay s.replay (decode p).seq).1 ≡ false
          → P (count_replay_drop (windowed s (decode p).seq)) none)
      → ((check_replay s.replay (decode p).seq).1 ≡ true
          → P
              (open_packet hkdf make_aead clock add_ticks
                (windowed s (decode p).seq)
                (decode p)
                p).0
              (open_packet hkdf make_aead clock add_ticks
                (windowed s (decode p).seq)
                (decode p)
                p).1)
      → P
          (process hkdf make_aead clock add_ticks s p).0
          (process hkdf make_aead clock add_ticks s p).1
  unfolding process
  process_cases P s p ignored replayed fresh =
      elim (Bool-cases (ltb (length p) (lr_hdr + lr_tag))) [
        | inl short ↦ rw (short, process) ignored
        | inr long ↦ elim (Bool-cases ((decode p).magic == lr_magic)) [
          | inr alien ↦ rw (long, alien, process) ignored
          | inl ours ↦ elim (Bool-cases (check_replay s.replay (decode p).seq).1) [
            | inl e ↦ rw (long, ours, e, process) (fresh e)
            | inr e ↦ rw (long, ours, e, process) (replayed e)
          ]
        ]
      ]

  process-Counted :
      (s : Shard Hist) (p : List ℕ)
      → HasRoom s
      → Counted s
          (process hkdf make_aead clock add_ticks s p).0
          (process hkdf make_aead clock add_ticks s p).1
  unfolding count_replay_drop
  process-Counted s p room =
      process_cases (Counted s) s p (ground arith) (λ e. ground arith)
        (λ e. from_windowed (open_packet-Counted (windowed s (decode p).seq) (decode p) p room))
    where
      from_windowed :
          {s' : Shard Hist} {out : Option (List ℕ)}
          → Counted (windowed s (decode p).seq) s' out
          → Counted s s' out
      from_windowed c = record {
        forwarded = c.forwarded;
        once = c.once;
        auth_grows = c.auth_grows;
        drop_grows = c.drop_grows;
        fixed = c.fixed;
      }

  -- Over a batch, while no counter can reach 2^64: `packets` goes up by the number of packets sent
  -- on, and the packets sent on and the two kinds of refusal counted come to no more than the
  -- packets received.
  pub process_all_counts :
      (s : Shard Hist) (ps : List (List ℕ))
      → s.stats.packets + length ps < 2 ^ 64
      → s.stats.auth_fail + s.stats.replay_drop + length ps < 2 ^ 64
      → let (s', outs) = process_all hkdf make_aead clock add_ticks s ps in
        (s'.stats.packets ≡ s.stats.packets + length outs)
        × (s'.stats.auth_fail + s'.stats.replay_drop + length outs
            ≤ s.stats.auth_fail + s.stats.replay_drop + length ps)
        × (s.stats.auth_fail ≤ s'.stats.auth_fail)
        × (s.stats.replay_drop ≤ s'.stats.replay_drop)
  unfolding process_all
  process_all_counts s [] p q = ground arith
  process_all_counts s (x ∷ ps) p q =
      let c = process-Counted s x (omega arith, omega arith, omega arith) in
      let step = process hkdf make_aead clock add_ticks s x in
      let later =
        process_all_counts (process hkdf make_aead clock add_ticks s x).0 ps
          (omega (arith, c.forwarded, sent-le (process hkdf make_aead clock add_ticks s x).1))
          (omega (arith, c.once)) in
      elim (Option-cases (process hkdf make_aead clock add_ticks s x).1) [
        | inl e ↦
            rw (e, process_all)
              (omega (arith, c.forwarded, c.once, c.auth_grows, c.drop_grows, ap sent e, later))
        | inr (out, e) ↦
            rw (e, process_all)
              (omega (arith, c.forwarded, c.once, c.auth_grows, c.drop_grows, ap sent e, later))
      ]
