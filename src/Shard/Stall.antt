-- ===== src/Shard/Stall.antt =====
-- The receiver's epoch follows the numbers it gives out itself, not the epochs it receives.
use native.Mathlib.Nat.{le-div_iff_mul-le, div-lt_iff_lt-mul, mod-eq_of_lt}
use Prim.Native.String.{String}
use linerate.Base.{
  ℕ, ◌+◌, ◌*◌, ◌/◌, ◌%◌, ◌≤◌, ◌<◌, ◌≡◌, refl, ◌∙◌, ◌⊎◌, inl, inr, Option, none, List, [], ◌∷◌, ◌++◌,
  length, take, arith, Option-cases, All,
}
use linerate.Aead.{Aead}
use linerate.Keys.{KeySchedule, Hkdf, for_epoch, nonce, maybe_rekey}
use linerate.Wire.{WireHdr, encode, decode, lr_magic, wt_data, lr_hdr, lr_tag}
use linerate.Shard.{
  Shard, check_replay, count_auth_fail, store_plain, count_replay_drop, process, process_all,
  make_packet,
}
use linerate.Wire.Header.{epoch-encode}
use linerate.Keys.Slots.{maybe_rekey_epoch}
use linerate.Shard.Process.{process_cases, open_cases}

-- The schedule is in epoch 0 and has not been rekeyed.
abbrev pub IsFirst : KeySchedule → Type 0
IsFirst ks = (ks.epoch ≡ 0) × (ks.tag0 ≡ 0) × (ks.aead1 ≡ none)

-- Too short to be a packet, or of an epoch above 0.
abbrev pub Late : List ℕ → Type 0
Late p = (length p < lr_hdr + lr_tag) ⊎ (0 < (decode p).epoch)

IsFirst-for_epoch :
    (ks : KeySchedule) (epoch : ℕ) → IsFirst ks → 0 < epoch → for_epoch ks epoch ≡ none
unfolding for_epoch
IsFirst-for_epoch ks epoch f h = ground arith

module _ {Hist : Type 0} where
  -- Nothing was sent, and no number was taken.
  abbrev pub Stuck : Shard Hist → Shard Hist → Type 0
  Stuck s s' = (s'.keys ≡ s.keys) × (s'.seq ≡ s.seq) × (s'.stats.packets ≡ s.stats.packets)

module _ {Hist : Type 0} (hkdf : Hkdf) (make_aead : String → List ℕ → Option Aead) (clock : ℕ → ℕ)
    (add_ticks : ℕ → Hist → Hist) where
  process-Stuck :
      (s : Shard Hist) (p : List ℕ)
      → IsFirst s.keys
      → Late p
      → ((process hkdf make_aead clock add_ticks s p).1 ≡ none)
        × Stuck s (process hkdf make_aead clock add_ticks s p).0
  unfolding process
  process-Stuck s p f (inl short) = ground arith
  process-Stuck s p f (inr late) =
      process_cases hkdf make_aead clock add_ticks (λ s' out. (out ≡ none) × Stuck s s') s p
        (refl, (refl, refl, refl)) (λ e. unfold count_replay_drop in (refl, (refl, refl, refl)))
        (λ e.
          open_cases hkdf make_aead clock add_ticks (λ s' out. (out ≡ none) × Stuck s s')
            (record s { replay = (check_replay s.replay (decode p).seq).0 }) (decode p) p
            (unfold count_auth_fail in (refl, (refl, refl, refl)))
            (λ pt. unfold count_auth_fail store_plain in (refl, (refl, refl, refl)))
            (λ a pt g h. cc (IsFirst-for_epoch s.keys (decode p).epoch f late)))

  batch-Stuck :
      (s : Shard Hist) (ps : List (List ℕ))
      → IsFirst s.keys
      → All Late ps
      → ((process_all hkdf make_aead clock add_ticks s ps).1 ≡ [])
        × Stuck s (process_all hkdf make_aead clock add_ticks s ps).0
  unfolding process_all
  batch-Stuck s [] f late = (refl, (refl, refl, refl))
  batch-Stuck s (p ∷ ps) f late =
      let step = process-Stuck s p f late.0 in
      let rest =
        batch-Stuck (process hkdf make_aead clock add_ticks s p).0 ps (rw step.1.0 f) late.1 in
      rw (step.0, process_all)
        (rest.0, (rest.1.0 ∙ step.1.0, rest.1.1 ∙ step.1.1, rest.1.2 ∙ step.1.2))

  -- The packets that a sender makes for these numbers, in order.
  pub make_all : Shard Hist → List ℕ → List (List ℕ)
  make_all t [] = []
  make_all t (n ∷ ns) =
      let (t', p) = make_packet hkdf make_aead clock add_ticks t n in p ∷ make_all t' ns

  make_packet_cases {ℓ} :
      (P : KeySchedule → List ℕ → Type ℓ) (t : Shard Hist) (n : ℕ)
      → P (maybe_rekey hkdf make_aead t.keys n).0 []
      → ((h : WireHdr) (ct : List ℕ)
          → h.epoch ≡ (maybe_rekey hkdf make_aead t.keys n).0.epoch
          → P (maybe_rekey hkdf make_aead t.keys n).0 (encode h ++ ct))
      → P
          (make_packet hkdf make_aead clock add_ticks t n).0.keys
          (make_packet hkdf make_aead clock add_ticks t n).1
  unfolding make_packet
  make_packet_cases P t n failed made = elim (Option-cases (for_epoch ks ks.epoch)) [
    | inl e ↦ rw (e, make_packet) failed
    | inr (a, e) ↦
        elim (Option-cases (a.seal (nonce ks ks.epoch n) (encode h) (take t.payload t.plain))) [
          | inl f ↦ rw (e, f, make_packet) failed
          | inr (ct, f) ↦ rw (e, f, make_packet) (made h ct refl)
        ]
  ]
    where
      ks : KeySchedule
      ks = (maybe_rekey hkdf make_aead t.keys n).0

      h : WireHdr
      h = record {
        magic = lr_magic;
        type = wt_data;
        epoch = ks.epoch;
        flags = 0;
        seq = n;
        tsc = clock t.reads;
      }

  make_packet-Late :
      (t : Shard Hist) (n p : ℕ)
      → t.keys.per_epoch ≡ p
      → 0 < p
      → p ≤ n
      → n < 256 * p
      → Late (make_packet hkdf make_aead clock add_ticks t n).1
        × ((make_packet hkdf make_aead clock add_ticks t n).0.keys.per_epoch ≡ p)
  make_packet-Late t n p e pos lo hi =
      make_packet_cases (λ ks out. Late out × (ks.per_epoch ≡ p)) t n (inl (omega arith), now.1 ∙ e)
        (λ h ct g. (inr (omega (arith, epoch-encode h ct, g, now.0, small)), now.1 ∙ e))
    where
      now :
          ((maybe_rekey hkdf make_aead t.keys n).0.epoch ≡ n / t.keys.per_epoch % 256)
          × ((maybe_rekey hkdf make_aead t.keys n).0.per_epoch ≡ t.keys.per_epoch)
      now = maybe_rekey_epoch hkdf make_aead t.keys n (omega arith)

      small : 0 < n / t.keys.per_epoch % 256
      small = rw e (
          rw (mod-eq_of_lt {n = n / p} ((div-lt_iff_lt-mul pos).1 hi))
            ((le-div_iff_mul-le {x = 1} pos).1 (omega arith)))

  make_all-Late :
      (p : ℕ) (t : Shard Hist) (ns : List ℕ)
      → t.keys.per_epoch ≡ p
      → 0 < p
      → All (λ n. (p ≤ n) × (n < 256 * p)) ns
      → All Late (make_all t ns)
  unfolding make_all
  make_all-Late p t [] e pos within = tt
  make_all-Late p t (n ∷ ns) e pos within =
      let made = make_packet-Late t n p e pos within.0.0 within.0.1 in
      (
        made.0,
        make_all-Late p (make_packet hkdf make_aead clock add_ticks t n).0 ns made.1 pos within.1,
      )

  -- A receiver that is still in its first epoch sends nothing on, and stays there, however many
  -- packets of the sender's epochs 1 to 255 arrive: numbers from one period up to 256 periods.
  pub rekey_stalls :
      (s t : Shard Hist) (p : ℕ) (ns : List ℕ)
      → IsFirst s.keys
      → t.keys.per_epoch ≡ p
      → 0 < p
      → All (λ n. (p ≤ n) × (n < 256 * p)) ns
      → ((process_all hkdf make_aead clock add_ticks s (make_all t ns)).1 ≡ [])
        × Stuck s (process_all hkdf make_aead clock add_ticks s (make_all t ns)).0
  rekey_stalls s t p ns first e pos within =
      batch-Stuck s (make_all t ns) first (make_all-Late p t ns e pos within)
