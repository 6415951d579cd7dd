-- ===== src/Shard/Loader.antt =====
-- Shard::preload and class Generator of src/core/worker.cpp: the two senders that use make_packet.
-- Whether a socket could be opened is an argument; sendto is the parameter of Transport.
use Prim.Native.String.{String}
use text.Mathlib.Text.{◌==◌ as str_eq}
use linerate.Base.{
  ℕ, zero, suc, ◌+◌, ◌^◌, ◌<◌, ◌≡◌, inl, inr, Bool, true, false, not, ◌||◌, Option, none, some, ◌⊎◌,
  refl, ap, sym, subst, List, [], ◌∷◌, length, ltb, if◌then◌else◌, arith, Bool-cases,
}
use linerate.Aead.{Aead}
use linerate.Keys.{Hkdf}
use linerate.Transport.{SendResult, accepted, refused, failed, Socket}
use linerate.Shard.{u64, Shard, make_packet}

-- `::sendto(...) > 0`
abbrev pub went_out : SendResult → Bool
went_out (accepted n) = ltb 0 n
went_out refused = false
went_out failed = false

-- class Generator: the shard it seals with, whether its socket and destination are set, and its
-- two counters.
pub record Generator (Hist : Type 0) : Type 0 where
  pub proto : Shard Hist
  pub ready : Bool
  pub sent : ℕ
  pub refusals : ℕ

-- Its constructor: `opens` is whether open_udp gives a socket at an address, `parses` whether
-- inet_pton reads one. With it the error, if there is one, and the text it quotes.
unfoldable pub new_generator :
    {Hist : Type 0}
    → (String → Bool)
    → (String → Bool)
    → Shard Hist
    → String
    → Generator Hist × Option (String × String)
new_generator opens parses proto dst_addr =
    let loop = str_eq dst_addr "" || str_eq dst_addr "127.0.0.1" in
    let made : Bool → Generator _ =
      λ ready. record { proto = proto; ready = ready; sent = 0; refusals = 0 } in
    if not (opens (if loop then "127.0.0.1" else "0.0.0.0"))
    then (made false, some ("generator socket failed", ""))
    else if loop
    then (made true, none)
    else if parses dst_addr
    then (made true, none)
    else (made false, some ("bad destination address: ", dst_addr))

module _ {Hist K : Type 0} (hkdf : Hkdf) (make_aead : String → List ℕ → Option Aead) (clock : ℕ → ℕ)
    (add_ticks : ℕ → Hist → Hist) (os : Socket K) where
  abbrev pub refuse : Generator Hist → Generator Hist
  refuse g = record g { refusals = u64 (g.refusals + 1) }

  -- The packet is made, and sent if there is one.
  abbrev pub emit_packet : Generator Hist → K → List ℕ → Generator Hist × K × Bool
  emit_packet g k [] = (refuse g, k, false)
  emit_packet g k (c ∷ p) =
      let (k', r) = os.sendto k (c ∷ p) in
      if went_out r then (record g { sent = u64 (g.sent + 1) }, k', true) else (refuse g, k', false)

  unfoldable pub emit : Generator Hist → K → ℕ → Generator Hist × K × Bool
  emit g k seq =
      let (s', p) = make_packet hkdf make_aead clock add_ticks g.proto seq in
      if not g.ready then (refuse g, k, false) else emit_packet (record g { proto = s' }) k p

  -- A run of calls, and how many returned true.
  unfoldable pub emit_all : Generator Hist → K → List ℕ → Generator Hist × K × ℕ
  emit_all g k [] = (g, k, 0)
  emit_all g k (seq ∷ rest) =
      let (g', k', ok) = emit g k seq in
      let (g'', k'', count) = emit_all g' k' rest in (g'', k'', (if ok then 1 else 0) + count)

  -- The loop of preload with `n` turns left: the number of packets sent.
  unfoldable pub preload_loop : ℕ → Shard Hist → K → Shard Hist × K × ℕ
  preload_loop zero s k = (s, k, 0)
  preload_loop (suc n) s k =
      let (s', p) =
        make_packet hkdf make_aead clock add_ticks (record s { seq = u64 (s.seq + 1) }) s.seq in
      let (k', r) = os.sendto k p in
      let (s'', k'', ok) = preload_loop n s' k' in
      elim p [ [] ↦ (s', k, 0) | _ ∷ _ ↦ (s'', k'', (if went_out r then 1 else 0) + ok) ]

  -- `loopback` is whether the source is Loopback and the loader's socket is open.
  unfoldable pub preload : Bool → ℕ → Shard Hist → K → Shard Hist × K × ℕ
  preload loopback n s k = let run = preload_loop n s k in if loopback then run else (s, k, 0)

  emit_packet_counts :
      (g : Generator Hist) (k : K) (p : List ℕ)
      → g.sent + g.refusals + 1 < 2 ^ 64
      → let (g', k', ok) = emit_packet g k p in
        (g'.sent ≡ g.sent + (if ok then 1 else 0))
        × (g'.sent + g'.refusals ≡ g.sent + g.refusals + 1)
  emit_packet_counts g k [] room = (omega arith, omega arith)
  emit_packet_counts g k (c ∷ p) room = elim (Bool-cases (went_out (os.sendto k (c ∷ p)).1)) [
    | inl e ↦ rw e (omega arith, omega arith)
    | inr e ↦ rw e (omega arith, omega arith)
  ]

  emit_counts :
      (g : Generator Hist) (k : K) (seq : ℕ)
      → g.sent + g.refusals + 1 < 2 ^ 64
      → let (g', k', ok) = emit g k seq in
        (g'.sent ≡ g.sent + (if ok then 1 else 0))
        × (g'.sent + g'.refusals ≡ g.sent + g.refusals + 1)
  unfolding emit
  emit_counts g k seq room = elim (Bool-cases g.ready) [
    | inl e ↦
        rw (e, emit)
          (emit_packet_counts
            (record g {
              proto = (make_packet hkdf make_aead clock add_ticks g.proto seq).0;
              ready = true;
            })
            k (make_packet hkdf make_aead clock add_ticks g.proto seq).1 room)
    | inr e ↦ rw (e, emit) (omega arith, omega arith)
  ]

  -- Over a run of calls of emit, while the counters cannot wrap: `sent` goes up by the number of
  -- calls that returned true, and every call counts as sent or as refused, never as both.
  pub emit_all_counts :
      (g : Generator Hist) (k : K) (seqs : List ℕ)
      → g.sent + g.refusals + length seqs < 2 ^ 64
      → let (g', k', count) = emit_all g k seqs in
        (g'.sent ≡ g.sent + count) × (g'.sent + g'.refusals ≡ g.sent + g.refusals + length seqs)
  unfolding emit_all
  emit_all_counts g k [] room = (omega arith, omega arith)
  emit_all_counts g k (seq ∷ seqs) room =
      let (one, both) = emit_counts g k seq (omega arith) in
      let step = emit g k seq in
      let (rest, all) = emit_all_counts step.0 step.1 seqs (omega (arith, both)) in
      (omega (arith, one, rest), omega (arith, both, all))

  emit_unready :
      (g : Generator Hist) (k : K) (seq : ℕ) → g.ready ≡ false → emit g k seq ≡ (refuse g, k, false)
  unfolding emit
  emit_unready g k seq e =
      let (s', p) = make_packet hkdf make_aead clock add_ticks g.proto seq in
      ap
        (λ ready.
          if not ready then (refuse g, k, false) else emit_packet (record g { proto = s' }) k p)
        e

  -- With no socket or no destination nothing is sent.
  emit_all_unready :
      (g : Generator Hist) (k : K) (seqs : List ℕ)
      → g.ready ≡ false
      → let (g', k', count) = emit_all g k seqs in (k' ≡ k) × (count ≡ 0)
  unfolding emit_all
  emit_all_unready g k [] e = (refl, refl)
  emit_all_unready g k (seq ∷ seqs) e =
      let (same, none_sent) = emit_all_unready (refuse g) k seqs e in
      subst
        (λ o.
          let (g', k', count) = emit_all o.0 o.1 seqs in
          (k' ≡ k) × ((if o.2 then 1 else 0) + count ≡ 0))
        (sym (emit_unready g k seq e)) (same, omega (arith, none_sent))

  new_generator_starts :
      (opens parses : String → Bool) (proto : Shard Hist) (dst_addr : String)
      → let (g, err) = new_generator opens parses proto dst_addr in
        (g.sent ≡ 0) × (g.refusals ≡ 0) × ((err ≡ none) ⊎ (g.ready ≡ false))
  unfolding new_generator
  new_generator_starts opens parses proto dst_addr = ground arith

  -- Over a run of less than 2^64 calls of emit on a new generator: `sent` is the number of calls
  -- that returned true, and the others are counted as refused. Where the constructor gives an
  -- error, no call returns true and nothing is sent.
  pub new_generator_counts :
      (opens parses : String → Bool) (proto : Shard Hist) (dst_addr : String) (k : K)
      (seqs : List ℕ)
      → length seqs < 2 ^ 64
      → let (g, err) = new_generator opens parses proto dst_addr in
        let (g', k', count) = emit_all g k seqs in
        (g'.sent ≡ count)
        × (g'.sent + g'.refusals ≡ length seqs)
        × ((err ≡ none) ⊎ ((k' ≡ k) × (count ≡ 0)))
  new_generator_counts opens parses proto dst_addr k seqs room =
      let g = (new_generator opens parses proto dst_addr).0 in
      let (none_sent, none_refused, unready) = new_generator_starts opens parses proto dst_addr in
      let (counted, all) = emit_all_counts g k seqs (omega (arith, none_sent, none_refused)) in
      (
        omega (arith, counted, none_sent),
        omega (arith, all, none_sent, none_refused),
        elim unready [ inl e ↦ inl e | inr e ↦ inr (emit_all_unready g k seqs e) ],
      )
