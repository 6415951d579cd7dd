-- ===== src/Shard/Drain.antt =====
-- Shard::drain of src/core/worker.cpp: batches are received, processed and sent until the budget is
-- spent or nothing waits.
pub mod Takes
use Prim.Native.String.{String}
use linerate.Base.{
  ℕ, zero, suc, sym, subst, List-cases, if_any, if_any-cons, ap, ap₂, refl, ◌∙◌, ◌+◌, ◌-◌, ◌^◌, ◌<◌,
  ◌≤◌, ◌≡◌, ◌⊎◌, inl, inr, min, Bool, true, false, Option, none, some, List, [], ◌∷◌, ◌++◌, length,
  take, drop, length-append, append-nil, append_assoc, take-split, drop-split, no_elements, ltb,
  ltb→lt, if◌then◌else◌, arith, Bool-cases, Option-cases,
}
use linerate.Aead.{Aead}
use linerate.Keys.{Hkdf}
use linerate.Transport.{Transport}
use linerate.Transport.Fifo.{Fifo}
use linerate.Shard.{u64, Stats, Shard, process, process_all}

-- What a drain leaves: the shard, the transport, the return value, and the two statistics it sets.
pub record Drained (Hist S : Type 0) : Type 0 where
  pub shard : Shard Hist
  pub link : S
  pub processed : ℕ
  pub ticks_busy : ℕ
  pub syscalls : ℕ

-- `if (to_send) tx_->send_batch(sslots_.data(), to_send)`
module _ {S : Type 0} (tx : Transport S) where
  abbrev pub send_some : S → List (List ℕ) → S
  send_some t [] = t
  send_some t (o ∷ outs) = (tx.send_batch t (o ∷ outs)).0

module _ {Hist S : Type 0} (hkdf : Hkdf) (make_aead : String → List ℕ → Option Aead) (clock : ℕ → ℕ)
    (add_ticks : ℕ → Hist → Hist) (tx : Transport S) where
  -- The while loop, with what is left of the budget; `none` if the fuel runs out.
  unfoldable pub drain_loop : ℕ → Shard Hist → S → ℕ → ℕ → Option (Shard Hist × S × ℕ)
  drain_loop zero s t budget processed = none
  drain_loop (suc fuel) s t budget processed =
      let (t', ps) = tx.recv_batch t (min (budget - processed) (tx.max_batch t)) in
      let (s', outs) = process_all hkdf make_aead clock add_ticks s ps in
      let rest = drain_loop fuel s' (send_some tx t' outs) budget (processed + length ps) in
      if ltb processed budget
      then if_any ps rest (some (s, t', processed))
      else some (s, t, processed)

  -- The two statistics set after the loop, which began at the clock's value `t0`.
  abbrev pub finish : ℕ → ℕ → ℕ → Shard Hist × S × ℕ → Drained Hist S
  finish t0 syscall_base ticks_busy (s, t, processed) = record {
    shard = record s { reads = s.reads + 1 };
    link = t;
    processed = processed;
    ticks_busy = u64 (ticks_busy + u64 (clock s.reads + 2 ^ 64 - t0));
    syscalls = u64 (tx.syscalls t + 2 ^ 64 - syscall_base);
  }

  unfoldable pub drain : ℕ → ℕ → ℕ → Shard Hist → S → ℕ → Option (Drained Hist S)
  drain fuel syscall_base ticks_busy s t budget =
      elim (drain_loop fuel (record s { reads = s.reads + 1 }) t budget 0) [
        | none ↦ none
        | some r ↦ some (finish (clock s.reads) syscall_base ticks_busy r)
      ]
