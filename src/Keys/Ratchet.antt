-- ===== src/Keys/Ratchet.antt =====
-- What keys a run of sequence numbers leads to.
use native.Mathlib.Nat.{div-add-mod', mod-lt, div-eq_of_lt-le, zero-div, mod-eq_of_lt}
use Prim.Native.String.{String}
use linerate.Base.{
  ℕ, zero, suc, ◌/◌, ◌%◌, ◌^◌, ◌<◌, ◌≡◌, sym, ap, ◌∙◌, ◌⊎◌, inl, inr, Option, List, [], ◌∷◌, take,
  drop, replicate, arith, Bool-cases, ◌==◌,
}
use linerate.Aead.{Aead}
use linerate.Keys.{KeySchedule, Hkdf, get_or_else, derive, create, maybe_rekey}
use linerate.Keys.Slots.{rekeyed, rekey_step, rekey_idle}

-- (m + 1) / p is m / p or one more.
div_step : (m p : ℕ) → 0 < p → (suc m / p ≡ m / p) ⊎ (suc m / p ≡ suc (m / p))
div_step m p h = elim (Bool-cases (suc (m % p) == p)) [
  | inl e ↦
      inr (div-eq_of_lt-le p (grind (arith, div-add-mod' m p)) (grind (arith, div-add-mod' m p)))
  | inr e ↦ inl (
      div-eq_of_lt-le p (grind (arith, div-add-mod' m p))
        (grind (arith, div-add-mod' m p, mod-lt m {m = p} h)))
]

module _ (hkdf : Hkdf) (make_aead : String → List ℕ → Option Aead) where
  -- `maybe_rekey` on the numbers 0, 1, …, m in turn.
  pub through : ℕ → KeySchedule → KeySchedule
  through zero ks = (maybe_rekey hkdf make_aead ks 0).0
  through (suc m) ks = (maybe_rekey hkdf make_aead (through m ks) (suc m)).0

  module _ (secret : List ℕ) (cipher : String) (p : ℕ) where
    -- The specification: the chain before epoch `n` is ratcheted once for each epoch before it,
    -- and an epoch's key and salt come from the chain as it then is.
    pub chain_before : ℕ → List ℕ
    chain_before zero = secret
    chain_before (suc n) =
        let c = chain_before n in get_or_else (hkdf ((n % 256) ∷ []) c "linerate ratchet" 32) c

    pub traffic : ℕ → List ℕ
    traffic n =
        get_or_else (hkdf ((n % 256) ∷ []) (chain_before n) "linerate traffic" 36) (replicate 36 0)

    epoch_state : ℕ → KeySchedule
    epoch_state zero = create hkdf make_aead secret cipher p
    epoch_state (suc n) = rekeyed hkdf make_aead (epoch_state n) (suc n % 256)

    record Follows (n : ℕ) (ks : KeySchedule) : Type 0 where
      period : ks.per_epoch ≡ p
      named : ks.cipher ≡ cipher
      current : ks.epoch ≡ n % 256
      counted : ks.rekeys ≡ n % 2 ^ 64
      cipher_of : ks.aead0 ≡ make_aead cipher (take 32 (traffic n))
      salt_of : ks.salt0 ≡ take 4 (drop 32 (traffic n))
      chain_of : ks.chain ≡ chain_before (suc n)

    epoch_state-Follows : (n : ℕ) → Follows n (epoch_state n)
    unfolding epoch_state create derive traffic chain_before
    epoch_state-Follows zero = ground arith
    epoch_state-Follows (suc n) = ground (arith, epoch_state-Follows n)

    want_of : (m n : ℕ) → suc m / (epoch_state n).per_epoch % 256 ≡ suc m / p % 256
    want_of m n = let f = epoch_state-Follows n in ap (λ t. suc m / t % 256) f.period

    stay :
        (m n : ℕ)
        → suc m / p ≡ n
        → (maybe_rekey hkdf make_aead (epoch_state n) (suc m)).0 ≡ epoch_state n
    stay m n e =
        ap (λ r. r.0)
          (rekey_idle hkdf make_aead (epoch_state n) (suc m)
            (want_of m n ∙ ap (λ t. t % 256) e ∙ sym f.current))
      where
        f : Follows n (epoch_state n)
        f = epoch_state-Follows n

    move :
        (m n : ℕ)
        → 0 < p
        → suc m / p ≡ suc n
        → (maybe_rekey hkdf make_aead (epoch_state n) (suc m)).0 ≡ epoch_state (suc n)
    unfolding epoch_state
    move m n h e =
        ap (λ r. r.0)
          (rekey_step hkdf make_aead (epoch_state n) (suc m) (omega (arith, f.period))
            (omega (arith, want_of m n, e, f.current)))
        ∙ ap (rekeyed hkdf make_aead (epoch_state n)) (want_of m n ∙ ap (λ t. t % 256) e)
      where
        f : Follows n (epoch_state n)
        f = epoch_state-Follows n

    through-epoch_state : (m : ℕ) → 0 < p → through m (epoch_state 0) ≡ epoch_state (m / p)
    unfolding through
    through-epoch_state zero h =
        ap (λ r. r.0) (rekey_idle hkdf make_aead (epoch_state 0) 0 (zero_epoch ∙ sym start.current))
        ∙ ap epoch_state (sym (zero-div p))
      where
        start : Follows 0 (epoch_state 0)
        start = epoch_state-Follows 0

        zero_epoch : 0 / (epoch_state 0).per_epoch % 256 ≡ 0 % 256
        zero_epoch = ap (λ t. t % 256) (zero-div (epoch_state 0).per_epoch)
    through-epoch_state (suc m) h = elim (div_step m p h) [
      | inl same ↦
          ap (λ k. (maybe_rekey hkdf make_aead k (suc m)).0) (through-epoch_state m h)
          ∙ stay m (m / p) same
          ∙ ap epoch_state (sym same)
      | inr more ↦
          ap (λ k. (maybe_rekey hkdf make_aead k (suc m)).0) (through-epoch_state m h)
          ∙ move m (m / p) h more
          ∙ ap epoch_state (sym more)
    ]

    -- Over the numbers 0 to `m` in order, an epoch being `p` numbers, `p` above 0: the schedule is
    -- then in epoch `m / p` modulo 256, has counted `m / p` rekeys modulo 2^64, and its cipher and
    -- salt are those of the ratchet's epoch `m / p`.
    pub in_order :
        (m : ℕ)
        → 0 < p
        → let ks = through m (create hkdf make_aead secret cipher p) in
          (ks.epoch ≡ m / p % 256)
          × (ks.rekeys ≡ m / p % 2 ^ 64)
          × (ks.aead0 ≡ make_aead cipher (take 32 (traffic (m / p))))
          × (ks.salt0 ≡ take 4 (drop 32 (traffic (m / p))))
    unfolding epoch_state
    in_order m h =
        let f = epoch_state-Follows (m / p) in
        rw (through-epoch_state m h) (f.current, f.counted, f.cipher_of, f.salt_of)

    -- A jump over epochs ratchets once only: from the new schedule straight to a number of epoch
    -- `n`, which is above 0 and fits the byte, the traffic key comes from the chain of epoch 1.
    pub jump_key :
        (seq : ℕ)
        → 0 < p
        → 0 < seq / p
        → seq / p < 256
        → (maybe_rekey hkdf make_aead (create hkdf make_aead secret cipher p) seq).0.aead0
          ≡ make_aead cipher (
              take 32 (
                get_or_else
                  (hkdf ((seq / p) ∷ []) (chain_before 1) "linerate traffic" 36)
                  (replicate 36 0)))
    unfolding create derive chain_before
    jump_key seq h pos byte =
        ap (λ r. r.0.aead0)
          (rekey_step hkdf make_aead (create hkdf make_aead secret cipher p) seq (omega arith)
            (omega (arith, mod-eq_of_lt byte)))
        ∙ ap (λ n. make_aead cipher (take 32 (from_chain n))) (mod-eq_of_lt byte)
      where
        from_chain : ℕ → List ℕ
        from_chain n =
            get_or_else (hkdf (n ∷ []) (chain_before 1) "linerate traffic" 36) (replicate 36 0)
