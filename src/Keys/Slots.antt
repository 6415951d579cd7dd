-- ===== src/Keys/Slots.antt =====
-- The two slots: `for_epoch` and `nonce` always agree on the slot, and a rekey keeps the epoch
-- before it.
use Prim.Native.String.{String}
use linerate.Base.{
  ℕ, zero, suc, ap, sym, Bool-cases, ==_iff, ◌+◌, ◌/◌, ◌%◌, ◌^◌, ◌<◌, ◌≡◌, ◌≢◌, refl, ◌⊎◌, inl, inr,
  true, false, Option, none, some, List, [], ◌∷◌, ◌++◌, drop, ◌==◌, if◌then◌else◌, ◌&&◌, arith,
  length,
}
use linerate.Base.Bytes.{be_bytes, be_bytes-injective}
use linerate.Aead.{Aead}
use linerate.Keys.{KeySchedule, Hkdf, is_live, for_epoch, nonce, derive, create, maybe_rekey}

pub record IsConsistent (ks : KeySchedule) : Type 0 where
  pub current : ks.tag0 ≡ ks.epoch
  pub byte : ks.epoch < 256
  pub apart : (ks.aead1 ≡ none) ⊎ (ks.tag1 ≢ ks.tag0)

-- The epochs that can still be opened, each with its cipher and its salt.
pub record Slot : Type 0 where
  pub tag : ℕ
  pub aead : Aead
  pub salt : List ℕ

abbrev one_slot : ℕ → Option Aead → List ℕ → List Slot
one_slot tag none salt = []
one_slot tag (some a) salt = record { tag = tag; aead = a; salt = salt } ∷ []

abbrev pub live : KeySchedule → List Slot
live ks = one_slot ks.tag0 ks.aead0 ks.salt0 ++ one_slot ks.tag1 ks.aead1 ks.salt1

abbrev pub lookup_slot : ℕ → List Slot → Option Slot
lookup_slot epoch [] = none
lookup_slot epoch (s ∷ rest) = if epoch == s.tag then some s else lookup_slot epoch rest

-- In a consistent schedule, an epoch with a live slot is opened with that slot's cipher, under a
-- nonce that begins with that slot's salt.
pub slot_agrees :
    (ks : KeySchedule) (epoch seq : ℕ) (s : Slot)
    → IsConsistent ks
    → lookup_slot epoch (live ks) ≡ some s
    → (for_epoch ks epoch ≡ some s.aead) × (nonce ks epoch seq ≡ s.salt ++ be_bytes 8 seq)
unfolding for_epoch nonce
slot_agrees ks epoch seq s c e = ground arith

-- An epoch without a live slot has no cipher.
pub no_slot :
    (ks : KeySchedule) (epoch : ℕ) → lookup_slot epoch (live ks) ≡ none → for_epoch ks epoch ≡ none
unfolding for_epoch
no_slot ks epoch e = ground arith

append_salt_cancel :
    (n : ℕ) (s t xs ys : List ℕ) → length s ≡ n → length t ≡ n → s ++ xs ≡ t ++ ys → xs ≡ ys
append_salt_cancel zero [] [] xs ys p q e = e
append_salt_cancel zero [] (y ∷ t) xs ys p q e = absurd (omega arith)
append_salt_cancel zero (x ∷ s) t xs ys p q e = absurd (omega arith)
append_salt_cancel (suc n) [] t xs ys p q e = absurd (omega arith)
append_salt_cancel (suc n) (x ∷ s) [] xs ys p q e = absurd (omega arith)
append_salt_cancel (suc n) (x ∷ s) (y ∷ t) xs ys p q e =
    append_salt_cancel n s t xs ys (omega arith) (omega arith) (ap (drop 1) e)

-- Salts have four bytes.
abbrev pub HasSalts : KeySchedule → Type 0
HasSalts ks = (length ks.salt0 ≡ 4) × (length ks.salt1 ≡ 4)

-- Two packets under one schedule have the same nonce only if they have the same number, whatever
-- their epochs. The salts have four bytes and the numbers fit 64 bits.
pub nonce-injective :
    (ks : KeySchedule) (epoch epoch' seq seq' : ℕ)
    → HasSalts ks
    → seq < 2 ^ 64
    → seq' < 2 ^ 64
    → nonce ks epoch seq ≡ nonce ks epoch' seq'
    → seq ≡ seq'
unfolding nonce
nonce-injective ks epoch epoch' seq seq' h p q e =
    be_bytes-injective seq seq' p q (
      append_salt_cancel 4 (salt epoch) (salt epoch') _ _ (salt-length epoch) (salt-length epoch')
        e)
  where
    salt : ℕ → List ℕ
    salt i = if is_live ks.aead1 && i == ks.tag1 then ks.salt1 else ks.salt0

    salt-length : (i : ℕ) → length (salt i) ≡ 4
    salt-length i = ground arith

module _ (hkdf : Hkdf) (make_aead : String → List ℕ → Option Aead) where
  -- The schedule after a rekey.
  abbrev pub rekeyed : KeySchedule → ℕ → KeySchedule
  rekeyed ks want =
      let ks' : KeySchedule = derive hkdf make_aead (record ks { epoch = want }) want in
      record ks' { rekeys = (ks'.rekeys + 1) % 2 ^ 64 }

  pub rekey_step :
      (ks : KeySchedule) (seq : ℕ)
      → ks.per_epoch ≢ 0
      → seq / ks.per_epoch % 256 ≢ ks.epoch
      → maybe_rekey hkdf make_aead ks seq ≡ (rekeyed ks (seq / ks.per_epoch % 256), true)
  unfolding maybe_rekey
  rekey_step ks seq on new = ground arith

  pub rekey_idle :
      (ks : KeySchedule) (seq : ℕ)
      → seq / ks.per_epoch % 256 ≡ ks.epoch
      → maybe_rekey hkdf make_aead ks seq ≡ (ks, false)
  unfolding maybe_rekey
  rekey_idle ks seq same = ground arith

module _ (hkdf : Hkdf) (make_aead : String → List ℕ → Option Aead) where
  pub create-IsConsistent :
      (secret : List ℕ) (cipher : String) (n : ℕ)
      → IsConsistent (create hkdf make_aead secret cipher n)
  unfolding create derive
  create-IsConsistent secret cipher n = ground arith

  -- Every call keeps the schedule consistent.
  pub maybe_rekey-IsConsistent :
      (ks : KeySchedule) (seq : ℕ)
      → IsConsistent ks
      → IsConsistent (maybe_rekey hkdf make_aead ks seq).0
  unfolding maybe_rekey derive
  maybe_rekey-IsConsistent ks seq c = ground arith

  -- Whatever happens, the period stays; with rekeying on, the epoch is that of the number.
  pub maybe_rekey_epoch :
      (ks : KeySchedule) (seq : ℕ)
      → ks.per_epoch ≢ 0
      → ((maybe_rekey hkdf make_aead ks seq).0.epoch ≡ seq / ks.per_epoch % 256)
        × ((maybe_rekey hkdf make_aead ks seq).0.per_epoch ≡ ks.per_epoch)
  maybe_rekey_epoch ks seq on = elim (Bool-cases (seq / ks.per_epoch % 256 == ks.epoch)) [
    | inl same ↦
        rw (rekey_idle hkdf make_aead ks seq ((==_iff _ _).0 same))
          (sym ((==_iff _ _).0 same), refl)
    | inr new ↦
        rw (rekey_step hkdf make_aead ks seq on (ground arith)) (unfold derive in (refl, refl))
  ]
