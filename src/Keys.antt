-- ===== src/Keys.antt =====
-- The key schedule of include/lr/proto.hpp and src/core/proto.cpp: class KeySchedule.
-- HKDF-SHA256 and the cipher factory are parameters: `hkdf salt ikm info n` gives `n` bytes or
-- fails, and `make_aead name key` is the factory of Aead.
pub mod Slots
pub mod Ratchet
mod Tests
use Prim.Native.String.{String}
use linerate.Base.{
  ℕ, zero, suc, ◌+◌, ◌*◌, ◌/◌, ◌%◌, ◌^◌, Bool, true, false, Option, none, some, List, [], ◌∷◌, ◌++◌,
  take, drop, replicate, ◌==◌, if◌then◌else◌, ◌&&◌,
}
use linerate.Base.Bytes.{be_bytes}
use linerate.Aead.{Aead}

-- Slot 0 is the current epoch and slot 1 the one before it.
pub record KeySchedule : Type 0 where
  pub cipher : String
  pub per_epoch : ℕ
  pub chain : List ℕ
  pub epoch : ℕ
  pub rekeys : ℕ
  pub aead0 : Option Aead
  pub aead1 : Option Aead
  pub salt0 : List ℕ
  pub salt1 : List ℕ
  pub tag0 : ℕ
  pub tag1 : ℕ

abbrev pub get_or_else {ℓ} : {A : Type ℓ} → Option A → A → A
get_or_else none d = d
get_or_else (some a) d = a

abbrev pub is_live : Option Aead → Bool
is_live none = false
is_live (some a) = true

unfoldable pub for_epoch : KeySchedule → ℕ → Option Aead
for_epoch ks epoch =
    if is_live ks.aead0 && epoch == ks.tag0
    then ks.aead0
    else if is_live ks.aead1 && epoch == ks.tag1
    then ks.aead1
    else none

-- The epoch's salt and the big-endian sequence number.
unfoldable pub nonce : KeySchedule → ℕ → ℕ → List ℕ
nonce ks epoch seq =
    (if is_live ks.aead1 && epoch == ks.tag1 then ks.salt1 else ks.salt0) ++ be_bytes 8 seq

unfoldable pub cipher_backend : KeySchedule → String
cipher_backend ks = elim ks.aead0 [ none ↦ "none" | some a ↦ a.backend ]

abbrev pub Hkdf : Type 0
Hkdf = List ℕ → List ℕ → String → ℕ → Option (List ℕ)

module _ (hkdf : Hkdf) (make_aead : String → List ℕ → Option Aead) where
  -- Where the derivation fails the key material is zero; the ratchet then leaves the chain.
  unfoldable pub derive : KeySchedule → ℕ → KeySchedule
  derive ks epoch_index =
      let material =
        get_or_else (hkdf (epoch_index ∷ []) ks.chain "linerate traffic" 36) (replicate 36 0) in
      record ks {
        aead1 = ks.aead0;
        salt1 = ks.salt0;
        tag1 = ks.tag0;
        salt0 = take 4 (drop 32 material);
        aead0 = make_aead ks.cipher (take 32 material);
        tag0 = epoch_index;
        chain = get_or_else (hkdf (epoch_index ∷ []) ks.chain "linerate ratchet" 32) ks.chain;
      }

  -- The constructor: epoch 0 has no predecessor.
  unfoldable pub create : List ℕ → String → ℕ → KeySchedule
  create secret cipher packets_per_epoch =
      let blank : KeySchedule = record {
        cipher = cipher;
        per_epoch = packets_per_epoch;
        chain = secret;
        epoch = 0;
        rekeys = 0;
        aead0 = none;
        aead1 = none;
        salt0 = replicate 4 0;
        salt1 = replicate 4 0;
        tag0 = 0;
        tag1 = 0;
      } in
      let ks : KeySchedule = derive blank 0 in record ks { aead1 = none; tag1 = 0 }

  -- `rekeys_` is a `uint64_t`.
  unfoldable pub maybe_rekey : KeySchedule → ℕ → KeySchedule × Bool
  maybe_rekey ks seq =
      let want = seq / ks.per_epoch % 256 in
      let ks' : KeySchedule = derive (record ks { epoch = want }) want in
      if ks.per_epoch == 0
      then (ks, false)
      else if want == ks.epoch
      then (ks, false)
      else (record ks' { rekeys = (ks'.rekeys + 1) % 2 ^ 64 }, true)
