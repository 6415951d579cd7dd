-- ===== src/Keys/Tests.antt =====
-- Runs of the key schedule and the theorems on it at concrete inputs.
use linerate.Base.{ℕ, ◌/◌, ◌%◌, ◌^◌, ◌≡◌, refl, some, List, [], ◌∷◌, take, drop, replicate, arith}
use linerate.Aead.{Aead}
use linerate.Keys.{KeySchedule, get_or_else, create, maybe_rekey}
use linerate.Keys.Slots.{nonce-injective}
use linerate.Keys.Ratchet.{through, chain_before, traffic, in_order, jump_key}
use linerate.Fixtures.{toy_hkdf, toy_cipher, toy_aead}

abbrev secret : List ℕ
secret = 9 ∷ replicate 31 5

abbrev old_key : Aead
old_key = toy_cipher "toy" (replicate 32 1)

abbrev new_key : Aead
new_key = toy_cipher "toy" (replicate 32 2)

-- In epoch 1, with epoch 0 still open; an epoch is four packets.
abbrev two_epochs : KeySchedule
two_epochs = record {
  cipher = "toy";
  per_epoch = 4;
  chain = secret;
  epoch = 1;
  rekeys = 1;
  aead0 = some new_key;
  aead1 = some old_key;
  salt0 = 1 ∷ 2 ∷ 3 ∷ 4 ∷ [];
  salt1 = 5 ∷ 6 ∷ 7 ∷ 8 ∷ [];
  tag0 = 1;
  tag1 = 0;
}

abbrev third : ℕ
third = 3

nonce-injective_example : third ≡ 3
nonce-injective_example =
    nonce-injective two_epochs 1 1 third 3 (refl, refl) (omega arith) (omega arith) refl

in_order_example :
    let ks = through toy_hkdf toy_aead 9 (create toy_hkdf toy_aead secret "toy" 4) in
    (ks.epoch ≡ 9 / 4 % 256)
    × (ks.rekeys ≡ 9 / 4 % 2 ^ 64)
    × (ks.aead0 ≡ toy_aead "toy" (take 32 (traffic toy_hkdf toy_aead secret "toy" 4 (9 / 4))))
    × (ks.salt0 ≡ take 4 (drop 32 (traffic toy_hkdf toy_aead secret "toy" 4 (9 / 4))))
in_order_example = in_order toy_hkdf toy_aead secret "toy" 4 9 (omega arith)

jump_key_example :
    (maybe_rekey toy_hkdf toy_aead (create toy_hkdf toy_aead secret "toy" 4) 9).0.aead0
    ≡ toy_aead "toy" (
        take 32 (
          get_or_else
            (toy_hkdf
              ((9 / 4) ∷ [])
              (chain_before toy_hkdf toy_aead secret "toy" 4 1)
              "linerate traffic"
              36)
            (replicate 36 0)))
jump_key_example =
    jump_key toy_hkdf toy_aead secret "toy" 4 9 (omega arith) (omega arith) (omega arith)
