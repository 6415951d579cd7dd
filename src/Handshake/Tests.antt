-- ===== src/Handshake/Tests.antt =====
-- The handshake at a concrete derivation and key exchange.
use linerate.Base.{
  ℕ, ◌+◌, ◌≡◌, ap, sym, ◌∙◌, refl, true, Option, some, List, [], ◌∷◌, ◌++◌, length, take, get_or,
  replicate, arith, length-take, length-append, length-replicate,
}
use mathlib.Core.Option.{some-injective}
use linerate.Handshake.{
  HandshakeResult, Endpoint, pub_len, fresh, blank, ct_eq, binder, traffic_keys, agree,
  read_init_write_resp, read_resp, handshake_pair,
}
use linerate.Handshake.Binding.{GivesLength, tag_of, read_resp_binds, read_init_binds}
use linerate.Handshake.Agreement.{Works, handshake_agrees}
use linerate.Fixtures.{toy_hkdf}

abbrev toy_keygen : ℕ → Option (ℕ × List ℕ)
toy_keygen i = some (i, replicate 32 (i + 1))

-- Both sides add the same two numbers.
abbrev toy_exchange : ℕ → List ℕ → Option (List ℕ)
toy_exchange k peer = some (replicate 32 (k + 1 + get_or peer 0 0))

abbrev psk : List ℕ
psk = replicate 32 77

toy_hkdf-GivesLength : GivesLength toy_hkdf
toy_hkdf-GivesLength salt ikm info n out e =
    let padded : length (ikm ++ replicate n 7) ≡ length ikm + n =
      length-append ikm (replicate n 7) ∙ ap (λ k. length ikm + k) (length-replicate n 7) in
    sym (ap length (some-injective _ _ e)) ∙ length-take n _ ∙ omega (arith, padded)

toy-Works : Works toy_hkdf toy_keygen toy_exchange psk
unfolding binder traffic_keys
toy-Works = record {
  key0 = 0;
  key1 = 1;
  pub0 = replicate 32 1;
  pub1 = replicate 32 2;
  shared = replicate 32 3;
  tag0 = 79 ∷ replicate 15 1;
  tag1 = 79 ∷ replicate 15 1;
  i2r = 5 ∷ replicate 31 3;
  r2i = 3 ∷ replicate 31 77;
  first_pair = refl;
  second_pair = refl;
  size0 = refl;
  size1 = refl;
  tag_size0 = refl;
  tag_size1 = refl;
  exchanged0 = refl;
  exchanged1 = refl;
  bound0 = refl;
  bound1 = refl;
  derived = refl;
}

handshake_agrees_example :
    (ri : HandshakeResult) × (rr : HandshakeResult) × (handshake_pair toy_hkdf toy_keygen
        toy_exchange psk
      ≡ (record blank { ok = true; tx = ri.tx; rx = ri.rx }, some (ri, rr)))
    × (ri.tx ≡ rr.rx)
    × (rr.tx ≡ ri.rx)
    × (ri.ok ≡ true)
    × (rr.ok ≡ true)
handshake_agrees_example = handshake_agrees toy_hkdf toy_keygen toy_exchange psk toy-Works

abbrev short_tag : List ℕ
short_tag = 1 ∷ 2 ∷ []

-- The initiator's state after its first message, and both messages of a good run.
abbrev waiting : Endpoint ℕ
waiting = record (fresh psk) { initiator = true; eph = some 0; my_pub = replicate 32 1 }

abbrev first_message : List ℕ
first_message = replicate 32 1 ++ (79 ∷ replicate 15 1)

abbrev response : List ℕ
response = replicate 32 2 ++ (79 ∷ replicate 15 1)

read_init_binds_example :
    binder toy_hkdf psk (take pub_len first_message) ≡ some (tag_of toy_hkdf first_message)
unfolding read_init_write_resp binder traffic_keys agree ct_eq
read_init_binds_example =
    read_init_binds toy_hkdf toy_keygen toy_exchange 1 (fresh psk) first_message
      toy_hkdf-GivesLength refl refl

read_resp_binds_example :
    binder toy_hkdf psk (replicate 32 1 ++ take pub_len response) ≡ some (tag_of toy_hkdf response)
unfolding read_resp binder traffic_keys agree ct_eq
read_resp_binds_example =
    read_resp_binds toy_hkdf toy_keygen toy_exchange waiting response toy_hkdf-GivesLength refl refl
