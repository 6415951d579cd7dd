-- ===== src/Handshake/Agreement.antt =====
-- Two endpoints with the same pre-shared key, whose messages arrive as they were sent.
use linerate.Base.{
  ℕ, zero, suc, sym, ap, refl, ◌∙◌, ◌≡◌, true, Option, some, List, [], ◌∷◌, ◌++◌, length, take,
  drop, take-append, drop-append, arith,
}
use linerate.Keys.{Hkdf}
use linerate.Handshake.{
  pub_len, HandshakeResult, Endpoint, secrets, fresh, blank, ct_eq, binder, traffic_keys, agree,
  write_init, read_init_write_resp, read_resp, handshake_pair,
}
use linerate.Handshake.Binding.{ct_eq_iff}

-- What a run needs of OpenSSL: two key pairs whose exchanges agree, as X25519's do, and derivations
-- that succeed.
pub record Works {E : Type 0} (hkdf : Hkdf) (keygen : ℕ → Option (E × List ℕ))
    (exchange : E → List ℕ → Option (List ℕ)) (psk : List ℕ) : Type 0 where
  pub key0 : E
  pub key1 : E
  pub pub0 : List ℕ
  pub pub1 : List ℕ
  pub shared : List ℕ
  pub tag0 : List ℕ
  pub tag1 : List ℕ
  pub i2r : List ℕ
  pub r2i : List ℕ
  pub first_pair : keygen 0 ≡ some (key0, pub0)
  pub second_pair : keygen 1 ≡ some (key1, pub1)
  pub size0 : length pub0 ≡ pub_len
  pub size1 : length pub1 ≡ pub_len
  pub tag_size0 : length tag0 ≡ 16
  pub tag_size1 : length tag1 ≡ 16
  pub exchanged0 : exchange key0 pub1 ≡ some shared
  pub exchanged1 : exchange key1 pub0 ≡ some shared
  pub bound0 : binder hkdf psk pub0 ≡ some tag0
  pub bound1 : binder hkdf psk (pub0 ++ pub1) ≡ some tag1
  pub derived : traffic_keys hkdf shared psk (pub0 ++ pub1) ≡ some (i2r, r2i)

take-all {ℓ} : {A : Type ℓ} (n : ℕ) (xs : List A) → length xs ≡ n → take n xs ≡ xs
take-all zero [] h = refl
take-all zero (x ∷ xs) h = absurd (omega arith)
take-all (suc n) [] h = refl
take-all (suc n) (x ∷ xs) h = ap (λ l. x ∷ l) (take-all n xs (omega arith))

message_key : (p t : List ℕ) → length p ≡ pub_len → take pub_len (p ++ t) ≡ p
message_key p t h = ap (λ n. take n (p ++ t)) (sym h) ∙ take-append p t

message_tag :
    (p t : List ℕ) → length p ≡ pub_len → length t ≡ 16 → take 16 (drop pub_len (p ++ t)) ≡ t
message_tag p t h k =
    ap (take 16) (ap (λ n. drop n (p ++ t)) (sym h) ∙ drop-append p t) ∙ take-all 16 t k

ct_eq_self : (t : List ℕ) → ct_eq t t ≡ true
ct_eq_self t = (ct_eq_iff t t refl).1 refl

module _ {E : Type 0} (hkdf : Hkdf) (keygen : ℕ → Option (E × List ℕ))
    (exchange : E → List ℕ → Option (List ℕ)) (psk : List ℕ)
    (w : Works hkdf keygen exchange psk) where
  started : Endpoint E
  started = record (fresh psk) { initiator = true; eph = some w.key0; my_pub = w.pub0 }

  init_sent :
      ((write_init hkdf keygen exchange 0 (fresh psk)).0 ≡ started)
      × ((write_init hkdf keygen exchange 0 (fresh psk)).1 ≡ some (w.pub0 ++ w.tag0))
  unfolding write_init started
  init_sent = rw (w.first_pair, w.bound0, write_init) (refl, refl)

  agreed :
      (agree hkdf keygen exchange (some w.key0) psk w.pub1 (w.pub0 ++ w.pub1) ≡ secrets w.i2r w.r2i)
      × (agree hkdf keygen exchange (some w.key1) psk w.pub0 (w.pub0 ++ w.pub1)
          ≡ secrets w.i2r w.r2i)
  unfolding agree
  agreed = (rw (w.exchanged0, w.derived, agree) refl, rw (w.exchanged1, w.derived, agree) refl)

  responded :
      ((read_init_write_resp hkdf keygen exchange 1 (fresh psk) (w.pub0 ++ w.tag0)).1
        ≡ some (w.pub1 ++ w.tag1))
      × ((read_init_write_resp hkdf keygen exchange 1 (fresh psk) (w.pub0 ++ w.tag0)).2
          ≡ record blank { tx = w.r2i; rx = w.i2r; ok = true })
  unfolding read_init_write_resp
  responded =
      rw
        (
          message_key w.pub0 w.tag0 w.size0,
          w.bound0,
          message_tag w.pub0 w.tag0 w.size0 w.tag_size0,
          ct_eq_self w.tag0,
          w.second_pair,
          message_key w.pub0 w.tag0 w.size0,
          w.bound1,
          message_key w.pub0 w.tag0 w.size0,
          agreed.1,
          read_init_write_resp,
        )
        (refl, refl)

  completed :
      (read_resp hkdf keygen exchange started (w.pub1 ++ w.tag1)).1
      ≡ record blank { tx = w.i2r; rx = w.r2i; ok = true }
  unfolding read_resp started
  completed =
      rw
        (
          message_key w.pub1 w.tag1 w.size1,
          w.bound1,
          message_tag w.pub1 w.tag1 w.size1 w.tag_size1,
          ct_eq_self w.tag1,
          message_key w.pub1 w.tag1 w.size1,
          agreed.0,
          read_resp,
        )
        refl

  -- Where OpenSSL's calls succeed, the public keys and tags have their sizes and the two exchanges
  -- give one secret, the handshake of two fresh endpoints succeeds, and each side
  -- sends with the secret that the other receives with.
  pub handshake_agrees :
      (ri : HandshakeResult) × (rr : HandshakeResult) × (handshake_pair hkdf keygen exchange psk
        ≡ (record blank { ok = true; tx = ri.tx; rx = ri.rx }, some (ri, rr)))
      × (ri.tx ≡ rr.rx)
      × (rr.tx ≡ ri.rx)
      × (ri.ok ≡ true)
      × (rr.ok ≡ true)
  unfolding handshake_pair
  handshake_agrees = (
    record blank { tx = w.i2r; rx = w.r2i; ok = true },
    record blank { tx = w.r2i; rx = w.i2r; ok = true },
    rw (init_sent.1, responded.0, responded.1, init_sent.0, completed, handshake_pair) refl,
    refl,
    refl,
    refl,
    refl,
  )
