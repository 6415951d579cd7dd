-- ===== src/Handshake.antt =====
-- The handshake of include/lr/proto.hpp and src/core/proto.cpp: class Handshake, its messages and
-- handshake_pair. OpenSSL's X25519 and HKDF are parameters: the `i`-th call of `keygen` gives a
-- private key and its public key, `exchange` a shared secret, and each of them may fail. The
-- `micros` of a result, a wall time, is left out.
pub mod Agreement
pub mod Binding
mod Tests
use Prim.Native.String.{String}
use linerate.Base.{
  ℕ, zero, suc, ◌+◌, Bool, true, false, not, ◌&&◌, Option, none, some, List, [], ◌∷◌, ◌++◌, take,
  drop, bit_or, bit_xor, ◌==◌, if◌then◌else◌, replicate,
}
use linerate.Keys.{Hkdf}

abbrev pub pub_len : ℕ
pub_len = 32

-- struct HandshakeResult.
pub record HandshakeResult : Type 0 where
  pub tx : List ℕ
  pub rx : List ℕ
  pub ok : Bool
  pub error : String

abbrev pub blank : HandshakeResult
blank = record { tx = []; rx = []; ok = false; error = "" }

abbrev pub failure : String → HandshakeResult
failure e = record blank { error = e }

-- Handshake::Impl, for private keys of type `E`.
pub record Endpoint (E : Type 0) : Type 0 where
  pub psk : List ℕ
  pub eph : Option E
  pub my_pub : List ℕ
  pub peer_pub : List ℕ
  pub initiator : Bool

abbrev pub fresh : {E : Type 0} → List ℕ → Endpoint E
fresh psk = record {
  psk = psk;
  eph = none;
  my_pub = replicate pub_len 0;
  peer_pub = replicate pub_len 0;
  initiator = false;
}

-- The loop of ct_eq: `d` gathers the bits in which the two differ.
abbrev pub difference : ℕ → List ℕ → List ℕ → ℕ
difference d [] b = d
difference d (x ∷ a) [] = d
difference d (x ∷ a) (y ∷ b) = difference (bit_or d (bit_xor x y)) a b

unfoldable pub ct_eq : List ℕ → List ℕ → Bool
ct_eq a b = difference 0 a b == 0

module _ (hkdf : Hkdf) where
  unfoldable pub binder : List ℕ → List ℕ → Option (List ℕ)
  binder psk transcript = elim (hkdf psk transcript "linerate binder" 32) [
    | none ↦ none
    | some full ↦ some (take 16 full)
  ]

  -- The secrets of the two directions, the initiator's first.
  unfoldable pub traffic_keys : List ℕ → List ℕ → List ℕ → Option (List ℕ × List ℕ)
  traffic_keys shared psk transcript =
      elim (hkdf transcript (shared ++ psk) "linerate directions" 64) [
        | none ↦ none
        | some out ↦ some (take 32 out, take 32 (drop 32 out))
      ]

-- What both sides make of the shared secret: an error, or the secrets of the two directions.
pub data Agreed : Type 0 where
  refusal : String → Agreed
  secrets : List ℕ → List ℕ → Agreed

module _ {E : Type 0} (hkdf : Hkdf) (keygen : ℕ → Option (E × List ℕ))
    (exchange : E → List ℕ → Option (List ℕ)) where
  -- The message, if the function returns true.
  unfoldable pub write_init : ℕ → Endpoint E → Endpoint E × Option (List ℕ)
  write_init i h = elim (keygen i) [
    | none ↦ (record h { initiator = true }, none)
    | some (k, mine) ↦
        let h' : Endpoint E = record h { initiator = true; eph = some k; my_pub = mine } in
        elim (binder hkdf h.psk mine) [ none ↦ (h', none) | some tag ↦ (h', some (mine ++ tag)) ]
  ]

  -- From the shared secret on, which both sides do.
  unfoldable pub agree : Option E → List ℕ → List ℕ → List ℕ → Agreed
  agree none psk peer transcript = refusal "x25519"
  agree (some k) psk peer transcript = elim (exchange k peer) [
    | none ↦ refusal "x25519"
    | some shared ↦ elim (traffic_keys hkdf shared psk transcript) [
      | none ↦ refusal "kdf"
      | some (i2r, r2i) ↦ secrets i2r r2i
    ]
  ]

  -- The responder's step; the message to send is given if the function returns true.
  unfoldable pub read_init_write_resp :
      ℕ → Endpoint E → List ℕ → Endpoint E × Option (List ℕ) × HandshakeResult
  read_init_write_resp i h0 m =
      let h : Endpoint E = record h0 { initiator = false } in
      let theirs = take pub_len m in
      let h1 : Endpoint E = record h { peer_pub = theirs } in
      elim (binder hkdf h.psk theirs) [
        | none ↦ (h, none, failure "binder")
        | some expect ↦
            if not (ct_eq expect (take 16 (drop pub_len m)))
            then (h, none, failure "psk binder mismatch")
            else elim (keygen i) [
              | none ↦ (h1, none, failure "keygen")
              | some (k, mine) ↦
                  let h2 : Endpoint E = record h1 { eph = some k; my_pub = mine } in
                  elim (binder hkdf h.psk (theirs ++ mine)) [
                    | none ↦ (h2, none, failure "binder")
                    | some tag ↦ elim (agree h2.eph h.psk theirs (theirs ++ mine)) [
                      | refusal e ↦ (h2, none, failure e)
                      | secrets i2r r2i ↦
                          (h2, some (mine ++ tag), record blank { tx = r2i; rx = i2r; ok = true })
                    ]
                  ]
            ]
      ]

  unfoldable pub read_resp : Endpoint E → List ℕ → Endpoint E × HandshakeResult
  read_resp h m =
      let theirs = take pub_len m in
      let transcript = h.my_pub ++ theirs in
      let h' : Endpoint E = record h { peer_pub = theirs } in
      elim (binder hkdf h.psk transcript) [
        | none ↦ (h', failure "binder")
        | some expect ↦
            if not (ct_eq expect (take 16 (drop pub_len m)))
            then (h', failure "response binder mismatch")
            else elim (agree h.eph h.psk theirs transcript) [
              | refusal e ↦ (h', failure e)
              | secrets i2r r2i ↦ (h', record blank { tx = i2r; rx = r2i; ok = true })
            ]
      ]

  -- What handshake_pair returns and writes through its pointers: the result, then the secrets of
  -- the initiator and of the responder, if it succeeds.
  unfoldable pub handshake_pair :
      List ℕ → HandshakeResult × Option (HandshakeResult × HandshakeResult)
  handshake_pair psk =
      let (initiator, m1) = write_init 0 (fresh psk) in
      elim m1 [
        | none ↦ (failure "init", none)
        | some m ↦
            let (responder, m2, rr) = read_init_write_resp 1 (fresh psk) m in
            elim m2 [
              | none ↦ (failure rr.error, none)
              | some m' ↦
                  let (initiator', ri) = read_resp initiator m' in
                  if ri.ok
                  then (record blank { ok = true; tx = ri.tx; rx = ri.rx }, some (ri, rr))
                  else (failure ri.error, none)
            ]
      ]
