-- ===== src/Shard/Forward.antt =====
-- What a sender seals, a receiver under the same schedule opens.
use Prim.Native.String.{String}
use linerate.Base.{
  ℕ, ◌+◌, ◌^◌, ◌≤◌, ◌<◌, ◌≡◌, ◌≢◌, refl, ap, sym, ◌∙◌, inl, inr, true, false, Option, some, List,
  [], ◌++◌, length, take, drop, ltb, ◌==◌, All, All-take, All-append, zero, suc, ◌/◌, arith,
  Option-cases, length-append,
}
use linerate.Base.Words.{IsByte}
use linerate.Base.Bytes.{le_bytes}
use linerate.Aead.{Aead}
use linerate.Keys.{KeySchedule, Hkdf, for_epoch, nonce, maybe_rekey}
use linerate.Wire.{WireHdr, encode, decode, lr_magic, wt_data, lr_hdr, lr_tag}
use linerate.Wire.Header.{IsHeader, decode-encode, length-encode, take-encode, drop-encode}
use linerate.Shard.{
  u64, Shard, check_replay, store_plain, count_packet, reseal, open_packet, process, make_packet,
}
use linerate.Shard.Process.{windowed, reseal_cases}

-- What the ciphers document, for a nonce of 12 bytes: opening undoes sealing under the same nonce and
-- associated data, where these and the plaintext are bytes, and the tag adds 16 bytes.
pub record IsAead (a : Aead) : Type 0 where
  pub opens :
      (n aad pt ct : List ℕ)
      → length n ≡ 12
      → All IsByte aad
      → All IsByte pt
      → a.seal n aad pt ≡ some ct
      → a.open_ct n aad ct ≡ some pt
  pub tagged :
      (n aad pt ct : List ℕ)
      → length n ≡ 12
      → a.seal n aad pt ≡ some ct
      → length ct ≡ length pt + 16

le_bytes-IsByte : (n x : ℕ) → All IsByte (le_bytes n x)
unfolding le_bytes
le_bytes-IsByte zero x = tt
le_bytes-IsByte (suc n) x = (omega arith, le_bytes-IsByte n (x / 256))

encode-IsByte : (h : WireHdr) → h.type < 256 → h.epoch < 256 → All IsByte (encode h)
unfolding encode
encode-IsByte h t e = All-append IsByte (le_bytes 4 h.magic) _ (le_bytes-IsByte 4 h.magic) (
  t,
  (
    e,
    All-append IsByte (le_bytes 2 h.flags) _ (le_bytes-IsByte 2 h.flags) (
        All-append IsByte (le_bytes 8 h.seq) _ (le_bytes-IsByte 8 h.seq) (le_bytes-IsByte 8 h.tsc)),
  ),
)

module _ {Hist : Type 0} (hkdf : Hkdf) (make_aead : String → List ℕ → Option Aead) (clock : ℕ → ℕ)
    (add_ticks : ℕ → Hist → Hist) where
  -- The header that `make_packet` writes.
  abbrev pub header : Shard Hist → ℕ → WireHdr
  header t seq = record {
    magic = lr_magic;
    type = wt_data;
    epoch = (maybe_rekey hkdf make_aead t.keys seq).0.epoch;
    flags = 0;
    seq = seq;
    tsc = clock t.reads;
  }

  make_packet_sealed :
      (t : Shard Hist) (seq : ℕ) (a : Aead)
      → for_epoch (maybe_rekey hkdf make_aead t.keys seq).0 (header t seq).epoch ≡ some a
      → (make_packet hkdf make_aead clock add_ticks t seq).1 ≢ []
      → (ct : List ℕ) × (a.seal
            (nonce (maybe_rekey hkdf make_aead t.keys seq).0 (header t seq).epoch seq)
            (encode (header t seq))
            (take t.payload t.plain)
          ≡ some ct)
        × ((make_packet hkdf make_aead clock add_ticks t seq).1 ≡ encode (header t seq) ++ ct)
  unfolding make_packet
  make_packet_sealed t seq a e made =
      elim (Option-cases
        (a.seal (nonce ks ks.epoch seq) (encode (header t seq)) (take t.payload t.plain))) [
          | inl f ↦ absurd (made (rw (e, f, make_packet) refl))
          | inr (ct, f) ↦ (ct, f, rw (e, f, make_packet) refl)
        ]
    where
      ks : KeySchedule
      ks = (maybe_rekey hkdf make_aead t.keys seq).0

  fresh_packet :
      (s : Shard Hist) (h : WireHdr) (p : List ℕ)
      → decode p ≡ h
      → h.magic ≡ lr_magic
      → lr_hdr + lr_tag ≤ length p
      → (check_replay s.replay h.seq).1 ≡ true
      → process hkdf make_aead clock add_ticks s p
        ≡ open_packet hkdf make_aead clock add_ticks (windowed s h.seq) h p
  unfolding process
  fresh_packet s h p e magic long fresh =
      let short : ltb (length p) (lr_hdr + lr_tag) ≡ false = ground arith in
      let ours : (h.magic == lr_magic) ≡ true = ground arith in
      rw (short, e, process) (rw (ours, fresh) refl)

  open_sealed :
      (s : Shard Hist) (h : WireHdr) (a : Aead) (p pt : List ℕ)
      → for_epoch s.keys h.epoch ≡ some a
      → a.open_ct (nonce s.keys h.epoch h.seq) (take lr_hdr p) (drop lr_hdr p) ≡ some pt
      → open_packet hkdf make_aead clock add_ticks s h p
        ≡ reseal hkdf make_aead clock add_ticks (store_plain s pt) h pt
  unfolding open_packet
  open_sealed s h a p pt e f = rw (e, f, open_packet)

  opens_packet :
      (s : Shard Hist) (h : WireHdr) (a : Aead) (pt ct : List ℕ)
      → IsHeader h
      → h.magic ≡ lr_magic
      → IsAead a
      → for_epoch s.keys h.epoch ≡ some a
      → a.seal (nonce s.keys h.epoch h.seq) (encode h) pt ≡ some ct
      → (check_replay s.replay h.seq).1 ≡ true
      → length (nonce s.keys h.epoch h.seq) ≡ 12
      → h.epoch < 256
      → h.type < 256
      → All IsByte pt
      → process hkdf make_aead clock add_ticks s (encode h ++ ct)
        ≡ reseal hkdf make_aead clock add_ticks (store_plain (windowed s h.seq) pt) h pt
  opens_packet s h a pt ct fits magic law e f fresh twelve ep ty bytes =
      fresh_packet s h (encode h ++ ct) (decode-encode h ct fits) magic
        (omega (arith, length-append (encode h) ct, length-encode h, law.tagged _ _ _ _ twelve f))
        fresh
      ∙ open_sealed (windowed s h.seq) h a (encode h ++ ct) pt e (
          rw (take-encode h ct, drop-encode h ct)
            (law.opens _ _ _ _ twelve (encode-IsByte h ty ep) bytes f))

  reseal_keeps :
      (s : Shard Hist) (h : WireHdr) (pt : List ℕ)
      → let s' = (reseal hkdf make_aead clock add_ticks s h pt).0 in
        (s'.plain ≡ s.plain)
        × (s'.seq ≡ u64 (s.seq + 1))
        × (s'.replay ≡ s.replay)
        × (s'.stats.auth_fail ≡ s.stats.auth_fail)
        × (s'.stats.replay_drop ≡ s.stats.replay_drop)
  unfolding count_packet
  reseal_keeps s h pt =
      reseal_cases hkdf make_aead clock add_ticks
        (λ s' out.
          (s'.plain ≡ s.plain)
          × (s'.seq ≡ u64 (s.seq + 1))
          × (s'.replay ≡ s.replay)
          × (s'.stats.auth_fail ≡ s.stats.auth_fail)
          × (s'.stats.replay_drop ≡ s.stats.replay_drop))
        s h pt (refl, refl, refl, refl, refl) (λ out. ground arith)

  -- A packet that `make_packet` makes, arriving unchanged at a receiver whose schedule is the one
  -- it was made under and whose window admits its number, is authenticated: the payload stands at
  -- the front of the staging buffer, a new number is taken, and no refusal is counted. The cipher
  -- is assumed to open what it seals under a nonce of 12 bytes, and to add 16 bytes; number and
  -- clock fit 64 bits, the nonce has 12 bytes, and the epoch and the sender's payload are bytes.
  pub make_packet-process :
      (t s : Shard Hist) (seq : ℕ) (a : Aead)
      → seq < 2 ^ 64
      → clock t.reads < 2 ^ 64
      → IsAead a
      → s.keys ≡ (maybe_rekey hkdf make_aead t.keys seq).0
      → for_epoch s.keys s.keys.epoch ≡ some a
      → (make_packet hkdf make_aead clock add_ticks t seq).1 ≢ []
      → (check_replay s.replay seq).1 ≡ true
      → length (nonce s.keys s.keys.epoch seq) ≡ 12
      → s.keys.epoch < 256
      → All IsByte t.plain
      → let pt = take t.payload t.plain in
        let s' =
          (process hkdf make_aead clock add_ticks s
            (make_packet hkdf make_aead clock add_ticks t seq).1).0 in
        (s'.plain ≡ pt ++ drop (length pt) s.plain)
        × (s'.seq ≡ u64 (s.seq + 1))
        × (s'.replay ≡ (check_replay s.replay seq).0)
        × (s'.stats.auth_fail ≡ s.stats.auth_fail)
        × (s'.stats.replay_drop ≡ s.stats.replay_drop)
  unfolding store_plain
  make_packet-process t s seq a small ticks law same live made fresh twelve byte bytes =
      let key = ap (λ ks. for_epoch ks ks.epoch) (sym same) ∙ live in
      let (ct, sealed, is) = make_packet_sealed t seq a key made in
      let h = header t seq in
      let fits : IsHeader h = record {
        magic_fits = omega arith;
        flags_fits = omega arith;
        seq_fits = small;
        tsc_fits = ticks;
      } in
      let opened =
        opens_packet s h a (take t.payload t.plain) ct fits refl law
          (ap (λ ks. for_epoch s.keys ks.epoch) (sym same) ∙ live)
          (ap (λ ks. a.seal (nonce ks h.epoch seq) (encode h) (take t.payload t.plain)) same
            ∙ sealed)
          fresh (ap (λ ks. length (nonce s.keys ks.epoch seq)) (sym same) ∙ twelve)
          (omega (arith, byte, ap (λ ks. ks.epoch) same)) (omega arith)
          (All-take IsByte t.payload t.plain bytes) in
      rw (is, opened) (reseal_keeps _ h (take t.payload t.plain))
