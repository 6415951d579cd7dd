-- ===== src/Simd/Chapoly/Tag.antt =====
-- The tag of ChaCha20-Poly1305 against the construction of RFC 8439.
use linerate.Base.{
  ℕ, zero, suc, ◌-◌, ◌/◌, ◌%◌, ◌≤◌, ◌≡◌, refl, sym, ap, subst, ◌∙◌, inl, inr, List, [], ◌++◌, ◌==◌,
  if◌then◌else◌, Bool-cases, length, replicate, All, append_assoc, append-nil, no_elements,
  get_or-replicate, arith,
}
use linerate.Base.Words.{IsByte}
use linerate.Base.Bytes.{le_bytes}
use linerate.Simd.{store32_le}
use linerate.Simd.Poly.{Poly1305State, poly1305_init, poly1305_update, poly1305_finish, add_pad}
use linerate.Simd.Poly.Turn.{AreBytes}
use linerate.Simd.Poly.Absorb.{AreBytes-append}
use linerate.Simd.Poly.Pieces.{Absorbed, init-Absorbed, update-Absorbed}
use linerate.Simd.Poly.Rfc.{poly1305, All-AreBytes, finish-poly1305}
use linerate.Simd.Chapoly.{update_padded, chap_tag}

-- A string followed by zeros up to a whole number of blocks.
abbrev pub padded : List ℕ → List ℕ
padded m = m ++ (if length m % 16 == 0 then [] else replicate (16 - length m % 16) 0)

-- What the tag of associated data and a ciphertext is computed over.
abbrev pub tagged : List ℕ → List ℕ → List ℕ
tagged aad ct = (padded aad ++ padded ct) ++ (le_bytes 8 (length aad) ++ le_bytes 8 (length ct))

zeros-AreBytes : (n : ℕ) → AreBytes (replicate n 0)
zeros-AreBytes n i = omega (arith, get_or-replicate {A = ℕ} n i 0)

lengths-AreBytes : (n x : ℕ) → AreBytes (le_bytes n x)
unfolding le_bytes
lengths-AreBytes zero x i = omega arith
lengths-AreBytes (suc n) x zero = omega arith
lengths-AreBytes (suc n) x (suc i) = lengths-AreBytes n (x / 256) i

update_padded-Absorbed :
    (origin st : Poly1305State) (msg m : List ℕ)
    → Absorbed origin st msg
    → AreBytes m
    → Absorbed origin (update_padded st m) (msg ++ padded m)
unfolding update_padded
update_padded-Absorbed origin st msg m a small = elim (Bool-cases (length m == 0)) [
  | inl none_left ↦
      let empty : m ≡ [] = no_elements m (ground arith) in
      rw none_left
        (subst (Absorbed origin st) (sym (ap (λ l. msg ++ padded l) empty ∙ append-nil msg)) a)
  | inr some_left ↦ elim (Bool-cases (length m % 16 == 0)) [
    | inl whole ↦
        rw (some_left, whole)
          (subst (λ l. Absorbed origin (poly1305_update st m) (msg ++ l)) (sym (append-nil m))
            (update-Absorbed origin st msg m a small))
    | inr part ↦
        rw (some_left, part)
          (subst (Absorbed origin _) (append_assoc msg m (replicate (16 - length m % 16) 0)) (
            update-Absorbed origin (poly1305_update st m) (msg ++ m)
              (replicate (16 - length m % 16) 0) (update-Absorbed origin st msg m a small)
              (zeros-AreBytes (16 - length m % 16))))
  ]
]

-- The tag is the authenticator of RFC 8439 over associated data and ciphertext, each padded to whole
-- blocks, and their lengths, for a key of 32 bytes or more and whatever the buffer held before.
pub chap_tag-poly1305 :
    (stack key aad ct : List ℕ)
    → length stack ≡ 16
    → 32 ≤ length key
    → All IsByte key
    → All IsByte aad
    → All IsByte ct
    → chap_tag stack key aad ct ≡ poly1305 key (tagged aad ct)
unfolding chap_tag
chap_tag-poly1305 stack key aad ct room long k a c =
    let start : Poly1305State = poly1305_init stack key in
    let first =
      update_padded-Absorbed start start [] aad (init-Absorbed stack key room)
        (All-AreBytes aad a) in
    let second =
      update_padded-Absorbed start (update_padded start aad) (padded aad) ct first
        (All-AreBytes ct c) in
    let third =
      update-Absorbed start (update_padded (update_padded start aad) ct) (padded aad ++ padded ct)
        (le_bytes 8 (length aad) ++ le_bytes 8 (length ct)) second
        (AreBytes-append (le_bytes 8 (length aad)) (le_bytes 8 (length ct))
          (lengths-AreBytes 8 (length aad)) (lengths-AreBytes 8 (length ct))) in
    finish-poly1305 stack key _ (tagged aad ct) long k third

-- A tag is 16 bytes.
pub length-chap_tag : (stack key aad ct : List ℕ) → length (chap_tag stack key aad ct) ≡ 16
unfolding chap_tag poly1305_finish add_pad store32_le
length-chap_tag stack key aad ct = refl

pub chap_tag-IsByte : (stack key aad ct : List ℕ) → All IsByte (chap_tag stack key aad ct)
unfolding chap_tag poly1305_finish add_pad store32_le
chap_tag-IsByte stack key aad ct = omega arith
