-- ===== src/Fixtures.antt =====
-- Stand-ins for HKDF and the ciphers, on which the theorems are tried: a derivation that mixes its
-- inputs by position, and a cipher that copies and tags with its key and nonce.
use Prim.Native.String.{String}
use linerate.Base.{
  ℕ, ◌+◌, ◌-◌, Bool, true, false, ◌&&◌, ◌==◌, if◌then◌else◌, Option, none, some, List, [], ◌∷◌,
  ◌++◌, length, take, drop, replicate, get_or, ltb, refl,
}
use linerate.Aead.{Aead}
use linerate.Transport.{accepted, Socket}
use linerate.Transport.Ideal.{Ideal}

abbrev pub list_eq : List ℕ → List ℕ → Bool
list_eq [] [] = true
list_eq (x ∷ xs) (y ∷ ys) = x == y && list_eq xs ys
list_eq _ _ = false

abbrev pub toy_hkdf : List ℕ → List ℕ → String → ℕ → Option (List ℕ)
toy_hkdf salt ikm info n =
    some (take n ((get_or salt 0 0 + get_or ikm 0 0 + 1) ∷ (ikm ++ replicate n 7)))

abbrev pub toy_mac : List ℕ → List ℕ → List ℕ
toy_mac key nonce = take 16 (take 4 key ++ (nonce ++ replicate 16 0))

abbrev pub toy_cipher : String → List ℕ → Aead
toy_cipher name key = record {
  seal = λ nonce aad pt. some (pt ++ toy_mac key nonce);
  open_ct = λ nonce aad ct.
      if ltb (length ct) 16
      then none
      else if list_eq (drop (length ct - 16) ct) (toy_mac key nonce)
      then some (take (length ct - 16) ct)
      else none;
  spill = λ nonce aad ct. [];
  name = name;
  tag_len = 16;
  key_len = 32;
  nonce_len = 12;
  backend = "toy";
}

abbrev pub toy_aead : String → List ℕ → Option Aead
toy_aead name key = some (toy_cipher name key)

-- A socket of two queues, on which the transports are tried: what waits and what has gone out.
pub record Queues : Type 0 where
  pub waiting : List (List ℕ)
  pub gone : List (List ℕ)

abbrev pop : List (List ℕ) → List (List ℕ) → Queues × Option (List ℕ)
pop [] gone = (record { waiting = []; gone = gone }, none)
pop (p ∷ ps) gone = (record { waiting = ps; gone = gone }, some p)

abbrev pub queues : Socket Queues
queues = record {
  recv = λ k. pop k.waiting k.gone;
  sendto = λ k p. (record k { gone = k.gone ++ (p ∷ []) }, accepted (length p));
  recvmmsg = λ k n. (record k { waiting = drop n k.waiting }, some (take n k.waiting));
  sendmmsg = λ k ps. (record k { gone = k.gone ++ ps }, accepted (length ps));
}

abbrev pub queues-Ideal : Ideal queues
queues-Ideal = record {
  waiting = λ k. k.waiting;
  gone = λ k. k.gone;
  recv_none = λ k e. rw e (refl, refl, refl);
  recv_first = λ k p ps e. rw e (refl, refl, refl);
  recvmmsg_takes = λ k n. (refl, refl, refl);
  sendto_adds = λ k p. (refl, refl, refl);
  sendmmsg_adds = λ k ps. (refl, refl, refl);
}
