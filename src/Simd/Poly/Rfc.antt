-- ===== src/Simd/Poly/Rfc.antt =====
-- Poly1305 over a message given in pieces is the authenticator of RFC 8439.
use linerate.Base.{
  ℕ, ◌≤◌, ◌≡◌, ap₂, subst, sym, ◌∙◌, List, [], ◌∷◌, ◌++◌, length, All, append_assoc, append-nil,
  arith, zero, suc,
}
use linerate.Base.Words.{IsByte}
use linerate.Simd.Poly.{Poly1305State, poly1305_init, poly1305_update, poly1305_finish}
use linerate.Simd.Poly.Turn.{AreBytes}
use linerate.Simd.Poly.Pieces.{Absorbed, init-Absorbed, update-Absorbed}
use linerate.Simd.Poly.Mac.{mac, poly1305_finish-mac}
use linerate.Simd.Poly.Key.{multiplier, pad_of, multiplier-limbs, pad-words}

-- The authenticator of RFC 8439 under a key of 32 bytes.
abbrev pub poly1305 : List ℕ → List ℕ → List ℕ
poly1305 key m = mac (multiplier key) (pad_of key) m

pub All-AreBytes : (m : List ℕ) → All IsByte m → AreBytes m
All-AreBytes [] small i = omega arith
All-AreBytes (x ∷ m) small zero = small.0
All-AreBytes (x ∷ m) small (suc i) = All-AreBytes m small.1 i

abbrev pub update_all : Poly1305State → List (List ℕ) → Poly1305State
update_all st [] = st
update_all st (m ∷ ms) = update_all (poly1305_update st m) ms

abbrev pub joined : List (List ℕ) → List ℕ
joined [] = []
joined (m ∷ ms) = m ++ joined ms

update_all-Absorbed :
    (origin st : Poly1305State) (msg : List ℕ) (ms : List (List ℕ))
    → Absorbed origin st msg
    → All (All IsByte) ms
    → Absorbed origin (update_all st ms) (msg ++ joined ms)
update_all-Absorbed origin st msg [] a small = subst (Absorbed origin st) (sym (append-nil msg)) a
update_all-Absorbed origin st msg (m ∷ ms) a small =
    subst (Absorbed origin (update_all (poly1305_update st m) ms)) (append_assoc msg m (joined ms))
      (update_all-Absorbed origin (poly1305_update st m) (msg ++ m) ms
        (update-Absorbed origin st msg m a (All-AreBytes m small.0)) small.1)

-- The tag of a state that has taken in a message is the authenticator of that message.
pub finish-poly1305 :
    (stack key : List ℕ) (st : Poly1305State) (m : List ℕ)
    → 32 ≤ length key
    → All IsByte key
    → Absorbed (poly1305_init stack key) st m
    → poly1305_finish st ≡ poly1305 key m
finish-poly1305 stack key st m long k a =
    poly1305_finish-mac (poly1305_init stack key) st m a
    ∙ ap₂ (λ r s. mac r s m) (multiplier-limbs stack key (All-AreBytes key k) long)
        (pad-words stack key (All-AreBytes key k) long)

-- However a message of bytes is cut into the pieces of successive updates, the result is the
-- authenticator of RFC 8439 of the whole message, the polynomial of its blocks modulo 2^130 - 5 plus
-- the pad, under a key of 32 bytes or more and whatever the buffer of 16 bytes held before.
pub update_all-poly1305 :
    (stack key : List ℕ) (ms : List (List ℕ))
    → length stack ≡ 16
    → 32 ≤ length key
    → All IsByte key
    → All (All IsByte) ms
    → poly1305_finish (update_all (poly1305_init stack key) ms) ≡ poly1305 key (joined ms)
update_all-poly1305 stack key ms room long k small =
    finish-poly1305 stack key _ (joined ms) long k (
      update_all-Absorbed (poly1305_init stack key) (poly1305_init stack key) [] ms
        (init-Absorbed stack key room) small)
