-- ===== src/Base/Bytes.antt =====
-- Numbers as little-endian and big-endian bytes. A byte is a number below 256.
use native.Mathlib.Nat.{pow-suc}
use Prim.Native.Nat.{ℕ, zero, suc, ◌+◌, ◌*◌, ◌/◌, ◌%◌, ◌^◌, ◌<◌}
use mathlib.Core.Path.{◌≡◌, refl, ap}
use mathlib.Core.List.{List, [], ◌∷◌}
use native.Mathlib.Omega.{arith}
use linerate.Base.Lists.{length, get_or}

-- The `n` low bytes of `x`, lowest first: how a packed field lies in memory.
unfoldable pub le_bytes : ℕ → ℕ → List ℕ
le_bytes zero x = []
le_bytes (suc n) x = (x % 256) ∷ le_bytes n (x / 256)

unfoldable pub le_value : List ℕ → ℕ
le_value [] = 0
le_value (b ∷ bs) = b + 256 * le_value bs

-- `(uint8_t)(x >> 8 * (n - 1 - i))` for `i` from 0 up to `n`.
unfoldable pub be_bytes : ℕ → ℕ → List ℕ
be_bytes zero x = []
be_bytes (suc n) x = (x / 2 ^ (8 * n) % 256) ∷ be_bytes n x

pub length-le_bytes : (n x : ℕ) → length (le_bytes n x) ≡ n
unfolding le_bytes
length-le_bytes zero x = refl
length-le_bytes (suc n) x = ap suc (length-le_bytes n (x / 256))

pub length-be_bytes : (n x : ℕ) → length (be_bytes n x) ≡ n
unfolding be_bytes
length-be_bytes zero x = refl
length-be_bytes (suc n) x = ap suc (length-be_bytes n x)

pub le_value-le_bytes : (n x : ℕ) → x < 256 ^ n → le_value (le_bytes n x) ≡ x
unfolding le_bytes le_value
le_value-le_bytes zero x h = omega arith
le_value-le_bytes (suc n) x h =
    omega (arith, le_value-le_bytes n (x / 256) (omega (arith, pow-suc 256 n)))

-- The `i`-th byte of equal sequences.
byte_eq : {xs ys : List ℕ} (i : ℕ) → xs ≡ ys → get_or xs i 0 ≡ get_or ys i 0
byte_eq i e = ap (λ l. get_or l i 0) e

pub be_bytes-injective : (x y : ℕ) → x < 2 ^ 64 → y < 2 ^ 64 → be_bytes 8 x ≡ be_bytes 8 y → x ≡ y
unfolding be_bytes
be_bytes-injective x y p q e = omega (
  arith,
  byte_eq 0 e,
  byte_eq 1 e,
  byte_eq 2 e,
  byte_eq 3 e,
  byte_eq 4 e,
  byte_eq 5 e,
  byte_eq 6 e,
  byte_eq 7 e,
)
