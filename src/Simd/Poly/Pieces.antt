-- ===== src/Simd/Poly/Pieces.antt =====
-- A message given to poly1305_update in pieces.
use linerate.Base.{ℕ, suc, ◌/◌, ◌^◌, ◌≡◌, refl, sym, subst, ◌∙◌, List, [], ◌∷◌, ◌++◌, length, arith}
use linerate.Base.Words.{bit_and-le}
use linerate.Simd.{load32_le}
use linerate.Simd.Poly.{Poly1305State, poly1305_init, poly1305_update}
use linerate.Simd.Poly.Turn.{IsKey, AreBytes}
use linerate.Simd.Poly.Absorb.{AreBytes-append}
use linerate.Simd.Poly.Update.{HoldsAll, update-HoldsAll, update-keeps}

-- The state has taken in the message `m` since `origin`, whose multiplier and pad it keeps.
pub record Absorbed (origin st : Poly1305State) (m : List ℕ) : Type 0 where
  pub small : AreBytes m
  pub holds : HoldsAll st m
  pub multiplier : st.r ≡ origin.r
  pub same_pad : st.pad ≡ origin.pad

init-IsKey : (buffer key : List ℕ) → IsKey (poly1305_init buffer key).r
unfolding poly1305_init
init-IsKey buffer key = record {
  lt0 = omega (arith, bit_and-le (load32_le key 0) 0x3ffffff);
  lt1 = omega (arith, bit_and-le (load32_le key 3 / 2 ^ 2) 0x3ffff03);
  lt2 = omega (arith, bit_and-le (load32_le key 6 / 2 ^ 4) 0x3ffc0ff);
  lt3 = omega (arith, bit_and-le (load32_le key 9 / 2 ^ 6) 0x3f03fff);
  lt4 = omega (arith, bit_and-le (load32_le key 12 / 2 ^ 8) 0x00fffff);
}

pub init-Absorbed :
    (buffer key : List ℕ)
    → length buffer ≡ 16
    → Absorbed (poly1305_init buffer key) (poly1305_init buffer key) []
unfolding poly1305_init
init-Absorbed buffer key room = record {
  small = λ i. omega arith;
  holds = (
    0,
    [],
    [],
    record {
      key = init-IsKey buffer key;
      limbs = record {
        lt0 = omega arith;
        lt1 = omega arith;
        lt2 = omega arith;
        lt3 = omega arith;
        lt4 = omega arith;
      };
      open_end = refl;
      room = room;
      few = omega arith;
      whole = refl;
      left = refl;
      kept = refl;
      sum = refl;
    },
    refl,
  );
  multiplier = refl;
  same_pad = refl;
}

pub rest-AreBytes : (done rest : List ℕ) → AreBytes (done ++ rest) → AreBytes rest
rest-AreBytes [] rest small = small
rest-AreBytes (x ∷ done) rest small = rest-AreBytes done rest (λ i. small (suc i))

pub update-Absorbed :
    (origin st : Poly1305State) (msg m : List ℕ)
    → Absorbed origin st msg
    → AreBytes m
    → Absorbed origin (poly1305_update st m) (msg ++ m)
update-Absorbed origin st msg m a small =
    let (n, done, rest, holds, parts) = a.holds in
    let old : AreBytes (done ++ rest) = subst AreBytes (sym parts) a.small in
    record {
      small = AreBytes-append msg m a.small small;
      holds =
          subst (λ l. HoldsAll (poly1305_update st m) (l ++ m)) parts
            (update-HoldsAll st n done rest m holds (rest-AreBytes done rest old) small);
      multiplier = (update-keeps st m).0 ∙ a.multiplier;
      same_pad = (update-keeps st m).1 ∙ a.same_pad;
    }
