-- ===== src/Replay.antt =====
-- The anti-replay window of include/lr/proto.hpp and src/core/proto.cpp: class ReplayWindow.
-- Counters and sequence numbers are `uint64_t`, so they stay below `2 ^ 64`; `++` wraps.
pub mod Shift
pub mod Spec
pub mod Bitmap
pub mod Refine
pub mod Safety
mod Tests
use linerate.Base.{
  ℕ, zero, suc, ◌+◌, ◌-◌, ◌*◌, ◌/◌, ◌%◌, ◌^◌, Bool, true, false, List, [], ◌∷◌, map, bit_and,
  bit_or, ltb, leb, ◌==◌, if◌then◌else◌, get_or, set, replicate,
}
use linerate.Base.Bits.{shl, shr}

-- `uint64_t` and `size_t` arithmetic is modulo this.
abbrev pub word_mod : ℕ
word_mod = 2 ^ 64

pub record ReplayWindow : Type 0 where
  pub width : ℕ
  pub bits : List ℕ
  pub high : ℕ
  pub seen : Bool
  pub dup : ℕ
  pub old : ℕ

-- The constructor: at least 64 bits, rounded up to whole words.
abbrev pub at_least_word : ℕ → ℕ
at_least_word width_bits = if ltb width_bits 64 then 64 else width_bits

unfoldable pub create : ℕ → ReplayWindow
create width_bits =
    let width = (at_least_word width_bits + 63) % word_mod / 64 * 64 in
    record {
      width = width;
      bits = replicate (width / 64) 0;
      high = 0;
      seen = false;
      dup = 0;
      old = 0;
    }

-- `std::fill(bits_.begin(), bits_.end(), 0ull)`
abbrev pub fill_zero : List ℕ → List ℕ
fill_zero bits = map (λ _. 0) bits

unfoldable pub reset : ReplayWindow → ReplayWindow
reset w = record w { bits = fill_zero w.bits; high = 0; seen = false; dup = 0; old = 0 }

-- The body of the loop over `i`, in its two versions: a shift by whole words, and one that
-- carries `64 - bs` low bits over from the word below.
pub aligned_word : ℕ → List ℕ → ℕ → ℕ
aligned_word ws bits i = if leb ws i then get_or bits (i - ws) 0 else 0

pub split_word : ℕ → ℕ → List ℕ → ℕ → ℕ
split_word ws bs bits i =
    let v = if leb ws i then shl (get_or bits (i - ws) 0) bs else 0 in
    if leb (ws + 1) i then bit_or v (shr (get_or bits (i - ws - 1) 0) (64 - bs)) else v

-- `for (size_t i = words; i-- > 0;) bits_[i] = word(bits_, i);`
pub store_down : (List ℕ → ℕ → ℕ) → ℕ → List ℕ → List ℕ
store_down word zero bits = bits
store_down word (suc i) bits = store_down word i (set bits i (word bits i))

-- The bitmap moved up by `shift` places; bit `i` is "packet high - i has been seen".
pub shift_bits : ℕ → ℕ → List ℕ → List ℕ
shift_bits words shift bits =
    let ws = shift / 64 in
    let bs = shift % 64 in
    if bs == 0
    then store_down (aligned_word ws) words bits
    else store_down (split_word ws bs) words bits

-- The bitmap for a sequence number ahead of the window, before its own bit is set.
pub moved : ReplayWindow → ℕ → List ℕ
moved w seq =
    let shift = seq - w.high in
    if leb w.width shift then fill_zero w.bits else shift_bits (w.width / 64) shift w.bits

-- The branch of `accept` for a sequence number ahead of the window.
pub advance : ReplayWindow → ℕ → ReplayWindow
advance w seq =
    let bits = moved w seq in
    record w { high = seq; bits = set bits 0 (bit_or (get_or bits 0 0) 1) }

-- The branch for a number at or behind `high`.
pub check_behind : ReplayWindow → ℕ → ReplayWindow × Bool
check_behind w seq =
    let back = w.high - seq in
    let i = back / 64 in
    let m = shl 1 (back % 64) in
    if leb w.width back
    then (record w { old = (w.old + 1) % word_mod }, false)
    else if bit_and (get_or w.bits i 0) m == 0
    then (record w { bits = set w.bits i (bit_or (get_or w.bits i 0) m) }, true)
    else (record w { dup = (w.dup + 1) % word_mod }, false)

unfoldable pub accept : ReplayWindow → ℕ → ReplayWindow × Bool
accept w seq =
    if w.seen
    then if ltb w.high seq then (advance w seq, true) else check_behind w seq
    else (record w { seen = true; high = seq; bits = set w.bits 0 1 }, true)

-- A run of calls: the state after them, and what each returned.
unfoldable pub accept_all : ReplayWindow → List ℕ → ReplayWindow × List Bool
accept_all w [] = (w, [])
accept_all w (seq ∷ rest) =
    let (w', admitted) = accept w seq in
    let (w'', verdicts) = accept_all w' rest in (w'', admitted ∷ verdicts)
