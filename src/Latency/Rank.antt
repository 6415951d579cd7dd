-- ===== src/Latency/Rank.antt =====
-- Which bucket a quantile names.
use linerate.Base.{
  ℕ, suc, ◌+◌, ◌%◌, ◌^◌, ◌<◌, ◌≤◌, ◌≡◌, refl, ap, ◌∙◌, inl, inr, false, some, List, [], ◌∷◌, take,
  leb, ◌==◌, arith, Bool-cases,
}
use linerate.Latency.{LatencyHist, value_of, find_bucket, quantile}
use linerate.Latency.Counts.{sum}

next_index : (i j : ℕ) → i + 1 + j ≡ i + suc j
next_index i j = omega arith

own_index : (j : ℕ) → 0 + j ≡ j
own_index j = omega arith

past_bucket :
    (target cum i x : ℕ) (b : List ℕ)
    → (cum + x) % 2 ^ 64 ≡ cum + x
    → leb target (cum + x) ≡ false
    → find_bucket target cum i (x ∷ b) ≡ find_bucket target (cum + x) (i + 1) b
unfolding find_bucket
past_bucket target cum i x b exact e = rw (exact, e, find_bucket) refl

find_bucket_rank :
    (target cum i : ℕ) (b : List ℕ)
    → cum < target
    → target ≤ cum + sum b
    → cum + sum b < 2 ^ 64
    → (j : ℕ) × (find_bucket target cum i b ≡ some (i + j))
      × (cum + sum (take j b) < target)
      × (target ≤ cum + sum (take (suc j) b))
unfolding find_bucket
find_bucket_rank target cum i [] lo hi room = absurd (omega arith)
find_bucket_rank target cum i (x ∷ b) lo hi room =
    let exact : (cum + x) % 2 ^ 64 ≡ cum + x = omega arith in
    elim (Bool-cases (leb target (cum + x))) [
      | inl e ↦ (0, rw (exact, e, find_bucket) (ap some (omega arith)), omega arith, ground arith)
      | inr e ↦
          let (j, found, below, reached) =
            find_bucket_rank target (cum + x) (i + 1) b (ground arith) (omega arith)
              (omega arith) in
          (
            suc j,
            past_bucket target cum i x b exact e ∙ found ∙ ap some (next_index i j),
            omega (arith, below),
            omega (arith, reached),
          )
    ]

-- In a histogram with samples whose buckets sum to less than 2^64, a quantile of rank `wanted`,
-- from 1 to that sum, names the bucket in which the running count reaches the rank: fewer samples
-- lie in the buckets before it, and at least as many in those up to and with it.
pub quantile_rank :
    (edges : ℕ) (h : LatencyHist) (wanted : ℕ)
    → 0 < h.n
    → 0 < wanted
    → wanted ≤ sum h.b
    → sum h.b < 2 ^ 64
    → (j : ℕ) × (quantile edges h wanted ≡ value_of edges (some j))
      × (sum (take j h.b) < wanted)
      × (wanted ≤ sum (take (suc j) h.b))
unfolding quantile
quantile_rank edges h wanted samples pos within room =
    let (j, found, below, reached) =
      find_bucket_rank wanted 0 0 h.b pos (omega arith) (omega arith) in
    let empty : (h.n == 0) ≡ false = ground arith in
    let none_wanted : (wanted == 0) ≡ false = ground arith in
    (
      j,
      rw (empty, none_wanted, quantile) (ap (value_of edges) (found ∙ ap some (own_index j))),
      omega (arith, below),
      omega (arith, reached),
    )
