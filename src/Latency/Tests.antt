-- ===== src/Latency/Tests.antt =====
-- A histogram of three edges.
use linerate.Base.{ℕ, suc, ◌+◌, ◌<◌, ◌≤◌, ◌≡◌, refl, ltb, some, List, [], ◌∷◌, length, take, arith}
use linerate.Latency.{LatencyHist, blank_hist, value_of, add, add_all, quantile}
use linerate.Latency.Counts.{sum, Ascending, add_all_counts}
use linerate.Latency.Rank.{quantile_rank}

abbrev edges : List ℕ
edges = 10 ∷ 20 ∷ 30 ∷ []

edges-Ascending : Ascending ltb edges
edges-Ascending = (
  ((λ x h. ground arith), ((λ x h. ground arith), tt)),
  ((((λ x h. ground arith), tt)), (tt, tt)),
)

abbrev delays : List ℕ
delays = 5 ∷ 15 ∷ 99 ∷ 20 ∷ 10 ∷ []

abbrev begun : LatencyHist
begun = blank_hist ltb edges

counted : (add_all ltb edges begun delays).b ≡ 1 ∷ 2 ∷ 1 ∷ 1 ∷ []
unfolding add_all add
counted = refl

-- Those before the edge 20: the sample 20 is not below it.
add_all_counts_example :
    (sum (take 2 (add_all ltb edges begun delays).b) ≡ 0 + 3)
    × (sum (add_all ltb edges begun delays).b ≡ 0 + 5)
    × ((add_all ltb edges begun delays).n ≡ 0 + 5)
    × (length (add_all ltb edges begun delays).b ≡ 4)
add_all_counts_example =
    add_all_counts ltb (10 ∷ []) 20 (30 ∷ []) edges-Ascending begun delays refl (omega arith)
      (omega arith)

abbrev five_samples : LatencyHist
five_samples = record { b = 1 ∷ 2 ∷ 1 ∷ 1 ∷ []; n = 5 }

quantile_rank_example :
    (j : ℕ) × (quantile 3 five_samples 3 ≡ value_of 3 (some j))
    × (sum (take j (1 ∷ 2 ∷ 1 ∷ 1 ∷ [])) < 3)
    × (3 ≤ sum (take (suc j) (1 ∷ 2 ∷ 1 ∷ 1 ∷ [])))
quantile_rank_example =
    quantile_rank 3 five_samples 3 (omega arith) (omega arith) (omega arith) (omega arith)
