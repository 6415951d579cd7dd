-- ===== src/Latency.antt =====
-- The latency histogram of include/lr/stats.hpp and src/core/stats.cpp: class LatencyHist.
-- The edges are doubles: a list of values of a type `D`, with `less` for `<` on doubles. The value
-- reported for a bucket is named, not computed, and `ceil(q * n)` is an argument.
pub mod Counts
pub mod Rank
mod Tests
use linerate.Base.{
  ℕ, zero, suc, ◌+◌, ◌-◌, ◌%◌, ◌^◌, Bool, Option, none, some, List, [], ◌∷◌, length, get_or, set,
  replicate, ltb, leb, ◌==◌, if◌then◌else◌,
}

pub record LatencyHist : Type 0 where
  pub b : List ℕ
  pub n : ℕ

module _ {D : Type 0} (less : D → D → Bool) where
  -- `std::upper_bound`: the position of the first edge above the value.
  abbrev pub upper_bound : List D → D → ℕ
  upper_bound [] ns = 0
  upper_bound (e ∷ es) ns = let rest = upper_bound es ns in if less ns e then 0 else suc rest

  -- The constructor: a bucket before each edge and one after the last.
  abbrev pub blank_hist : List D → LatencyHist
  blank_hist edges = record { b = replicate (length edges + 1) 0; n = 0 }

  abbrev pub bucket_of : List D → ℕ → D → ℕ
  bucket_of edges size ns = let i = upper_bound edges ns in if leb size i then size - 1 else i

  unfoldable pub add : List D → LatencyHist → D → LatencyHist
  add edges h ns =
      let i = bucket_of edges (length h.b) ns in
      record h { b = set h.b i ((get_or h.b i 0 + 1) % 2 ^ 64); n = (h.n + 1) % 2 ^ 64 }

  unfoldable pub add_all : List D → LatencyHist → List D → LatencyHist
  add_all edges h [] = h
  add_all edges h (ns ∷ rest) = add_all edges (add edges h ns) rest

-- The loop of `quantile`: the first bucket at which the running count reaches the target.
unfoldable pub find_bucket : ℕ → ℕ → ℕ → List ℕ → Option ℕ
find_bucket target cum i [] = none
find_bucket target cum i (x ∷ b) =
    let later = find_bucket target ((cum + x) % 2 ^ 64) (i + 1) b in
    if leb target ((cum + x) % 2 ^ 64) then some i else later

-- What `quantile` returns: 0, an end of the edges, or the mean of the edges around a bucket.
pub data Value : Type 0 where
  no_sample : Value
  front : Value
  back : Value
  middle : ℕ → Value

-- The value for a bucket, among `edges` edges.
abbrev pub value_of : ℕ → Option ℕ → Value
value_of edges none = back
value_of edges (some i) = if i == 0 then front else if leb edges i then back else middle i

-- `quantile`, given `ceil(q * n)`.
unfoldable pub quantile : ℕ → LatencyHist → ℕ → Value
quantile edges h wanted =
    if h.n == 0
    then no_sample
    else value_of edges (find_bucket (if wanted == 0 then 1 else wanted) 0 0 h.b)
