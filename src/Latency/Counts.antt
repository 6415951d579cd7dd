-- ===== src/Latency/Counts.antt =====
-- The buckets count the samples.
use linerate.Base.{
  ℕ, zero, suc, ◌+◌, ◌%◌, ◌^◌, ◌<◌, ◌≤◌, ◌≡◌, refl, ap, ◌∙◌, Bool, List, [], ◌∷◌, length,
  length-set, take, get_or, set, ltb, if◌then◌else◌, arith, All, true, ◌++◌, inl, inr, Bool-cases,
}
use linerate.Latency.{LatencyHist, upper_bound, bucket_of, add, add_all}

abbrev pub sum : List ℕ → ℕ
sum [] = 0
sum (x ∷ xs) = x + sum xs

-- One if the bucket is among the first `j`.
abbrev pub before : ℕ → ℕ → ℕ
before i j = if ltb i j then 1 else 0

sum-set :
    (b : List ℕ) (i j v : ℕ)
    → i < length b
    → v ≡ get_or b i 0 + 1
    → sum (take j (set b i v)) ≡ sum (take j b) + before i j
sum-set [] i j v h e = absurd (omega arith)
sum-set (x ∷ b) zero zero v h e = refl
sum-set (x ∷ b) zero (suc j) v h e = ground arith
sum-set (x ∷ b) (suc i) zero v h e = ground arith
sum-set (x ∷ b) (suc i) (suc j) v h e = ground (arith, sum-set b i j v (omega arith) e)

get_or-le-sum : (b : List ℕ) (i : ℕ) → get_or b i 0 ≤ sum b
get_or-le-sum [] i = omega arith
get_or-le-sum (x ∷ b) zero = omega arith
get_or-le-sum (x ∷ b) (suc i) = omega (arith, get_or-le-sum b i)

sum-set_all :
    (b : List ℕ) (i v : ℕ) → i < length b → v ≡ get_or b i 0 + 1 → sum (set b i v) ≡ sum b + 1
sum-set_all [] i v h e = absurd (omega arith)
sum-set_all (x ∷ b) zero v h e = omega (arith, e)
sum-set_all (x ∷ b) (suc i) v h e = omega (arith, sum-set_all b i v (omega arith) e)

module _ {D : Type 0} (less : D → D → Bool) (edges : List D) where
  -- How many of the samples belong to the first `j` of `size` buckets.
  abbrev pub samples_before : ℕ → ℕ → List D → ℕ
  samples_before size j [] = 0
  samples_before size j (ns ∷ rest) =
      before (bucket_of less edges size ns) j + samples_before size j rest

  bucket_of-lt : (size : ℕ) (ns : D) → 0 < size → bucket_of less edges size ns < size
  bucket_of-lt size ns h = ground arith

  -- Every run of buckets from the first holds as many more as there are samples with a bucket in it.
  add_all_buckets :
      (h : LatencyHist) (xs : List D) (j : ℕ)
      → 0 < length h.b
      → sum h.b + length xs < 2 ^ 64
      → h.n + length xs < 2 ^ 64
      → (sum (take j (add_all less edges h xs).b)
          ≡ sum (take j h.b) + samples_before (length h.b) j xs)
        × ((add_all less edges h xs).n ≡ h.n + length xs)
        × (sum (add_all less edges h xs).b ≡ sum h.b + length xs)
        × (length (add_all less edges h xs).b ≡ length h.b)
  unfolding add_all add
  add_all_buckets h [] j some_bucket room room' = (omega arith, omega arith, omega arith, refl)
  add_all_buckets h (ns ∷ xs) j some_bucket room room' =
      let i = bucket_of less edges (length h.b) ns in
      let inside = bucket_of-lt (length h.b) ns some_bucket in
      let low = get_or-le-sum h.b i in
      let kept : (get_or h.b i 0 + 1) % 2 ^ 64 ≡ get_or h.b i 0 + 1 = omega (arith, low) in
      let size = length-set h.b i ((get_or h.b i 0 + 1) % 2 ^ 64) in
      let one = sum-set h.b i j ((get_or h.b i 0 + 1) % 2 ^ 64) inside kept in
      let all = sum-set_all h.b i ((get_or h.b i 0 + 1) % 2 ^ 64) inside kept in
      let (counted, total, summed, sized) =
        add_all_buckets (add less edges h ns) xs j (omega (arith, size)) (omega (arith, all))
          (omega arith) in
      let same = ap (λ s. samples_before s j xs) size in
      (
        omega (arith, counted, one, same),
        omega (arith, total),
        omega (arith, summed, all),
        sized ∙ size,
      )

All-middle :
    {D : Type 0} (P : D → Type 0) (done : List D) (e : D) (rest : List D)
    → All P (done ++ (e ∷ rest))
    → P e
All-middle P [] e rest h = h.0
All-middle P (d ∷ done) e rest h = All-middle P done e rest h.1

before-suc : (i j : ℕ) → before (suc i) (suc j) ≡ before i j
before-suc i j = ground arith

-- Each edge is at least as high as those before it: what lies below one lies below the later ones.
abbrev pub Ascending : {D : Type 0} → (D → D → Bool) → List D → Type 0
Ascending {D} less [] = Unit
Ascending {D} less (d ∷ es) =
    All (λ e. (x : D) → less x d ≡ true → less x e ≡ true) es × Ascending less es

module _ {D : Type 0} (less : D → D → Bool) where
  -- How many of the samples lie below an edge.
  abbrev pub count_below : D → List D → ℕ
  count_below e [] = 0
  count_below e (x ∷ xs) = (if less x e then 1 else 0) + count_below e xs

  upper_bound-le : (es : List D) (x : D) → upper_bound less es x ≤ length es
  upper_bound-le [] x = omega arith
  upper_bound-le (e ∷ es) x = ground (arith, upper_bound-le es x)

  -- A value stands in one of the first buckets, up to the one that an edge ends, if it lies below the edge.
  upper_bound_splits :
      (done : List D) (e : D) (rest : List D) (x : D)
      → Ascending less (done ++ (e ∷ rest))
      → before (upper_bound less (done ++ (e ∷ rest)) x) (suc (length done))
        ≡ (if less x e then 1 else 0)
  upper_bound_splits [] e rest x up = elim (Bool-cases (less x e)) [
    | inl low ↦ rw low refl
    | inr high ↦ rw high (ground arith)
  ]
  upper_bound_splits (d ∷ done) e rest x up = elim (Bool-cases (less x d)) [
    | inl low ↦
        let below_e =
          All-middle (λ e. (x : D) → less x d ≡ true → less x e ≡ true) done e rest up.0 x low in
        rw (low, below_e) (ground arith)
    | inr high ↦ rw high (
        before-suc (upper_bound less (done ++ (e ∷ rest)) x) (suc (length done))
        ∙ upper_bound_splits done e rest x up.1)
  ]

  module _ (done : List D) (e : D) (rest : List D) (up : Ascending less (done ++ (e ∷ rest))) where
    abbrev edges : List D
    edges = done ++ (e ∷ rest)

    samples_below :
        (xs : List D)
        → samples_before less edges (length edges + 1) (suc (length done)) xs ≡ count_below e xs
    samples_below [] = refl
    samples_below (x ∷ xs) =
        let inside = upper_bound-le edges x in
        let unclamped : bucket_of less edges (length edges + 1) x ≡ upper_bound less edges x =
          ground (arith, inside) in
        ap
          (λ i.
            before i (suc (length done))
            + samples_before less edges (length edges + 1) (suc (length done)) xs)
          unclamped
        ∙ (λ j. upper_bound_splits done e rest x up j + samples_below xs j)

    -- From any histogram with a bucket before each edge and one after the last, over ascending
    -- edges and while no count can wrap: the buckets before any edge hold together as many more as
    -- there are samples below that edge, all the buckets as many more as there are samples, `n`
    -- goes up by the number of samples, and the number of buckets stays.
    pub add_all_counts :
        (h : LatencyHist) (xs : List D)
        → length h.b ≡ length edges + 1
        → sum h.b + length xs < 2 ^ 64
        → h.n + length xs < 2 ^ 64
        → (sum (take (suc (length done)) (add_all less edges h xs).b)
            ≡ sum (take (suc (length done)) h.b) + count_below e xs)
          × (sum (add_all less edges h xs).b ≡ sum h.b + length xs)
          × ((add_all less edges h xs).n ≡ h.n + length xs)
          × (length (add_all less edges h xs).b ≡ length h.b)
    add_all_counts h xs sized room room' =
        let (counted, total, summed, same) =
          add_all_buckets less edges h xs (suc (length done)) (omega (arith, sized)) room room' in
        let below_e =
          ap (λ n. samples_before less edges n (suc (length done)) xs) sized ∙ samples_below xs in
        (omega (arith, counted, below_e), summed, total, same)
