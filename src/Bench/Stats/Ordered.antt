-- ===== src/Bench/Stats/Ordered.antt =====
-- `Reservoir::compute` of tools/bench/bench_stats.hpp: the statistics are in order.
use nfsclient.Base.{ℕ, zero, suc, ◌-◌, ◌≤◌, ◌<◌, ◌≡◌, refl, List, [], ◌∷◌, length, arith}
use nfsclient.Errors.{ok}
use nfsclient.Exec.{◌>>=◌}
use nfsclient.Bench.Stats.{Stats, sample_at, clamped, compute}

sample_at-ok : (xs : List ℕ) (i : ℕ) → i < length xs → (x : ℕ) × (sample_at xs i ≡ ok x)
sample_at-ok [] i h = absurd (omega arith)
sample_at-ok (x ∷ xs) zero h = (x, refl)
sample_at-ok (x ∷ xs) (suc i) h = sample_at-ok xs i (omega arith)

clamped-range : (n i : ℕ) → 0 < n → clamped n i < n
unfolding clamped
clamped-range n i h = ground arith

clamped_mono : (n i j : ℕ) → 0 < n → i ≤ j → clamped n i ≤ clamped n j
unfolding clamped
clamped_mono n i j h le = ground arith

-- What `std::sort` does for `samples_`.
pub record IsSort (sort : List ℕ → List ℕ) : Type 0 where
  pub keeps_length : (xs : List ℕ) → length (sort xs) ≡ length xs
  pub in_order :
      (xs : List ℕ) (i j x y : ℕ)
      → i ≤ j
      → sample_at (sort xs) i ≡ ok x
      → sample_at (sort xs) j ≡ ok y
      → x ≤ y

-- On one sample at least, `compute` stays inside the samples and gives a minimum, a median, the
-- percentiles 95 and 99 and a maximum, each no more than the next. For a sort that sorts, and
-- floating-point arithmetic that gives a higher percentile no lower an index.
pub compute-ordered :
    (sort : List ℕ → List ℕ) (scaled : ℕ → ℕ → ℕ)
    → IsSort sort
    → ((p q n : ℕ) → p ≤ q → scaled p n ≤ scaled q n)
    → (x : ℕ) (xs : List ℕ)
    → (s : Stats) × (compute sort scaled (record { samples = x ∷ xs })
        ≡ (ok s, record { samples = sort (x ∷ xs) }))
      × (s.min_ns ≤ s.p50_ns)
      × (s.p50_ns ≤ s.p95_ns)
      × (s.p95_ns ≤ s.p99_ns)
      × (s.p99_ns ≤ s.max_ns)
unfolding compute ◌>>=◌
compute-ordered sort scaled is_sort mono x xs =
    let ys : List ℕ = sort (x ∷ xs) in
    let n : ℕ = length ys in
    let full : (n ≡ suc (length xs)) = is_sort.keeps_length (x ∷ xs) in
    let idx : (ℕ → ℕ) = λ p. clamped n (scaled p (n - 1)) in
    let inside : ((p : ℕ) → idx p < n) = λ p. clamped-range n _ (omega (arith, full)) in
    let (lo, e0) = sample_at-ok ys 0 (omega (arith, full)) in
    let (m50, e50) = sample_at-ok ys (idx 50) (inside 50) in
    let (m95, e95) = sample_at-ok ys (idx 95) (inside 95) in
    let (m99, e99) = sample_at-ok ys (idx 99) (inside 99) in
    let (hi, e1) = sample_at-ok ys (n - 1) (omega (arith, full)) in
    let step : ((p q : ℕ) → p ≤ q → idx p ≤ idx q) =
      λ p q le. clamped_mono n _ _ (omega (arith, full)) (mono p q (n - 1) le) in
    (
      record { min_ns = lo; p50_ns = m50; p95_ns = m95; p99_ns = m99; max_ns = hi },
      rw (e0, e50, e95, e99, e1) refl,
      is_sort.in_order (x ∷ xs) 0 (idx 50) _ _ (omega arith) e0 e50,
      is_sort.in_order (x ∷ xs) (idx 50) (idx 95) _ _ (step 50 95 (omega arith)) e50 e95,
      is_sort.in_order (x ∷ xs) (idx 95) (idx 99) _ _ (step 95 99 (omega arith)) e95 e99,
      is_sort.in_order (x ∷ xs) (idx 99) (n - 1) _ _ (omega (arith, inside 99)) e99 e1,
    )
