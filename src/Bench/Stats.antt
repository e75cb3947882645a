-- ===== src/Bench/Stats.antt =====
-- `Reservoir` of tools/bench/bench_stats.hpp: the latencies of the operations, in nanoseconds.
pub mod Ordered
use nfsclient.Base.{ℕ, zero, suc, ◌-◌, Bool, List, [], ◌∷◌, ◌++◌, length, leb, if◌then◌else◌}
use nfsclient.Errors.{Result, ok, fault, Fault}
use nfsclient.Exec.{Exec, pure, ◌>>=◌, ◌>>◌}

pub record Reservoir : Type 0 where
  pub samples : List ℕ

abbrev pub no_samples : Reservoir
no_samples = record { samples = [] }

abbrev pub push : ℕ → Reservoir → Reservoir
push ns r = record { samples = r.samples ++ (ns ∷ []) }

abbrev pub count : Reservoir → ℕ
count r = length r.samples

abbrev pub merge : Reservoir → Reservoir → Reservoir
merge other r = record { samples = r.samples ++ other.samples }

pub record Stats : Type 0 where
  pub min_ns : ℕ
  pub p50_ns : ℕ
  pub p95_ns : ℕ
  pub p99_ns : ℕ
  pub max_ns : ℕ

abbrev pub no_stats : Stats
no_stats = record { min_ns = 0; p50_ns = 0; p95_ns = 0; p99_ns = 0; max_ns = 0 }

-- `samples_[i]`
abbrev pub sample_at : List ℕ → ℕ → Result ℕ
sample_at [] i = fault Fault.out_of_bounds
sample_at (x ∷ xs) zero = ok x
sample_at (x ∷ xs) (suc i) = sample_at xs i

-- `if (idx >= n) idx = n - 1;`
unfoldable pub clamped : ℕ → ℕ → ℕ
clamped n idx = if leb n idx then n - 1 else idx

-- `sort` is `std::sort`. `scaled p n` is `static_cast<size_t>(p / 100.0 * static_cast<double>(n) + 0.5)`,
-- the arithmetic on floating-point numbers.
module _ (sort : List ℕ → List ℕ) (scaled : ℕ → ℕ → ℕ) where
  abbrev sample : ℕ → Exec Reservoir ℕ
  sample i r = (sample_at r.samples i, r)

  abbrev last_sample : Exec Reservoir ℕ
  last_sample r = sample (count r - 1) r

  abbrev pct : ℕ → Exec Reservoir ℕ
  pct p r = sample (clamped (count r) (scaled p (count r - 1))) r

  abbrev sort_samples : Exec Reservoir (Unit {0})
  sort_samples r = (ok tt, record { samples = sort r.samples })

  abbrev compute_from : List ℕ → Exec Reservoir Stats
  compute_from [] = pure no_stats
  compute_from (x ∷ xs) = do
    sort_samples
    min_ns ← sample 0
    p50_ns ← pct 50
    p95_ns ← pct 95
    p99_ns ← pct 99
    max_ns ← last_sample
    pure (record {
      min_ns = min_ns;
      p50_ns = p50_ns;
      p95_ns = p95_ns;
      p99_ns = p99_ns;
      max_ns = max_ns;
    })

  unfoldable pub compute : Exec Reservoir Stats
  compute r = compute_from r.samples r
