-- ===== src/Tests/Bench.antt =====
-- tools/bench at small inputs, over a client that keeps one file in memory.
use nfsclient.Base.{
  ℕ, zero, suc, ◌+◌, ◌*◌, ◌/◌, ◌≤◌, ◌≡◌, refl, true, false, List, [], ◌∷◌, ◌++◌, length, take, drop,
  replicate, leb, leb→le, Bool-cases, inl, inr, if◌then◌else◌, arith,
}
use nfsclient.Errors.{ok, err, Reason, Exception}
use native.Mathlib.Nat.{mul-le-mul_left}
use nfsclient.Exec.{pure}
use nfsclient.Nfs3.Types.{Fh3, Stable3}
use nfsclient.Bench.Stats.{Stats, sample_at, compute}
use nfsclient.Bench.Stats.Ordered.{IsSort, compute-ordered}
use nfsclient.Bench.Client.{Files, BenchConfig}
use nfsclient.Bench.Fill.{fill}
use nfsclient.Bench.Fill.Filled.{Stores, fill-Stores}
use nfsclient.Bench.Workloads.{Round}
use nfsclient.Bench.Run.{Workload, Thread, run_threads}
use nfsclient.Bench.Counts.{IsCounted, run_threads-IsCounted}

abbrev handle : Fh3
handle = record { handle = 1 ∷ [] }

abbrev memory : Files
memory = record {
  Client = List ℕ;
  lookup = λ dir name. pure handle;
  create = λ dir name mode attrs c. (ok handle, []);
  read = λ fh offset n c. (ok (take n (drop offset c)), c);
  write = λ fh offset how bytes c.
      (ok (record { count = length bytes; committed = 2; verf = [] }), c ++ bytes);
  setattr = λ fh attrs guard. pure tt;
  remove = λ dir name c. (ok tt, []);
}

abbrev config : BenchConfig
config = record { bs = 4; size = 10; stable = Stable3.unstable }

memory-Stores : Stores memory handle (λ c. c)
memory-Stores = record { stores = λ c offset bytes e. (_, _, refl, refl) }

fill-Stores_example :
    (c' : List ℕ) × (fill memory 11 171 handle config [] ≡ (ok tt, c')) × (c' ≡ replicate 10 171)
fill-Stores_example =
    fill-Stores memory handle handle (λ c. c) memory-Stores 11 171 config [] []
      (omega arith, omega arith, omega arith) (omega arith) refl refl

abbrev rounds : List Round
rounds =
    record { elapsed = 900; block = 0; reads = true }
    ∷ record { elapsed = 700; block = 1; reads = false }
    ∷ []

abbrev digit : ℕ → List ℕ
digit n = (48 + n) ∷ []

-- Two threads that run, and one whose connection is refused.
abbrev threads : List (Thread memory digit)
threads =
    record { client = ok (1 ∷ 2 ∷ 3 ∷ []); rounds = rounds }
    ∷ record { client = err (Exception.runtime_error Reason.connect_failed); rounds = rounds }
    ∷ record { client = ok []; rounds = rounds }
    ∷ []

run_threads-IsCounted_example :
    IsCounted (run_threads memory digit Workload.mixed config handle threads)
run_threads-IsCounted_example =
    run_threads-IsCounted memory digit Workload.mixed config handle threads

abbrev insert : ℕ → List ℕ → List ℕ
insert x [] = x ∷ []
insert x (y ∷ ys) = let rest = insert x ys in if leb x y then x ∷ y ∷ ys else y ∷ rest

abbrev insertion_sort : List ℕ → List ℕ
insertion_sort [] = []
insertion_sort (x ∷ xs) = insert x (insertion_sort xs)

-- A list in order, from a bound on.
abbrev From : ℕ → List ℕ → Type 0
From b [] = Unit
From b (x ∷ xs) = (b ≤ x) × From x xs

From-insert : (b x : ℕ) (ys : List ℕ) → b ≤ x → From b ys → From b (insert x ys)
From-insert b x [] h k = (h, tt)
From-insert b x (y ∷ ys) h (low, k) = elim (Bool-cases (leb x y)) [
  | inl e ↦ rw e (h, (leb→le x y e, k))
  | inr e ↦ rw e (low, From-insert y x ys (ground arith) k)
]

From-insertion_sort : (xs : List ℕ) → From 0 (insertion_sort xs)
From-insertion_sort [] = tt
From-insertion_sort (x ∷ xs) =
    From-insert 0 x (insertion_sort xs) (omega arith) (From-insertion_sort xs)

length-insert : (x : ℕ) (ys : List ℕ) → length (insert x ys) ≡ suc (length ys)
length-insert x [] = refl
length-insert x (y ∷ ys) = elim (Bool-cases (leb x y)) [
  | inl e ↦ rw e refl
  | inr e ↦ rw e (omega (arith, length-insert x ys))
]

length-insertion_sort : (xs : List ℕ) → length (insertion_sort xs) ≡ length xs
length-insertion_sort [] = refl
length-insertion_sort (x ∷ xs) =
    omega (arith, length-insert x (insertion_sort xs), length-insertion_sort xs)

ok_inj : {x y : ℕ} → ok x ≡ ok y → x ≡ y
ok_inj e = cc

From-sample_at : (b : ℕ) (xs : List ℕ) (i x : ℕ) → From b xs → sample_at xs i ≡ ok x → b ≤ x
From-sample_at b [] i x k e = absurd (cc)
From-sample_at b (y ∷ ys) zero x (low, k) e = omega (arith, low, ok_inj e)
From-sample_at b (y ∷ ys) (suc i) x (low, k) e = omega (arith, low, From-sample_at y ys i x k e)

From-in_order :
    (b : ℕ) (xs : List ℕ) (i j x y : ℕ)
    → From b xs
    → i ≤ j
    → sample_at xs i ≡ ok x
    → sample_at xs j ≡ ok y
    → x ≤ y
From-in_order b [] i j x y k le ex ey = absurd (cc)
From-in_order b (z ∷ zs) zero zero x y k le ex ey = omega (arith, ok_inj ex, ok_inj ey)
From-in_order b (z ∷ zs) zero (suc j) x y (low, k) le ex ey =
    omega (arith, ok_inj ex, From-sample_at z zs j y k ey)
From-in_order b (z ∷ zs) (suc i) zero x y k le ex ey = absurd (omega arith)
From-in_order b (z ∷ zs) (suc i) (suc j) x y (low, k) le ex ey =
    From-in_order z zs i j x y k (omega arith) ex ey

insertion_sort-IsSort : IsSort insertion_sort
insertion_sort-IsSort = record {
  keeps_length = length-insertion_sort;
  in_order = λ xs i j x y. From-in_order 0 (insertion_sort xs) i j x y (From-insertion_sort xs);
}

-- The percentile of the index, with no rounding error.
abbrev rounded : ℕ → ℕ → ℕ
rounded p n = (n * p + 50) / 100

rounded_mono : (p q n : ℕ) → p ≤ q → rounded p n ≤ rounded q n
rounded_mono p q n le = let more : (n * p ≤ n * q) = mul-le-mul_left n le in omega arith

compute-ordered_example :
    (s : Stats) × (compute insertion_sort rounded (record { samples = 9 ∷ 4 ∷ 6 ∷ [] })
      ≡ (ok s, record { samples = 4 ∷ 6 ∷ 9 ∷ [] }))
    × (s.min_ns ≤ s.p50_ns)
    × (s.p50_ns ≤ s.p95_ns)
    × (s.p95_ns ≤ s.p99_ns)
    × (s.p99_ns ≤ s.max_ns)
compute-ordered_example =
    compute-ordered insertion_sort rounded insertion_sort-IsSort rounded_mono 9 (4 ∷ 6 ∷ [])
