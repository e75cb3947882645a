-- ===== src/Bench/Run.antt =====
-- `run_workload` of tools/bench/main.cpp: the threads of a run, each with a connection of its own, and
-- the totals over them.
use nfsclient.Base.{ℕ, suc, ◌+◌, ◌%◌, ◌^◌, List, [], ◌∷◌}
use nfsclient.Errors.{Result, ok, err, fault}
use nfsclient.Exec.{Exec}
use nfsclient.Nfs3.Types.{Fh3}
use nfsclient.Bench.Stats.{merge, Stats, compute}
use nfsclient.Bench.Client.{Files, BenchConfig}
use nfsclient.Bench.Workloads as Workloads
use nfsclient.Bench.Workloads.{Round, Progress, no_progress, Worker, meta_loop}

-- The registry of workloads.
pub data Workload : Type 0 where
  seqread seqwrite randread randwrite meta mixed : Workload

pub record RunResult : Type 0 where
  pub total_ops : ℕ
  pub total_bytes : ℕ
  pub lat : Stats

-- A turn of the loop behind the joins.
unfoldable pub add_thread : Progress → Progress → Progress
add_thread p total = record {
  res = merge p.res total.res;
  ops = (total.ops + p.ops) % 2 ^ 64;
  bytes = (total.bytes + p.bytes) % 2 ^ 64;
}

abbrev reported : Progress → Result Stats → Result RunResult
reported total (ok lat) =
    ok (record { total_ops = total.ops; total_bytes = total.bytes; lat = lat })
reported total (err e) = err e
reported total (fault x) = fault x

module _ (files : Files) (to_string : ℕ → List ℕ) where
  open files use {Client}

  -- `client` is how the constructor of the thread's client ends, its credential set.
  pub record Thread : Type 0 where
    pub client : Result Client
    pub rounds : List Round

  unfoldable pub run :
      Workload → BenchConfig → Fh3 → ℕ → List Round → Exec (Worker files to_string) (Unit {0})
  run Workload.seqread cfg workdir tid rounds = Workloads.seqread files to_string cfg workdir rounds
  run Workload.seqwrite cfg workdir tid rounds =
      Workloads.seqwrite files to_string cfg workdir tid rounds
  run Workload.randread cfg workdir tid rounds =
      Workloads.randread files to_string cfg workdir rounds
  run Workload.randwrite cfg workdir tid rounds =
      Workloads.randwrite files to_string cfg workdir tid rounds
  run Workload.meta cfg workdir tid rounds = meta_loop files to_string workdir tid rounds 0
  run Workload.mixed cfg workdir tid rounds = Workloads.mixed files to_string cfg workdir rounds

  -- The body of `worker`: an exception is caught, and what was counted stays.
  abbrev pub started : Workload → BenchConfig → Fh3 → ℕ → List Round → Result Client → Progress
  started wl cfg workdir tid rounds (ok c) = (run wl cfg workdir tid rounds (c, no_progress)).1.1
  started wl cfg workdir tid rounds (err e) = no_progress
  started wl cfg workdir tid rounds (fault x) = no_progress

  unfoldable pub worker : Workload → BenchConfig → Fh3 → ℕ → Thread → Progress
  worker wl cfg workdir tid t = started wl cfg workdir tid t.rounds t.client

  -- The threads from `tid` on.
  unfoldable pub join_all : Workload → BenchConfig → Fh3 → ℕ → List Thread → Progress → Progress
  join_all wl cfg workdir tid [] total = total
  join_all wl cfg workdir tid (t ∷ threads) total =
      join_all wl cfg workdir (suc tid) threads (add_thread (worker wl cfg workdir tid t) total)

  unfoldable pub run_threads : Workload → BenchConfig → Fh3 → List Thread → Progress
  unfolding join_all
  run_threads wl cfg workdir threads = join_all wl cfg workdir 0 threads no_progress

  -- `sort` and `scaled` are those of `compute`.
  unfoldable pub run_workload :
      (List ℕ → List ℕ)
      → (ℕ → ℕ → ℕ)
      → Workload
      → BenchConfig
      → Fh3
      → List Thread
      → Result RunResult
  run_workload sort scaled wl cfg workdir threads =
      let total : Progress = run_threads wl cfg workdir threads in
      let (lat, merged) = compute sort scaled total.res in reported total lat
