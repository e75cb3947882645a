-- ===== src/Bench/Workloads.antt =====
-- The workloads of tools/bench: what a worker thread runs until it is stopped. A run is given the rounds
-- that it gets through before the flag `stop` is seen, with what the clock and the random engine say.
use nfsclient.Base.{
  ℕ, ◌+◌, ◌-◌, ◌*◌, ◌/◌, ◌%◌, ◌^◌, Bool, true, ◌||◌, List, [], ◌∷◌, ◌++◌, length, replicate, ltb,
  leb, ◌==◌, if◌then◌else◌,
}
use nfsclient.Errors.{ok}
use nfsclient.Exec.{Exec, pure, ◌>>=◌, ◌>>◌}
use nfsclient.Nfs3.Types.{Fh3}
use nfsclient.Nfs3.Names.{CreateMode3}
use nfsclient.Bench.Stats.{Reservoir, no_samples, push}
use nfsclient.Bench.Client.{Files, BenchConfig, no_attributes, no_guard, bench_file}

-- `block` is a draw of `uniform_int_distribution(0, max_block)`, `reads` whether a draw of
-- `coin` is below `rw_ratio`.
pub record Round : Type 0 where
  pub elapsed : ℕ
  pub block : ℕ
  pub reads : Bool

-- `blocks > 0 ? blocks - 1 : 0`
unfoldable pub max_block : BenchConfig → ℕ
max_block cfg = if ltb 0 (cfg.size / cfg.bs) then cfg.size / cfg.bs - 1 else 0

-- `dist(rng) * cfg.bs`
abbrev pub block_offset : BenchConfig → Round → ℕ
block_offset cfg r = (r.block * cfg.bs) % 2 ^ 64

-- `workload_seqread.cpp`: back to the start at the end of the file.
unfoldable pub next_read : BenchConfig → ℕ → ℕ → ℕ
next_read cfg offset got =
    let moved : ℕ = (offset + got) % 2 ^ 64 in if (got == 0) || leb cfg.size moved then 0 else moved

-- `workload_seqwrite.cpp`
unfoldable pub next_write : BenchConfig → ℕ → ℕ → ℕ
next_write cfg offset put =
    let moved : ℕ = (offset + put) % 2 ^ 64 in if leb cfg.size moved then 0 else moved

-- What a thread has counted.
pub record Progress : Type 0 where
  pub res : Reservoir
  pub ops : ℕ
  pub bytes : ℕ

abbrev pub no_progress : Progress
no_progress = record { res = no_samples; ops = 0; bytes = 0 }

-- `res.push(…); bytes += …; ++ops;`
unfoldable pub count_op : ℕ → ℕ → Progress → Progress
count_op ns moved p = record {
  res = push ns p.res;
  ops = (p.ops + 1) % 2 ^ 64;
  bytes = (p.bytes + moved) % 2 ^ 64;
}

-- `to_string` is `std::to_string`.
module _ (files : Files) (to_string : ℕ → List ℕ) where
  open files use {Client, lookup, create, read, write, setattr, remove}

  -- The client of a thread and what it has counted, which outlives an exception.
  abbrev pub Worker : Type 0
  Worker = Client × Progress

  abbrev pub on_client : {A : Type 0} → Exec Client A → Exec Worker A
  on_client m w = let (r, c) = m w.0 in (r, (c, w.1))

  abbrev pub counted : ℕ → ℕ → Exec Worker (Unit {0})
  counted ns moved w = (ok tt, (w.0, count_op ns moved w.1))

  unfoldable pub seqread_loop : BenchConfig → Fh3 → List Round → ℕ → Exec Worker (Unit {0})
  seqread_loop cfg fh [] offset = pure tt
  seqread_loop cfg fh (r ∷ rounds) offset = do
    bytes ← on_client (read fh offset cfg.bs)
    counted r.elapsed (length bytes)
    seqread_loop cfg fh rounds (next_read cfg offset (length bytes))

  unfoldable pub seqread : BenchConfig → Fh3 → List Round → Exec Worker (Unit {0})
  seqread cfg workdir rounds = do
    fh ← on_client (lookup workdir bench_file)
    seqread_loop cfg fh rounds 0

  unfoldable pub randread_loop : BenchConfig → Fh3 → List Round → Exec Worker (Unit {0})
  randread_loop cfg fh [] = pure tt
  randread_loop cfg fh (r ∷ rounds) = do
    bytes ← on_client (read fh (block_offset cfg r) cfg.bs)
    counted r.elapsed (length bytes)
    randread_loop cfg fh rounds

  unfoldable pub randread : BenchConfig → Fh3 → List Round → Exec Worker (Unit {0})
  randread cfg workdir rounds = do
    fh ← on_client (lookup workdir bench_file)
    randread_loop cfg fh rounds

  unfoldable pub seqwrite_loop : BenchConfig → Fh3 → List Round → ℕ → Exec Worker (Unit {0})
  seqwrite_loop cfg fh [] offset = pure tt
  seqwrite_loop cfg fh (r ∷ rounds) offset = do
    result ← on_client (write fh offset cfg.stable (replicate cfg.bs 188))
    counted r.elapsed result.count
    seqwrite_loop cfg fh rounds (next_write cfg offset result.count)

  -- "bench_write_"
  abbrev seqwrite_file : ℕ → List ℕ
  seqwrite_file tid =
      b'b'
      ∷ b'e'
      ∷ b'n'
      ∷ b'c'
      ∷ b'h'
      ∷ b'_'
      ∷ b'w'
      ∷ b'r'
      ∷ b'i'
      ∷ b't'
      ∷ b'e'
      ∷ b'_'
      ∷ to_string tid

  unfoldable pub seqwrite : BenchConfig → Fh3 → ℕ → List Round → Exec Worker (Unit {0})
  seqwrite cfg workdir tid rounds = do
    fh ← on_client (create workdir (seqwrite_file tid) CreateMode3.unchecked no_attributes)
    seqwrite_loop cfg fh rounds 0
    on_client (remove workdir (seqwrite_file tid))

  unfoldable pub randwrite_loop : BenchConfig → Fh3 → List Round → Exec Worker (Unit {0})
  randwrite_loop cfg fh [] = pure tt
  randwrite_loop cfg fh (r ∷ rounds) = do
    result ← on_client (write fh (block_offset cfg r) cfg.stable (replicate cfg.bs 222))
    counted r.elapsed result.count
    randwrite_loop cfg fh rounds

  -- "bench_rw_"
  abbrev randwrite_file : ℕ → List ℕ
  randwrite_file tid = b'b' ∷ b'e' ∷ b'n' ∷ b'c' ∷ b'h' ∷ b'_' ∷ b'r' ∷ b'w' ∷ b'_' ∷ to_string tid

  -- The file is extended first.
  unfoldable pub randwrite : BenchConfig → Fh3 → ℕ → List Round → Exec Worker (Unit {0})
  randwrite cfg workdir tid rounds = do
    fh ← on_client (create workdir (randwrite_file tid) CreateMode3.unchecked no_attributes)
    on_client (setattr fh (record no_attributes { set_size = true; size = cfg.size }) no_guard)
    randwrite_loop cfg fh rounds
    on_client (remove workdir (randwrite_file tid))

  -- "m_", the thread, "_" and the number of the pair
  abbrev meta_file : ℕ → ℕ → List ℕ
  meta_file tid seq = b'm' ∷ b'_' ∷ (to_string tid ++ (b'_' ∷ to_string seq))

  -- No bytes are counted.
  unfoldable pub meta_loop : Fh3 → ℕ → List Round → ℕ → Exec Worker (Unit {0})
  meta_loop workdir tid [] seq = pure tt
  meta_loop workdir tid (r ∷ rounds) seq = do
    on_client (create workdir (meta_file tid seq) CreateMode3.guarded no_attributes)
    on_client (remove workdir (meta_file tid seq))
    counted r.elapsed 0
    meta_loop workdir tid rounds ((seq + 1) % 2 ^ 64)

  abbrev mixed_op : BenchConfig → Fh3 → Round → Exec Client ℕ
  mixed_op cfg fh r =
      let reading : Exec Client ℕ =
        (read fh (block_offset cfg r) cfg.bs >>= λ bytes. pure (length bytes)) in
      let writing : Exec Client ℕ =
        (write fh (block_offset cfg r) cfg.stable (replicate cfg.bs 239) >>= λ result.
        pure result.count) in
      if r.reads then reading else writing

  unfoldable pub mixed_loop : BenchConfig → Fh3 → List Round → Exec Worker (Unit {0})
  mixed_loop cfg fh [] = pure tt
  mixed_loop cfg fh (r ∷ rounds) = do
    moved ← on_client (mixed_op cfg fh r)
    counted r.elapsed moved
    mixed_loop cfg fh rounds

  unfoldable pub mixed : BenchConfig → Fh3 → List Round → Exec Worker (Unit {0})
  mixed cfg workdir rounds = do fh ← on_client (lookup workdir bench_file); mixed_loop cfg fh rounds
