-- ===== src/Bench/Fill.antt =====
-- The setup of the workloads that read: a file filled with one byte, block by block. The same loop
-- stands in tools/bench/workload_seqread.cpp, workload_randread.cpp and workload_mixed.cpp.
pub mod Filled
use nfsclient.Base.{
  ℕ, zero, suc, ◌+◌, ◌-◌, ◌%◌, ◌^◌, Bool, List, take, replicate, ltb, leb, if◌then◌else◌,
}
use nfsclient.Errors.{fault, Fault}
use nfsclient.Exec.{Exec, pure, lift, ◌>>=◌}
use nfsclient.Nfs3.Types.{Fh3, Stable3, WriteResult}
use nfsclient.Nfs3.Names.{CreateMode3}
use nfsclient.Bench.Client.{Files, BenchConfig, no_attributes, bench_file}

-- `static_cast<uint32_t>(std::min<uint64_t>(bs, size - written))`
unfoldable pub chunk : ℕ → ℕ → ℕ → ℕ
chunk bs size written =
    (if leb bs ((size - written) % 2 ^ 64) then bs else (size - written) % 2 ^ 64) % 2 ^ 32

module _ (files : Files) where
  open files use {Client, create, write}

  -- A round of `while (written < cfg.size)` for each unit of fuel.
  unfoldable pub fill_loop : ℕ → Fh3 → List ℕ → ℕ → ℕ → ℕ → Exec Client (Unit {0})
  fill_loop zero fh buf bs size written = lift (fault Fault.out_of_fuel)
  fill_loop (suc fuel) fh buf bs size written =
      let more : Exec Client (Unit {0}) =
        (write fh written Stable3.file_sync (take (chunk bs size written) buf) >>= λ result.
        fill_loop fuel fh buf bs size ((written + chunk bs size written) % 2 ^ 64)) in
      if ltb written size then more else pure tt

  -- The setup with a byte for the buffer.
  unfoldable pub fill : ℕ → ℕ → Fh3 → BenchConfig → Exec Client (Unit {0})
  unfolding fill_loop
  fill fuel byte workdir cfg =
      create workdir bench_file CreateMode3.unchecked no_attributes >>= λ fh.
      fill_loop fuel fh (replicate cfg.bs byte) cfg.bs cfg.size 0
