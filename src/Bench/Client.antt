-- ===== src/Bench/Client.antt =====
-- What the workloads of tools/bench use of a connected `NFSClient`, and their settings.
use nfsclient.Base.{ℕ, false, List, [], ◌∷◌}
use nfsclient.Exec.{Exec}
use nfsclient.Rpc.Network.{Network}
use nfsclient.Nfs3.Types.{Fh3, Stable3, WriteResult, Sattr3, SetTimeHow}
use nfsclient.Nfs3.Files.{SattrGuard3}
use nfsclient.Nfs3.Names.{CreateMode3}
use nfsclient.Nfs3.Client as Nfs3Client

pub record Files : Type 1 where
  pub Client : Type 0
  pub lookup : Fh3 → List ℕ → Exec Client Fh3
  pub create : Fh3 → List ℕ → CreateMode3 → Sattr3 → Exec Client Fh3
  pub read : Fh3 → ℕ → ℕ → Exec Client (List ℕ)
  pub write : Fh3 → ℕ → Stable3 → List ℕ → Exec Client WriteResult
  pub setattr : Fh3 → Sattr3 → SattrGuard3 → Exec Client (Unit {0})
  pub remove : Fh3 → List ℕ → Exec Client (Unit {0})

-- The methods of `NFSClient` that are meant.
abbrev pub nfs_files : Network → ℕ → Files
nfs_files net fuel = record {
  Client = Nfs3Client.NfsClient net fuel;
  lookup = Nfs3Client.lookup net fuel;
  create = Nfs3Client.create net fuel;
  read = Nfs3Client.read net fuel;
  write = Nfs3Client.write net fuel;
  setattr = Nfs3Client.setattr net fuel;
  remove = Nfs3Client.remove net fuel;
}

-- The numbers that the workloads read.
pub record BenchConfig : Type 0 where
  pub bs : ℕ
  pub size : ℕ
  pub stable : Stable3

-- `Sattr3{}`
abbrev pub no_attributes : Sattr3
no_attributes = record {
  set_mode = false;
  mode = 420;
  set_uid = false;
  uid = 0;
  set_gid = false;
  gid = 0;
  set_size = false;
  size = 0;
  set_atime = SetTimeHow.dont_change;
  atime_sec = 0;
  atime_nsec = 0;
  set_mtime = SetTimeHow.dont_change;
  mtime_sec = 0;
  mtime_nsec = 0;
}

-- `SattrGuard3{}`
abbrev pub no_guard : SattrGuard3
no_guard = record { check = false; ctime_sec = 0; ctime_nsec = 0 }

-- "bench_data"
abbrev pub bench_file : List ℕ
bench_file = b'b' ∷ b'e' ∷ b'n' ∷ b'c' ∷ b'h' ∷ b'_' ∷ b'd' ∷ b'a' ∷ b't' ∷ b'a' ∷ []
