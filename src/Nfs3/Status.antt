-- ===== src/Nfs3/Status.antt =====
-- How the NFS version 3 decoders treat a status and an optional file handle.
use nfsclient.Base.{ℕ, String, ◌≢◌, [], ◌==◌, ne→==, if◌then◌else◌}
use nfsclient.Errors.{Exception, Reason}
use nfsclient.Xdr.Decoder.{Decode, pure, raise}
use nfsclient.Xdr.Reads.{Reads, Reads-pure, Raises, Raises-raise}
use nfsclient.Xdr.Safe.{Safe, Safe-pure, Safe-if, Safe-raise}

-- `if (status != 0) throw NfsError(status, proc);`
unfoldable pub check_status : ℕ → String → Decode (Unit {0})
check_status status proc = if status == 0 then pure tt else raise (Exception.nfs_error status proc)

-- `if (!fh_present) throw …;`
unfoldable pub check_present : ℕ → String → Decode (Unit {0})
check_present present proc =
    if present == 0 then raise (Exception.runtime_error (Reason.no_file_handle proc)) else pure tt

pub Reads-check_status : (proc : String) → Reads (check_status 0 proc) [] tt
unfolding check_status
Reads-check_status proc = Reads-pure tt

pub Reads-check_present : (proc : String) → Reads (check_present 1 proc) [] tt
unfolding check_present
Reads-check_present proc = Reads-pure tt

pub Raises-check_status :
    (status : ℕ) (proc : String)
    → status ≢ 0
    → Raises (check_status status proc) [] (Exception.nfs_error status proc)
unfolding check_status
Raises-check_status status proc ne = rw (ne→== status 0 ne) (Raises-raise _)

pub Safe-check_status : (status : ℕ) (proc : String) → Safe (check_status status proc)
unfolding check_status
Safe-check_status status proc = Safe-if _ (Safe-pure tt) (Safe-raise _)

pub Safe-check_present : (present : ℕ) (proc : String) → Safe (check_present present proc)
unfolding check_present
Safe-check_present present proc = Safe-if _ (Safe-raise _) (Safe-pure tt)
