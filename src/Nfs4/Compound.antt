-- ===== src/Nfs4/Compound.antt =====
-- src/nfs4/compound.cpp: one COMPOUND call, and the header of its result.
pub mod Header
use nfsclient.Base.{ℕ, String, List, ◌++◌, ◌==◌, if◌then◌else◌}
use nfsclient.Errors.{Exception}
use nfsclient.Exec.{Exec}
use nfsclient.Xdr.Encoder.{◌⨾◌, encoded, put_uint32, put_string}
use nfsclient.Xdr.Decoder.{Decode, pure, raise, ◌>>=◌, ◌>>◌, get_uint32, get_string}
use nfsclient.Rpc.Transport.{Transport}

-- The header and the operations behind it.
unfoldable pub compound_args : List ℕ → List ℕ → ℕ → ℕ → List ℕ
compound_args tag ops_bytes num_ops minorversion =
    encoded (put_string tag ⨾ put_uint32 minorversion ⨾ put_uint32 num_ops) ++ ops_bytes

module _ (t : Transport) where
  open t use {Conn, call}

  unfoldable pub call_compound : List ℕ → List ℕ → ℕ → ℕ → Exec Conn (List ℕ)
  unfolding compound_args
  call_compound tag ops_bytes num_ops minorversion =
      call 100003 4 1 (compound_args tag ops_bytes num_ops minorversion)

-- `if (status != 0) throw Nfs4Error(status, name);`
unfoldable pub check_status4 : ℕ → String → Decode (Unit {0})
check_status4 status name =
    if status == 0 then pure tt else raise (Exception.nfs4_error status name)

unfoldable pub check_compound_status : Decode (Unit {0})
unfolding check_status4
check_compound_status = do
  status ← get_uint32
  check_status4 status "COMPOUND"
  tag ← get_string
  numops ← get_uint32
  pure tt
