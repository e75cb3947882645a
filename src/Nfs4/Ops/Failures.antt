-- ===== src/Nfs4/Ops/Failures.antt =====
-- What the callers get when an operation of a COMPOUND fails.
use nfsclient.Base.{ℕ, String, ◌≡◌, ◌≢◌, List, ◌++◌}
use nfsclient.Errors.{err, Exception}
use nfsclient.Xdr.Decoder.{run}
use nfsclient.Xdr.Wire.{IsU32, uint32}
use nfsclient.Xdr.Reads.{Raises, Raises-bind, Raises-last, Raises-first, run-Raises}
use nfsclient.Xdr.Reads.Items.{Reads-uint32}
use nfsclient.Nfs4.Compound.Header.{Raises-check4}
use nfsclient.Nfs4.Ops.{
  check_op_status, decode_putrootfh_result, decode_putfh_result, decode_savefh_result,
  decode_restorefh_result, decode_lookupp_result, decode_lookup_result, decode_getfh_result,
  decode_access_result, decode_commit_result, decode_create_result, decode_remove_result,
  decode_rename_result, decode_getattr_result, decode_read_result, decode_write_result,
  decode_readlink_result, decode_setattr_result, decode_readdir_result,
}
use nfsclient.Nfs4.State.{
  decode_open_result, decode_open_confirm_result, decode_close_result, decode_setclientid_result,
}
use nfsclient.Nfs4.Session.{
  decode_exchange_id_result, decode_create_session_result, decode_sequence41_result,
}

-- A result that is no more than the number of its operation and a status.
abbrev pub failed : ℕ → ℕ → List ℕ
failed resop status = uint32 resop ++ uint32 status

Raises-op :
    (resop status : ℕ) (name : String)
    → IsU32 resop × IsU32 status
    → status ≢ 0
    → Raises (check_op_status name) (failed resop status) (Exception.nfs4_error status name)
unfolding check_op_status
Raises-op resop status name (hr, hs) ne =
    Raises-bind _ (Reads-uint32 resop hr)
      (Raises-last _ (Reads-uint32 status hs) (Raises-check4 status name ne))

-- A result with a status that is not 0 of PUTROOTFH, PUTFH, SAVEFH, RESTOREFH, LOOKUPP or LOOKUP makes
-- its decoder throw an `Nfs4Error` with that status and the name of the operation, whatever operation
-- the result says it is for and whatever follows.
pub decode_result-error_of_step :
    (resop status : ℕ) (rest : List ℕ)
    → IsU32 resop × IsU32 status
    → status ≢ 0
    → let bytes : List ℕ = failed resop status ++ rest in
      (run decode_putrootfh_result bytes ≡ err (Exception.nfs4_error status "PUTROOTFH"))
      × (run decode_putfh_result bytes ≡ err (Exception.nfs4_error status "PUTFH"))
      × (run decode_savefh_result bytes ≡ err (Exception.nfs4_error status "SAVEFH"))
      × (run decode_restorefh_result bytes ≡ err (Exception.nfs4_error status "RESTOREFH"))
      × (run decode_lookupp_result bytes ≡ err (Exception.nfs4_error status "LOOKUPP"))
      × (run decode_lookup_result bytes ≡ err (Exception.nfs4_error status "LOOKUP"))
unfolding decode_putrootfh_result decode_putfh_result decode_savefh_result decode_restorefh_result
    decode_lookupp_result decode_lookup_result
decode_result-error_of_step resop status rest h ne = (
  run-Raises rest (Raises-op resop status "PUTROOTFH" h ne),
  run-Raises rest (Raises-op resop status "PUTFH" h ne),
  run-Raises rest (Raises-op resop status "SAVEFH" h ne),
  run-Raises rest (Raises-op resop status "RESTOREFH" h ne),
  run-Raises rest (Raises-op resop status "LOOKUPP" h ne),
  run-Raises rest (Raises-op resop status "LOOKUP" h ne),
)

-- A result with a status that is not 0, of any operation that the clients use and whose results have more
-- than a status, makes its decoder throw an `Nfs4Error` with that status and the name of the operation, whatever operation the
-- result says it is for and whatever follows.
pub decode_result-error :
    (resop status : ℕ) (rest : List ℕ)
    → IsU32 resop × IsU32 status
    → status ≢ 0
    → let bytes : List ℕ = failed resop status ++ rest in
      (run decode_getfh_result bytes ≡ err (Exception.nfs4_error status "GETFH"))
      × (run decode_access_result bytes ≡ err (Exception.nfs4_error status "ACCESS"))
      × (run decode_commit_result bytes ≡ err (Exception.nfs4_error status "COMMIT"))
      × (run decode_create_result bytes ≡ err (Exception.nfs4_error status "CREATE"))
      × (run decode_remove_result bytes ≡ err (Exception.nfs4_error status "REMOVE"))
      × (run decode_rename_result bytes ≡ err (Exception.nfs4_error status "RENAME"))
      × (run decode_getattr_result bytes ≡ err (Exception.nfs4_error status "GETATTR"))
      × (run decode_read_result bytes ≡ err (Exception.nfs4_error status "READ"))
      × (run decode_write_result bytes ≡ err (Exception.nfs4_error status "WRITE"))
      × (run decode_readlink_result bytes ≡ err (Exception.nfs4_error status "READLINK"))
      × (run decode_setattr_result bytes ≡ err (Exception.nfs4_error status "SETATTR"))
      × (run decode_readdir_result bytes ≡ err (Exception.nfs4_error status "READDIR"))
      × (run decode_open_result bytes ≡ err (Exception.nfs4_error status "OPEN"))
      × (run decode_open_confirm_result bytes ≡ err (Exception.nfs4_error status "OPEN_CONFIRM"))
      × (run decode_close_result bytes ≡ err (Exception.nfs4_error status "CLOSE"))
      × (run decode_setclientid_result bytes ≡ err (Exception.nfs4_error status "SETCLIENTID"))
      × (run decode_exchange_id_result bytes ≡ err (Exception.nfs4_error status "EXCHANGE_ID"))
      × (run decode_create_session_result bytes
          ≡ err (Exception.nfs4_error status "CREATE_SESSION"))
      × (run decode_sequence41_result bytes ≡ err (Exception.nfs4_error status "SEQUENCE"))
unfolding decode_getfh_result decode_access_result decode_commit_result decode_create_result
    decode_remove_result decode_rename_result decode_getattr_result decode_read_result
    decode_write_result decode_readlink_result decode_setattr_result decode_readdir_result
    decode_open_result decode_open_confirm_result decode_close_result decode_setclientid_result
    decode_exchange_id_result decode_create_session_result decode_sequence41_result
decode_result-error resop status rest h ne = (
  run-Raises rest (Raises-first _ (Raises-op resop status "GETFH" h ne)),
  run-Raises rest (Raises-first _ (Raises-op resop status "ACCESS" h ne)),
  run-Raises rest (Raises-first _ (Raises-op resop status "COMMIT" h ne)),
  run-Raises rest (Raises-first _ (Raises-op resop status "CREATE" h ne)),
  run-Raises rest (Raises-first _ (Raises-op resop status "REMOVE" h ne)),
  run-Raises rest (Raises-first _ (Raises-op resop status "RENAME" h ne)),
  run-Raises rest (Raises-first _ (Raises-op resop status "GETATTR" h ne)),
  run-Raises rest (Raises-first _ (Raises-op resop status "READ" h ne)),
  run-Raises rest (Raises-first _ (Raises-op resop status "WRITE" h ne)),
  run-Raises rest (Raises-first _ (Raises-op resop status "READLINK" h ne)),
  run-Raises rest (Raises-first _ (Raises-op resop status "SETATTR" h ne)),
  run-Raises rest (Raises-first _ (Raises-op resop status "READDIR" h ne)),
  run-Raises rest (Raises-first _ (Raises-op resop status "OPEN" h ne)),
  run-Raises rest (Raises-first _ (Raises-op resop status "OPEN_CONFIRM" h ne)),
  run-Raises rest (Raises-first _ (Raises-op resop status "CLOSE" h ne)),
  run-Raises rest (Raises-first _ (Raises-op resop status "SETCLIENTID" h ne)),
  run-Raises rest (Raises-first _ (Raises-op resop status "EXCHANGE_ID" h ne)),
  run-Raises rest (Raises-first _ (Raises-op resop status "CREATE_SESSION" h ne)),
  run-Raises rest (Raises-first _ (Raises-op resop status "SEQUENCE" h ne)),
)
