-- ===== src/Nfs4/Ops/Successes.antt =====
-- What the callers get when an operation of a COMPOUND succeeds.
use nfsclient.Base.{ℕ, String, ◌≡◌, List, ◌++◌, length, arith}
use nfsclient.Errors.{ok}
use nfsclient.Xdr.Decoder.{run}
use nfsclient.Xdr.Wire.{IsU32, Fits32, uint32, opaque, fixed_opaque}
use nfsclient.Xdr.Reads.{Reads, Reads-bind, Reads-done, Reads-last, run-Reads}
use nfsclient.Xdr.Reads.Items.{Reads-uint32, Reads-opaque, Reads-string, Reads-fixed_opaque}
use nfsclient.Nfs4.Types.{Nfs4Fh, decode_nfs4fh}
use nfsclient.Nfs4.Compound.Header.{Reads-check4}
use nfsclient.Nfs4.Ops.{
  check_op_status, decode_getfh_result, decode_access_result, decode_commit_result,
  decode_read_result, decode_write_result, decode_readlink_result,
}

-- The number of the operation, and `NFS4_OK`.
abbrev pub granted : ℕ → List ℕ
granted resop = uint32 resop ++ uint32 0

pub Reads-op :
    (resop : ℕ) (name : String) → IsU32 resop → Reads (check_op_status name) (granted resop) tt
unfolding check_op_status
Reads-op resop name h =
    Reads-bind _ (Reads-uint32 resop h)
      (Reads-done _ (Reads-uint32 0 (omega arith)) (Reads-check4 name))

-- The results of GETFH, READ and READLINK give back the handle, the data and the target that the server
-- sends, those of ACCESS both of its masks, that of WRITE its count, commitment and verifier, and that
-- of COMMIT its verifier, whatever follows; for handles, data and targets shorter than 2 ^ 32 bytes and
-- a verifier of 8 bytes.
pub decode_result-granted :
    (resop : ℕ) (fh : Nfs4Fh) (bytes verf rest : List ℕ) (eof count committed : ℕ)
    → IsU32 resop
    → Fits32 fh.handle × Fits32 bytes
    → length verf ≡ 8
    → IsU32 eof × IsU32 count × IsU32 committed
    → (run decode_getfh_result ((granted resop ++ opaque fh.handle) ++ rest) ≡ ok fh)
      × (run decode_read_result ((granted resop ++ (uint32 eof ++ opaque bytes)) ++ rest)
          ≡ ok bytes)
      × (run decode_readlink_result ((granted resop ++ opaque bytes) ++ rest) ≡ ok bytes)
      × (run decode_access_result ((granted resop ++ (uint32 count ++ uint32 committed)) ++ rest)
          ≡ ok (record { supported = count; access = committed }))
      × (run decode_write_result
            ((granted resop ++ (uint32 count ++ (uint32 committed ++ fixed_opaque verf))) ++ rest)
          ≡ ok (record { count = count; committed = committed; verf = verf }))
      × (run decode_commit_result ((granted resop ++ fixed_opaque verf) ++ rest) ≡ ok verf)
unfolding decode_getfh_result decode_read_result decode_readlink_result decode_access_result
    decode_write_result decode_commit_result decode_nfs4fh
decode_result-granted resop fh bytes verf rest eof count committed h (hf, hb) hv (he, hc, hk) = (
  run-Reads rest
      (Reads-bind _ (Reads-op resop "GETFH" h) (Reads-last _ (Reads-opaque fh.handle hf))),
  run-Reads rest (
      Reads-bind _ (Reads-op resop "READ" h)
        (Reads-bind _ (Reads-uint32 eof he) (Reads-opaque bytes hb))),
  run-Reads rest (Reads-bind _ (Reads-op resop "READLINK" h) (Reads-string bytes hb)),
  run-Reads rest (
      Reads-bind _ (Reads-op resop "ACCESS" h)
        (Reads-bind _ (Reads-uint32 count hc) (Reads-last _ (Reads-uint32 committed hk)))),
  run-Reads rest (
      Reads-bind _ (Reads-op resop "WRITE" h) (
        Reads-bind _ (Reads-uint32 count hc) (
          Reads-bind _ (Reads-uint32 committed hk) (Reads-last _ (Reads-fixed_opaque 8 verf hv))))),
  run-Reads rest (Reads-bind _ (Reads-op resop "COMMIT" h) (Reads-fixed_opaque 8 verf hv)),
)
