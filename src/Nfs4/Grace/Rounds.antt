-- ===== src/Nfs4/Grace/Rounds.antt =====
-- The grace-period loop against its meaning: rounds that the server turns down, and one that ends it.
use nfsclient.Base.{ℕ, zero, suc, ◌≤◌, ◌≡◌, ◌≢◌, refl, ne→==, List, ◌++◌, arith}
use nfsclient.Errors.{Result, ok, err, Reason, Exception}
use nfsclient.Errors.Status4.{Nfsstat4, nfsstat4, is_status4}
use nfsclient.Exec.{Exec, ◌>>=◌}
use nfsclient.Xdr.Decoder.{run}
use nfsclient.Xdr.Wire.{IsU32, Fits32, uint32}
use nfsclient.Xdr.Reads.{run-Reads}
use nfsclient.Nfs4.Compound.{check_compound_status}
use nfsclient.Nfs4.Compound.Header.{header, Reads-header, run-bad_status}
use nfsclient.Nfs4.Grace.{is_grace, retry_in_grace}

-- The loop's own constant is the code `NFS4ERR_GRACE` of the enum.
is_grace-is_status4 : (e : Exception) → is_grace e ≡ is_status4 e Nfsstat4.nfs4err_grace
unfolding nfsstat4
is_grace-is_status4 (Exception.nfs4_error status name) = refl
is_grace-is_status4 (Exception.nfs_error status name) = refl
is_grace-is_status4 (Exception.runtime_error reason) = refl

module _ {S : Type 0} (ask : Exec S (List ℕ)) where
  -- From a state, the `n`-th round ends the loop with an outcome, and the replies to all before it have
  -- the status 10013, `NFS4ERR_GRACE`.
  pub data Ends : ℕ → S → Result (List ℕ) → S → Type 0 where
    accepted :
        {s s' : S} (tag rest : List ℕ) (num_results : ℕ)
        → ask s ≡ (ok (header tag num_results ++ rest), s')
        → Fits32 tag
        → IsU32 num_results
        → Ends 1 s (ok (header tag num_results ++ rest)) s'
    refused :
        {s s' : S} (status : ℕ) (rest : List ℕ)
        → ask s ≡ (ok (uint32 status ++ rest), s')
        → IsU32 status
        → status ≢ 0
        → status ≢ 10013
        → Ends 1 s (err (Exception.nfs4_error status "COMPOUND")) s'
    unreadable :
        {s s' : S} (reply : List ℕ) (reason : Reason)
        → ask s ≡ (ok reply, s')
        → run check_compound_status reply ≡ err (Exception.runtime_error reason)
        → Ends 1 s (err (Exception.runtime_error reason)) s'
    broken : {s s' : S} (e : Exception) → ask s ≡ (err e, s') → Ends 1 s (err e) s'
    held :
        {n : ℕ} {s s' s'' : S} {r : Result (List ℕ)} (rest : List ℕ)
        → ask s ≡ (ok (uint32 10013 ++ rest), s')
        → Ends n s' r s''
        → Ends (suc n) s r s''

  -- A server that ends its grace period lets the loop end: if it answers some rounds with the status
  -- 10013, `NFS4ERR_GRACE`, and the `n`-th round with a header of status 0, or with any other
  -- status, or with a header that cannot be read, or the connection throws there, then with fuel `n` or
  -- more the loop ends with just that, after exactly `n` calls: the accepted reply, the `Nfs4Error` with
  -- that status and the name COMPOUND, or the exception.
  pub retry_in_grace-Ends :
      {n : ℕ} {s s' : S} {r : Result (List ℕ)}
      → Ends n s r s'
      → (fuel : ℕ) → n ≤ fuel
      → retry_in_grace ask fuel s ≡ (r, s')
  unfolding retry_in_grace ◌>>=◌
  retry_in_grace-Ends (accepted tag rest num_results e ht hn) zero le = absurd (omega arith)
  retry_in_grace-Ends (refused status rest e h n0 ng) zero le = absurd (omega arith)
  retry_in_grace-Ends (unreadable reply reason e c) zero le = absurd (omega arith)
  retry_in_grace-Ends (broken x e) zero le = absurd (omega arith)
  retry_in_grace-Ends (held rest e r) zero le = absurd (omega arith)
  retry_in_grace-Ends (accepted tag rest num_results e ht hn) (suc fuel) le =
      rw (e, run-Reads rest (Reads-header tag num_results ht hn))
  retry_in_grace-Ends (refused status rest e h n0 ng) (suc fuel) le =
      rw (e, run-bad_status status rest h n0, ne→== status 10013 ng)
  retry_in_grace-Ends (unreadable reply reason e c) (suc fuel) le = rw (e, c)
  retry_in_grace-Ends (broken x e) (suc fuel) le = rw e
  retry_in_grace-Ends (held rest e r) (suc fuel) le =
      rw (e, run-bad_status 10013 rest (omega arith) (omega arith))
        (retry_in_grace-Ends r fuel (omega arith))
