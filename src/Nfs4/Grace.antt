-- ===== src/Nfs4/Grace.antt =====
-- The loop of `Nfs4Client::do_open` and `Nfs41Client::do_open`: send the request again while the
-- server is in its grace period. The five seconds of `sleep` between two rounds have no trace here.
pub mod Rounds
use nfsclient.Base.{ℕ, zero, suc, ◌==◌, Bool, true, false, List}
use nfsclient.Errors.{Result, ok, err, fault, Exception, Fault}
use nfsclient.Exec.{Exec, pure, raise, lift, ◌>>=◌}
use nfsclient.Xdr.Decoder.{run}
use nfsclient.Nfs4.Compound.{check_compound_status}

-- `NFS4ERR_GRACE`
abbrev pub err_grace : ℕ
err_grace = 10013

-- `catch (const Nfs4Error& e) { if (e.status == NFS4ERR_GRACE)`
abbrev pub is_grace : Exception → Bool
is_grace (Exception.nfs4_error status name) = status == err_grace
is_grace (Exception.nfs_error status name) = false
is_grace (Exception.runtime_error reason) = false

module _ {S : Type 0} where
  abbrev pub again_if : Bool → Exception → Exec S (List ℕ) → Exec S (List ℕ)
  again_if true e again = again
  again_if false e again = raise e

  -- What a round goes on with, by what the header of its reply says.
  abbrev pub next_round : List ℕ → Exec S (List ℕ) → Result (Unit {0}) → Exec S (List ℕ)
  next_round reply again (ok _) = pure reply
  next_round reply again (err e) = again_if (is_grace e) e again
  next_round reply again (fault x) = lift (fault x)

module _ {S : Type 0} (ask : Exec S (List ℕ)) where
  -- One round of the `while (true)` for each unit of fuel: the reply whose header says that the
  -- COMPOUND succeeded, or what was thrown.
  unfoldable pub retry_in_grace : ℕ → Exec S (List ℕ)
  retry_in_grace zero = lift (fault Fault.out_of_fuel)
  retry_in_grace (suc fuel) = do
    reply ← ask
    let again : Exec S (List ℕ) = retry_in_grace fuel
    next_round reply again (run check_compound_status reply)
