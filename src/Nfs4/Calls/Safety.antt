-- ===== src/Nfs4/Calls/Safety.antt =====
-- The decoders of each method of `Nfs4Client` and `Nfs41Client`, and their loops, never read outside a
-- reply: src/nfs4_client.cpp and src/nfs41_client.cpp.
use nfsclient.Base.{ℕ, zero, suc, ◌==◌, ◌≢◌, Bool, true, false, List, ◌++◌}
use nfsclient.Errors.{Result, ok, err, fault, Exception, Fault}
use nfsclient.Exec.{Exec, pure}
use nfsclient.Exec.Sound.{Sound, Sound-pure, Sound-raise, Sound-lift, Sound-bind}
use nfsclient.Xdr.Decoder.{run}
use nfsclient.Xdr.Safe.{
  Safe, Safe-pure, Safe-bind, Safe-if, Safe-uint32, Safe-string, Safe-fixed_opaque, run-Safe,
}
use nfsclient.Pages.{Page, last_cookie, list_from}
use nfsclient.Nfs4.Types.{Nfs4Fh, Nfs4File, decode_stateid4}
use nfsclient.Nfs4.Compound.{check_compound_status}
use nfsclient.Nfs4.Ops.{
  decode_putrootfh_result, decode_putfh_result, decode_getfh_result, decode_savefh_result,
  decode_access_result, decode_commit_result, decode_create_result, decode_remove_result,
  decode_rename_result, decode_getattr_result, decode_lookup_result, decode_read_result,
  decode_write_result, decode_readlink_result, decode_setattr_result, decode_readdir_result,
}
use nfsclient.Nfs4.Ops.Safety.{Safe-op, Safe-header, Safe-bitmap, Safe-change_info, op_rules}
use nfsclient.Nfs4.State.{
  skip_ace, skip_read_delegation, skip_write_delegation, skip_delegation, decode_open_result,
  decode_open_confirm_result, decode_close_result,
}
use nfsclient.Nfs4.Session.{decode_sequence41_result}
use nfsclient.Nfs4.Requests.{
  root_request, cookie_of, open_results, open_confirm_request, lookup_request, getattr_request,
  access_request, close_request, read_request, write_request, commit_request, mkdir_request,
  remove_request, rename_request, symlink_request, readlink_request, setattr_request,
  readdir_request,
}
use nfsclient.Nfs4.Calls.{Call, request_of}
use nfsclient.Nfs4.Grace.{again_if, is_grace, next_round, retry_in_grace}

Safe-stateid : Safe decode_stateid4
unfolding decode_stateid4
Safe-stateid = search (Safe-bind, Safe-uint32, Safe-fixed_opaque, Safe-pure)

Safe-ace : Safe skip_ace
unfolding skip_ace
Safe-ace = search (Safe-bind, Safe-uint32, Safe-string, Safe-pure) depth 20

Safe-delegation : (deleg_type : ℕ) → Safe (skip_delegation deleg_type)
unfolding skip_delegation skip_read_delegation skip_write_delegation
Safe-delegation deleg_type =
    Safe-if (deleg_type == 1) (search (Safe-bind, Safe-stateid, Safe-uint32, Safe-ace) depth 20) (
      Safe-if (deleg_type == 2) (search (Safe-bind, Safe-stateid, Safe-uint32, Safe-ace) depth 20)
        (Safe-pure tt))

Safe-open : Safe decode_open_result
unfolding decode_open_result
Safe-open =
    search
      (
        Safe-bind, Safe-op, Safe-stateid, Safe-change_info, Safe-uint32, Safe-bitmap,
        Safe-delegation, Safe-pure,
      )
      depth 40

pub Safe-sequence : Safe decode_sequence41_result
unfolding decode_sequence41_result
Safe-sequence = search (Safe-bind, Safe-op, Safe-fixed_opaque, Safe-uint32, Safe-pure) depth 40

Safe-putfh : Safe decode_putfh_result
unfolding decode_putfh_result
Safe-putfh = Safe-op "PUTFH"

Safe-getfh : Safe decode_getfh_result
unfolding decode_getfh_result
Safe-getfh = search op_rules depth 40

pub Safe-open_results : Safe open_results
unfolding open_results
Safe-open_results = search (Safe-bind, Safe-putfh, Safe-open, Safe-getfh, Safe-pure) depth 20

pub Safe-root : Safe root_request.results
unfolding root_request decode_putrootfh_result
Safe-root = search (Safe-bind, Safe-op, Safe-getfh, Safe-pure) depth 20

pub Safe-request : (k : Call) → Safe (request_of k).results
unfolding lookup_request getattr_request access_request close_request read_request write_request
    commit_request mkdir_request remove_request rename_request symlink_request readlink_request
    setattr_request decode_lookup_result decode_getattr_result decode_access_result
    decode_close_result decode_read_result decode_write_result decode_commit_result
    decode_create_result decode_remove_result decode_savefh_result decode_rename_result
    decode_readlink_result decode_setattr_result decode_putfh_result decode_getfh_result
Safe-request (Call.lookup dir name) = search op_rules depth 60
Safe-request (Call.getattr fh) = search op_rules depth 60
Safe-request (Call.access fh mask) = search op_rules depth 60
Safe-request (Call.close f) = search (Safe-bind, Safe-op, Safe-stateid, Safe-pure) depth 60
Safe-request (Call.read f offset count) = search op_rules depth 60
Safe-request (Call.write f offset how bytes) = search op_rules depth 60
Safe-request (Call.commit f offset count) = search op_rules depth 60
Safe-request (Call.mkdir dir name attrs) = search op_rules depth 60
Safe-request (Call.remove dir name) = search op_rules depth 60
Safe-request (Call.rename src_dir src_name dst_dir dst_name) = search op_rules depth 60
Safe-request (Call.symlink dir name target attrs) = search op_rules depth 60
Safe-request (Call.readlink fh) = search op_rules depth 60
Safe-request (Call.setattr fh attrs) = search op_rules depth 60

pub Safe-readdir :
    (dir : Nfs4Fh) (cookie : ℕ) (verf : List ℕ) → Safe (readdir_request dir cookie verf).results
unfolding readdir_request decode_putfh_result decode_readdir_result
Safe-readdir dir cookie verf = search op_rules depth 60

pub Safe-confirm :
    (f : Nfs4File) (seqid : ℕ) → Safe (open_confirm_request f.fh f.stateid seqid).results
unfolding open_confirm_request decode_putfh_result decode_open_confirm_result
Safe-confirm f seqid = search (Safe-bind, Safe-op, Safe-stateid) depth 60

module _ {S : Type 0} where
  Sound-again_if :
      (b : Bool) (e : Exception) (again : Exec S (List ℕ))
      → Sound Fault.out_of_bounds again
      → Sound Fault.out_of_bounds (again_if b e again)
  Sound-again_if true e again k = k
  Sound-again_if false e again k = Sound-raise e

  Sound-next_round :
      (reply : List ℕ) (again : Exec S (List ℕ)) (r : Result (Unit {0}))
      → r ≢ fault Fault.out_of_bounds
      → Sound Fault.out_of_bounds again
      → Sound Fault.out_of_bounds (next_round reply again r)
  Sound-next_round reply again (ok _) h k = Sound-pure reply
  Sound-next_round reply again (err e) h k = Sound-again_if (is_grace e) e again k
  Sound-next_round reply again (fault x) h k = Sound-lift (fault x) (λ e. h (cc))

  pub Sound-retry_in_grace :
      (ask : Exec S (List ℕ)) (rounds : ℕ)
      → Sound Fault.out_of_bounds ask
      → Sound Fault.out_of_bounds (retry_in_grace ask rounds)
  unfolding retry_in_grace
  Sound-retry_in_grace ask zero k = Sound-lift (fault Fault.out_of_fuel) cc
  Sound-retry_in_grace ask (suc rounds) k = Sound-bind _ _ k (λ reply.
      Sound-next_round reply _ (run check_compound_status reply)
        (run-Safe reply Fault.out_of_bounds Safe-header) (Sound-retry_in_grace ask rounds k))

  Sound-end :
      {A : Type 0} (eof : Bool) (a : A) {more : Exec S A}
      → Sound Fault.out_of_bounds more
      → Sound Fault.out_of_bounds (elim eof [ true ↦ pure a | false ↦ more ])
  Sound-end true a m = Sound-pure a
  Sound-end false a m = m

  pub Sound-list_from :
      {E : Type 0} (cookie_of : E → ℕ) (ask : ℕ → List ℕ → Exec S (Page E))
      → ((cookie : ℕ) (verf : List ℕ) → Sound Fault.out_of_bounds (ask cookie verf))
      → (pages cookie : ℕ) (verf : List ℕ) (all : List E)
      → Sound Fault.out_of_bounds (list_from cookie_of ask pages cookie verf all)
  unfolding list_from
  Sound-list_from cookie_of ask k zero cookie verf all = Sound-lift (fault Fault.out_of_fuel) cc
  Sound-list_from cookie_of ask k (suc pages) cookie verf all =
      Sound-bind _ _ (k cookie verf) (λ page. Sound-end page.eof (all ++ page.entries) (
        Sound-list_from cookie_of ask k pages (last_cookie cookie_of cookie page.entries)
          page.cookieverf (all ++ page.entries)))
