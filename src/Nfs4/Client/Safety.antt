-- ===== src/Nfs4/Client/Safety.antt =====
-- No server can make a method of `Nfs4Client` read outside a reply: src/nfs4_client.cpp.
use nfsclient.Base.{ℕ, bit_and, ◌==◌, if◌then◌else◌, Bool, true, false, List, []}
use nfsclient.Errors.{Fault}
use nfsclient.Exec.{Exec, pure, lift, ◌>>=◌}
use nfsclient.Exec.Sound.{Sound, Sound-pure, Sound-lift, Sound-bind}
use nfsclient.Xdr.Encoder.{encoded}
use nfsclient.Xdr.Decoder.{Decode, run}
use nfsclient.Xdr.Safe.{Safe, Safe-uint64, Safe-fixed_opaque, Safe-pure, Safe-bind, run-Safe}
use nfsclient.Pages.{zero_verf, list_all}
use nfsclient.Rpc.Transport.{Transport}
use nfsclient.Nfs4.Types.{Nfs4Fh, Nfs4File}
use nfsclient.Nfs4.Compound.{call_compound}
use nfsclient.Nfs4.Ops.Safety.{Safe-op, Safe-header}
use nfsclient.Nfs4.Client.Setup.{
  do_setclientid_confirm, do_get_root_fh, setclientid_request, setclientid_confirm_request,
  register,
}
use nfsclient.Nfs4.State.{
  encode_renew, decode_renew_result, SetclientidResult, decode_setclientid_result,
  decode_setclientid_confirm_result, result_confirm,
}
use nfsclient.Nfs4.Requests.{
  Request, tag_init, root_request, after_header, cookie_of, open_results, open_confirm_request,
  readdir_request,
}
use nfsclient.Nfs4.Calls.{Call, request_of}
use nfsclient.Nfs4.Calls.Safety.{
  Safe-open_results, Safe-request, Safe-readdir, Safe-confirm, Safe-root, Sound-retry_in_grace,
  Sound-list_from,
}
use nfsclient.Nfs4.Client.{Nfs4Client, exchange, perform, confirm_open, do_open, readdir, renew}
use nfsclient.Nfs4.Client as Client
use nfsclient.Nfs4.Client.Answers.{Method, run_method, run_call, run_call-perform}

abbrev pub oob : Fault
oob = Fault.out_of_bounds

Safe-setclientid : (now : ℕ) → Safe (setclientid_request now).results
unfolding setclientid_request decode_setclientid_result
Safe-setclientid now =
    search (Safe-bind, Safe-op, Safe-uint64, Safe-fixed_opaque, Safe-pure) depth 20

Safe-setclientid_confirm : (r : SetclientidResult) → Safe (setclientid_confirm_request r).results
unfolding setclientid_confirm_request decode_setclientid_confirm_result
Safe-setclientid_confirm r = Safe-op "SETCLIENTID_CONFIRM"

Safe-renew : Safe decode_renew_result
unfolding decode_renew_result
Safe-renew = Safe-op "RENEW"

module _ {A : Type 0} where
  pub Sound-after_header :
      {S : Type 0} (m : Decode A) (reply : List ℕ)
      → Safe m
      → Sound {S = S} oob (lift (run (after_header m) reply))
  unfolding after_header
  Sound-after_header m reply sm =
      Sound-lift _ (run-Safe reply oob (Safe-bind _ _ Safe-header (λ u. sm)))

module _ (t : Transport)
    (sound : (prog vers proc : ℕ) (args : List ℕ) → Sound oob (t.call prog vers proc args)) where
  pub Sound-call_compound :
      (tag ops : List ℕ) (num_ops minorversion : ℕ)
      → Sound oob (call_compound t tag ops num_ops minorversion)
  unfolding call_compound
  Sound-call_compound tag ops num_ops minorversion = sound 100003 4 1 _

  pub Sound-exchange :
      {A : Type 0} (tag : List ℕ) (r : Request A) → Safe r.results → Sound oob (exchange t tag r)
  unfolding exchange
  Sound-exchange tag r s =
      Sound-bind _ _ (Sound-call_compound tag (encoded r.ops) r.num_ops 0)
        (λ reply. Sound-after_header r.results reply s)

  pub Sound-on_rpc : {A : Type 0} (m : Exec t.Conn A) → Sound oob m → Sound oob (Client.on_rpc t m)
  Sound-on_rpc m s = record { at = λ c. s.at c.rpc }

  pub Sound-perform : {A : Type 0} (r : Request A) → Safe r.results → Sound oob (perform t r)
  unfolding perform
  Sound-perform r s = Sound-on_rpc _ (Sound-exchange [] r s)

  pub Sound-confirm_open : (f : Nfs4File) (rflags : ℕ) → Sound oob (confirm_open t f rflags)
  unfolding confirm_open
  Sound-confirm_open f rflags = ends (bit_and rflags result_confirm == 0)
    where
      asks : Exec (Nfs4Client t) Nfs4File
      asks = Client.next_open_seqid t >>= λ seqid.
          perform t (open_confirm_request f.fh f.stateid seqid) >>= λ sid.
          pure (record { fh = f.fh; stateid = sid; seqid = seqid })

      Sound-asks : Sound oob asks
      Sound-asks =
          Sound-bind _ _ (record { at = λ c. cc })
            λ seqid. Sound-bind _ _ (Sound-perform _ (Safe-confirm f seqid)) λ sid. Sound-pure _

      ends : (b : Bool) → Sound oob (if b then pure f else asks)
      ends true = Sound-pure f
      ends false = Sound-asks

  pub Sound-do_open :
      (rounds : ℕ) (dir : Nfs4Fh) (name : List ℕ) (share_access : ℕ) (create : Bool)
      → Sound oob (do_open t rounds dir name share_access create)
  unfolding do_open
  Sound-do_open rounds dir name share_access create =
      Sound-bind _ _ (record { at = λ c. cc })
        λ seqid.
          Sound-bind _ _ (record { at = λ c. cc })
            λ clientid.
              Sound-bind _ _
                (Sound-on_rpc _ (Sound-retry_in_grace _ rounds (Sound-call_compound [] _ 3 0)))
                λ reply.
                  Sound-bind _ _ (Sound-after_header open_results reply Safe-open_results)
                    λ opened. Sound-confirm_open _ _

  pub Sound-readdir : (pages : ℕ) (dir : Nfs4Fh) → Sound oob (readdir t pages dir)
  unfolding readdir list_all
  Sound-readdir pages dir =
      Sound-list_from cookie_of (λ cookie verf. perform t (readdir_request dir cookie verf))
        (λ cookie verf.
          Sound-perform (readdir_request dir cookie verf) (Safe-readdir dir cookie verf))
        pages 0 zero_verf []

  pub Sound-run_call : (k : Call) → Sound oob (run_call t k)
  Sound-run_call k = rw (run_call-perform t k) (Sound-perform (request_of k) (Safe-request k))

  pub Sound-register : (now : ℕ) → Sound oob (register t now)
  unfolding register do_setclientid_confirm do_get_root_fh
  Sound-register now =
      Sound-bind _ _
        (Sound-on_rpc _ (
          Sound-bind _ _ (Sound-exchange tag_init (setclientid_request now) (Safe-setclientid now))
            λ r.
              Sound-bind _ _
                (Sound-exchange tag_init (setclientid_confirm_request r)
                  (Safe-setclientid_confirm r))
                λ u. Sound-pure _))
        λ clientid.
          Sound-bind _ _ (record { at = λ c. cc })
            λ u.
              Sound-bind _ _
                (Sound-on_rpc _
                  (Sound-bind _ _ (Sound-exchange [] root_request Safe-root) λ u. Sound-pure _))
                λ fh. record { at = λ c. cc }

  pub Sound-renew : Sound oob (renew t)
  unfolding renew
  Sound-renew =
      Sound-bind _ _ (record { at = λ c. cc })
        λ clientid.
          Sound-perform
            (record { ops = encode_renew clientid; num_ops = 1; results = decode_renew_result })
            Safe-renew

  pub Sound-run_method : (m : Method) → Sound oob (run_method t m)
  unfolding run_method
  Sound-run_method (Method.one_call k) = Sound-run_call k
  Sound-run_method Method.renewal = Sound-renew
