-- ===== src/Nfs41/Safety.antt =====
-- No server can make a method of `Nfs4Client` or `Nfs41Client` read outside a reply:
-- src/nfs4_client.cpp and src/nfs41_client.cpp.
use nfsclient.Base.{ℕ, bit_and, ◌==◌, if◌then◌else◌, ◌≢◌, Bool, true, false, List, []}
use nfsclient.Errors.{fault, Reason, Exception}
use nfsclient.Exec.{Exec, pure, raise, lift}
use nfsclient.Exec.Sound.{Sound, Sound-pure, Sound-raise, Sound-bind}
use nfsclient.Xdr.Encoder.{encoded}
use nfsclient.Xdr.Decoder.{Decode, run}
use nfsclient.Xdr.Safe.{
  Safe, Safe-repeat, Safe-opaque, Safe-uint32, Safe-uint64, Safe-fixed_opaque, Safe-pure, Safe-bind,
}
use nfsclient.Pages.{zero_verf, list_all}
use nfsclient.Rpc.Transport.{Transport}
use nfsclient.Rpc.Socket.{Socket}
use nfsclient.Rpc.Client.{tcp_transport}
use nfsclient.Rpc.Client.Safety.{IsBounded, Sound-call}
use nfsclient.Nfs4.Types.{Nfs4Fh, Nfs4File}
use nfsclient.Nfs4.Ops.Safety.{Safe-op}
use nfsclient.Nfs4.Session.{
  skip_impl_id, ExchangeIdResult, decode_exchange_id_result, decode_create_session_result,
  decode_reclaim_complete_result,
}
use nfsclient.Nfs4.State.{result_confirm}
use nfsclient.Nfs4.Requests.{
  Request, tag_init, root_request, cookie_of, open_results, readdir_request,
}
use nfsclient.Nfs4.Calls.{Call, request_of}
use nfsclient.Nfs4.Calls.Safety.{
  Safe-sequence, Safe-open_results, Safe-request, Safe-readdir, Safe-root, Sound-retry_in_grace,
  Sound-list_from,
}
use nfsclient.Nfs4.Client.{Nfs4Client, do_open, readdir}
use nfsclient.Nfs4.Client.Safety.{
  oob, Sound-after_header, Sound-call_compound, Sound-do_open, Sound-readdir, Sound-register,
  Sound-run_method,
}
use nfsclient.Nfs4.Client.Setup.{register}
use nfsclient.Nfs41.Setup.{
  exchange_id_request, create_session_request, reclaim_complete_request, outside_session,
  tag_destroy, destroy_call, do_bootstrap, enter_session, start_session,
}
use nfsclient.Nfs4.Client.Answers.{Method, run_method}
use nfsclient.Nfs41.Client.{Nfs41Client, after_sequence, compound41, exchange41, refuse_confirm}
use nfsclient.Nfs41.Client as Client41
use nfsclient.Nfs41.Actions as Actions41
use nfsclient.Nfs41.Answers as Answers41

Safe-impl_id : Safe skip_impl_id
unfolding skip_impl_id
Safe-impl_id = search (Safe-bind, Safe-opaque, Safe-uint64, Safe-uint32, Safe-pure) depth 20

Safe-exchange_id : (now : ℕ) → Safe (exchange_id_request now).results
unfolding exchange_id_request decode_exchange_id_result
Safe-exchange_id now =
    search
      (
        Safe-bind, Safe-op, Safe-uint64, Safe-uint32, Safe-opaque, Safe-repeat, Safe-impl_id,
        Safe-pure,
      )
      depth 40

Safe-create_session : (exid : ExchangeIdResult) → Safe (create_session_request exid).results
unfolding create_session_request decode_create_session_result
Safe-create_session exid =
    search (Safe-bind, Safe-op, Safe-fixed_opaque, Safe-uint32, Safe-repeat, Safe-pure) depth 40

Safe-reclaim_complete : Safe reclaim_complete_request.results
unfolding reclaim_complete_request decode_reclaim_complete_result
Safe-reclaim_complete = Safe-op "RECLAIM_COMPLETE"

module _ {A : Type 0} where
  Sound-after_sequence :
      {S : Type 0} (m : Decode A) (reply : List ℕ)
      → Safe m
      → Sound {S = S} oob (lift (run (after_sequence m) reply))
  unfolding after_sequence
  Sound-after_sequence m reply sm =
      Sound-after_header _ reply (Safe-bind _ _ Safe-sequence (λ u. sm))

module _ (t : Transport)
    (sound : (prog vers proc : ℕ) (args : List ℕ) → Sound oob (t.call prog vers proc args)) where
  Sound-compound41 : (tag ops : List ℕ) (num_ops : ℕ) → Sound oob (compound41 t tag ops num_ops)
  unfolding compound41
  Sound-compound41 tag ops num_ops =
      Sound-bind _ _ (record { at = λ c. cc })
        λ seq_bytes. record { at = λ c. (Sound-call_compound t sound tag _ _ 1).at c.rpc }

  Sound-perform41 : {A : Type 0} (r : Request A) → Safe r.results → Sound oob (Client41.perform t r)
  unfolding Client41.perform exchange41
  Sound-perform41 r s =
      Sound-bind _ _ (Sound-compound41 [] (encoded r.ops) r.num_ops)
        (λ reply. Sound-after_sequence r.results reply s)

  Sound-refuse_confirm : (f : Nfs4File) (rflags : ℕ) → Sound oob (refuse_confirm t f rflags)
  unfolding refuse_confirm
  Sound-refuse_confirm f rflags = ends (bit_and rflags result_confirm == 0)
    where
      ends :
          (b : Bool)
          → Sound {S = Nfs41Client t} oob
              (if b then pure f else raise (Exception.runtime_error Reason.confirm_requested))
      ends true = Sound-pure f
      ends false = Sound-raise _

  Sound-do_open41 :
      (rounds : ℕ) (dir : Nfs4Fh) (name : List ℕ) (share_access : ℕ) (create : Bool)
      → Sound oob (Client41.do_open t rounds dir name share_access create)
  unfolding Client41.do_open
  Sound-do_open41 rounds dir name share_access create =
      Sound-bind _ _ (record { at = λ c. cc })
        λ seqid.
          Sound-bind _ _ (record { at = λ c. cc })
            λ clientid.
              Sound-bind _ _ (Sound-retry_in_grace _ rounds (Sound-compound41 [] _ 3)) λ reply.
                Sound-bind _ _ (Sound-after_sequence open_results reply Safe-open_results)
                  λ opened. Sound-refuse_confirm _ _

  Sound-readdir41 : (pages : ℕ) (dir : Nfs4Fh) → Sound oob (Client41.readdir t pages dir)
  unfolding Client41.readdir list_all
  Sound-readdir41 pages dir =
      Sound-list_from cookie_of
        (λ cookie verf. Client41.perform t (readdir_request dir cookie verf))
        (λ cookie verf.
          Sound-perform41 (readdir_request dir cookie verf) (Safe-readdir dir cookie verf))
        pages 0 zero_verf []

  Sound-run_call41 : (k : Call) → Sound oob (Actions41.run_call t k)
  Sound-run_call41 k =
      rw (Answers41.run_call-perform t k) (Sound-perform41 (request_of k) (Safe-request k))

  Sound-exchange41 :
      {A : Type 0} (tag : List ℕ) (r : Request A) → Safe r.results → Sound oob (exchange41 t tag r)
  unfolding exchange41
  Sound-exchange41 tag r s =
      Sound-bind _ _ (Sound-compound41 tag (encoded r.ops) r.num_ops)
        (λ reply. Sound-after_sequence r.results reply s)

  Sound-outside_session :
      {A : Type 0} (r : Request A) → Safe r.results → Sound oob (outside_session t r)
  unfolding outside_session
  Sound-outside_session r s =
      Sound-bind _ _ (Sound-call_compound t sound tag_init (encoded r.ops) r.num_ops 1)
        (λ reply. Sound-after_header r.results reply s)

  Sound-on_rpc41 : {A : Type 0} (m : Exec t.Conn A) → Sound oob m → Sound oob (Client41.on_rpc t m)
  Sound-on_rpc41 m s = record { at = λ c. s.at c.rpc }

  Sound-start_session : (now : ℕ) → Sound oob (start_session t now)
  unfolding start_session do_bootstrap enter_session
  Sound-start_session now =
      Sound-bind _ _
        (Sound-on_rpc41 _ (
          Sound-bind _ _ (Sound-outside_session (exchange_id_request now) (Safe-exchange_id now))
            λ exid.
              Sound-bind _ _
                (Sound-outside_session (create_session_request exid) (Safe-create_session exid))
                λ sid. Sound-pure _))
        λ ids.
          Sound-bind _ _ (record { at = λ c. cc })
            λ u.
              Sound-bind _ _
                (Sound-exchange41 tag_init reclaim_complete_request Safe-reclaim_complete)
                λ u.
                  Sound-bind _ _ (Sound-exchange41 [] root_request Safe-root)
                    λ u. record { at = λ c. cc }

  Sound-destroy_call : (sessionid : List ℕ) → Sound oob (destroy_call t sessionid)
  unfolding destroy_call
  Sound-destroy_call sessionid = Sound-call_compound t sound tag_destroy _ 1 1

-- Whatever a server sends, and however the connection cuts it up, none of these reads outside a buffer:
-- of `Nfs4Client` the handshake on a new connection, every method of one COMPOUND, `renew` included,
-- `do_open` and `readdir`; of `Nfs41Client` the handshake, every method of one COMPOUND, `do_open`,
-- `readdir` and the call of the destructor. `do_open` is what `open_read` and `open_write` call. For a
-- `recv` that gives no more than it is asked for.
pub methods-ne-fault :
    (s : Socket)
    → IsBounded s
    → (fuel rounds now : ℕ) (m : Method) (k : Call) (dir : Nfs4Fh) (name : List ℕ)
      (share_access : ℕ) (create : Bool) (c : Nfs4Client (tcp_transport s fuel))
      (c41 : Nfs41Client (tcp_transport s fuel))
    → ((register (tcp_transport s fuel) now c).0 ≢ fault oob)
      × ((run_method (tcp_transport s fuel) m c).0 ≢ fault oob)
      × ((do_open (tcp_transport s fuel) rounds dir name share_access create c).0 ≢ fault oob)
      × ((readdir (tcp_transport s fuel) rounds dir c).0 ≢ fault oob)
      × ((start_session (tcp_transport s fuel) now c41).0 ≢ fault oob)
      × ((Actions41.run_call (tcp_transport s fuel) k c41).0 ≢ fault oob)
      × ((Client41.do_open (tcp_transport s fuel) rounds dir name share_access create c41).0
          ≢ fault oob)
      × ((Client41.readdir (tcp_transport s fuel) rounds dir c41).0 ≢ fault oob)
      × ((destroy_call (tcp_transport s fuel) c41.sessionid c41.rpc).0 ≢ fault oob)
methods-ne-fault s bounded fuel rounds now m k dir name share_access create c c41 =
    let t : Transport = tcp_transport s fuel in
    let sound : ((prog vers proc : ℕ) (args : List ℕ) → Sound oob (t.call prog vers proc args)) =
      Sound-call s bounded fuel in
    (
      (Sound-register t sound now).at c,
      (Sound-run_method t sound m).at c,
      (Sound-do_open t sound rounds dir name share_access create).at c,
      (Sound-readdir t sound rounds dir).at c,
      (Sound-start_session t sound now).at c41,
      (Sound-run_call41 t sound k).at c41,
      (Sound-do_open41 t sound rounds dir name share_access create).at c41,
      (Sound-readdir41 t sound rounds dir).at c41,
      (Sound-destroy_call t sound c41.sessionid).at c41.rpc,
    )
