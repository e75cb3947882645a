-- ===== src/Nfs4/Client/Handshake.antt =====
-- The handshake of `Nfs4Client`'s constructors with a server: RFC 7530, sections 16.33 and 16.34.
use nfsclient.Base.{ℕ, ◌^◌, ◌<◌, ◌≡◌, refl, ◌∙◌, ap, List, [], ◌++◌, length, arith}
use nfsclient.Errors.{ok}
use nfsclient.Exec.{◌>>=◌}
use nfsclient.Xdr.Wire.{IsU64, Fits32, uint32, uint64, fixed_opaque}
use nfsclient.Xdr.Emits.{Emits}
use nfsclient.Xdr.Reads.{Reads}
use nfsclient.Rpc.Transport.{Transport}
use nfsclient.Nfs4.Types.{Nfs4Fh}
use nfsclient.Nfs4.Compound.Header.{compound_wire, Reply, reply_wire, IsReply, run-after_header}
use nfsclient.Nfs4.Ops.Successes.{granted, Reads-op}
use nfsclient.Nfs4.State.{SetclientidResult, decode_setclientid_confirm_result}
use nfsclient.Nfs4.State.Granted.{
  setclientid_wire, Emits-setclientid, Reads-setclientid, Emits-setclientid_confirm,
}
use nfsclient.Nfs4.Requests.{Request, tag_init, root_request, root_sentinel, after_header}
use nfsclient.Nfs4.Calls.Roots.{
  boot_verifier-uint64, Emits-root, num_ops-root, root_results_wire, Reads-root,
}
use nfsclient.Nfs4.Client.{exchange, owner_v4}
use nfsclient.Nfs4.Client.Answers.{exchange-call}
use nfsclient.Nfs4.Client.Setup.{
  setclientid_request, setclientid_confirm_request, do_setclientid_confirm, do_get_root_fh,
  unregistered, register,
}

Emits-register :
    (now : ℕ)
    → now < 2 ^ 64
    → Emits (setclientid_request now).ops (setclientid_wire (uint64 now) owner_v4)
unfolding setclientid_request
Emits-register now h =
    rw (boot_verifier-uint64 now h) (Emits-setclientid (uint64 now) owner_v4 (omega arith))

abbrev pub confirm_wire : SetclientidResult → List ℕ
confirm_wire r = uint32 36 ++ (uint64 r.clientid ++ fixed_opaque r.confirm_verifier)

abbrev pub registered_wire : SetclientidResult → List ℕ
registered_wire r = granted 35 ++ (uint64 r.clientid ++ fixed_opaque r.confirm_verifier)

abbrev pub IsRegistered : SetclientidResult → Type 0
IsRegistered r = IsU64 r.clientid × (length r.confirm_verifier ≡ 8)

Emits-confirm_registration :
    (r : SetclientidResult)
    → IsU64 r.clientid
    → Emits (setclientid_confirm_request r).ops (confirm_wire r)
unfolding setclientid_confirm_request
Emits-confirm_registration r h = Emits-setclientid_confirm r.clientid r.confirm_verifier h

module _ (t : Transport) where
  open t use {Conn, call}

  exchange-answer :
      {A : Type 0} (tag : List ℕ) (r : Request A) (num_ops : ℕ) (c c' : Conn) (ops : List ℕ)
      (p : Reply) {body : List ℕ} {a : A}
      → Fits32 tag
      → r.num_ops ≡ num_ops
      → Emits r.ops ops
      → Reads r.results body a
      → IsReply p
      → call 100003 4 1 (compound_wire tag 0 num_ops ops) c ≡ (ok (reply_wire p body), c')
      → exchange t tag r c ≡ (ok a, c')
  unfolding after_header
  exchange-answer tag r num_ops c c' ops p {body} ht n em rd (hp, hn) e =
      exchange-call t tag r c c' ops (ok (reply_wire p body)) ht em (rw n e)
      ∙ ap (λ x. (x, c')) (run-after_header p.tag p.rest p.num_results hp hn rd)

  do_setclientid_confirm-answer :
      (now : ℕ) (c0 c1 c2 : Conn) (r : SetclientidResult) (p1 p2 : Reply)
      → now < 2 ^ 64
      → IsRegistered r
      → IsReply p1 × IsReply p2
      → call 100003 4 1 (compound_wire tag_init 0 1 (setclientid_wire (uint64 now) owner_v4)) c0
        ≡ (ok (reply_wire p1 (registered_wire r)), c1)
      → call 100003 4 1 (compound_wire tag_init 0 1 (confirm_wire r)) c1
        ≡ (ok (reply_wire p2 (granted 36)), c2)
      → do_setclientid_confirm t now c0 ≡ (ok r.clientid, c2)
  unfolding do_setclientid_confirm ◌>>=◌ setclientid_request setclientid_confirm_request
      decode_setclientid_confirm_result
  do_setclientid_confirm-answer now c0 c1 c2 r p1 p2 hnow (hc, hv) (hp1, hp2) e1 e2 =
      rw
        (
          exchange-answer tag_init (setclientid_request now) 1 c0 c1
              (setclientid_wire (uint64 now) owner_v4) p1 (omega arith) refl
              (Emits-register now hnow) (Reads-setclientid r hc hv) hp1 e1,
          exchange-answer tag_init (setclientid_confirm_request r) 1 c1 c2 (confirm_wire r) p2
              (omega arith) refl (Emits-confirm_registration r hc)
              (Reads-op 36 "SETCLIENTID_CONFIRM" (omega arith)) hp2 e2,
        )
        refl

  do_get_root_fh-answer :
      (c c' : Conn) (fh : Nfs4Fh) (p : Reply)
      → Fits32 fh.handle
      → IsReply p
      → call 100003 4 1 (compound_wire [] 0 2 (uint32 24 ++ uint32 10)) c
        ≡ (ok (reply_wire p (root_results_wire fh)), c')
      → do_get_root_fh t c ≡ (ok root_sentinel, c')
  unfolding do_get_root_fh ◌>>=◌
  do_get_root_fh-answer c c' fh p hf hp e =
      rw
        (exchange-answer [] root_request 2 c c' (uint32 24 ++ uint32 10) p (omega arith)
          num_ops-root Emits-root (Reads-root fh hf) hp e)
        refl

  -- The constructors register the client: they send SETCLIENTID with the clock as the verifier and the
  -- client's name, confirm with the client id and the verifier that came back, and ask for the root. If
  -- the server grants the three COMPOUNDs, the client holds that client id, the empty handle that stands
  -- for the root, whatever handle the server gave, and an open seqid of 0; for a clock below 2 ^ 64,
  -- and lengths and numbers that XDR can carry.
  pub register-answer :
      (now : ℕ) (host : List ℕ) (c0 c1 c2 c3 : Conn) (r : SetclientidResult) (fh : Nfs4Fh)
      (p1 p2 p3 : Reply)
      → now < 2 ^ 64
      → IsRegistered r
      → Fits32 fh.handle
      → IsReply p1 × IsReply p2 × IsReply p3
      → call 100003 4 1 (compound_wire tag_init 0 1 (setclientid_wire (uint64 now) owner_v4)) c0
        ≡ (ok (reply_wire p1 (registered_wire r)), c1)
      → call 100003 4 1 (compound_wire tag_init 0 1 (confirm_wire r)) c1
        ≡ (ok (reply_wire p2 (granted 36)), c2)
      → call 100003 4 1 (compound_wire [] 0 2 (uint32 24 ++ uint32 10)) c2
        ≡ (ok (reply_wire p3 (root_results_wire fh)), c3)
      → register t now (unregistered t host c0) ≡ (
        ok tt,
        record {
          host = host;
          rpc = c3;
          root_fh = root_sentinel;
          clientid = r.clientid;
          open_seqid = 0;
        },
      )
  unfolding register unregistered ◌>>=◌
  register-answer now host c0 c1 c2 c3 r fh p1 p2 p3 hnow hr hf (hp1, hp2, hp3) e1 e2 e3 =
      rw
        (
          do_setclientid_confirm-answer now c0 c1 c2 r p1 p2 hnow hr (hp1, hp2) e1 e2,
          do_get_root_fh-answer c2 c3 fh p3 hf hp3 e3,
        )
        refl
