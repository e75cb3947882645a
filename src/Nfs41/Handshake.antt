-- ===== src/Nfs41/Handshake.antt =====
-- The handshake of `Nfs41Client`'s constructors with a server: RFC 8881, sections 18.35, 18.36 and 18.51.
use nfsclient.Base.{ℕ, ◌^◌, ◌<◌, ◌+◌, ◌%◌, ◌≡◌, refl, ◌∙◌, ap, List, [], ◌++◌, arith}
use nfsclient.Errors.{ok}
use nfsclient.Exec.{◌>>=◌}
use nfsclient.Xdr.Decoder.{run}
use nfsclient.Xdr.Wire.{IsU64, Fits32, uint32, uint64}
use nfsclient.Xdr.Emits.{Emits, Emits-encoded}
use nfsclient.Xdr.Reads.{Reads}
use nfsclient.Rpc.Transport.{Transport}
use nfsclient.Nfs4.Types.{Nfs4Fh}
use nfsclient.Nfs4.Compound.Header.{
  compound_wire, call_compound-wire, Reply, reply_wire, IsReply, run-after_header,
}
use nfsclient.Nfs4.Session.{ExchangeIdResult}
use nfsclient.Nfs4.Session.Granted.{sequence_wire, SequenceResult, IsSequence, sequence_result_wire}
use nfsclient.Nfs4.Session.Created.{
  exchange_id_wire, Emits-exchange_id, Exchanged, IsExchanged, exchanged_wire, Reads-exchange_id,
  create_session_wire, Emits-create_session, Created, IsCreated, created_wire, Reads-create_session,
  Emits-reclaim_complete, Reads-reclaim_complete,
}
use nfsclient.Nfs4.Ops.Successes.{granted}
use nfsclient.Nfs4.Requests.{Request, tag_init, root_request, root_sentinel, after_header}
use nfsclient.Nfs4.Calls.Roots.{
  boot_verifier-uint64, Emits-root, num_ops-root, root_results_wire, Reads-root,
}
use nfsclient.Nfs41.Client.{Nfs41Client, owner_v41, exchange41}
use nfsclient.Nfs41.Answers.{used, exchange41-call, run-after_sequence}
use nfsclient.Nfs41.Setup.{
  exchange_id_request, create_session_request, reclaim_complete_request, outside_session,
  do_bootstrap, sessionless, enter_session, start_session,
}

-- The reply of SEQUENCE that stands before the results of a COMPOUND in a session.
abbrev pub in_session_wire : Reply → SequenceResult → List ℕ → List ℕ
in_session_wire p q body = reply_wire p (sequence_result_wire q ++ body)

Emits-exchange :
    (now : ℕ)
    → now < 2 ^ 64
    → Emits (exchange_id_request now).ops (exchange_id_wire (uint64 now) owner_v41)
unfolding exchange_id_request
Emits-exchange now h =
    rw (boot_verifier-uint64 now h) (Emits-exchange_id (uint64 now) owner_v41 (omega arith))

abbrev accepted_exchange : Exchanged → ExchangeIdResult
accepted_exchange x = record { clientid = x.clientid; sequenceid = x.sequenceid }

Emits-create :
    (x : Exchanged)
    → IsU64 x.clientid
    → Emits
        (create_session_request (accepted_exchange x)).ops
        (create_session_wire x.clientid x.sequenceid)
unfolding create_session_request
Emits-create x h = Emits-create_session x.clientid x.sequenceid h

module _ (t : Transport) where
  open t use {Conn, call}

  outside_session-answer :
      {A : Type 0} (r : Request A) (num_ops : ℕ) (c c' : Conn) (ops : List ℕ) (p : Reply)
      {body : List ℕ} {a : A}
      → r.num_ops ≡ num_ops
      → Emits r.ops ops
      → Reads r.results body a
      → IsReply p
      → call 100003 4 1 (compound_wire tag_init 1 num_ops ops) c ≡ (ok (reply_wire p body), c')
      → outside_session t r c ≡ (ok a, c')
  unfolding outside_session after_header ◌>>=◌
  outside_session-answer r num_ops c c' ops p {body} {a} n em rd (hp, hn) e =
      let read : run (after_header r.results) (reply_wire p body) ≡ ok a =
        run-after_header p.tag p.rest p.num_results hp hn rd in
      rw (Emits-encoded em, n, call_compound-wire t tag_init ops num_ops 1 (omega arith), e)
        (ap (λ x. (x, c')) read)

  do_bootstrap-answer :
      (now : ℕ) (c0 c1 c2 : Conn) (x : Exchanged) (y : Created) (p1 p2 : Reply)
      → now < 2 ^ 64
      → IsExchanged x × IsCreated y
      → IsReply p1 × IsReply p2
      → call 100003 4 1 (compound_wire tag_init 1 1 (exchange_id_wire (uint64 now) owner_v41)) c0
        ≡ (ok (reply_wire p1 (exchanged_wire x)), c1)
      → call 100003 4 1
          (compound_wire tag_init 1 1 (create_session_wire x.clientid x.sequenceid))
          c1
        ≡ (ok (reply_wire p2 (created_wire y)), c2)
      → do_bootstrap t now c0 ≡ (ok (x.clientid, y.sessionid), c2)
  unfolding do_bootstrap ◌>>=◌ exchange_id_request create_session_request
  do_bootstrap-answer now c0 c1 c2 x y p1 p2 hnow (hx, hy) (hp1, hp2) e1 e2 =
      rw
        (
          outside_session-answer (exchange_id_request now) 1 c0 c1
              (exchange_id_wire (uint64 now) owner_v41) p1 refl (Emits-exchange now hnow)
              (Reads-exchange_id x hx) hp1 e1,
          outside_session-answer (create_session_request (accepted_exchange x)) 1 c1 c2
              (create_session_wire x.clientid x.sequenceid) p2 refl (Emits-create x hx.clientid)
              (Reads-create_session y hy) hp2 e2,
        )
        refl

  exchange41-answer :
      {A : Type 0} (tag : List ℕ) (r : Request A) (num_ops : ℕ) (c : Nfs41Client t) (conn : Conn)
      (ops : List ℕ) (p : Reply) (q : SequenceResult) {body : List ℕ} {a : A}
      → Fits32 tag
      → (r.num_ops + 1) % 2 ^ 32 ≡ num_ops
      → Emits r.ops ops
      → Reads r.results body a
      → IsReply p × IsSequence q
      → call 100003 4 1
          (compound_wire tag 1 num_ops (sequence_wire c.sessionid c.slot_seqid ++ ops))
          c.rpc
        ≡ (ok (in_session_wire p q body), conn)
      → exchange41 t tag r c ≡ (ok a, used t c conn)
  exchange41-answer tag r num_ops c conn ops p q {body} ht n em rd ((hp, hn), hq) e =
      exchange41-call t tag r c conn ops (ok (in_session_wire p q body)) ht em (rw n e)
      ∙ ap (λ x. (x, used t c conn)) (run-after_sequence q p.tag p.rest p.num_results hq hp hn rd)

  -- The client in its session, by the connection, the two ids and the next sequence id.
  abbrev pub in_session : List ℕ → ℕ → List ℕ → Conn → ℕ → Nfs41Client t
  in_session host clientid sid conn slot_seqid = record {
    host = host;
    rpc = conn;
    root_fh = root_sentinel;
    clientid = clientid;
    sessionid = sid;
    slot_seqid = slot_seqid;
    open_seqid = 0;
  }

  enter_session-answer :
      (host : List ℕ) (clientid : ℕ) (sid : List ℕ) (c2 c3 c4 : Conn) (fh : Nfs4Fh) (p3 p4 : Reply)
      (q3 q4 : SequenceResult)
      → Fits32 fh.handle
      → IsReply p3 × IsSequence q3
      → IsReply p4 × IsSequence q4
      → call 100003 4 1
          (compound_wire tag_init 1 2 (sequence_wire sid 1 ++ (uint32 58 ++ uint32 0)))
          c2
        ≡ (ok (in_session_wire p3 q3 (granted 58)), c3)
      → call 100003 4 1 (compound_wire [] 1 3 (sequence_wire sid 2 ++ (uint32 24 ++ uint32 10))) c3
        ≡ (ok (in_session_wire p4 q4 (root_results_wire fh)), c4)
      → enter_session t (in_session host clientid sid c2 1)
        ≡ (ok tt, in_session host clientid sid c4 3)
  unfolding enter_session ◌>>=◌ reclaim_complete_request
  enter_session-answer host clientid sid c2 c3 c4 fh p3 p4 q3 q4 hf h3 h4 e3 e4 =
      rw
        (
          exchange41-answer tag_init reclaim_complete_request 2 (in_session host clientid sid c2 1)
              c3 (uint32 58 ++ uint32 0) p3 q3 (omega arith) refl Emits-reclaim_complete
              Reads-reclaim_complete h3 e3,
          exchange41-answer [] root_request 3 (in_session host clientid sid c3 2) c4
              (uint32 24 ++ uint32 10) p4 q4 (omega arith) (rw num_ops-root refl) Emits-root
              (Reads-root fh hf) h4 e4,
        )
        refl

  -- The constructors set up a session: EXCHANGE_ID with the clock as the verifier and the client's name,
  -- CREATE_SESSION with the client id and the sequence id that came back, and in the session
  -- RECLAIM_COMPLETE and the request for the root, with the sequence ids 1 and 2. If the server grants
  -- the four COMPOUNDs, the client holds that client id and the session id of the server, the next
  -- sequence id is 3, and the empty handle stands for the root; for a clock below 2 ^ 64, and lengths
  -- and numbers that XDR can carry.
  pub start_session-answer :
      (now : ℕ) (host : List ℕ) (c0 c1 c2 c3 c4 : Conn) (x : Exchanged) (y : Created) (fh : Nfs4Fh)
      (p1 p2 p3 p4 : Reply) (q3 q4 : SequenceResult)
      → now < 2 ^ 64
      → IsExchanged x × IsCreated y
      → Fits32 fh.handle
      → IsReply p1 × IsReply p2
      → IsReply p3 × IsSequence q3
      → IsReply p4 × IsSequence q4
      → call 100003 4 1 (compound_wire tag_init 1 1 (exchange_id_wire (uint64 now) owner_v41)) c0
        ≡ (ok (reply_wire p1 (exchanged_wire x)), c1)
      → call 100003 4 1
          (compound_wire tag_init 1 1 (create_session_wire x.clientid x.sequenceid))
          c1
        ≡ (ok (reply_wire p2 (created_wire y)), c2)
      → call 100003 4 1
          (compound_wire tag_init 1 2 (sequence_wire y.sessionid 1 ++ (uint32 58 ++ uint32 0)))
          c2
        ≡ (ok (in_session_wire p3 q3 (granted 58)), c3)
      → call 100003 4 1
          (compound_wire [] 1 3 (sequence_wire y.sessionid 2 ++ (uint32 24 ++ uint32 10)))
          c3
        ≡ (ok (in_session_wire p4 q4 (root_results_wire fh)), c4)
      → start_session t now (sessionless t host c0)
        ≡ (ok tt, in_session host x.clientid y.sessionid c4 3)
  unfolding start_session sessionless ◌>>=◌
  start_session-answer now host c0 c1 c2 c3 c4 x y fh p1 p2 p3 p4 q3 q4 hnow hxy hf h12 h3 h4 e1 e2
        e3 e4 =
      rw (do_bootstrap-answer now c0 c1 c2 x y p1 p2 hnow hxy h12 e1 e2)
        (enter_session-answer host x.clientid y.sessionid c2 c3 c4 fh p3 p4 q3 q4 hf h3 h4 e3 e4)
