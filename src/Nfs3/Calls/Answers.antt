-- ===== src/Nfs3/Calls/Answers.antt =====
-- A procedure from its arguments to its result, over TCP: src/nfs down to src/rpc.
use nfsclient.Base.{ℕ, ◌+◌, ◌%◌, ◌^◌, ◌<◌, ◌≡◌, refl, ap, ◌∙◌, List, ◌++◌, All, flatten, length}
use nfsclient.Errors.{Result, ok, err, fault}
use nfsclient.Exec.{continue, lift, ◌>>=◌}
use nfsclient.Xdr.Wire.{IsU32, uint32}
use nfsclient.Rpc.Reply.{parse_reply}
use nfsclient.Rpc.Reply.Outcomes.{Message, wire, IsMessage, outcome, parse_reply-wire}
use nfsclient.Rpc.Socket.{Socket, IsReliable}
use nfsclient.Rpc.Socket.Records.{record_wire, IsFragment}
use nfsclient.Rpc.Client.{TcpRpcClient, tcp_transport}
use nfsclient.Rpc.Client.Calls.{call_frame, call_lem}
use nfsclient.Nfs3.Calls.{nfs_prog, nfs_vers, nfs_call}

-- What a procedure makes of a message: the decoded results, or the exception of the RPC layer.
abbrev pub answer : {A : Type 0} → (List ℕ → Result A) → Result (List ℕ) → Result A
answer decode (ok results) = decode results
answer decode (err e) = err e
answer decode (fault x) = fault x

continue-lift :
    {A S : Type 0} (decode : List ℕ → Result A) (r : Result (List ℕ)) (c : S)
    → continue r (λ bs. lift (decode bs)) c ≡ (answer decode r, c)
continue-lift decode (ok results) c = refl
continue-lift decode (err e) c = refl
continue-lift decode (fault x) c = refl

module _ (s : Socket) where
  open s use {Handle}

  -- Over a reliable connection whose peer answers with any RPC reply message, cut into any fragments, a
  -- procedure sends one call frame and ends with what it makes of that message: the decoder's result
  -- on the results of an accepted call, and the RPC layer's exception otherwise. The reply is taken
  -- off the stream, what follows it stays there, and the next call has the next xid. For fragments
  -- shorter than 2 ^ 31 bytes, more rounds than there are fragments before the last, and a message
  -- whose words and verifier are in range.
  pub nfs_call-answer :
      {A : Type 0} (rel : IsReliable s) (c : TcpRpcClient s) (fuel proc : ℕ) (args : List ℕ)
      (decode : List ℕ → Result A) (xid : ℕ) (m : Message) (front : List (List ℕ))
      (final rest : List ℕ)
      → IsU32 xid
      → IsMessage m
      → All IsFragment front × IsFragment final
      → length front < fuel
      → flatten front ++ final ≡ uint32 xid ++ wire m
      → rel.inbox c.sock ≡ record_wire front final ++ rest
      → (h : Handle) × (nfs_call (tcp_transport s fuel) proc args decode c ≡ (
        answer decode (outcome m),
        record { sock = h; xid = (c.xid + 1) % 2 ^ 32; auth_sys = c.auth_sys },
      ))
        × (rel.outbox h ≡ rel.outbox c.sock ++ call_frame s c nfs_prog nfs_vers proc args)
        × (rel.inbox h ≡ rest)
  unfolding ◌>>=◌
  nfs_call-answer rel c fuel proc args decode xid m front final rest hx hm (hf, hl) lt same box =
      let (h, e, o, i) =
        call_lem s rel c fuel nfs_prog nfs_vers proc args front final rest hf hl lt box in
      let p : parse_reply (flatten front ++ final) ≡ outcome m =
        ap parse_reply same ∙ parse_reply-wire xid m hx hm in
      (h, rw (e, p) (continue-lift decode (outcome m) _), o, i)
