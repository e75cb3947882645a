-- ===== src/Rpc/Client/Calls.antt =====
-- A whole call: what goes out, what comes back, and what stays in the client.
use nfsclient.Base.{ℕ, ◌+◌, ◌%◌, ◌^◌, ◌<◌, ◌≡◌, refl, ◌∙◌, List, ◌++◌, All, flatten, length, arith}
use nfsclient.Exec.{◌>>=◌}
use nfsclient.Rpc.Message.{build_call_message, add_record_mark}
use nfsclient.Rpc.Reply.{parse_reply}
use nfsclient.Rpc.Socket.{Socket, IsReliable}
use nfsclient.Rpc.Socket.Transfer.{send_all-sends}
use nfsclient.Rpc.Socket.Records.{record_wire, IsFragment, recv_record-record_wire}
use nfsclient.Rpc.Client.{TcpRpcClient, call}

module _ (s : Socket) where
  open s use {Handle}

  -- The frame that a call sends.
  abbrev pub call_frame : TcpRpcClient s → ℕ → ℕ → ℕ → List ℕ → List ℕ
  call_frame c prog vers proc args =
      add_record_mark (build_call_message c.xid prog vers proc args c.auth_sys)

  -- Over a reliable connection whose peer answers with a record in any fragments, a call sends its one
  -- frame, takes that record off the stream, and has the outcome of `parse_reply` on the record put
  -- together; the next call has the next xid, and the credential stays. For fragments shorter than
  -- 2 ^ 31 bytes, and more rounds than there are fragments before the last.
  pub call_lem :
      (rel : IsReliable s) (c : TcpRpcClient s) (fuel prog vers proc : ℕ) (args : List ℕ)
      (front : List (List ℕ)) (final rest : List ℕ)
      → All IsFragment front
      → IsFragment final
      → length front < fuel
      → rel.inbox c.sock ≡ record_wire front final ++ rest
      → (h : Handle) × (call s fuel prog vers proc args c ≡ (
        parse_reply (flatten front ++ final),
        record { sock = h; xid = (c.xid + 1) % 2 ^ 32; auth_sys = c.auth_sys },
      ))
        × (rel.outbox h ≡ rel.outbox c.sock ++ call_frame c prog vers proc args)
        × (rel.inbox h ≡ rest)
  unfolding call ◌>>=◌
  call_lem rel c fuel prog vers proc args front final rest hf hl lt box =
      let (h1, e1, (ob1, ib1)) = send_all-sends s rel (call_frame c prog vers proc args) c.sock in
      let (h2, e2, ob2, ib2) =
        recv_record-record_wire s rel front final rest fuel h1 hf hl lt (ib1 ∙ box) in
      (h2, rw (e1, e2) refl, ob2 ∙ ob1, ib2)

  -- Whatever the socket does, and whether the call returns or throws, the next call has the next xid,
  -- modulo 2 ^ 32, and the same credential.
  pub call-xid :
      (c : TcpRpcClient s) (fuel prog vers proc : ℕ) (args : List ℕ)
      → ((call s fuel prog vers proc args c).1.xid ≡ (c.xid + 1) % 2 ^ 32)
        × ((call s fuel prog vers proc args c).1.auth_sys ≡ c.auth_sys)
  unfolding call ◌>>=◌
  call-xid c fuel prog vers proc args = ground arith
