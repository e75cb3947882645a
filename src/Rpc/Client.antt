-- ===== src/Rpc/Client.antt =====
-- `TcpRpcClient` of src/rpc/rpc_client.hpp: the connection, the counter of calls and the credential.
pub mod Calls
pub mod Safety
use nfsclient.Base.{ℕ, ◌+◌, ◌%◌, ◌^◌, Option, none, some, List}
use nfsclient.Errors.{Result}
use nfsclient.Exec.{Exec, lift, ◌>>=◌, ◌>>◌}
use nfsclient.Rpc.Message.{AuthSys, build_call_message, add_record_mark}
use nfsclient.Rpc.Reply.{parse_reply}
use nfsclient.Rpc.Socket.{Socket, send_all, recv_record}
use nfsclient.Rpc.Transport.{Transport}

module _ (s : Socket) where
  open s use {Handle}

  pub record TcpRpcClient : Type 0 where
    pub sock : Handle
    pub xid : ℕ
    pub auth_sys : Option AuthSys

  -- The constructor, once the socket is connected.
  unfoldable pub connected : Handle → TcpRpcClient
  connected h = record { sock = h; xid = 1; auth_sys = none }

  unfoldable pub set_auth_sys : AuthSys → TcpRpcClient → TcpRpcClient
  set_auth_sys auth c = record c { auth_sys = some auth }

  unfoldable pub clear_auth : TcpRpcClient → TcpRpcClient
  clear_auth c = record c { auth_sys = none }

  -- An action on the socket, as an action of the client.
  abbrev pub on_sock : {A : Type 0} → Exec Handle A → Exec TcpRpcClient A
  on_sock m c = let (r, h) = m c.sock in (r, record c { sock = h })

  -- `xid_++`
  abbrev pub next_xid : Exec TcpRpcClient ℕ
  next_xid c = (Result.ok c.xid, record c { xid = (c.xid + 1) % 2 ^ 32 })

  abbrev pub credential : Exec TcpRpcClient (Option AuthSys)
  credential c = (Result.ok c.auth_sys, c)

  -- `fuel` bounds the fragments of the reply.
  unfoldable pub call : ℕ → ℕ → ℕ → ℕ → List ℕ → Exec TcpRpcClient (List ℕ)
  call fuel prog vers proc args = do
    my_xid ← next_xid
    auth ← credential
    let msg = build_call_message my_xid prog vers proc args auth
    let framed = add_record_mark msg
    on_sock (send_all s framed)
    reply ← on_sock (recv_record s fuel)
    lift (parse_reply reply)

  abbrev pub tcp_transport : ℕ → Transport
  tcp_transport fuel = record { Conn = TcpRpcClient; call = call fuel }
