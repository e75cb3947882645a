-- ===== src/Nfs4/Client/Setup.antt =====
-- The constructors of `Nfs4Client`: the handshake that registers the client, on a connection to the
-- port that the portmapper names. `now` is the count of the steady clock.
use nfsclient.Base.{ℕ, Option, none, some, List, []}
use nfsclient.Errors.{Result, ok, err, fault, Reason, Exception}
use nfsclient.Exec.{Exec, pure, ◌>>=◌, ◌>>◌}
use nfsclient.Rpc.Message.{AuthSys}
use nfsclient.Rpc.Client.{TcpRpcClient, connected, tcp_transport}
use nfsclient.Rpc.Client as Rpc
use nfsclient.Rpc.Network.{Network}
use nfsclient.Rpc.Transport.{Transport}
use nfsclient.Nfs3.Mount.Calls.{getport}
use nfsclient.Nfs4.Types.{Nfs4Fh}
use nfsclient.Nfs4.State.{
  SetclientidResult, encode_setclientid, decode_setclientid_result, encode_setclientid_confirm,
  decode_setclientid_confirm_result,
}
use nfsclient.Nfs4.Requests.{Request, boot_verifier, tag_init, root_request, root_sentinel}
use nfsclient.Nfs4.Client.{Nfs4Client, exchange, owner_v4, on_rpc}

unfoldable pub setclientid_request : ℕ → Request SetclientidResult
setclientid_request now = record {
  ops = encode_setclientid (boot_verifier now) owner_v4 0;
  num_ops = 1;
  results = decode_setclientid_result;
}

unfoldable pub setclientid_confirm_request : SetclientidResult → Request (Unit {0})
setclientid_confirm_request r = record {
  ops = encode_setclientid_confirm r.clientid r.confirm_verifier;
  num_ops = 1;
  results = decode_setclientid_confirm_result;
}

module _ (t : Transport) where
  open t use {Conn}

  unfoldable pub do_setclientid_confirm : ℕ → Exec Conn ℕ
  do_setclientid_confirm now = do
    r ← exchange t tag_init (setclientid_request now)
    exchange t tag_init (setclientid_confirm_request r)
    pure r.clientid

  unfoldable pub do_get_root_fh : Exec Conn Nfs4Fh
  do_get_root_fh = do exchange t [] root_request; pure root_sentinel

  -- The members as they are before the body of the constructor sets them.
  unfoldable pub unregistered : List ℕ → Conn → Nfs4Client t
  unregistered host conn = record {
    host = host;
    rpc = conn;
    root_fh = root_sentinel;
    clientid = 0;
    open_seqid = 0;
  }

  abbrev set_clientid : ℕ → Exec (Nfs4Client t) (Unit {0})
  set_clientid clientid c = (ok tt, record c { clientid = clientid })

  abbrev set_root_fh : Nfs4Fh → Exec (Nfs4Client t) (Unit {0})
  set_root_fh fh c = (ok tt, record c { root_fh = fh })

  -- The last two lines of each constructor.
  unfoldable pub register : ℕ → Exec (Nfs4Client t) (Unit {0})
  register now = do
    clientid ← on_rpc t (do_setclientid_confirm now)
    set_clientid clientid
    fh ← on_rpc t do_get_root_fh
    set_root_fh fh

module _ (net : Network) (fuel : ℕ) where
  open net use {socket, World, connect, close}

  -- When the constructor throws, its members go, and the connection is closed.
  abbrev settled :
      Result (Unit {0}) × Nfs4Client (tcp_transport socket fuel)
      → World
      → Result (Nfs4Client (tcp_transport socket fuel)) × World
  settled (ok _, c) w = (ok c, w)
  settled (err x, c) w = (err x, close (c.rpc.sock) w)
  settled (fault x, c) w = (fault x, close (c.rpc.sock) w)

  abbrev joined :
      (TcpRpcClient socket → Nfs4Client (tcp_transport socket fuel))
      → ℕ
      → Option (socket.Handle) × World
      → Result (Nfs4Client (tcp_transport socket fuel)) × World
  joined members now (none, w) = (err (Exception.runtime_error Reason.connect_failed), w)
  joined members now (some h, w) =
      settled (register (tcp_transport socket fuel) now (members (connected socket h))) w

  unfoldable pub nfs4_client : List ℕ → ℕ → Exec World (Nfs4Client (tcp_transport socket fuel))
  unfolding register unregistered
  nfs4_client host now = getport net fuel host 100003 4 >>= λ port w.
      joined (unregistered (tcp_transport socket fuel) host) now (connect host port w)

  -- The constructor that switches to AUTH_SYS first.
  unfoldable pub nfs4_client_with_auth :
      List ℕ → AuthSys → ℕ → Exec World (Nfs4Client (tcp_transport socket fuel))
  unfolding register unregistered
  nfs4_client_with_auth host auth now = getport net fuel host 100003 4 >>= λ port w.
      joined
        (λ conn. unregistered (tcp_transport socket fuel) host (Rpc.set_auth_sys socket auth conn))
        now (connect host port w)

  unfoldable pub set_auth_sys :
      AuthSys → Nfs4Client (tcp_transport socket fuel) → Nfs4Client (tcp_transport socket fuel)
  set_auth_sys auth c = record c { rpc = Rpc.set_auth_sys socket auth c.rpc }

  unfoldable pub clear_auth :
      Nfs4Client (tcp_transport socket fuel) → Nfs4Client (tcp_transport socket fuel)
  clear_auth c = record c { rpc = Rpc.clear_auth socket c.rpc }
