-- ===== src/Nfs41/Setup.antt =====
-- The constructors of `Nfs41Client`, which set up a session on a connection to the port that the
-- portmapper names, and its destructor. `now` is the count of the steady clock.
use nfsclient.Base.{ℕ, false, Option, none, some, List, [], ◌∷◌, replicate}
use nfsclient.Errors.{Result, ok, err, fault, Reason, Exception}
use nfsclient.Exec.{Exec, pure, lift, ◌>>=◌, ◌>>◌}
use nfsclient.Xdr.Encoder.{encoded}
use nfsclient.Rpc.Message.{AuthSys}
use nfsclient.Rpc.Client.{TcpRpcClient, connected, tcp_transport}
use nfsclient.Rpc.Client as Rpc
use nfsclient.Rpc.Network.{Network}
use nfsclient.Rpc.Transport.{Transport}
use nfsclient.Nfs3.Mount.Calls.{getport}
use nfsclient.Xdr.Decoder.{run}
use nfsclient.Nfs4.Compound.{call_compound}
use nfsclient.Nfs4.Session.{
  ExchangeIdResult, encode_exchange_id, decode_exchange_id_result, encode_create_session,
  decode_create_session_result, encode_reclaim_complete, decode_reclaim_complete_result,
  encode_destroy_session,
}
use nfsclient.Nfs4.Requests.{
  Request, after_header, boot_verifier, tag_init, root_request, root_sentinel,
}
use nfsclient.Nfs41.Client.{Nfs41Client, owner_v41, on_rpc, exchange41}

unfoldable pub exchange_id_request : ℕ → Request ExchangeIdResult
exchange_id_request now = record {
  ops = encode_exchange_id (boot_verifier now) owner_v41;
  num_ops = 1;
  results = decode_exchange_id_result;
}

unfoldable pub create_session_request : ExchangeIdResult → Request (List ℕ)
create_session_request exid = record {
  ops = encode_create_session exid.clientid exid.sequenceid;
  num_ops = 1;
  results = decode_create_session_result;
}

unfoldable pub reclaim_complete_request : Request (Unit {0})
reclaim_complete_request = record {
  ops = encode_reclaim_complete false;
  num_ops = 1;
  results = decode_reclaim_complete_result;
}

-- "destroy"
abbrev pub tag_destroy : List ℕ
tag_destroy = b'd' ∷ b'e' ∷ b's' ∷ b't' ∷ b'r' ∷ b'o' ∷ b'y' ∷ []

module _ (t : Transport) where
  open t use {Conn}

  -- A COMPOUND of minor version 1 outside any session, with no SEQUENCE.
  unfoldable pub outside_session : {A : Type 0} → Request A → Exec Conn A
  outside_session r = do
    reply ← call_compound t tag_init (encoded r.ops) r.num_ops 1
    lift (run (after_header r.results) reply)

  unfoldable pub do_bootstrap : ℕ → Exec Conn (ℕ × List ℕ)
  do_bootstrap now = do
    exid ← outside_session (exchange_id_request now)
    sid ← outside_session (create_session_request exid)
    pure (exid.clientid, sid)

  -- The members as they are before the body of the constructor sets them.
  unfoldable pub sessionless : List ℕ → Conn → Nfs41Client t
  sessionless host conn = record {
    host = host;
    rpc = conn;
    root_fh = root_sentinel;
    clientid = 0;
    sessionid = replicate 16 0;
    slot_seqid = 1;
    open_seqid = 0;
  }

  abbrev set_session : ℕ → List ℕ → Exec (Nfs41Client t) (Unit {0})
  set_session clientid sid c =
      (ok tt, record c { clientid = clientid; sessionid = sid; slot_seqid = 1 })

  abbrev set_root : Exec (Nfs41Client t) (Unit {0})
  set_root c = (ok tt, record c { root_fh = root_sentinel })

  -- The first two COMPOUNDs inside the session.
  unfoldable pub enter_session : Exec (Nfs41Client t) (Unit {0})
  enter_session = do
    exchange41 t tag_init reclaim_complete_request
    exchange41 t [] root_request
    set_root

  unfoldable pub start_session : ℕ → Exec (Nfs41Client t) (Unit {0})
  start_session now = do
    (clientid, sid) ← on_rpc t (do_bootstrap now)
    set_session clientid sid
    enter_session

  -- The call in the body of the destructor.
  unfoldable pub destroy_call : List ℕ → Exec Conn (List ℕ)
  destroy_call sessionid =
      call_compound t tag_destroy (encoded (encode_destroy_session sessionid)) 1 1

  -- The body of the destructor: whatever the call throws is dropped.
  unfoldable pub destroy_session : Nfs41Client t → Nfs41Client t
  unfolding destroy_call
  destroy_session c = let (r, conn) = destroy_call c.sessionid c.rpc in record c { rpc = conn }

module _ (net : Network) (fuel : ℕ) where
  open net use {socket, World, connect, close}

  -- When the constructor throws, its members go, and the connection is closed.
  abbrev settled :
      Result (Unit {0}) × Nfs41Client (tcp_transport socket fuel)
      → World
      → Result (Nfs41Client (tcp_transport socket fuel)) × World
  settled (ok _, c) w = (ok c, w)
  settled (err x, c) w = (err x, close (c.rpc.sock) w)
  settled (fault x, c) w = (fault x, close (c.rpc.sock) w)

  abbrev joined :
      (TcpRpcClient socket → Nfs41Client (tcp_transport socket fuel))
      → ℕ
      → Option (socket.Handle) × World
      → Result (Nfs41Client (tcp_transport socket fuel)) × World
  joined members now (none, w) = (err (Exception.runtime_error Reason.connect_failed), w)
  joined members now (some h, w) =
      settled (start_session (tcp_transport socket fuel) now (members (connected socket h))) w

  unfoldable pub nfs41_client : List ℕ → ℕ → Exec World (Nfs41Client (tcp_transport socket fuel))
  unfolding start_session sessionless
  nfs41_client host now = getport net fuel host 100003 4 >>= λ port w.
      joined (sessionless (tcp_transport socket fuel) host) now (connect host port w)

  -- The constructor that switches to AUTH_SYS first.
  unfoldable pub nfs41_client_with_auth :
      List ℕ → AuthSys → ℕ → Exec World (Nfs41Client (tcp_transport socket fuel))
  unfolding start_session sessionless
  nfs41_client_with_auth host auth now = getport net fuel host 100003 4 >>= λ port w.
      joined
        (λ conn. sessionless (tcp_transport socket fuel) host (Rpc.set_auth_sys socket auth conn))
        now (connect host port w)

  -- The destructor, and that of the connection behind it.
  unfoldable pub destroy : Nfs41Client (tcp_transport socket fuel) → World → World
  unfolding destroy_session
  destroy c w = let c' = destroy_session (tcp_transport socket fuel) c in close (c'.rpc.sock) w

  unfoldable pub set_auth_sys :
      AuthSys → Nfs41Client (tcp_transport socket fuel) → Nfs41Client (tcp_transport socket fuel)
  set_auth_sys auth c = record c { rpc = Rpc.set_auth_sys socket auth c.rpc }

  unfoldable pub clear_auth :
      Nfs41Client (tcp_transport socket fuel) → Nfs41Client (tcp_transport socket fuel)
  clear_auth c = record c { rpc = Rpc.clear_auth socket c.rpc }
