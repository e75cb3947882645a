-- ===== src/Rpc/Network.antt =====
-- Connections that live for one function: a local `TcpRpcClient`, as in src/nfs/portmap.cpp and
-- src/nfs/mount.cpp. The constructor connects or throws; the destructor closes, also on an exception.
use nfsclient.Base.{ℕ, Option, none, some, List}
use nfsclient.Errors.{err, Reason, Exception}
use nfsclient.Exec.{Exec}
use nfsclient.Rpc.Socket.{Socket}
use nfsclient.Rpc.Client.{TcpRpcClient, connected}

-- `getaddrinfo`, `socket` and `connect` in one, and `close`, with the rest of the system as their
-- state. `none` is any failure to connect.
pub record Network : Type 1 where
  pub socket : Socket
  pub World : Type 0
  pub connect : List ℕ → ℕ → World → Option (socket.Handle) × World
  pub close : socket.Handle → World → World

module _ (net : Network) where
  open net use {socket, World, connect, close}

  abbrev opened :
      {A : Type 0} → Exec (TcpRpcClient socket) A → Option (socket.Handle) → Exec World A
  opened m none w = (err (Exception.runtime_error Reason.connect_failed), w)
  opened m (some h) w = let (r, c) = m (connected socket h) in (r, close c.sock w)

  -- `TcpRpcClient client(host, port); …`, to the end of the block.
  unfoldable pub with_client :
      {A : Type 0} → List ℕ → ℕ → Exec (TcpRpcClient socket) A → Exec World A
  with_client host port m w = let (h, w') = connect host port w in opened m h w'
