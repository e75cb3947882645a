-- ===== src/Rpc/Transport.antt =====
-- What the protocol clients need of an RPC connection: `call` of `TcpRpcClient`.
use nfsclient.Base.{ℕ, List}
use nfsclient.Exec.{Exec}

-- `call prog vers proc args` sends the call and returns the body of the reply, or throws.
pub record Transport : Type 1 where
  pub Conn : Type 0
  pub call : ℕ → ℕ → ℕ → List ℕ → Exec Conn (List ℕ)
