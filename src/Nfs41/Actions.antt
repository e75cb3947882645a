-- ===== src/Nfs41/Actions.antt =====
-- The methods of `Nfs41Client` as the steps of a session: what a program does with the client.
use nfsclient.Base.{ℕ, Bool, List, [], ◌∷◌}
use nfsclient.Exec.{Exec}
use nfsclient.Rpc.Transport.{Transport}
use nfsclient.Nfs4.Types.{Nfs4Fh}
use nfsclient.Nfs4.Calls.{Call, Answer}
use nfsclient.Nfs41.Client.{
  Nfs41Client, lookup, getattr, access, close, read, write, commit, mkdir, remove, rename, symlink,
  readlink, setattr,
}
use nfsclient.Nfs41.Client as Client

module _ (t : Transport) where
  -- The method for each call.
  unfoldable pub run_call : (k : Call) → Exec (Nfs41Client t) (Answer k)
  run_call (Call.lookup dir name) = lookup t dir name
  run_call (Call.getattr fh) = getattr t fh
  run_call (Call.access fh mask) = access t fh mask
  run_call (Call.close f) = close t f
  run_call (Call.read f offset count) = read t f offset count
  run_call (Call.write f offset how bytes) = write t f offset how bytes
  run_call (Call.commit f offset count) = commit t f offset count
  run_call (Call.mkdir dir name attrs) = mkdir t dir name attrs
  run_call (Call.remove dir name) = remove t dir name
  run_call (Call.rename src_dir src_name dst_dir dst_name) =
      rename t src_dir src_name dst_dir dst_name
  run_call (Call.symlink dir name target attrs) = symlink t dir name target attrs
  run_call (Call.readlink fh) = readlink t fh
  run_call (Call.setattr fh attrs) = setattr t fh attrs

-- The public methods that send, with their arguments.
pub data Action : Type 0 where
  one_call : Call → Action
  open_read : ℕ → Nfs4Fh → List ℕ → Action
  open_write : ℕ → Nfs4Fh → List ℕ → Bool → Action
  readdir : ℕ → Nfs4Fh → Action

module _ (t : Transport) where
  -- The client after a method, whether it returned or threw.
  unfoldable pub act : Action → Nfs41Client t → Nfs41Client t
  act (Action.one_call k) c = (run_call t k c).1
  act (Action.open_read rounds dir name) c = (Client.open_read t rounds dir name c).1
  act (Action.open_write rounds dir name create) c =
      (Client.open_write t rounds dir name create c).1
  act (Action.readdir pages dir) c = (Client.readdir t pages dir c).1

  unfoldable pub act_all : List Action → Nfs41Client t → Nfs41Client t
  act_all [] c = c
  act_all (a ∷ rest) c = act_all rest (act a c)
