-- ===== src/Nfs3/Mount/Calls.antt =====
-- The functions of src/nfs/portmap.cpp and src/nfs/mount.cpp, each on connections of its own. `fuel`
-- bounds the fragments of a reply.
use nfsclient.Base.{ℕ, List, []}
use nfsclient.Exec.{Exec, pure, lift, ◌>>=◌}
use nfsclient.Xdr.Decoder.{run}
use nfsclient.Rpc.Client.{call}
use nfsclient.Rpc.Network.{Network, with_client}
use nfsclient.Nfs3.Types.{Fh3}
use nfsclient.Nfs3.Mount.{
  ExportEntry, encode_getport_args, getport_reply, encode_path_args, mnt_reply, export_reply,
}

abbrev pub mount_prog : ℕ
mount_prog = 100005

abbrev pub mount_vers : ℕ
mount_vers = 3

module _ (net : Network) (fuel : ℕ) where
  open net use {socket, World}

  unfoldable pub getport : List ℕ → ℕ → ℕ → Exec World ℕ
  unfolding with_client
  getport host prog vers = with_client net host 111 (do
    reply ← call socket fuel 100000 2 3 (encode_getport_args prog vers)
    lift (run (getport_reply prog vers) reply))

  unfoldable pub mnt : List ℕ → List ℕ → Exec World Fh3
  unfolding getport with_client
  mnt host export_path = do
    port ← getport host mount_prog mount_vers
    with_client net host port (do
      reply ← call socket fuel mount_prog mount_vers 1 (encode_path_args export_path)
      lift (run mnt_reply reply))

  unfoldable pub umnt : List ℕ → List ℕ → Exec World (Unit {0})
  unfolding getport with_client
  umnt host export_path = do
    port ← getport host mount_prog mount_vers
    with_client net host port (do
      reply ← call socket fuel mount_prog mount_vers 3 (encode_path_args export_path)
      pure tt)

  unfoldable pub export_list : List ℕ → Exec World (List ExportEntry)
  unfolding getport with_client
  export_list host = do
    port ← getport host mount_prog mount_vers
    with_client net host port
        (do reply ← call socket fuel mount_prog mount_vers 5 []; lift (run export_reply reply))
