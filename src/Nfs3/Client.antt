-- ===== src/Nfs3/Client.antt =====
-- `NFSClient` of src/nfs_client.hpp and src/nfs_client.cpp: one connection to the NFS program of a
-- host for all procedures, and a connection for each call of the mount protocol.
use nfsclient.Base.{ℕ, Option, none, some, List}
use nfsclient.Errors.{Result, ok, err, Reason, Exception}
use nfsclient.Exec.{Exec, ◌>>=◌}
use nfsclient.Rpc.Message.{AuthSys}
use nfsclient.Rpc.Client.{TcpRpcClient, connected, tcp_transport}
use nfsclient.Rpc.Client as Client
use nfsclient.Rpc.Network.{Network}
use nfsclient.Nfs3.Types.{Fh3, Stable3, WriteResult, Fattr3, Sattr3}
use nfsclient.Nfs3.Files.{SattrGuard3}
use nfsclient.Nfs3.Names.{CreateMode3, DeviceSpec3}
use nfsclient.Nfs3.Info.{FsstatResult, FsinfoResult, PathconfResult}
use nfsclient.Nfs3.Listing.{DirEntry3, ReaddirPage, DirEntryPlus3, ReaddirplusPage}
use nfsclient.Nfs3.Mount.{ExportEntry}
use nfsclient.Nfs3.Calls as Calls
use nfsclient.Nfs3.Directory as Directory
use nfsclient.Nfs3.Mount.Calls as MountCalls

-- `fuel` bounds the fragments of a reply, and `pages` the pages of a listing.
module _ (net : Network) (fuel : ℕ) where
  open net use {socket, World, connect}

  -- `host_`, `nfs_conn_`, and the system that the connections of the mount protocol come from.
  pub record NfsClient : Type 0 where
    pub host : List ℕ
    pub nfs_conn : TcpRpcClient socket
    pub world : World

  abbrev joined : List ℕ → Option (socket.Handle) × World → Result NfsClient × World
  joined host (none, w) = (err (Exception.runtime_error Reason.connect_failed), w)
  joined host (some h, w) =
      (ok (record { host = host; nfs_conn = connected socket h; world = w }), w)

  -- The constructor: the port from the portmapper, then the connection that stays.
  unfoldable pub nfs_client : List ℕ → Exec World NfsClient
  nfs_client host = MountCalls.getport net fuel host Calls.nfs_prog Calls.nfs_vers >>= λ port w.
      joined host (connect host port w)

  -- An action on the connection that stays.
  abbrev pub on_conn : {A : Type 0} → Exec (TcpRpcClient socket) A → Exec NfsClient A
  on_conn m c = let (r, conn) = m c.nfs_conn in (r, record c { nfs_conn = conn })

  -- An action with connections of its own.
  abbrev pub on_world : {A : Type 0} → Exec World A → Exec NfsClient A
  on_world m c = let (r, w) = m c.world in (r, record c { world = w })

  unfoldable pub set_auth_sys : AuthSys → NfsClient → NfsClient
  set_auth_sys auth c = record c { nfs_conn = Client.set_auth_sys socket auth c.nfs_conn }

  unfoldable pub clear_auth : NfsClient → NfsClient
  clear_auth c = record c { nfs_conn = Client.clear_auth socket c.nfs_conn }

  unfoldable pub mount : List ℕ → Exec NfsClient Fh3
  mount export_path c = on_world (MountCalls.mnt net fuel c.host export_path) c

  unfoldable pub getattr : Fh3 → Exec NfsClient Fattr3
  getattr fh = on_conn (Calls.getattr (tcp_transport socket fuel) fh)

  unfoldable pub lookup : Fh3 → List ℕ → Exec NfsClient Fh3
  lookup dir name = on_conn (Calls.lookup (tcp_transport socket fuel) dir name)

  unfoldable pub read : Fh3 → ℕ → ℕ → Exec NfsClient (List ℕ)
  read fh offset count = on_conn (Calls.read (tcp_transport socket fuel) fh offset count)

  unfoldable pub write : Fh3 → ℕ → Stable3 → List ℕ → Exec NfsClient WriteResult
  write fh offset stable bytes =
      on_conn (Calls.write (tcp_transport socket fuel) fh offset stable bytes)

  unfoldable pub create : Fh3 → List ℕ → CreateMode3 → Sattr3 → Exec NfsClient Fh3
  create dir name mode attrs =
      on_conn (Calls.create (tcp_transport socket fuel) dir name mode attrs)

  unfoldable pub create_exclusive : Fh3 → List ℕ → List ℕ → Exec NfsClient Fh3
  create_exclusive dir name verf =
      on_conn (Calls.create_exclusive (tcp_transport socket fuel) dir name verf)

  unfoldable pub mkdir : Fh3 → List ℕ → Sattr3 → Exec NfsClient Fh3
  mkdir dir name attrs = on_conn (Calls.mkdir (tcp_transport socket fuel) dir name attrs)

  unfoldable pub remove : Fh3 → List ℕ → Exec NfsClient (Unit {0})
  remove dir name = on_conn (Calls.remove (tcp_transport socket fuel) dir name)

  unfoldable pub rmdir : Fh3 → List ℕ → Exec NfsClient (Unit {0})
  rmdir dir name = on_conn (Calls.rmdir (tcp_transport socket fuel) dir name)

  unfoldable pub setattr : Fh3 → Sattr3 → SattrGuard3 → Exec NfsClient (Unit {0})
  setattr fh attrs guard = on_conn (Calls.setattr (tcp_transport socket fuel) fh attrs guard)

  unfoldable pub readdir_page : Fh3 → ℕ → List ℕ → ℕ → Exec NfsClient ReaddirPage
  readdir_page dir cookie cookieverf count =
      on_conn (Calls.readdir_page (tcp_transport socket fuel) dir cookie cookieverf count)

  unfoldable pub readdir : ℕ → Fh3 → ℕ → Exec NfsClient (List DirEntry3)
  readdir pages dir count = on_conn (Directory.readdir (tcp_transport socket fuel) pages dir count)

  unfoldable pub rename : Fh3 → List ℕ → Fh3 → List ℕ → Exec NfsClient (Unit {0})
  rename from_dir from_name to_dir to_name =
      on_conn (Calls.rename (tcp_transport socket fuel) from_dir from_name to_dir to_name)

  unfoldable pub commit : Fh3 → ℕ → ℕ → Exec NfsClient (List ℕ)
  commit fh offset count = on_conn (Calls.commit (tcp_transport socket fuel) fh offset count)

  unfoldable pub access : Fh3 → ℕ → Exec NfsClient ℕ
  access fh access_mask = on_conn (Calls.access (tcp_transport socket fuel) fh access_mask)

  unfoldable pub fsstat : Fh3 → Exec NfsClient FsstatResult
  fsstat root = on_conn (Calls.fsstat (tcp_transport socket fuel) root)

  unfoldable pub fsinfo : Fh3 → Exec NfsClient FsinfoResult
  fsinfo root = on_conn (Calls.fsinfo (tcp_transport socket fuel) root)

  unfoldable pub pathconf : Fh3 → Exec NfsClient PathconfResult
  pathconf fh = on_conn (Calls.pathconf (tcp_transport socket fuel) fh)

  unfoldable pub readlink : Fh3 → Exec NfsClient (List ℕ)
  readlink symlink_fh = on_conn (Calls.readlink (tcp_transport socket fuel) symlink_fh)

  unfoldable pub symlink : Fh3 → List ℕ → List ℕ → Sattr3 → Exec NfsClient Fh3
  symlink dir name target attrs =
      on_conn (Calls.symlink (tcp_transport socket fuel) dir name target attrs)

  unfoldable pub link : Fh3 → Fh3 → List ℕ → Exec NfsClient (Unit {0})
  link file link_dir link_name =
      on_conn (Calls.link (tcp_transport socket fuel) file link_dir link_name)

  unfoldable pub mknod_fifo : Fh3 → List ℕ → Sattr3 → Exec NfsClient Fh3
  mknod_fifo dir name attrs = on_conn (Calls.mknod_fifo (tcp_transport socket fuel) dir name attrs)

  unfoldable pub mknod_socket : Fh3 → List ℕ → Sattr3 → Exec NfsClient Fh3
  mknod_socket dir name attrs =
      on_conn (Calls.mknod_socket (tcp_transport socket fuel) dir name attrs)

  unfoldable pub mknod_chr : Fh3 → List ℕ → Sattr3 → DeviceSpec3 → Exec NfsClient Fh3
  mknod_chr dir name attrs spec =
      on_conn (Calls.mknod_chr (tcp_transport socket fuel) dir name attrs spec)

  unfoldable pub mknod_blk : Fh3 → List ℕ → Sattr3 → DeviceSpec3 → Exec NfsClient Fh3
  mknod_blk dir name attrs spec =
      on_conn (Calls.mknod_blk (tcp_transport socket fuel) dir name attrs spec)

  unfoldable pub readdirplus_page : Fh3 → ℕ → List ℕ → ℕ → ℕ → Exec NfsClient ReaddirplusPage
  readdirplus_page dir cookie cookieverf dircount maxcount =
      on_conn
        (Calls.readdirplus_page (tcp_transport socket fuel) dir cookie cookieverf dircount maxcount)

  unfoldable pub readdirplus : ℕ → Fh3 → ℕ → ℕ → Exec NfsClient (List DirEntryPlus3)
  readdirplus pages dir dircount maxcount =
      on_conn (Directory.readdirplus (tcp_transport socket fuel) pages dir dircount maxcount)

  unfoldable pub umnt : List ℕ → Exec NfsClient (Unit {0})
  umnt export_path c = on_world (MountCalls.umnt net fuel c.host export_path) c

  unfoldable pub export_list : Exec NfsClient (List ExportEntry)
  export_list c = on_world (MountCalls.export_list net fuel c.host) c
