-- ===== src/Nfs3/Calls.antt =====
-- The procedures as RPC calls: the functions of src/nfs that take a `TcpRpcClient`, which are also
-- the methods of `NFSClient` in src/nfs_client.cpp on its connection.
pub mod Answers
use nfsclient.Base.{ℕ, zero, suc, Bool, List, [], ◌∷◌, ◌++◌, replicate, if◌then◌else◌}
use nfsclient.Errors.{Result, fault, Fault}
use nfsclient.Exec.{Exec, pure, lift, ◌>>=◌, ◌>>◌}
use nfsclient.Rpc.Transport.{Transport}
use nfsclient.Nfs3.Types.{Fh3, Ftype3, Stable3, WriteResult, Fattr3, Sattr3}
use nfsclient.Nfs3.Files.{
  encode_getattr_args, decode_getattr_reply, encode_lookup_args, decode_lookup_reply,
  encode_access_args, decode_access_reply, encode_read_args, decode_read_reply, encode_write_args,
  decode_write_reply, encode_commit_args, decode_commit_reply, encode_readlink_args,
  decode_readlink_reply, SattrGuard3, encode_setattr_args, decode_setattr_reply,
}
use nfsclient.Nfs3.Names.{
  CreateMode3, DeviceSpec3, encode_create_args, encode_create_args_exclusive, decode_create_reply,
  encode_mkdir_args, decode_mkdir_reply, encode_remove_args, decode_remove_reply, encode_rmdir_args,
  decode_rmdir_reply, encode_rename_args, decode_rename_reply, encode_symlink_args,
  decode_symlink_reply, encode_link_args, decode_link_reply, encode_mknod_args,
  encode_mknod_device_args, decode_mknod_reply,
}
use nfsclient.Nfs3.Info.{
  FsstatResult, FsinfoResult, PathconfResult, encode_fsstat_args, decode_fsstat_reply,
  encode_fsinfo_args, decode_fsinfo_reply, encode_pathconf_args, decode_pathconf_reply,
}
use nfsclient.Nfs3.Listing.{
  DirEntry3, ReaddirPage, encode_readdir_args, decode_readdir_reply, DirEntryPlus3, ReaddirplusPage,
  encode_readdirplus_args, decode_readdirplus_reply,
}

abbrev pub nfs_prog : ℕ
nfs_prog = 100003

abbrev pub nfs_vers : ℕ
nfs_vers = 3

module _ (t : Transport) where
  open t use {Conn, call}

  -- One call of a procedure of NFS version 3, with its reply decoded.
  abbrev pub nfs_call : {A : Type 0} → ℕ → List ℕ → (List ℕ → Result A) → Exec Conn A
  nfs_call proc args decode = do reply ← call nfs_prog nfs_vers proc args; lift (decode reply)

  unfoldable pub getattr : Fh3 → Exec Conn Fattr3
  getattr fh = nfs_call 1 (encode_getattr_args fh) decode_getattr_reply

  unfoldable pub setattr : Fh3 → Sattr3 → SattrGuard3 → Exec Conn (Unit {0})
  setattr fh attrs guard = nfs_call 2 (encode_setattr_args fh attrs guard) decode_setattr_reply

  unfoldable pub lookup : Fh3 → List ℕ → Exec Conn Fh3
  lookup dir name = nfs_call 3 (encode_lookup_args dir name) decode_lookup_reply

  unfoldable pub access : Fh3 → ℕ → Exec Conn ℕ
  access fh access_mask = nfs_call 4 (encode_access_args fh access_mask) decode_access_reply

  unfoldable pub readlink : Fh3 → Exec Conn (List ℕ)
  readlink symlink_fh = nfs_call 5 (encode_readlink_args symlink_fh) decode_readlink_reply

  unfoldable pub read : Fh3 → ℕ → ℕ → Exec Conn (List ℕ)
  read fh offset count = nfs_call 6 (encode_read_args fh offset count) decode_read_reply

  unfoldable pub write : Fh3 → ℕ → Stable3 → List ℕ → Exec Conn WriteResult
  write fh offset stable bytes =
      nfs_call 7 (encode_write_args fh offset stable bytes) decode_write_reply

  unfoldable pub create : Fh3 → List ℕ → CreateMode3 → Sattr3 → Exec Conn Fh3
  create dir name mode attrs =
      nfs_call 8 (encode_create_args dir name mode attrs) decode_create_reply

  unfoldable pub create_exclusive : Fh3 → List ℕ → List ℕ → Exec Conn Fh3
  create_exclusive dir name verf =
      nfs_call 8 (encode_create_args_exclusive dir name verf) decode_create_reply

  unfoldable pub mkdir : Fh3 → List ℕ → Sattr3 → Exec Conn Fh3
  mkdir dir name attrs = nfs_call 9 (encode_mkdir_args dir name attrs) decode_mkdir_reply

  unfoldable pub symlink : Fh3 → List ℕ → List ℕ → Sattr3 → Exec Conn Fh3
  symlink dir name target attrs =
      nfs_call 10 (encode_symlink_args dir name target attrs) decode_symlink_reply

  mknod_simple : Fh3 → List ℕ → Ftype3 → Sattr3 → Exec Conn Fh3
  mknod_simple dir name type attrs =
      nfs_call 11 (encode_mknod_args dir name type attrs) decode_mknod_reply

  mknod_device : Fh3 → List ℕ → Ftype3 → Sattr3 → DeviceSpec3 → Exec Conn Fh3
  mknod_device dir name type attrs spec =
      nfs_call 11 (encode_mknod_device_args dir name type attrs spec) decode_mknod_reply

  unfoldable pub mknod_fifo : Fh3 → List ℕ → Sattr3 → Exec Conn Fh3
  unfolding mknod_simple
  mknod_fifo dir name attrs = mknod_simple dir name Ftype3.fifo attrs

  unfoldable pub mknod_socket : Fh3 → List ℕ → Sattr3 → Exec Conn Fh3
  unfolding mknod_simple
  mknod_socket dir name attrs = mknod_simple dir name Ftype3.sock attrs

  unfoldable pub mknod_chr : Fh3 → List ℕ → Sattr3 → DeviceSpec3 → Exec Conn Fh3
  unfolding mknod_device
  mknod_chr dir name attrs spec = mknod_device dir name Ftype3.chr attrs spec

  unfoldable pub mknod_blk : Fh3 → List ℕ → Sattr3 → DeviceSpec3 → Exec Conn Fh3
  unfolding mknod_device
  mknod_blk dir name attrs spec = mknod_device dir name Ftype3.blk attrs spec

  unfoldable pub remove : Fh3 → List ℕ → Exec Conn (Unit {0})
  remove dir name = nfs_call 12 (encode_remove_args dir name) decode_remove_reply

  unfoldable pub rmdir : Fh3 → List ℕ → Exec Conn (Unit {0})
  rmdir dir name = nfs_call 13 (encode_rmdir_args dir name) decode_rmdir_reply

  unfoldable pub rename : Fh3 → List ℕ → Fh3 → List ℕ → Exec Conn (Unit {0})
  rename from_dir from_name to_dir to_name =
      nfs_call 14 (encode_rename_args from_dir from_name to_dir to_name) decode_rename_reply

  unfoldable pub link : Fh3 → Fh3 → List ℕ → Exec Conn (Unit {0})
  link file link_dir link_name =
      nfs_call 15 (encode_link_args file link_dir link_name) decode_link_reply

  unfoldable pub readdir_page : Fh3 → ℕ → List ℕ → ℕ → Exec Conn ReaddirPage
  readdir_page dir cookie cookieverf count =
      nfs_call 16 (encode_readdir_args dir cookie cookieverf count) decode_readdir_reply

  unfoldable pub readdirplus_page : Fh3 → ℕ → List ℕ → ℕ → ℕ → Exec Conn ReaddirplusPage
  readdirplus_page dir cookie cookieverf dircount maxcount =
      nfs_call 17 (encode_readdirplus_args dir cookie cookieverf dircount maxcount)
        decode_readdirplus_reply

  unfoldable pub fsstat : Fh3 → Exec Conn FsstatResult
  fsstat root = nfs_call 18 (encode_fsstat_args root) decode_fsstat_reply

  unfoldable pub fsinfo : Fh3 → Exec Conn FsinfoResult
  fsinfo root = nfs_call 19 (encode_fsinfo_args root) decode_fsinfo_reply

  unfoldable pub pathconf : Fh3 → Exec Conn PathconfResult
  pathconf fh = nfs_call 20 (encode_pathconf_args fh) decode_pathconf_reply

  unfoldable pub commit : Fh3 → ℕ → ℕ → Exec Conn (List ℕ)
  commit fh offset count = nfs_call 21 (encode_commit_args fh offset count) decode_commit_reply
