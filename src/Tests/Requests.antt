-- ===== src/Tests/Requests.antt =====
-- The arguments that src/nfs sends, at small inputs.
use nfsclient.Base.{ℕ, ◌≡◌, refl, true, false, List, [], ◌∷◌, length, replicate, arith}
use nfsclient.Errors.{ok}
use nfsclient.Xdr.Decoder.{run}
use nfsclient.Nfs3.Types.{Fh3, Stable3, stable3, Ftype3, SetTimeHow, Sattr3}
use nfsclient.Nfs3.Files.{
  encode_lookup_args, encode_read_args, encode_write_args, encode_commit_args, SattrGuard3,
  encode_setattr_args,
}
use nfsclient.Nfs3.Names.{
  CreateMode3, DeviceSpec3, encode_create_args, encode_create_args_exclusive, encode_mknod_args,
  encode_mkdir_args, encode_symlink_args, encode_mknod_device_args, encode_remove_args,
  encode_rmdir_args, encode_rename_args, encode_link_args,
}
use nfsclient.Nfs3.Listing.{encode_readdir_args, encode_readdirplus_args}
use nfsclient.Nfs3.Requests.{changes, IsSattr}
use nfsclient.Nfs3.Requests.Names.{
  read_dirop, read_create, read_mkdir, read_symlink, read_mknod, CreateHow, NodeData, read_rename,
  read_link, encode_args-create, encode_args-names,
}
use nfsclient.Nfs3.Requests.Files.{
  read_range, read_write, read_setattr, read_readdir, read_readdirplus, guard_time,
  encode_args-files, encode_args-listings,
}

abbrev fh : Fh3
fh = record { handle = 1 ∷ 2 ∷ 3 ∷ [] }

abbrev other : Fh3
other = record { handle = 9 ∷ [] }

abbrev name : List ℕ
name = 97 ∷ 98 ∷ []

abbrev attrs : Sattr3
attrs = record {
  set_mode = true;
  mode = 420;
  set_uid = false;
  uid = 0;
  set_gid = false;
  gid = 0;
  set_size = true;
  size = 5000000000;
  set_atime = SetTimeHow.set_to_server_time;
  atime_sec = 0;
  atime_nsec = 0;
  set_mtime = SetTimeHow.set_to_client_time;
  mtime_sec = 1700000000;
  mtime_nsec = 5;
}

attrs-IsSattr : IsSattr attrs
attrs-IsSattr = record {
  mode = omega arith;
  uid = omega arith;
  gid = omega arith;
  size = omega arith;
  atime = (omega arith, omega arith);
  mtime = (omega arith, omega arith);
}

abbrev device : DeviceSpec3
device = record { major_num = 8; minor_num = 1 }

abbrev guard : SattrGuard3
guard = record { check = true; ctime_sec = 77; ctime_nsec = 3 }

encode_args-create_example :
    (run read_create (encode_create_args fh name CreateMode3.unchecked attrs)
      ≡ ok (fh, name, CreateHow.unchecked (changes attrs)))
    × (run read_create (encode_create_args fh name CreateMode3.guarded attrs)
        ≡ ok (fh, name, CreateHow.guarded (changes attrs)))
    × (run read_create (encode_create_args_exclusive fh name (replicate 8 1))
        ≡ ok (fh, name, CreateHow.exclusive (replicate 8 1)))
    × (run read_mkdir (encode_mkdir_args fh name attrs) ≡ ok (fh, name, changes attrs))
    × (run read_symlink (encode_symlink_args fh name name attrs)
        ≡ ok (fh, name, changes attrs, name))
    × (run read_mknod (encode_mknod_device_args fh name Ftype3.blk attrs device)
        ≡ ok (fh, name, NodeData.block_device (changes attrs) 8 1))
    × (run read_mknod (encode_mknod_device_args fh name Ftype3.chr attrs device)
        ≡ ok (fh, name, NodeData.char_device (changes attrs) 8 1))
    × (run read_mknod (encode_mknod_args fh name Ftype3.sock attrs)
        ≡ ok (fh, name, NodeData.socket (changes attrs)))
    × (run read_mknod (encode_mknod_args fh name Ftype3.fifo attrs)
        ≡ ok (fh, name, NodeData.fifo (changes attrs)))
encode_args-create_example =
    encode_args-create fh name name (replicate 8 1) attrs device (omega arith) (omega arith)
      (omega arith) refl attrs-IsSattr (omega arith, omega arith)

encode_args-names_example :
    (run read_dirop (encode_lookup_args fh name) ≡ ok (fh, name))
    × (run read_dirop (encode_remove_args fh name) ≡ ok (fh, name))
    × (run read_dirop (encode_rmdir_args fh name) ≡ ok (fh, name))
    × (run read_rename (encode_rename_args fh name other (99 ∷ [])) ≡ ok (fh, name, other, 99 ∷ []))
    × (run read_link (encode_link_args fh other name) ≡ ok (fh, other, name))
encode_args-names_example =
    encode_args-names fh other name (99 ∷ []) (omega arith, omega arith) (omega arith, omega arith)

encode_args-files_example :
    (run read_range (encode_read_args fh 4294967296 512) ≡ ok (fh, 4294967296, 512))
    × (run read_range (encode_commit_args fh 4294967296 512) ≡ ok (fh, 4294967296, 512))
    × (run read_write (encode_write_args fh 4294967296 Stable3.file_sync name)
        ≡ ok (fh, 4294967296, length name, stable3 Stable3.file_sync, name))
    × (run read_setattr (encode_setattr_args fh attrs guard)
        ≡ ok (fh, changes attrs, guard_time guard))
encode_args-files_example =
    encode_args-files fh 4294967296 512 Stable3.file_sync name attrs guard (omega arith)
      (omega arith, omega arith) (omega arith) attrs-IsSattr (omega arith, omega arith)

encode_args-listings_example :
    (run read_readdir (encode_readdir_args fh 33 (replicate 8 1) 4096)
      ≡ ok (fh, 33, replicate 8 1, 4096))
    × (run read_readdirplus (encode_readdirplus_args fh 33 (replicate 8 1) 4096 8192)
        ≡ ok (fh, 33, replicate 8 1, 4096, 8192))
encode_args-listings_example =
    encode_args-listings fh 33 (replicate 8 1) 4096 8192 (omega arith)
      (omega arith, omega arith, omega arith) refl
