-- ===== src/Nfs3/Names.antt =====
-- Arguments and replies of the procedures that change directories: src/nfs/create.cpp, dirop.cpp,
-- rename.cpp, mknod.cpp, and SYMLINK and LINK of symlink.cpp.
use nfsclient.Base.{ℕ, String, List}
use nfsclient.Errors.{Result}
use nfsclient.Xdr.Encoder.{◌⨾◌, encoded, put_uint32, put_string, put_fixed_opaque}
use nfsclient.Xdr.Decoder.{Decode, pure, run, ◌>>=◌, ◌>>◌, get_uint32}
use nfsclient.Nfs3.Types.{
  Fh3, Ftype3, ftype3, Sattr3, encode_fh3, decode_fh3, encode_sattr3, skip_post_op_attr,
  skip_wcc_data,
}
use nfsclient.Nfs3.Status.{check_status, check_present}

pub data CreateMode3 : Type 0 where
  unchecked guarded exclusive : CreateMode3

unfoldable pub create_mode3 : CreateMode3 → ℕ
create_mode3 CreateMode3.unchecked = 0
create_mode3 CreateMode3.guarded = 1
create_mode3 CreateMode3.exclusive = 2

pub record DeviceSpec3 : Type 0 where
  pub major_num : ℕ
  pub minor_num : ℕ

unfoldable pub encode_create_args : Fh3 → List ℕ → CreateMode3 → Sattr3 → List ℕ
unfolding create_mode3
encode_create_args dir name mode attrs =
    encoded
      (encode_fh3 dir ⨾ put_string name ⨾ put_uint32 (create_mode3 mode) ⨾ encode_sattr3 attrs)

-- `verf` is an array of eight bytes.
unfoldable pub encode_create_args_exclusive : Fh3 → List ℕ → List ℕ → List ℕ
unfolding create_mode3
encode_create_args_exclusive dir name verf = encoded (
    encode_fh3 dir
    ⨾ put_string name
    ⨾ put_uint32 (create_mode3 CreateMode3.exclusive)
    ⨾ put_fixed_opaque verf)

-- The replies of CREATE, MKDIR, SYMLINK and MKNOD are read by the same statements.
unfoldable pub new_object_reply : String → Decode Fh3
new_object_reply proc = do
  status ← get_uint32
  check_status status proc
  fh_present ← get_uint32
  check_present fh_present proc
  fh ← decode_fh3
  skip_post_op_attr
  skip_wcc_data
  pure fh

unfoldable pub decode_create_reply : List ℕ → Result Fh3
unfolding new_object_reply
decode_create_reply bytes = run (new_object_reply "CREATE") bytes

unfoldable pub encode_mkdir_args : Fh3 → List ℕ → Sattr3 → List ℕ
encode_mkdir_args dir name attrs = encoded (encode_fh3 dir ⨾ put_string name ⨾ encode_sattr3 attrs)

unfoldable pub decode_mkdir_reply : List ℕ → Result Fh3
unfolding new_object_reply
decode_mkdir_reply bytes = run (new_object_reply "MKDIR") bytes

unfoldable pub encode_remove_args : Fh3 → List ℕ → List ℕ
encode_remove_args dir name = encoded (encode_fh3 dir ⨾ put_string name)

-- The replies of REMOVE and RMDIR.
unfoldable pub removed_reply : String → Decode (Unit {0})
removed_reply proc = do status ← get_uint32; check_status status proc; skip_wcc_data

unfoldable pub decode_remove_reply : List ℕ → Result (Unit {0})
unfolding removed_reply
decode_remove_reply bytes = run (removed_reply "REMOVE") bytes

unfoldable pub encode_rmdir_args : Fh3 → List ℕ → List ℕ
encode_rmdir_args dir name = encoded (encode_fh3 dir ⨾ put_string name)

unfoldable pub decode_rmdir_reply : List ℕ → Result (Unit {0})
unfolding removed_reply
decode_rmdir_reply bytes = run (removed_reply "RMDIR") bytes

unfoldable pub encode_rename_args : Fh3 → List ℕ → Fh3 → List ℕ → List ℕ
encode_rename_args from_dir from_name to_dir to_name =
    encoded (encode_fh3 from_dir ⨾ put_string from_name ⨾ encode_fh3 to_dir ⨾ put_string to_name)

unfoldable pub rename_reply : Decode (Unit {0})
rename_reply = do status ← get_uint32; skip_wcc_data; skip_wcc_data; check_status status "RENAME"

unfoldable pub decode_rename_reply : List ℕ → Result (Unit {0})
unfolding rename_reply
decode_rename_reply bytes = run rename_reply bytes

unfoldable pub encode_symlink_args : Fh3 → List ℕ → List ℕ → Sattr3 → List ℕ
encode_symlink_args dir name target attrs =
    encoded (encode_fh3 dir ⨾ put_string name ⨾ encode_sattr3 attrs ⨾ put_string target)

unfoldable pub decode_symlink_reply : List ℕ → Result Fh3
unfolding new_object_reply
decode_symlink_reply bytes = run (new_object_reply "SYMLINK") bytes

unfoldable pub encode_link_args : Fh3 → Fh3 → List ℕ → List ℕ
encode_link_args file link_dir link_name =
    encoded (encode_fh3 file ⨾ encode_fh3 link_dir ⨾ put_string link_name)

unfoldable pub link_reply : Decode (Unit {0})
link_reply = do status ← get_uint32; skip_post_op_attr; skip_wcc_data; check_status status "LINK"

unfoldable pub decode_link_reply : List ℕ → Result (Unit {0})
unfolding link_reply
decode_link_reply bytes = run link_reply bytes

unfoldable pub encode_mknod_args : Fh3 → List ℕ → Ftype3 → Sattr3 → List ℕ
unfolding ftype3
encode_mknod_args dir name type attrs =
    encoded (encode_fh3 dir ⨾ put_string name ⨾ put_uint32 (ftype3 type) ⨾ encode_sattr3 attrs)

unfoldable pub encode_mknod_device_args : Fh3 → List ℕ → Ftype3 → Sattr3 → DeviceSpec3 → List ℕ
unfolding ftype3
encode_mknod_device_args dir name type attrs spec = encoded (
    encode_fh3 dir
    ⨾ put_string name
    ⨾ put_uint32 (ftype3 type)
    ⨾ encode_sattr3 attrs
    ⨾ put_uint32 spec.major_num
    ⨾ put_uint32 spec.minor_num)

unfoldable pub decode_mknod_reply : List ℕ → Result Fh3
unfolding new_object_reply
decode_mknod_reply bytes = run (new_object_reply "MKNOD") bytes
