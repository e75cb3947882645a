-- ===== src/Nfs3/Files.antt =====
-- Arguments and replies of the file procedures: src/nfs/getattr.cpp, setattr.cpp, lookup.cpp,
-- access.cpp, read.cpp, write.cpp, commit.cpp, and READLINK of symlink.cpp.
use nfsclient.Base.{ℕ, ◌%◌, ◌^◌, Bool, List, length}
use nfsclient.Errors.{Result}
use nfsclient.Xdr.Encoder.{◌⨾◌, encoded, put_uint32, put_uint64, put_opaque, put_string}
use nfsclient.Xdr.Decoder.{
  Decode, pure, run, ◌>>=◌, ◌>>◌, get_uint32, get_opaque, get_string, get_fixed_opaque,
}
use nfsclient.Nfs3.Types.{
  Fh3, Stable3, stable3, WriteResult, Fattr3, Sattr3, encode_fh3, decode_fh3, decode_fattr3,
  encode_sattr3, skip_post_op_attr, skip_wcc_data, put_if,
}
use nfsclient.Nfs3.Status.{check_status}

unfoldable pub encode_getattr_args : Fh3 → List ℕ
encode_getattr_args fh = encoded (encode_fh3 fh)

unfoldable pub getattr_reply : Decode Fattr3
getattr_reply = do status ← get_uint32; check_status status "GETATTR"; decode_fattr3

unfoldable pub decode_getattr_reply : List ℕ → Result Fattr3
unfolding getattr_reply
decode_getattr_reply bytes = run getattr_reply bytes

unfoldable pub encode_lookup_args : Fh3 → List ℕ → List ℕ
encode_lookup_args dir name = encoded (encode_fh3 dir ⨾ put_string name)

unfoldable pub lookup_reply : Decode Fh3
lookup_reply = do
  status ← get_uint32
  check_status status "LOOKUP"
  fh ← decode_fh3
  skip_post_op_attr
  skip_post_op_attr
  pure fh

unfoldable pub decode_lookup_reply : List ℕ → Result Fh3
unfolding lookup_reply
decode_lookup_reply bytes = run lookup_reply bytes

unfoldable pub encode_access_args : Fh3 → ℕ → List ℕ
encode_access_args fh access_mask = encoded (encode_fh3 fh ⨾ put_uint32 access_mask)

unfoldable pub access_reply : Decode ℕ
access_reply = do status ← get_uint32; skip_post_op_attr; check_status status "ACCESS"; get_uint32

unfoldable pub decode_access_reply : List ℕ → Result ℕ
unfolding access_reply
decode_access_reply bytes = run access_reply bytes

unfoldable pub encode_read_args : Fh3 → ℕ → ℕ → List ℕ
encode_read_args fh offset count = encoded (encode_fh3 fh ⨾ put_uint64 offset ⨾ put_uint32 count)

unfoldable pub read_reply : Decode (List ℕ)
read_reply = do
  status ← get_uint32
  skip_post_op_attr
  check_status status "READ"
  count ← get_uint32
  eof ← get_uint32
  get_opaque

unfoldable pub decode_read_reply : List ℕ → Result (List ℕ)
unfolding read_reply
decode_read_reply bytes = run read_reply bytes

-- `data` and `data_size` are one list.
unfoldable pub encode_write_args : Fh3 → ℕ → Stable3 → List ℕ → List ℕ
unfolding stable3
encode_write_args fh offset stable bytes = encoded (
    encode_fh3 fh
    ⨾ put_uint64 offset
    ⨾ put_uint32 (length bytes % 2 ^ 32)
    ⨾ put_uint32 (stable3 stable)
    ⨾ put_opaque bytes)

unfoldable pub write_reply : Decode WriteResult
write_reply = do
  status ← get_uint32
  skip_wcc_data
  check_status status "WRITE"
  count ← get_uint32
  committed ← get_uint32
  verf ← get_fixed_opaque 8
  pure (record { count = count; committed = committed; verf = verf })

unfoldable pub decode_write_reply : List ℕ → Result WriteResult
unfolding write_reply
decode_write_reply bytes = run write_reply bytes

unfoldable pub encode_commit_args : Fh3 → ℕ → ℕ → List ℕ
encode_commit_args fh offset count = encoded (encode_fh3 fh ⨾ put_uint64 offset ⨾ put_uint32 count)

unfoldable pub commit_reply : Decode (List ℕ)
commit_reply = do
  status ← get_uint32
  skip_wcc_data
  check_status status "COMMIT"
  get_fixed_opaque 8

unfoldable pub decode_commit_reply : List ℕ → Result (List ℕ)
unfolding commit_reply
decode_commit_reply bytes = run commit_reply bytes

unfoldable pub encode_readlink_args : Fh3 → List ℕ
encode_readlink_args symlink_fh = encoded (encode_fh3 symlink_fh)

unfoldable pub readlink_reply : Decode (List ℕ)
readlink_reply = do
  status ← get_uint32
  skip_post_op_attr
  check_status status "READLINK"
  get_string

unfoldable pub decode_readlink_reply : List ℕ → Result (List ℕ)
unfolding readlink_reply
decode_readlink_reply bytes = run readlink_reply bytes

pub record SattrGuard3 : Type 0 where
  pub check : Bool
  pub ctime_sec : ℕ
  pub ctime_nsec : ℕ

unfoldable pub encode_setattr_args : Fh3 → Sattr3 → SattrGuard3 → List ℕ
encode_setattr_args fh attrs guard = encoded (
    encode_fh3 fh
    ⨾ encode_sattr3 attrs
    ⨾ put_if guard.check (put_uint32 guard.ctime_sec ⨾ put_uint32 guard.ctime_nsec))

unfoldable pub setattr_reply : Decode (Unit {0})
setattr_reply = do status ← get_uint32; skip_wcc_data; check_status status "SETATTR"

unfoldable pub decode_setattr_reply : List ℕ → Result (Unit {0})
unfolding setattr_reply
decode_setattr_reply bytes = run setattr_reply bytes
