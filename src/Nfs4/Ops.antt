-- ===== src/Nfs4/Ops.antt =====
-- The operations of a COMPOUND: src/nfs4/fh_ops.cpp, access.cpp, commit.cpp, create.cpp, dirop.cpp,
-- getattr.cpp, lookup.cpp, read.cpp, readdir.cpp, readlink.cpp, setattr.cpp and write.cpp. The numbers
-- of the operations stand in compound.hpp.
pub mod Failures
pub mod Items
pub mod Safety
pub mod Successes
use nfsclient.Base.{ℕ, ◌%◌, ◌^◌, Bool, not, List, String, ◌==◌, if◌then◌else◌}
use nfsclient.Errors.{Exception}
use nfsclient.Xdr.Encoder.{
  Enc, ◌⨾◌, put_uint32, put_uint64, put_opaque, put_string, put_fixed_opaque,
}
use nfsclient.Xdr.Decoder.{
  Decode, pure, raise, ◌>>=◌, ◌>>◌, get_uint32, get_uint64, get_opaque, get_string,
  get_fixed_opaque, repeat, linked_list,
}
use nfsclient.Nfs4.Types.{
  Nfs4Fh, Stateid4, Ftype4, ftype4, Stable4, stable4, Fattr4, Nfs4WriteResult, Nfs4DirEntry,
  encode_nfs4fh, decode_nfs4fh, encode_stateid4, skip_change_info4,
}
use nfsclient.Nfs4.Compound.{check_status4}
use nfsclient.Nfs4.Bitmap.{encode_attr_request}
use nfsclient.Nfs4.Attr.{decode_fattr4, Sattr4, encode_fattr4}

-- `uint32_t resop = …; uint32_t status = …; if (status != 0) throw …;`: the number of the operation in
-- the result is not looked at.
unfoldable pub check_op_status : String → Decode (Unit {0})
unfolding check_status4
check_op_status name = do resop ← get_uint32; status ← get_uint32; check_status4 status name

unfoldable pub encode_putrootfh : Enc
encode_putrootfh = put_uint32 24

unfoldable pub encode_putfh : Nfs4Fh → Enc
encode_putfh fh = put_uint32 22 ⨾ encode_nfs4fh fh

unfoldable pub encode_getfh : Enc
encode_getfh = put_uint32 10

unfoldable pub encode_savefh : Enc
encode_savefh = put_uint32 32

unfoldable pub encode_restorefh : Enc
encode_restorefh = put_uint32 31

unfoldable pub encode_lookupp : Enc
encode_lookupp = put_uint32 16

unfoldable pub decode_putrootfh_result : Decode (Unit {0})
unfolding check_op_status
decode_putrootfh_result = check_op_status "PUTROOTFH"

unfoldable pub decode_putfh_result : Decode (Unit {0})
unfolding check_op_status
decode_putfh_result = check_op_status "PUTFH"

unfoldable pub decode_savefh_result : Decode (Unit {0})
unfolding check_op_status
decode_savefh_result = check_op_status "SAVEFH"

unfoldable pub decode_restorefh_result : Decode (Unit {0})
unfolding check_op_status
decode_restorefh_result = check_op_status "RESTOREFH"

unfoldable pub decode_lookupp_result : Decode (Unit {0})
unfolding check_op_status
decode_lookupp_result = check_op_status "LOOKUPP"

unfoldable pub decode_getfh_result : Decode Nfs4Fh
unfolding check_op_status
decode_getfh_result = do check_op_status "GETFH"; decode_nfs4fh

pub record Access4Result : Type 0 where
  pub supported : ℕ
  pub access : ℕ

unfoldable pub encode_access : ℕ → Enc
encode_access access_mask = put_uint32 3 ⨾ put_uint32 access_mask

unfoldable pub decode_access_result : Decode Access4Result
unfolding check_op_status
decode_access_result = do
  check_op_status "ACCESS"
  supported ← get_uint32
  access ← get_uint32
  pure (record { supported = supported; access = access })

unfoldable pub encode_commit : ℕ → ℕ → Enc
encode_commit offset count = put_uint32 5 ⨾ put_uint64 offset ⨾ put_uint32 count

unfoldable pub decode_commit_result : Decode (List ℕ)
unfolding check_op_status
decode_commit_result = do check_op_status "COMMIT"; get_fixed_opaque 8

unfoldable pub encode_create_dir : List ℕ → Sattr4 → Enc
unfolding ftype4
encode_create_dir name attrs =
    put_uint32 6 ⨾ put_uint32 (ftype4 Ftype4.nf4dir) ⨾ put_string name ⨾ encode_fattr4 attrs

unfoldable pub encode_create_symlink : List ℕ → List ℕ → Sattr4 → Enc
unfolding ftype4
encode_create_symlink name target attrs =
    put_uint32 6
    ⨾ put_uint32 (ftype4 Ftype4.nf4lnk)
    ⨾ put_string target
    ⨾ put_string name
    ⨾ encode_fattr4 attrs

-- A bitmap that is read and dropped.
unfoldable pub skip_bitmap : Decode (Unit {0})
skip_bitmap = do bm_size ← get_uint32; words ← repeat bm_size get_uint32; pure tt

unfoldable pub decode_create_result : Decode (Unit {0})
unfolding check_op_status skip_bitmap
decode_create_result = do check_op_status "CREATE"; skip_change_info4; skip_bitmap

unfoldable pub encode_remove : List ℕ → Enc
encode_remove name = put_uint32 28 ⨾ put_string name

unfoldable pub decode_remove_result : Decode (Unit {0})
unfolding check_op_status
decode_remove_result = do check_op_status "REMOVE"; skip_change_info4

unfoldable pub encode_rename : List ℕ → List ℕ → Enc
encode_rename oldname newname = put_uint32 29 ⨾ put_string oldname ⨾ put_string newname

unfoldable pub decode_rename_result : Decode (Unit {0})
unfolding check_op_status
decode_rename_result = do check_op_status "RENAME"; skip_change_info4; skip_change_info4

unfoldable pub encode_getattr : List ℕ → Enc
encode_getattr attr_ids = put_uint32 9 ⨾ encode_attr_request attr_ids

unfoldable pub decode_getattr_result : Decode Fattr4
unfolding check_op_status
decode_getattr_result = do check_op_status "GETATTR"; decode_fattr4

unfoldable pub encode_lookup : List ℕ → Enc
encode_lookup name = put_uint32 15 ⨾ put_string name

unfoldable pub decode_lookup_result : Decode (Unit {0})
unfolding check_op_status
decode_lookup_result = check_op_status "LOOKUP"

unfoldable pub encode_read : Stateid4 → ℕ → ℕ → Enc
encode_read stateid offset count =
    put_uint32 25 ⨾ encode_stateid4 stateid ⨾ put_uint64 offset ⨾ put_uint32 count

unfoldable pub decode_read_result : Decode (List ℕ)
unfolding check_op_status
decode_read_result = do check_op_status "READ"; eof ← get_uint32; get_opaque

-- `data` and `len` are one list, shorter than 2 ^ 32.
unfoldable pub encode_write : Stateid4 → ℕ → Stable4 → List ℕ → Enc
unfolding stable4
encode_write stateid offset stable bytes =
    put_uint32 38
    ⨾ encode_stateid4 stateid
    ⨾ put_uint64 offset
    ⨾ put_uint32 (stable4 stable)
    ⨾ put_opaque bytes

unfoldable pub decode_write_result : Decode Nfs4WriteResult
unfolding check_op_status
decode_write_result = do
  check_op_status "WRITE"
  count ← get_uint32
  committed ← get_uint32
  verf ← get_fixed_opaque 8
  pure (record { count = count; committed = committed; verf = verf })

unfoldable pub encode_readlink : Enc
encode_readlink = put_uint32 27

unfoldable pub decode_readlink_result : Decode (List ℕ)
unfolding check_op_status
decode_readlink_result = do check_op_status "READLINK"; get_string

unfoldable pub encode_setattr : Stateid4 → Sattr4 → Enc
encode_setattr stateid attrs = put_uint32 34 ⨾ encode_stateid4 stateid ⨾ encode_fattr4 attrs

unfoldable pub decode_setattr_result : Decode (Unit {0})
unfolding check_op_status skip_bitmap
decode_setattr_result = do check_op_status "SETATTR"; skip_bitmap

pub record ReaddirPage4 : Type 0 where
  pub entries : List Nfs4DirEntry
  pub eof : Bool
  pub cookieverf : List ℕ

unfoldable pub encode_readdir : ℕ → List ℕ → ℕ → ℕ → List ℕ → Enc
encode_readdir cookie cookieverf dircount maxcount attr_ids =
    put_uint32 26
    ⨾ put_uint64 cookie
    ⨾ put_fixed_opaque cookieverf
    ⨾ put_uint32 dircount
    ⨾ put_uint32 maxcount
    ⨾ encode_attr_request attr_ids

unfoldable pub dir_entry4 : Decode Nfs4DirEntry
dir_entry4 = do
  cookie ← get_uint64
  name ← get_string
  attrs ← decode_fattr4
  pure (record { cookie = cookie; name = name; attrs = attrs })

unfoldable pub decode_readdir_result : Decode ReaddirPage4
unfolding check_op_status dir_entry4
decode_readdir_result = do
  check_op_status "READDIR"
  cookieverf ← get_fixed_opaque 8
  entries ← linked_list dir_entry4
  eof ← get_uint32
  pure (record { entries = entries; eof = not (eof == 0); cookieverf = cookieverf })
