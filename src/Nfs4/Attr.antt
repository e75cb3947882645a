-- ===== src/Nfs4/Attr.antt =====
-- Attributes of src/nfs4/nfs4_attr.hpp and nfs4_attr.cpp: what a server returns, and what a client
-- sets. The numbers stand for namespace `attr`.
pub mod Returned
pub mod Marks
pub mod Sent
pub mod Bytes
use nfsclient.Base.{ℕ, Bool, true, false, Option, none, some, List, [], if◌then◌else◌}
use nfsclient.Xdr.Encoder.{Enc, ◌⨾◌, skip, encoded, put_uint32, put_uint64, put_opaque, put_string}
use nfsclient.Xdr.Decoder.{
  Decode, pure, run, within, ◌>>=◌, ◌>>◌, get_uint32, get_uint64, get_opaque, get_string,
}
use nfsclient.Nfs4.Types.{Nfstime4, Fattr4, decode_nfstime4}
use nfsclient.Nfs4.Bitmap.{bitmap4_set, bitmap4_test, encode_bitmap4, decode_bitmap4}

abbrev pub attr_type : ℕ
attr_type = 1

abbrev pub attr_change : ℕ
attr_change = 3

abbrev pub attr_size : ℕ
attr_size = 4

abbrev pub attr_fsid : ℕ
attr_fsid = 8

abbrev pub attr_fileid : ℕ
attr_fileid = 20

abbrev pub attr_mode : ℕ
attr_mode = 33

abbrev pub attr_numlinks : ℕ
attr_numlinks = 35

abbrev pub attr_owner : ℕ
attr_owner = 36

abbrev pub attr_owner_group : ℕ
attr_owner_group = 37

abbrev pub attr_space_used : ℕ
attr_space_used = 45

abbrev pub attr_time_access : ℕ
attr_time_access = 47

abbrev pub attr_time_metadata : ℕ
attr_time_metadata = 52

abbrev pub attr_time_modify : ℕ
attr_time_modify = 53

abbrev pub attr_mounted_on_fileid : ℕ
attr_mounted_on_fileid = 55

abbrev pub attr_time_access_set : ℕ
attr_time_access_set = 64

abbrev pub attr_time_modify_set : ℕ
attr_time_modify_set = 65

-- `if (bitmap4_test(bm, id)) a.field = …;`
abbrev pub when_set : {A : Type 0} → Bool → Decode A → Decode (Option A)
when_set b m = if b then (m >>= λ x. pure (some x)) else pure none

-- `fsid4` is read and dropped.
unfoldable pub skip_fsid : Decode (Unit {0})
skip_fsid = do major ← get_uint64; minor ← get_uint64; pure tt

-- The attributes in the order of their numbers, out of the bytes of the attribute list.
unfoldable pub decode_attrlist : List ℕ → Decode Fattr4
unfolding skip_fsid
decode_attrlist bm = do
  type ← when_set (bitmap4_test bm attr_type) get_uint32
  change ← when_set (bitmap4_test bm attr_change) get_uint64
  size ← when_set (bitmap4_test bm attr_size) get_uint64
  fsid ← when_set (bitmap4_test bm attr_fsid) skip_fsid
  fileid ← when_set (bitmap4_test bm attr_fileid) get_uint64
  mode ← when_set (bitmap4_test bm attr_mode) get_uint32
  numlinks ← when_set (bitmap4_test bm attr_numlinks) get_uint32
  owner ← when_set (bitmap4_test bm attr_owner) get_string
  owner_group ← when_set (bitmap4_test bm attr_owner_group) get_string
  space_used ← when_set (bitmap4_test bm attr_space_used) get_uint64
  time_access ← when_set (bitmap4_test bm attr_time_access) decode_nfstime4
  time_metadata ← when_set (bitmap4_test bm attr_time_metadata) decode_nfstime4
  time_modify ← when_set (bitmap4_test bm attr_time_modify) decode_nfstime4
  mounted_on_fileid ← when_set (bitmap4_test bm attr_mounted_on_fileid) get_uint64
  pure (record {
    type = type;
    change = change;
    size = size;
    fileid = fileid;
    mode = mode;
    numlinks = numlinks;
    owner = owner;
    owner_group = owner_group;
    space_used = space_used;
    time_access = time_access;
    time_metadata = time_metadata;
    time_modify = time_modify;
    mounted_on_fileid = mounted_on_fileid;
  })

unfoldable pub decode_fattr4 : Decode Fattr4
unfolding decode_attrlist
decode_fattr4 = do bm ← decode_bitmap4; attrlist ← get_opaque; within (decode_attrlist bm) attrlist

pub record Sattr4 : Type 0 where
  pub size : Option ℕ
  pub mode : Option ℕ
  pub owner : Option (List ℕ)
  pub owner_group : Option (List ℕ)
  pub time_access : Option Nfstime4
  pub time_modify : Option Nfstime4

-- `if (attr) bitmap4_set(bm, id);`
abbrev pub mark : {A : Type 0} → Option A → ℕ → List ℕ → List ℕ
mark none id bm = bm
mark (some a) id bm = bitmap4_set bm id

unfoldable pub settable : Sattr4 → List ℕ
settable s = mark s.time_modify attr_time_modify_set (
    mark s.time_access attr_time_access_set (
      mark s.owner_group attr_owner_group
        (mark s.owner attr_owner (mark s.mode attr_mode (mark s.size attr_size [])))))

-- `if (attr) ae.put(*attr);`
abbrev pub put_present : {A : Type 0} → (A → Enc) → Option A → Enc
put_present put none = skip
put_present put (some a) = put a

-- `settime4`: the time of the client, and the time.
unfoldable pub put_settime : Nfstime4 → Enc
put_settime t = put_uint32 1 ⨾ put_uint64 t.seconds ⨾ put_uint32 t.nseconds

unfoldable pub put_attrs : Sattr4 → Enc
unfolding put_settime
put_attrs s =
    put_present put_uint64 s.size
    ⨾ put_present put_uint32 s.mode
    ⨾ put_present put_string s.owner
    ⨾ put_present put_string s.owner_group
    ⨾ put_present put_settime s.time_access
    ⨾ put_present put_settime s.time_modify

unfoldable pub encode_fattr4 : Sattr4 → Enc
unfolding settable put_attrs
encode_fattr4 s = encode_bitmap4 (settable s) ⨾ put_opaque (encoded (put_attrs s))
