-- ===== src/Nfs3/Types.antt =====
-- src/nfs/nfs3_types.hpp: the data of NFS version 3 and its XDR helpers. An enum with a fixed
-- underlying type holds any `uint32_t`, so a field that is read from the wire is a number.
pub mod Wire
pub mod Reads
use nfsclient.Base.{ℕ, Bool, true, false, List, ◌==◌, if◌then◌else◌, suc, zero}
use nfsclient.Xdr.Encoder.{Enc, ◌⨾◌, skip, put_uint32, put_uint64, put_opaque}
use nfsclient.Xdr.Decoder.{Decode, pure, ◌>>=◌, ◌>>◌, get_uint32, get_uint64, get_opaque, repeat}

pub record Fh3 : Type 0 where
  pub handle : List ℕ

pub data Stable3 : Type 0 where
  unstable data_sync file_sync : Stable3

unfoldable pub stable3 : Stable3 → ℕ
stable3 Stable3.unstable = 0
stable3 Stable3.data_sync = 1
stable3 Stable3.file_sync = 2

pub record WriteResult : Type 0 where
  pub count : ℕ
  pub committed : ℕ
  pub verf : List ℕ

pub data Ftype3 : Type 0 where
  reg dir blk chr lnk sock fifo : Ftype3

unfoldable pub ftype3 : Ftype3 → ℕ
ftype3 Ftype3.reg = 1
ftype3 Ftype3.dir = 2
ftype3 Ftype3.blk = 3
ftype3 Ftype3.chr = 4
ftype3 Ftype3.lnk = 5
ftype3 Ftype3.sock = 6
ftype3 Ftype3.fifo = 7

pub record Nfstime3 : Type 0 where
  pub seconds : ℕ
  pub nseconds : ℕ

pub record Specdata3 : Type 0 where
  pub specdata1 : ℕ
  pub specdata2 : ℕ

pub record Fattr3 : Type 0 where
  pub type : ℕ
  pub mode : ℕ
  pub nlink : ℕ
  pub uid : ℕ
  pub gid : ℕ
  pub size : ℕ
  pub used : ℕ
  pub rdev : Specdata3
  pub fsid : ℕ
  pub fileid : ℕ
  pub atime : Nfstime3
  pub mtime : Nfstime3
  pub ctime : Nfstime3

pub data SetTimeHow : Type 0 where
  dont_change set_to_server_time set_to_client_time : SetTimeHow

unfoldable pub set_time_how : SetTimeHow → ℕ
set_time_how SetTimeHow.dont_change = 0
set_time_how SetTimeHow.set_to_server_time = 1
set_time_how SetTimeHow.set_to_client_time = 2

pub record Sattr3 : Type 0 where
  pub set_mode : Bool
  pub mode : ℕ
  pub set_uid : Bool
  pub uid : ℕ
  pub set_gid : Bool
  pub gid : ℕ
  pub set_size : Bool
  pub size : ℕ
  pub set_atime : SetTimeHow
  pub atime_sec : ℕ
  pub atime_nsec : ℕ
  pub set_mtime : SetTimeHow
  pub mtime_sec : ℕ
  pub mtime_nsec : ℕ

unfoldable pub encode_fh3 : Fh3 → Enc
encode_fh3 fh = put_opaque fh.handle

unfoldable pub decode_fh3 : Decode Fh3
decode_fh3 = do bytes ← get_opaque; pure (record { handle = bytes })

unfoldable pub decode_fattr3 : Decode Fattr3
decode_fattr3 = do
  type ← get_uint32
  mode ← get_uint32
  nlink ← get_uint32
  uid ← get_uint32
  gid ← get_uint32
  size ← get_uint64
  used ← get_uint64
  specdata1 ← get_uint32
  specdata2 ← get_uint32
  fsid ← get_uint64
  fileid ← get_uint64
  asec ← get_uint32
  ansec ← get_uint32
  msec ← get_uint32
  mnsec ← get_uint32
  csec ← get_uint32
  cnsec ← get_uint32
  pure (record {
    type = type;
    mode = mode;
    nlink = nlink;
    uid = uid;
    gid = gid;
    size = size;
    used = used;
    rdev = record { specdata1 = specdata1; specdata2 = specdata2 };
    fsid = fsid;
    fileid = fileid;
    atime = record { seconds = asec; nseconds = ansec };
    mtime = record { seconds = msec; nseconds = mnsec };
    ctime = record { seconds = csec; nseconds = cnsec };
  })

-- `put_uint32(flag ? 1 : 0); if (flag) body;`
abbrev pub put_if : Bool → Enc → Enc
put_if flag body = put_uint32 (if flag then 1 else 0) ⨾ (if flag then body else skip)

-- The discriminant, and the time if it is the client's.
abbrev pub put_time : SetTimeHow → ℕ → ℕ → Enc
put_time how sec nsec =
    put_uint32 (set_time_how how)
    ⨾ (if set_time_how how == 2 then put_uint32 sec ⨾ put_uint32 nsec else skip)

unfoldable pub encode_sattr3 : Sattr3 → Enc
unfolding set_time_how
encode_sattr3 s =
    put_if s.set_mode (put_uint32 s.mode)
    ⨾ put_if s.set_uid (put_uint32 s.uid)
    ⨾ put_if s.set_gid (put_uint32 s.gid)
    ⨾ put_if s.set_size (put_uint64 s.size)
    ⨾ put_time s.set_atime s.atime_sec s.atime_nsec
    ⨾ put_time s.set_mtime s.mtime_sec s.mtime_nsec

unfoldable pub skip_post_op_attr : Decode (Unit {0})
skip_post_op_attr = do
  follows ← get_uint32
  if follows == 0 then pure tt else (decode_fattr3 >> pure tt)

unfoldable pub skip_pre_op_attr : Decode (Unit {0})
skip_pre_op_attr = do
  follows ← get_uint32
  if follows == 0 then pure tt else (repeat 6 get_uint32 >> pure tt)

unfoldable pub skip_wcc_data : Decode (Unit {0})
skip_wcc_data = do skip_pre_op_attr; skip_post_op_attr
