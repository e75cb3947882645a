-- ===== src/Nfs4/Types.antt =====
-- src/nfs4/nfs4_types.hpp: the data of NFS version 4 and its XDR helpers. The 64 bits of an `int64_t`
-- are kept as the word that carries them.
use nfsclient.Base.{ℕ, Option, List}
use nfsclient.Xdr.Encoder.{Enc, ◌⨾◌, put_uint32, put_opaque, put_fixed_opaque}
use nfsclient.Xdr.Decoder.{
  Decode, pure, ◌>>=◌, get_uint32, get_uint64, get_opaque, get_fixed_opaque,
}

pub record Nfs4Fh : Type 0 where
  pub handle : List ℕ

-- `other` is an array of 12 bytes.
pub record Stateid4 : Type 0 where
  pub seqid : ℕ
  pub other : List ℕ

pub record Nfstime4 : Type 0 where
  pub seconds : ℕ
  pub nseconds : ℕ

pub data Ftype4 : Type 0 where
  nf4reg nf4dir nf4blk nf4chr nf4lnk nf4sock nf4fifo nf4attrdir nf4namedattr : Ftype4

unfoldable pub ftype4 : Ftype4 → ℕ
ftype4 Ftype4.nf4reg = 1
ftype4 Ftype4.nf4dir = 2
ftype4 Ftype4.nf4blk = 3
ftype4 Ftype4.nf4chr = 4
ftype4 Ftype4.nf4lnk = 5
ftype4 Ftype4.nf4sock = 6
ftype4 Ftype4.nf4fifo = 7
ftype4 Ftype4.nf4attrdir = 8
ftype4 Ftype4.nf4namedattr = 9

pub data Stable4 : Type 0 where
  unstable data_sync file_sync : Stable4

unfoldable pub stable4 : Stable4 → ℕ
stable4 Stable4.unstable = 0
stable4 Stable4.data_sync = 1
stable4 Stable4.file_sync = 2

pub record Fattr4 : Type 0 where
  pub type : Option ℕ
  pub change : Option ℕ
  pub size : Option ℕ
  pub fileid : Option ℕ
  pub mode : Option ℕ
  pub numlinks : Option ℕ
  pub owner : Option (List ℕ)
  pub owner_group : Option (List ℕ)
  pub space_used : Option ℕ
  pub time_access : Option Nfstime4
  pub time_metadata : Option Nfstime4
  pub time_modify : Option Nfstime4
  pub mounted_on_fileid : Option ℕ

pub record Nfs4WriteResult : Type 0 where
  pub count : ℕ
  pub committed : ℕ
  pub verf : List ℕ

pub record Nfs4DirEntry : Type 0 where
  pub cookie : ℕ
  pub name : List ℕ
  pub attrs : Fattr4

unfoldable pub encode_nfs4fh : Nfs4Fh → Enc
encode_nfs4fh fh = put_opaque fh.handle

unfoldable pub decode_nfs4fh : Decode Nfs4Fh
decode_nfs4fh = do bytes ← get_opaque; pure (record { handle = bytes })

unfoldable pub encode_stateid4 : Stateid4 → Enc
encode_stateid4 sid = put_uint32 sid.seqid ⨾ put_fixed_opaque sid.other

unfoldable pub decode_stateid4 : Decode Stateid4
decode_stateid4 = do
  seqid ← get_uint32
  raw ← get_fixed_opaque 12
  pure (record { seqid = seqid; other = raw })

unfoldable pub decode_nfstime4 : Decode Nfstime4
decode_nfstime4 = do
  seconds ← get_uint64
  nseconds ← get_uint32
  pure (record { seconds = seconds; nseconds = nseconds })

unfoldable pub skip_change_info4 : Decode (Unit {0})
skip_change_info4 = do atomic ← get_uint32; before ← get_uint64; after ← get_uint64; pure tt

-- An open file.
pub record Nfs4File : Type 0 where
  pub fh : Nfs4Fh
  pub stateid : Stateid4
  pub seqid : ℕ
