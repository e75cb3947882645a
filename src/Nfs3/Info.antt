-- ===== src/Nfs3/Info.antt =====
-- Arguments and replies of src/nfs/fsinfo.cpp: FSSTAT, FSINFO and PATHCONF.
use nfsclient.Base.{ℕ, Bool, not, List, ◌==◌}
use nfsclient.Errors.{Result}
use nfsclient.Xdr.Encoder.{encoded}
use nfsclient.Xdr.Decoder.{Decode, pure, run, ◌>>=◌, ◌>>◌, get_uint32, get_uint64}
use nfsclient.Nfs3.Types.{Fh3, Nfstime3, encode_fh3, skip_post_op_attr}
use nfsclient.Nfs3.Status.{check_status}

pub record FsstatResult : Type 0 where
  pub tbytes : ℕ
  pub fbytes : ℕ
  pub abytes : ℕ
  pub tfiles : ℕ
  pub ffiles : ℕ
  pub afiles : ℕ
  pub invarsec : ℕ

unfoldable pub encode_fsstat_args : Fh3 → List ℕ
encode_fsstat_args root = encoded (encode_fh3 root)

unfoldable pub fsstat_reply : Decode FsstatResult
fsstat_reply = do
  status ← get_uint32
  skip_post_op_attr
  check_status status "FSSTAT"
  tbytes ← get_uint64
  fbytes ← get_uint64
  abytes ← get_uint64
  tfiles ← get_uint64
  ffiles ← get_uint64
  afiles ← get_uint64
  invarsec ← get_uint32
  pure (record {
    tbytes = tbytes;
    fbytes = fbytes;
    abytes = abytes;
    tfiles = tfiles;
    ffiles = ffiles;
    afiles = afiles;
    invarsec = invarsec;
  })

unfoldable pub decode_fsstat_reply : List ℕ → Result FsstatResult
unfolding fsstat_reply
decode_fsstat_reply bytes = run fsstat_reply bytes

pub record FsinfoResult : Type 0 where
  pub rtmax : ℕ
  pub rtpref : ℕ
  pub rtmult : ℕ
  pub wtmax : ℕ
  pub wtpref : ℕ
  pub wtmult : ℕ
  pub dtpref : ℕ
  pub maxfilesize : ℕ
  pub time_delta : Nfstime3
  pub properties : ℕ

unfoldable pub encode_fsinfo_args : Fh3 → List ℕ
encode_fsinfo_args root = encoded (encode_fh3 root)

unfoldable pub fsinfo_reply : Decode FsinfoResult
fsinfo_reply = do
  status ← get_uint32
  skip_post_op_attr
  check_status status "FSINFO"
  rtmax ← get_uint32
  rtpref ← get_uint32
  rtmult ← get_uint32
  wtmax ← get_uint32
  wtpref ← get_uint32
  wtmult ← get_uint32
  dtpref ← get_uint32
  maxfilesize ← get_uint64
  seconds ← get_uint32
  nseconds ← get_uint32
  properties ← get_uint32
  pure (record {
    rtmax = rtmax;
    rtpref = rtpref;
    rtmult = rtmult;
    wtmax = wtmax;
    wtpref = wtpref;
    wtmult = wtmult;
    dtpref = dtpref;
    maxfilesize = maxfilesize;
    time_delta = record { seconds = seconds; nseconds = nseconds };
    properties = properties;
  })

unfoldable pub decode_fsinfo_reply : List ℕ → Result FsinfoResult
unfolding fsinfo_reply
decode_fsinfo_reply bytes = run fsinfo_reply bytes

pub record PathconfResult : Type 0 where
  pub linkmax : ℕ
  pub name_max : ℕ
  pub no_trunc : Bool
  pub chown_restricted : Bool
  pub case_insensitive : Bool
  pub case_preserving : Bool

unfoldable pub encode_pathconf_args : Fh3 → List ℕ
encode_pathconf_args fh = encoded (encode_fh3 fh)

-- `dec.get_uint32() != 0`
abbrev pub is_set : ℕ → Bool
is_set v = not (v == 0)

unfoldable pub pathconf_reply : Decode PathconfResult
pathconf_reply = do
  status ← get_uint32
  skip_post_op_attr
  check_status status "PATHCONF"
  linkmax ← get_uint32
  name_max ← get_uint32
  no_trunc ← get_uint32
  chown_restricted ← get_uint32
  case_insensitive ← get_uint32
  case_preserving ← get_uint32
  pure (record {
    linkmax = linkmax;
    name_max = name_max;
    no_trunc = is_set no_trunc;
    chown_restricted = is_set chown_restricted;
    case_insensitive = is_set case_insensitive;
    case_preserving = is_set case_preserving;
  })

unfoldable pub decode_pathconf_reply : List ℕ → Result PathconfResult
unfolding pathconf_reply
decode_pathconf_reply bytes = run pathconf_reply bytes
