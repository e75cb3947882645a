-- ===== src/Nfs4/Requests.antt =====
-- What each method of `Nfs4Client` and `Nfs41Client` asks for in its COMPOUND and reads from the reply:
-- src/nfs4_client.cpp, and the same in src/nfs41_client.cpp behind SEQUENCE.
use nfsclient.Base.{
  ℕ, zero, suc, ◌/◌, ◌%◌, ◌^◌, Bool, if◌then◌else◌, none, List, [], ◌∷◌, replicate,
}
use nfsclient.Pages.{Page}
use nfsclient.Xdr.Encoder.{Enc, ◌⨾◌}
use nfsclient.Xdr.Decoder.{Decode, pure, ◌>>=◌, ◌>>◌}
use nfsclient.Nfs4.Types.{Nfs4Fh, Stateid4, Stable4, Fattr4, Nfs4File, Nfs4DirEntry}
use nfsclient.Nfs4.Compound.{check_compound_status}
use nfsclient.Nfs4.Attr.{
  Sattr4, attr_type, attr_change, attr_size, attr_fileid, attr_mode, attr_numlinks, attr_owner,
  attr_owner_group, attr_time_access, attr_time_metadata, attr_time_modify,
}
use nfsclient.Nfs4.Ops.{
  ReaddirPage4, encode_putrootfh, encode_putfh, encode_getfh, encode_savefh, encode_access,
  encode_commit, encode_create_dir, encode_create_symlink, encode_remove, encode_rename,
  encode_getattr, encode_lookup, encode_read, encode_write, encode_readlink, encode_setattr,
  encode_readdir, decode_putrootfh_result, decode_putfh_result, decode_getfh_result,
  decode_savefh_result, decode_access_result, decode_commit_result, decode_create_result,
  decode_remove_result, decode_rename_result, decode_getattr_result, decode_lookup_result,
  decode_read_result, decode_write_result, decode_readlink_result, decode_setattr_result,
  decode_readdir_result,
}
use nfsclient.Nfs4.State.{
  Open4Result, encode_open_nocreate, encode_open_create, encode_open_confirm,
  decode_open_confirm_result, encode_close, decode_close_result, decode_open_result,
}

-- `Sattr4{}`
abbrev pub none_set : Sattr4
none_set = record {
  size = none;
  mode = none;
  owner = none;
  owner_group = none;
  time_access = none;
  time_modify = none;
}

-- The operations, how many they are, and the decoder of their results.
pub record Request (A : Type 0) : Type 0 where
  pub ops : Enc
  pub num_ops : ℕ
  pub results : Decode A

-- `XdrDecoder dec(reply); check_compound_status(dec); …`
unfoldable pub after_header : {A : Type 0} → Decode A → Decode A
after_header results = check_compound_status >> results

-- The empty handle stands for the root.
unfoldable pub encode_handle : Nfs4Fh → List ℕ → Enc
encode_handle fh [] = encode_putrootfh
encode_handle fh (b ∷ bs) = encode_putfh fh

unfoldable pub encode_fh : Nfs4Fh → Enc
unfolding encode_handle
encode_fh fh = encode_handle fh fh.handle

unfoldable pub lookup_request : Nfs4Fh → List ℕ → Request Nfs4Fh
lookup_request dir name = record {
  ops = encode_fh dir ⨾ encode_lookup name ⨾ encode_getfh;
  num_ops = 3;
  results = (do decode_putfh_result; decode_lookup_result; decode_getfh_result);
}

abbrev pub getattr_ids : List ℕ
getattr_ids =
    attr_type ∷ attr_change ∷ attr_size ∷ attr_fileid ∷ attr_mode ∷ attr_numlinks ∷ attr_owner
    ∷ attr_owner_group ∷ attr_time_access ∷ attr_time_metadata ∷ attr_time_modify ∷ []

unfoldable pub getattr_request : Nfs4Fh → Request Fattr4
getattr_request fh = record {
  ops = encode_fh fh ⨾ encode_getattr getattr_ids;
  num_ops = 2;
  results = (do decode_putfh_result; decode_getattr_result);
}

unfoldable pub access_request : Nfs4Fh → ℕ → Request ℕ
access_request fh mask = record {
  ops = encode_fh fh ⨾ encode_access mask;
  num_ops = 2;
  results = (do decode_putfh_result; r ← decode_access_result; pure r.access);
}

-- `if (create) encode_open_create(…) else encode_open_nocreate(…)`, and `GETFH`.
unfoldable pub open_ops : Nfs4Fh → ℕ → ℕ → ℕ → List ℕ → List ℕ → Bool → Enc
open_ops dir seqid share_access clientid owner name create =
    encode_fh dir
    ⨾ (if create
        then encode_open_create seqid share_access clientid owner name none_set
        else encode_open_nocreate seqid share_access clientid owner name)
    ⨾ encode_getfh

-- The results of `OPEN` and `GETFH` in `do_open`.
unfoldable pub open_results : Decode (Open4Result × Nfs4Fh)
open_results = do
  decode_putfh_result
  open_res ← decode_open_result
  fh ← decode_getfh_result
  pure (open_res, fh)

unfoldable pub open_confirm_request : Nfs4Fh → Stateid4 → ℕ → Request Stateid4
open_confirm_request fh stateid confirm_seqid = record {
  ops = encode_fh fh ⨾ encode_open_confirm stateid confirm_seqid;
  num_ops = 2;
  results = (do decode_putfh_result; decode_open_confirm_result);
}

unfoldable pub close_request : Nfs4File → Request (Unit {0})
close_request f = record {
  ops = encode_fh f.fh ⨾ encode_close f.seqid f.stateid;
  num_ops = 2;
  results = (do decode_putfh_result; decode_close_result);
}

unfoldable pub read_request : Nfs4File → ℕ → ℕ → Request (List ℕ)
read_request f offset count = record {
  ops = encode_fh f.fh ⨾ encode_read f.stateid offset count;
  num_ops = 2;
  results = (do decode_putfh_result; decode_read_result);
}

unfoldable pub write_request : Nfs4File → ℕ → Stable4 → List ℕ → Request ℕ
write_request f offset stable bytes = record {
  ops = encode_fh f.fh ⨾ encode_write f.stateid offset stable bytes;
  num_ops = 2;
  results = (do decode_putfh_result; r ← decode_write_result; pure r.count);
}

unfoldable pub commit_request : Nfs4File → ℕ → ℕ → Request (List ℕ)
commit_request f offset count = record {
  ops = encode_fh f.fh ⨾ encode_commit offset count;
  num_ops = 2;
  results = (do decode_putfh_result; decode_commit_result);
}

unfoldable pub mkdir_request : Nfs4Fh → List ℕ → Sattr4 → Request Nfs4Fh
mkdir_request dir name attrs = record {
  ops = encode_fh dir ⨾ encode_create_dir name attrs ⨾ encode_getfh;
  num_ops = 3;
  results = (do decode_putfh_result; decode_create_result; decode_getfh_result);
}

unfoldable pub remove_request : Nfs4Fh → List ℕ → Request (Unit {0})
remove_request dir name = record {
  ops = encode_fh dir ⨾ encode_remove name;
  num_ops = 2;
  results = (do decode_putfh_result; decode_remove_result);
}

unfoldable pub rename_request : Nfs4Fh → List ℕ → Nfs4Fh → List ℕ → Request (Unit {0})
rename_request src_dir src_name dst_dir dst_name = record {
  ops = encode_fh src_dir ⨾ encode_savefh ⨾ encode_fh dst_dir ⨾ encode_rename src_name dst_name;
  num_ops = 4;
  results = (do
    decode_putfh_result
    decode_savefh_result
    decode_putfh_result
    decode_rename_result);
}

unfoldable pub symlink_request : Nfs4Fh → List ℕ → List ℕ → Sattr4 → Request Nfs4Fh
symlink_request dir name target attrs = record {
  ops = encode_fh dir ⨾ encode_create_symlink name target attrs ⨾ encode_getfh;
  num_ops = 3;
  results = (do decode_putfh_result; decode_create_result; decode_getfh_result);
}

unfoldable pub readlink_request : Nfs4Fh → Request (List ℕ)
readlink_request fh = record {
  ops = encode_fh fh ⨾ encode_readlink;
  num_ops = 2;
  results = (do decode_putfh_result; decode_readlink_result);
}

-- The anonymous stateid.
abbrev pub anon : Stateid4
anon = record { seqid = 0; other = replicate 12 0 }

unfoldable pub setattr_request : Nfs4Fh → Sattr4 → Request (Unit {0})
setattr_request fh attrs = record {
  ops = encode_fh fh ⨾ encode_setattr anon attrs;
  num_ops = 2;
  results = (do decode_putfh_result; decode_setattr_result);
}

abbrev pub readdir_ids : List ℕ
readdir_ids = attr_type ∷ attr_size ∷ attr_fileid ∷ attr_mode ∷ attr_time_modify ∷ []

abbrev pub page_of : ReaddirPage4 → Page Nfs4DirEntry
page_of p = record { entries = p.entries; eof = p.eof; cookieverf = p.cookieverf }

abbrev pub cookie_of : Nfs4DirEntry → ℕ
cookie_of e = e.cookie

-- One round of the loop of `readdir`.
unfoldable pub readdir_request : Nfs4Fh → ℕ → List ℕ → Request (Page Nfs4DirEntry)
readdir_request dir cookie cookieverf = record {
  ops = encode_fh dir ⨾ encode_readdir cookie cookieverf 4096 32768 readdir_ids;
  num_ops = 2;
  results = (do decode_putfh_result; p ← decode_readdir_result; pure (page_of p));
}

-- The verifier of a client: the eight bytes of the clock, the last one first.
unfoldable pub clock_bytes : ℕ → ℕ → List ℕ → List ℕ
clock_bytes zero now verifier = verifier
clock_bytes (suc i) now verifier = clock_bytes i (now / 2 ^ 8) ((now % 2 ^ 8) ∷ verifier)

unfoldable pub boot_verifier : ℕ → List ℕ
unfolding clock_bytes
boot_verifier now = clock_bytes 8 now []

-- "init"
abbrev pub tag_init : List ℕ
tag_init = b'i' ∷ b'n' ∷ b'i' ∷ b't' ∷ []

-- `PUTROOTFH` and `GETFH` of the constructors: the handle is dropped.
unfoldable pub root_request : Request (Unit {0})
root_request = record {
  ops = encode_putrootfh ⨾ encode_getfh;
  num_ops = 2;
  results = (do decode_putrootfh_result; fh ← decode_getfh_result; pure tt);
}

-- `Nfs4Fh{}`
abbrev pub root_sentinel : Nfs4Fh
root_sentinel = record { handle = [] }
