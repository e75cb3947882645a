-- ===== src/Nfs4/Ops/Safety.antt =====
-- No result of a COMPOUND can make a decoder of src/nfs4 read outside its buffer.
use nfsclient.Base.{ℕ, ◌≢◌, List, String, Bool, none, some}
use nfsclient.Errors.{fault, Fault}
use nfsclient.Xdr.Decoder.{Decode, run, linked_list}
use nfsclient.Xdr.Safe.{
  Safe, Safe-pure, Safe-bind, Safe-if, Safe-raise, Safe-uint32, Safe-uint64, Safe-opaque,
  Safe-string, Safe-fixed_opaque, Safe-repeat, Safe-linked_list, Safe-within, run-Safe,
}
use nfsclient.Nfs4.Types.{decode_nfs4fh, decode_nfstime4, skip_change_info4}
use nfsclient.Nfs4.Bitmap.{decode_bitmap4}
use nfsclient.Nfs4.Attr.{when_set, skip_fsid, decode_attrlist, decode_fattr4}
use nfsclient.Nfs4.Compound.{check_status4, check_compound_status}
use nfsclient.Nfs4.Ops.{
  check_op_status, skip_bitmap, dir_entry4, decode_putrootfh_result, decode_putfh_result,
  decode_savefh_result, decode_restorefh_result, decode_lookupp_result, decode_lookup_result,
  decode_getfh_result, decode_access_result, decode_commit_result, decode_create_result,
  decode_remove_result, decode_rename_result, decode_getattr_result, decode_read_result,
  decode_write_result, decode_readlink_result, decode_setattr_result, decode_readdir_result,
}

pub Safe-check4 : (status : ℕ) (name : String) → Safe (check_status4 status name)
unfolding check_status4
Safe-check4 status name = Safe-if _ (Safe-pure tt) (Safe-raise _)

pub Safe-op : (name : String) → Safe (check_op_status name)
unfolding check_op_status
Safe-op name = search (Safe-bind, Safe-uint32, Safe-check4)

pub Safe-when_set : {A : Type 0} (b : Bool) (m : Decode A) → Safe m → Safe (when_set b m)
Safe-when_set b m sm = Safe-if _ (Safe-bind _ _ sm λ x. Safe-pure (some x)) (Safe-pure none)

pub Safe-time4 : Safe decode_nfstime4
unfolding decode_nfstime4
Safe-time4 = search (Safe-bind, Safe-uint64, Safe-uint32, Safe-pure)

pub Safe-fsid : Safe skip_fsid
unfolding skip_fsid
Safe-fsid = search (Safe-bind, Safe-uint64, Safe-pure)

pub Safe-attrlist : (bm : List ℕ) → Safe (decode_attrlist bm)
unfolding decode_attrlist
Safe-attrlist bm =
    search
      (
        Safe-bind, Safe-when_set, Safe-uint32, Safe-uint64, Safe-string, Safe-time4, Safe-fsid,
        Safe-pure,
      )
      depth 60

pub Safe-fattr4 : Safe decode_fattr4
unfolding decode_fattr4 decode_bitmap4
Safe-fattr4 =
    Safe-bind _ _ (Safe-bind _ _ Safe-uint32 λ n. Safe-repeat n Safe-uint32)
      λ bm. Safe-bind _ _ Safe-opaque λ bs. Safe-within (decode_attrlist bm) bs (Safe-attrlist bm)

pub Safe-change_info : Safe skip_change_info4
unfolding skip_change_info4
Safe-change_info = search (Safe-bind, Safe-uint32, Safe-uint64, Safe-pure)

pub Safe-bitmap : Safe skip_bitmap
unfolding skip_bitmap
Safe-bitmap =
    Safe-bind _ _ Safe-uint32 λ n. Safe-bind _ _ (Safe-repeat n Safe-uint32) λ ws. Safe-pure tt

pub Safe-fh : Safe decode_nfs4fh
unfolding decode_nfs4fh
Safe-fh = Safe-bind _ _ Safe-opaque λ bs. Safe-pure _

pub Safe-entry : Safe dir_entry4
unfolding dir_entry4
Safe-entry = search (Safe-bind, Safe-uint64, Safe-string, Safe-fattr4, Safe-pure)

pub Safe-entries : Safe (linked_list dir_entry4)
Safe-entries = Safe-linked_list dir_entry4 Safe-entry

pub ruleset op_rules = (
  Safe-bind, Safe-pure, Safe-op, Safe-uint32, Safe-uint64, Safe-opaque, Safe-string,
  Safe-fixed_opaque, Safe-fattr4, Safe-change_info, Safe-bitmap, Safe-fh, Safe-entries,
)

pub Safe-header : Safe check_compound_status
unfolding check_compound_status
Safe-header = search (Safe-bind, Safe-uint32, Safe-check4, Safe-string, Safe-pure) depth 20

-- On any bytes at all, the decoder of a COMPOUND's header and of each operation's result, the nested
-- attributes and the linked list of a directory included, return or throw: they never read outside the
-- bytes.
pub decode_result-ne-fault :
    (bytes : List ℕ) (x : Fault)
    → (run check_compound_status bytes ≢ fault x)
      × (run decode_putrootfh_result bytes ≢ fault x)
      × (run decode_putfh_result bytes ≢ fault x)
      × (run decode_savefh_result bytes ≢ fault x)
      × (run decode_restorefh_result bytes ≢ fault x)
      × (run decode_lookupp_result bytes ≢ fault x)
      × (run decode_lookup_result bytes ≢ fault x)
      × (run decode_getfh_result bytes ≢ fault x)
      × (run decode_access_result bytes ≢ fault x)
      × (run decode_commit_result bytes ≢ fault x)
      × (run decode_create_result bytes ≢ fault x)
      × (run decode_remove_result bytes ≢ fault x)
      × (run decode_rename_result bytes ≢ fault x)
      × (run decode_getattr_result bytes ≢ fault x)
      × (run decode_read_result bytes ≢ fault x)
      × (run decode_write_result bytes ≢ fault x)
      × (run decode_readlink_result bytes ≢ fault x)
      × (run decode_setattr_result bytes ≢ fault x)
      × (run decode_readdir_result bytes ≢ fault x)
unfolding decode_putrootfh_result decode_putfh_result decode_savefh_result decode_restorefh_result
    decode_lookupp_result decode_lookup_result decode_getfh_result decode_access_result
    decode_commit_result decode_create_result decode_remove_result decode_rename_result
    decode_getattr_result decode_read_result decode_write_result decode_readlink_result
    decode_setattr_result decode_readdir_result
decode_result-ne-fault bytes x = (
  run-Safe bytes x Safe-header,
  run-Safe bytes x (Safe-op "PUTROOTFH"),
  run-Safe bytes x (Safe-op "PUTFH"),
  run-Safe bytes x (Safe-op "SAVEFH"),
  run-Safe bytes x (Safe-op "RESTOREFH"),
  run-Safe bytes x (Safe-op "LOOKUPP"),
  run-Safe bytes x (Safe-op "LOOKUP"),
  run-Safe {m = decode_getfh_result} bytes x (search op_rules depth 40),
  run-Safe {m = decode_access_result} bytes x (search op_rules depth 40),
  run-Safe {m = decode_commit_result} bytes x (search op_rules depth 40),
  run-Safe {m = decode_create_result} bytes x (search op_rules depth 40),
  run-Safe {m = decode_remove_result} bytes x (search op_rules depth 40),
  run-Safe {m = decode_rename_result} bytes x (search op_rules depth 40),
  run-Safe {m = decode_getattr_result} bytes x (search op_rules depth 40),
  run-Safe {m = decode_read_result} bytes x (search op_rules depth 40),
  run-Safe {m = decode_write_result} bytes x (search op_rules depth 40),
  run-Safe {m = decode_readlink_result} bytes x (search op_rules depth 40),
  run-Safe {m = decode_setattr_result} bytes x (search op_rules depth 40),
  run-Safe {m = decode_readdir_result} bytes x (search op_rules depth 40),
)
