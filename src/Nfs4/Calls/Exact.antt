-- ===== src/Nfs4/Calls/Exact.antt =====
-- The requests of src/nfs4_client.cpp and src/nfs41_client.cpp against the bytes of RFC 7530: the
-- operations are those bytes, and the decoders read the results.
use nfsclient.Base.{ℕ, List, [], ◌∷◌, ◌++◌, ◌≡◌, refl, arith}
use nfsclient.Xdr.Encoder.{put_uint32}
use nfsclient.Xdr.Wire.{IsU32, Fits32, uint32, opaque}
use nfsclient.Xdr.Emits.{Emits, Emits-seq, Emits-uint32, Emits-uint64, Emits-opaque, Emits-string}
use nfsclient.Xdr.Reads.{Reads, Reads-bind, Reads-last}
use nfsclient.Xdr.Reads.Items.{Reads-uint32, Reads-opaque, Reads-string, Reads-fixed_opaque}
use nfsclient.Nfs4.Types.{Nfs4Fh, Stable4, stable4}
use nfsclient.Nfs4.Bitmap.{encode_attr_request, make_bitmap4, bitmap4_set, set_all, or_at}
use nfsclient.Nfs4.Attr.Bytes.{Emits-fattr4}
use nfsclient.Nfs4.Attr.Returned.{Reads-fattr4}
use nfsclient.Nfs4.Attr.Sent.{Emits-bitmap4}
use nfsclient.Nfs4.Ops.{
  encode_putrootfh, encode_putfh, encode_getfh, encode_savefh, encode_access, encode_commit,
  encode_create_dir, encode_create_symlink, encode_remove, encode_rename, encode_getattr,
  encode_lookup, encode_read, encode_write, encode_readlink, encode_setattr, decode_putfh_result,
  decode_getfh_result, decode_savefh_result, decode_access_result, decode_commit_result,
  decode_create_result, decode_remove_result, decode_rename_result, decode_getattr_result,
  decode_lookup_result, decode_read_result, decode_write_result, decode_readlink_result,
  decode_setattr_result,
}
use nfsclient.Nfs4.Ops.Items.{
  bitmap_wire, Emits-fh, Emits-stateid, Reads-fh, Reads-stateid, Reads-change, Reads-bitmap,
}
use nfsclient.Nfs4.Ops.Successes.{granted, Reads-op}
use nfsclient.Nfs4.State.{encode_close, decode_close_result}
use nfsclient.Nfs4.Requests.{
  getattr_ids, anon, encode_handle, encode_fh, lookup_request, getattr_request, access_request,
  close_request, read_request, write_request, commit_request, mkdir_request, remove_request,
  rename_request, symlink_request, readlink_request, setattr_request,
}
use nfsclient.Nfs4.Calls.{Call, request_of}
use nfsclient.Nfs4.Calls.Wire.{
  handle_op, handle_wire, stable_wire, ops_wire, IsCall, Sent, IsSent, results_wire, answer,
  op_count,
}

Emits-handle :
    (fh : Nfs4Fh) (bs : List ℕ)
    → fh.handle ≡ bs
    → Fits32 fh.handle
    → Emits (encode_handle fh bs) (handle_wire bs)
unfolding encode_handle encode_putrootfh encode_putfh
Emits-handle fh [] e h = Emits-uint32 24
Emits-handle fh (b ∷ bs) e h = rw (← e) (Emits-seq (Emits-uint32 22) (Emits-fh fh h))

pub Emits-encode_fh :
    (fh : Nfs4Fh) → Fits32 fh.handle → Emits (encode_fh fh) (handle_wire fh.handle)
unfolding encode_fh
Emits-encode_fh fh h = Emits-handle fh fh.handle refl h

pub Emits-getfh : Emits encode_getfh (uint32 10)
unfolding encode_getfh
Emits-getfh = Emits-uint32 10

getattr_bitmap : make_bitmap4 getattr_ids ≡ 1048602 ∷ 3178554 ∷ []
unfolding make_bitmap4 set_all bitmap4_set or_at
getattr_bitmap = refl

Emits-getattr_ids : Emits (encode_attr_request getattr_ids) (bitmap_wire (1048602 ∷ 3178554 ∷ []))
unfolding encode_attr_request
Emits-getattr_ids = rw getattr_bitmap (Emits-bitmap4 _ (omega arith))

Emits-stable : (how : Stable4) → Emits (put_uint32 (stable4 how)) (stable_wire how)
unfolding stable4
Emits-stable Stable4.unstable = Emits-uint32 0
Emits-stable Stable4.data_sync = Emits-uint32 1
Emits-stable Stable4.file_sync = Emits-uint32 2

-- The operations of a call are the bytes that RFC 7530 says.
pub Emits-ops : (k : Call) → IsCall k → Emits (request_of k).ops (ops_wire k)
unfolding lookup_request getattr_request access_request close_request read_request write_request
    commit_request mkdir_request remove_request rename_request symlink_request readlink_request
    setattr_request encode_lookup encode_getattr encode_access encode_close encode_read encode_write
    encode_commit encode_create_dir encode_remove encode_rename encode_savefh encode_create_symlink
    encode_readlink encode_setattr
Emits-ops (Call.lookup dir name) (h, hn) =
    Emits-seq (Emits-encode_fh dir h)
      (Emits-seq (Emits-seq (Emits-uint32 15) (Emits-string name hn)) Emits-getfh)
Emits-ops (Call.getattr fh) h =
    Emits-seq (Emits-encode_fh fh h) (Emits-seq (Emits-uint32 9) Emits-getattr_ids)
Emits-ops (Call.access fh mask) h =
    Emits-seq (Emits-encode_fh fh h) (Emits-seq (Emits-uint32 3) (Emits-uint32 mask))
Emits-ops (Call.close f) h =
    Emits-seq (Emits-encode_fh f.fh h)
      (Emits-seq (Emits-uint32 4) (Emits-seq (Emits-uint32 f.seqid) (Emits-stateid f.stateid)))
Emits-ops (Call.read f offset count) (h, ho) = Emits-seq (Emits-encode_fh f.fh h) (
    Emits-seq (Emits-uint32 25) (
      Emits-seq (Emits-stateid f.stateid)
        (Emits-seq (Emits-uint64 offset ho) (Emits-uint32 count))))
Emits-ops (Call.write f offset how bytes) (h, ho, hb) = Emits-seq (Emits-encode_fh f.fh h) (
    Emits-seq (Emits-uint32 38) (
      Emits-seq (Emits-stateid f.stateid) (
        Emits-seq (Emits-uint64 offset ho) (Emits-seq (Emits-stable how) (Emits-opaque bytes hb)))))
Emits-ops (Call.commit f offset count) (h, ho) =
    Emits-seq (Emits-encode_fh f.fh h)
      (Emits-seq (Emits-uint32 5) (Emits-seq (Emits-uint64 offset ho) (Emits-uint32 count)))
Emits-ops (Call.mkdir dir name attrs) (h, hn, ha) = Emits-seq (Emits-encode_fh dir h) (
    Emits-seq
      (Emits-seq (Emits-uint32 6)
        (Emits-seq (Emits-uint32 2) (Emits-seq (Emits-string name hn) (Emits-fattr4 attrs ha))))
      Emits-getfh)
Emits-ops (Call.remove dir name) (h, hn) =
    Emits-seq (Emits-encode_fh dir h) (Emits-seq (Emits-uint32 28) (Emits-string name hn))
Emits-ops (Call.rename src_dir src_name dst_dir dst_name) (h, hn, h', hn') =
    Emits-seq (Emits-encode_fh src_dir h) (
      Emits-seq (Emits-uint32 32) (
        Emits-seq (Emits-encode_fh dst_dir h') (
          Emits-seq (Emits-uint32 29)
            (Emits-seq (Emits-string src_name hn) (Emits-string dst_name hn')))))
Emits-ops (Call.symlink dir name target attrs) (h, hn, ht, ha) = Emits-seq (Emits-encode_fh dir h) (
    Emits-seq
      (Emits-seq (Emits-uint32 6) (
        Emits-seq (Emits-uint32 5) (
          Emits-seq (Emits-string target ht)
            (Emits-seq (Emits-string name hn) (Emits-fattr4 attrs ha)))))
      Emits-getfh)
Emits-ops (Call.readlink fh) h = Emits-seq (Emits-encode_fh fh h) (Emits-uint32 27)
Emits-ops (Call.setattr fh attrs) (h, ha) =
    Emits-seq (Emits-encode_fh fh h)
      (Emits-seq (Emits-uint32 34) (Emits-seq (Emits-stateid anon) (Emits-fattr4 attrs ha)))

pub num_ops-count : (k : Call) → (request_of k).num_ops ≡ op_count k
unfolding lookup_request getattr_request access_request close_request read_request write_request
    commit_request mkdir_request remove_request rename_request symlink_request readlink_request
    setattr_request
num_ops-count (Call.lookup dir name) = refl
num_ops-count (Call.getattr fh) = refl
num_ops-count (Call.access fh mask) = refl
num_ops-count (Call.close f) = refl
num_ops-count (Call.read f offset count) = refl
num_ops-count (Call.write f offset how bytes) = refl
num_ops-count (Call.commit f offset count) = refl
num_ops-count (Call.mkdir dir name attrs) = refl
num_ops-count (Call.remove dir name) = refl
num_ops-count (Call.rename src_dir src_name dst_dir dst_name) = refl
num_ops-count (Call.symlink dir name target attrs) = refl
num_ops-count (Call.readlink fh) = refl
num_ops-count (Call.setattr fh attrs) = refl

IsU32-handle_op : (bs : List ℕ) → IsU32 (handle_op bs)
IsU32-handle_op [] = omega arith
IsU32-handle_op (b ∷ bs) = omega arith

pub Reads-putfh : (bs : List ℕ) → Reads decode_putfh_result (granted (handle_op bs)) tt
unfolding decode_putfh_result
Reads-putfh bs = Reads-op (handle_op bs) "PUTFH" (IsU32-handle_op bs)

pub Reads-getfh :
    (fh : Nfs4Fh) → Fits32 fh.handle → Reads decode_getfh_result (granted 10 ++ opaque fh.handle) fh
unfolding decode_getfh_result
Reads-getfh fh h = Reads-bind _ (Reads-op 10 "GETFH" (omega arith)) (Reads-fh fh h)

-- The decoders of a call read those results, whatever the server sends in them.
pub Reads-results :
    (v : Sent) (k : Call) → IsSent v → Reads (request_of k).results (results_wire v k) (answer v k)
unfolding lookup_request getattr_request access_request close_request read_request write_request
    commit_request mkdir_request remove_request rename_request symlink_request readlink_request
    setattr_request decode_lookup_result decode_getattr_result decode_access_result
    decode_close_result decode_read_result decode_write_result decode_commit_result
    decode_create_result decode_remove_result decode_savefh_result decode_rename_result
    decode_readlink_result decode_setattr_result
Reads-results v (Call.lookup dir name) h =
    Reads-bind _ (Reads-putfh dir.handle)
      (Reads-bind _ (Reads-op 15 "LOOKUP" (omega arith)) (Reads-getfh v.fh h.fh))
Reads-results v (Call.getattr fh) h = Reads-bind _ (Reads-putfh fh.handle) (
    Reads-bind _ (Reads-op 9 "GETATTR" (omega arith))
      (Reads-fattr4 v.bitmap v.values h.bitmap.0 h.bitmap.1 h.values h.attrs))
Reads-results v (Call.access fh mask) h = Reads-bind _ (Reads-putfh fh.handle) (
    Reads-last _ (
      Reads-bind _ (Reads-op 3 "ACCESS" (omega arith)) (
        Reads-bind _ (Reads-uint32 v.other_number h.other_number)
          (Reads-last _ (Reads-uint32 v.number h.number)))))
Reads-results v (Call.close f) h = Reads-bind _ (Reads-putfh f.fh.handle) (
    Reads-bind _ (Reads-op 4 "CLOSE" (omega arith))
      (Reads-last _ (Reads-stateid v.stateid h.stateid)))
Reads-results v (Call.read f offset count) h = Reads-bind _ (Reads-putfh f.fh.handle) (
    Reads-bind _ (Reads-op 25 "READ" (omega arith))
      (Reads-bind _ (Reads-uint32 v.number h.number) (Reads-opaque v.bytes h.bytes)))
Reads-results v (Call.write f offset how bytes) h = Reads-bind _ (Reads-putfh f.fh.handle) (
    Reads-last _ (
      Reads-bind _ (Reads-op 38 "WRITE" (omega arith)) (
        Reads-bind _ (Reads-uint32 v.number h.number) (
          Reads-bind _ (Reads-uint32 v.other_number h.other_number)
            (Reads-last _ (Reads-fixed_opaque 8 v.verf h.verf))))))
Reads-results v (Call.commit f offset count) h =
    Reads-bind _ (Reads-putfh f.fh.handle)
      (Reads-bind _ (Reads-op 5 "COMMIT" (omega arith)) (Reads-fixed_opaque 8 v.verf h.verf))
Reads-results v (Call.mkdir dir name attrs) h = Reads-bind _ (Reads-putfh dir.handle) (
    Reads-bind _
      (Reads-bind _ (Reads-op 6 "CREATE" (omega arith))
        (Reads-bind _ (Reads-change v.change h.change) (Reads-bitmap v.bitmap h.bitmap)))
      (Reads-getfh v.fh h.fh))
Reads-results v (Call.remove dir name) h =
    Reads-bind _ (Reads-putfh dir.handle)
      (Reads-bind _ (Reads-op 28 "REMOVE" (omega arith)) (Reads-change v.change h.change))
Reads-results v (Call.rename src_dir src_name dst_dir dst_name) h =
    Reads-bind _ (Reads-putfh src_dir.handle) (
      Reads-bind _ (Reads-op 32 "SAVEFH" (omega arith)) (
        Reads-bind _ (Reads-putfh dst_dir.handle) (
          Reads-bind _ (Reads-op 29 "RENAME" (omega arith)) (
            Reads-bind _ (Reads-change v.change h.change)
              (Reads-change v.other_change h.other_change)))))
Reads-results v (Call.symlink dir name target attrs) h = Reads-bind _ (Reads-putfh dir.handle) (
    Reads-bind _
      (Reads-bind _ (Reads-op 6 "CREATE" (omega arith))
        (Reads-bind _ (Reads-change v.change h.change) (Reads-bitmap v.bitmap h.bitmap)))
      (Reads-getfh v.fh h.fh))
Reads-results v (Call.readlink fh) h =
    Reads-bind _ (Reads-putfh fh.handle)
      (Reads-bind _ (Reads-op 27 "READLINK" (omega arith)) (Reads-string v.bytes h.bytes))
Reads-results v (Call.setattr fh attrs) h =
    Reads-bind _ (Reads-putfh fh.handle)
      (Reads-bind _ (Reads-op 34 "SETATTR" (omega arith)) (Reads-bitmap v.bitmap h.bitmap))
