-- ===== src/Nfs4/Calls/Wire.antt =====
-- RFC 7530, section 16: the arguments and the results of the operations in each call, as bytes. The
-- times that a client sets have ids of their own, as Nfs4/Attr/Bytes says.
use nfsclient.Base.{ℕ, List, [], ◌∷◌, ◌++◌, ◌≡◌, length}
use nfsclient.Xdr.Wire.{IsU32, IsU64, Fits32, uint32, uint64, opaque, fixed_opaque}
use nfsclient.Nfs4.Types.{Nfs4Fh, Stateid4, Stable4}
use nfsclient.Nfs4.Attr.Bytes.{sattr_wire, IsSattr}
use nfsclient.Nfs4.Attr.Returned.{Values, IsValues, attrs_wire, fattr4_wire, named}
use nfsclient.Nfs4.Ops.Items.{
  stateid_wire, IsStateid, ChangeInfo, change_wire, IsChange, bitmap_wire, IsBitmap,
}
use nfsclient.Nfs4.Ops.Successes.{granted}
use nfsclient.Nfs4.Calls.{Call, Answer}
use nfsclient.Nfs4.Requests.{anon}

-- PUTROOTFH for the empty handle, and PUTFH for any other.
abbrev pub handle_op : List ℕ → ℕ
handle_op [] = 24
handle_op (b ∷ bs) = 22

abbrev pub handle_wire : List ℕ → List ℕ
handle_wire [] = uint32 24
handle_wire (b ∷ bs) = uint32 22 ++ opaque (b ∷ bs)

abbrev pub stable_wire : Stable4 → List ℕ
stable_wire Stable4.unstable = uint32 0
stable_wire Stable4.data_sync = uint32 1
stable_wire Stable4.file_sync = uint32 2

-- The arguments of the operations.
abbrev pub ops_wire : Call → List ℕ
ops_wire (Call.lookup dir name) =
    handle_wire dir.handle ++ ((uint32 15 ++ opaque name) ++ uint32 10)
ops_wire (Call.getattr fh) =
    handle_wire fh.handle ++ (uint32 9 ++ bitmap_wire (1048602 ∷ 3178554 ∷ []))
ops_wire (Call.access fh mask) = handle_wire fh.handle ++ (uint32 3 ++ uint32 mask)
ops_wire (Call.close f) =
    handle_wire f.fh.handle ++ (uint32 4 ++ (uint32 f.seqid ++ stateid_wire f.stateid))
ops_wire (Call.read f offset count) =
    handle_wire f.fh.handle
    ++ (uint32 25 ++ (stateid_wire f.stateid ++ (uint64 offset ++ uint32 count)))
ops_wire (Call.write f offset how bytes) =
    handle_wire f.fh.handle
    ++ (uint32 38
        ++ (stateid_wire f.stateid ++ (uint64 offset ++ (stable_wire how ++ opaque bytes))))
ops_wire (Call.commit f offset count) =
    handle_wire f.fh.handle ++ (uint32 5 ++ (uint64 offset ++ uint32 count))
ops_wire (Call.mkdir dir name attrs) =
    handle_wire dir.handle
    ++ ((uint32 6 ++ (uint32 2 ++ (opaque name ++ sattr_wire attrs))) ++ uint32 10)
ops_wire (Call.remove dir name) = handle_wire dir.handle ++ (uint32 28 ++ opaque name)
ops_wire (Call.rename src_dir src_name dst_dir dst_name) =
    handle_wire src_dir.handle
    ++ (uint32 32
        ++ (handle_wire dst_dir.handle ++ (uint32 29 ++ (opaque src_name ++ opaque dst_name))))
ops_wire (Call.symlink dir name target attrs) =
    handle_wire dir.handle
    ++ ((uint32 6 ++ (uint32 5 ++ (opaque target ++ (opaque name ++ sattr_wire attrs))))
        ++ uint32 10)
ops_wire (Call.readlink fh) = handle_wire fh.handle ++ uint32 27
ops_wire (Call.setattr fh attrs) =
    handle_wire fh.handle ++ (uint32 34 ++ (stateid_wire anon ++ sattr_wire attrs))

-- The lengths and numbers that XDR can carry.
abbrev pub IsCall : Call → Type 0
IsCall (Call.lookup dir name) = Fits32 dir.handle × Fits32 name
IsCall (Call.getattr fh) = Fits32 fh.handle
IsCall (Call.access fh mask) = Fits32 fh.handle
IsCall (Call.close f) = Fits32 f.fh.handle
IsCall (Call.read f offset count) = Fits32 f.fh.handle × IsU64 offset
IsCall (Call.write f offset how bytes) = Fits32 f.fh.handle × IsU64 offset × Fits32 bytes
IsCall (Call.commit f offset count) = Fits32 f.fh.handle × IsU64 offset
IsCall (Call.mkdir dir name attrs) = Fits32 dir.handle × Fits32 name × IsSattr attrs
IsCall (Call.remove dir name) = Fits32 dir.handle × Fits32 name
IsCall (Call.rename src_dir src_name dst_dir dst_name) =
    Fits32 src_dir.handle × Fits32 src_name × Fits32 dst_dir.handle × Fits32 dst_name
IsCall (Call.symlink dir name target attrs) =
    Fits32 dir.handle × Fits32 name × Fits32 target × IsSattr attrs
IsCall (Call.readlink fh) = Fits32 fh.handle
IsCall (Call.setattr fh attrs) = Fits32 fh.handle × IsSattr attrs

-- What a server sends in the results of one call or another.
pub record Sent : Type 0 where
  pub fh : Nfs4Fh
  pub bytes : List ℕ
  pub number : ℕ
  pub other_number : ℕ
  pub verf : List ℕ
  pub stateid : Stateid4
  pub change : ChangeInfo
  pub other_change : ChangeInfo
  pub bitmap : List ℕ
  pub values : Values

pub record IsSent (v : Sent) : Type 0 where
  pub fh : Fits32 v.fh.handle
  pub bytes : Fits32 v.bytes
  pub number : IsU32 v.number
  pub other_number : IsU32 v.other_number
  pub verf : length v.verf ≡ 8
  pub stateid : IsStateid v.stateid
  pub change : IsChange v.change
  pub other_change : IsChange v.other_change
  pub bitmap : IsBitmap v.bitmap
  pub values : IsValues v.values
  pub attrs : Fits32 (attrs_wire v.bitmap v.values)

-- The results of the operations when all succeed.
abbrev pub results_wire : Sent → Call → List ℕ
results_wire v (Call.lookup dir name) =
    granted (handle_op dir.handle) ++ (granted 15 ++ (granted 10 ++ opaque v.fh.handle))
results_wire v (Call.getattr fh) =
    granted (handle_op fh.handle) ++ (granted 9 ++ fattr4_wire v.bitmap v.values)
results_wire v (Call.access fh mask) =
    granted (handle_op fh.handle) ++ (granted 3 ++ (uint32 v.other_number ++ uint32 v.number))
results_wire v (Call.close f) =
    granted (handle_op f.fh.handle) ++ (granted 4 ++ stateid_wire v.stateid)
results_wire v (Call.read f offset count) =
    granted (handle_op f.fh.handle) ++ (granted 25 ++ (uint32 v.number ++ opaque v.bytes))
results_wire v (Call.write f offset how bytes) =
    granted (handle_op f.fh.handle)
    ++ (granted 38 ++ (uint32 v.number ++ (uint32 v.other_number ++ fixed_opaque v.verf)))
results_wire v (Call.commit f offset count) =
    granted (handle_op f.fh.handle) ++ (granted 5 ++ fixed_opaque v.verf)
results_wire v (Call.mkdir dir name attrs) =
    granted (handle_op dir.handle)
    ++ ((granted 6 ++ (change_wire v.change ++ bitmap_wire v.bitmap))
        ++ (granted 10 ++ opaque v.fh.handle))
results_wire v (Call.remove dir name) =
    granted (handle_op dir.handle) ++ (granted 28 ++ change_wire v.change)
results_wire v (Call.rename src_dir src_name dst_dir dst_name) =
    granted (handle_op src_dir.handle)
    ++ (granted 32
        ++ (granted (handle_op dst_dir.handle)
            ++ (granted 29 ++ (change_wire v.change ++ change_wire v.other_change))))
results_wire v (Call.symlink dir name target attrs) =
    granted (handle_op dir.handle)
    ++ ((granted 6 ++ (change_wire v.change ++ bitmap_wire v.bitmap))
        ++ (granted 10 ++ opaque v.fh.handle))
results_wire v (Call.readlink fh) = granted (handle_op fh.handle) ++ (granted 27 ++ opaque v.bytes)
results_wire v (Call.setattr fh attrs) =
    granted (handle_op fh.handle) ++ (granted 34 ++ bitmap_wire v.bitmap)

-- What the method should return then.
abbrev pub answer : Sent → (k : Call) → Answer k
answer v (Call.lookup dir name) = v.fh
answer v (Call.getattr fh) = named v.bitmap v.values
answer v (Call.access fh mask) = v.number
answer v (Call.close f) = tt
answer v (Call.read f offset count) = v.bytes
answer v (Call.write f offset how bytes) = v.number
answer v (Call.commit f offset count) = v.verf
answer v (Call.mkdir dir name attrs) = v.fh
answer v (Call.remove dir name) = tt
answer v (Call.rename src_dir src_name dst_dir dst_name) = tt
answer v (Call.symlink dir name target attrs) = v.fh
answer v (Call.readlink fh) = v.bytes
answer v (Call.setattr fh attrs) = tt

-- The number of operations.
abbrev pub op_count : Call → ℕ
op_count (Call.lookup dir name) = 3
op_count (Call.getattr fh) = 2
op_count (Call.access fh mask) = 2
op_count (Call.close f) = 2
op_count (Call.read f offset count) = 2
op_count (Call.write f offset how bytes) = 2
op_count (Call.commit f offset count) = 2
op_count (Call.mkdir dir name attrs) = 3
op_count (Call.remove dir name) = 2
op_count (Call.rename src_dir src_name dst_dir dst_name) = 4
op_count (Call.symlink dir name target attrs) = 3
op_count (Call.readlink fh) = 2
op_count (Call.setattr fh attrs) = 2
