-- ===== src/Nfs4/Ops/Items.antt =====
-- The items that the operations of a COMPOUND share, as bytes.
use nfsclient.Base.{ℕ, List, ◌++◌, ◌≡◌, All, length}
use nfsclient.Xdr.Wire.{IsU32, IsU64, Fits32, uint32, uint64, opaque, fixed_opaque, each}
use nfsclient.Xdr.Emits.{Emits, Emits-seq, Emits-uint32, Emits-opaque, Emits-fixed_opaque}
use nfsclient.Xdr.Reads.{Reads, Reads-bind, Reads-last}
use nfsclient.Xdr.Reads.Items.{
  Reads-uint32, Reads-uint64, Reads-opaque, Reads-fixed_opaque, Reads-repeat,
}
use nfsclient.Nfs4.Types.{
  Nfs4Fh, Stateid4, encode_nfs4fh, decode_nfs4fh, encode_stateid4, decode_stateid4,
  skip_change_info4,
}
use nfsclient.Nfs4.Ops.{skip_bitmap}

abbrev pub stateid_wire : Stateid4 → List ℕ
stateid_wire sid = uint32 sid.seqid ++ fixed_opaque sid.other

abbrev pub IsStateid : Stateid4 → Type 0
IsStateid sid = IsU32 sid.seqid × (length sid.other ≡ 12)

-- `change_info4`
pub record ChangeInfo : Type 0 where
  pub atomic : ℕ
  pub before : ℕ
  pub after : ℕ

abbrev pub change_wire : ChangeInfo → List ℕ
change_wire i = uint32 i.atomic ++ (uint64 i.before ++ uint64 i.after)

abbrev pub IsChange : ChangeInfo → Type 0
IsChange i = IsU32 i.atomic × IsU64 i.before × IsU64 i.after

abbrev pub bitmap_wire : List ℕ → List ℕ
bitmap_wire ws = uint32 (length ws) ++ each uint32 ws

abbrev pub IsBitmap : List ℕ → Type 0
IsBitmap ws = Fits32 ws × All IsU32 ws

pub Emits-fh : (fh : Nfs4Fh) → Fits32 fh.handle → Emits (encode_nfs4fh fh) (opaque fh.handle)
unfolding encode_nfs4fh
Emits-fh fh h = Emits-opaque fh.handle h

pub Emits-stateid : (sid : Stateid4) → Emits (encode_stateid4 sid) (stateid_wire sid)
unfolding encode_stateid4
Emits-stateid sid = Emits-seq (Emits-uint32 sid.seqid) (Emits-fixed_opaque sid.other)

pub Reads-fh : (fh : Nfs4Fh) → Fits32 fh.handle → Reads decode_nfs4fh (opaque fh.handle) fh
unfolding decode_nfs4fh
Reads-fh fh h = Reads-last _ (Reads-opaque fh.handle h)

pub Reads-stateid : (sid : Stateid4) → IsStateid sid → Reads decode_stateid4 (stateid_wire sid) sid
unfolding decode_stateid4
Reads-stateid sid (hs, ho) =
    Reads-bind _ (Reads-uint32 sid.seqid hs) (Reads-last _ (Reads-fixed_opaque 12 sid.other ho))

pub Reads-change : (i : ChangeInfo) → IsChange i → Reads skip_change_info4 (change_wire i) tt
unfolding skip_change_info4
Reads-change i (ha, hb, hc) =
    Reads-bind _ (Reads-uint32 i.atomic ha)
      (Reads-bind _ (Reads-uint64 i.before hb) (Reads-last _ (Reads-uint64 i.after hc)))

pub Reads-bitmap : (ws : List ℕ) → IsBitmap ws → Reads skip_bitmap (bitmap_wire ws) tt
unfolding skip_bitmap
Reads-bitmap ws (hn, hw) =
    Reads-bind _ (Reads-uint32 (length ws) hn)
      (Reads-last _ (Reads-repeat uint32 IsU32 Reads-uint32 ws hw))
