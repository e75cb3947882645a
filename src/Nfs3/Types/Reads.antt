-- ===== src/Nfs3/Types/Reads.antt =====
-- The shared helpers read what the format says, and are safe on any bytes.
use nfsclient.Base.{ℕ, ◌≡◌, Option, none, some, List, subst, All, length, arith}
use nfsclient.Xdr.Decoder.{get_uint32, repeat}
use nfsclient.Xdr.Wire.{IsU32, uint32, each}
use nfsclient.Xdr.Reads.{Reads, Reads-pure, Reads-bind, Reads-last, Reads-done}
use nfsclient.Xdr.Reads.Items.{Reads-uint32, Reads-uint64, Reads-opaque, Reads-repeat}
use nfsclient.Xdr.Safe.{
  Safe, Safe-pure, Safe-bind, Safe-if, Safe-uint32, Safe-uint64, Safe-opaque, Safe-repeat,
}
use nfsclient.Nfs3.Types.{
  Fh3, Fattr3, decode_fh3, decode_fattr3, skip_post_op_attr, skip_pre_op_attr, skip_wcc_data,
}
use nfsclient.Nfs3.Types.Wire.{
  IsFh, fh3, fattr3, IsFattr, post_op_attr, IsAttr, pre_op_attr, IsPre, Wcc, wcc_data, IsWcc,
}

pub Reads-fh3 : (fh : Fh3) → IsFh fh → Reads decode_fh3 (fh3 fh) fh
unfolding decode_fh3
Reads-fh3 fh h = Reads-last _ (Reads-opaque fh.handle h)

pub Reads-fattr3 : (a : Fattr3) → IsFattr a → Reads decode_fattr3 (fattr3 a) a
unfolding decode_fattr3 fattr3
Reads-fattr3 a h = Reads-bind _ (Reads-uint32 _ h.type) (
    Reads-bind _ (Reads-uint32 _ h.mode) (
      Reads-bind _ (Reads-uint32 _ h.nlink) (
        Reads-bind _ (Reads-uint32 _ h.uid) (
          Reads-bind _ (Reads-uint32 _ h.gid) (
            Reads-bind _ (Reads-uint64 _ h.size) (
              Reads-bind _ (Reads-uint64 _ h.used) (
                Reads-bind _ (Reads-uint32 _ h.major) (
                  Reads-bind _ (Reads-uint32 _ h.minor) (
                    Reads-bind _ (Reads-uint64 _ h.fsid) (
                      Reads-bind _ (Reads-uint64 _ h.fileid) (
                        Reads-bind _ (Reads-uint32 _ h.atime.0) (
                          Reads-bind _ (Reads-uint32 _ h.atime.1) (
                            Reads-bind _ (Reads-uint32 _ h.mtime.0) (
                              Reads-bind _ (Reads-uint32 _ h.mtime.1) (
                                Reads-bind _ (Reads-uint32 _ h.ctime.0)
                                  (Reads-last _ (Reads-uint32 _ h.ctime.1)))))))))))))))))

pub Reads-post_op_attr :
    (o : Option Fattr3) → IsAttr o → Reads skip_post_op_attr (post_op_attr o) tt
unfolding skip_post_op_attr
Reads-post_op_attr none h = Reads-done _ (Reads-uint32 0 (omega arith)) (Reads-pure tt)
Reads-post_op_attr (some a) h =
    Reads-bind _ (Reads-uint32 1 (omega arith)) (Reads-last _ (Reads-fattr3 a h))

six_words :
    (words : List ℕ)
    → length words ≡ 6
    → All IsU32 words
    → Reads (repeat 6 get_uint32) (each uint32 words) words
six_words words n h =
    subst (λ (k : ℕ). Reads (repeat k get_uint32) (each uint32 words) words) n
      (Reads-repeat uint32 IsU32 Reads-uint32 words h)

pub Reads-pre_op_attr : (o : Option (List ℕ)) → IsPre o → Reads skip_pre_op_attr (pre_op_attr o) tt
unfolding skip_pre_op_attr
Reads-pre_op_attr none h = Reads-done _ (Reads-uint32 0 (omega arith)) (Reads-pure tt)
Reads-pre_op_attr (some words) (n, h) =
    Reads-bind _ (Reads-uint32 1 (omega arith)) (Reads-last _ (six_words words n h))

pub Reads-wcc_data : (w : Wcc) → IsWcc w → Reads skip_wcc_data (wcc_data w) tt
unfolding skip_wcc_data
Reads-wcc_data w (hb, ha) =
    Reads-bind _ (Reads-pre_op_attr w.before hb) (Reads-post_op_attr w.after ha)

pub Safe-fh3 : Safe decode_fh3
unfolding decode_fh3
Safe-fh3 = Safe-bind _ _ Safe-opaque λ bytes. Safe-pure _

pub Safe-fattr3 : Safe decode_fattr3
unfolding decode_fattr3
Safe-fattr3 = search (Safe-bind, Safe-uint32, Safe-uint64, Safe-pure) depth 40

pub Safe-post_op_attr : Safe skip_post_op_attr
unfolding skip_post_op_attr
Safe-post_op_attr =
    Safe-bind _ _ Safe-uint32
      λ v. Safe-if _ (Safe-pure tt) (Safe-bind _ _ Safe-fattr3 λ a. Safe-pure tt)

pub Safe-wcc_data : Safe skip_wcc_data
unfolding skip_wcc_data skip_pre_op_attr
Safe-wcc_data =
    Safe-bind _ _
      (Safe-bind _ _ Safe-uint32
        λ v. Safe-if _ (Safe-pure tt) (Safe-bind _ _ (Safe-repeat 6 Safe-uint32) λ a. Safe-pure tt))
      λ u. Safe-post_op_attr
