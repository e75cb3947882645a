-- ===== src/Nfs3/Types/Wire.antt =====
-- RFC 1813, section 2.6: what the shared items of NFS version 3 look like in bytes, and their ranges.
use nfsclient.Base.{ℕ, ◌≡◌, Option, none, some, List, ◌++◌, All, length}
use nfsclient.Xdr.Wire.{IsU32, IsU64, Fits32, uint32, uint64, opaque, each}
use nfsclient.Nfs3.Types.{Fh3, Nfstime3, Fattr3}

abbrev pub IsFh : Fh3 → Type 0
IsFh fh = Fits32 fh.handle

abbrev pub fh3 : Fh3 → List ℕ
fh3 fh = opaque fh.handle

unfoldable pub fattr3 : Fattr3 → List ℕ
fattr3 a =
    uint32 a.type
    ++ (uint32 a.mode
        ++ (uint32 a.nlink
            ++ (uint32 a.uid
                ++ (uint32 a.gid
                    ++ (uint64 a.size
                        ++ (uint64 a.used
                            ++ (uint32 a.rdev.specdata1
                                ++ (uint32 a.rdev.specdata2
                                    ++ (uint64 a.fsid
                                        ++ (uint64 a.fileid
                                            ++ (uint32 a.atime.seconds
                                                ++ (uint32 a.atime.nseconds
                                                    ++ (uint32 a.mtime.seconds
                                                        ++ (uint32 a.mtime.nseconds
                                                            ++ (uint32 a.ctime.seconds
                                                            ++ uint32
                                                            a.ctime.nseconds)))))))))))))))

abbrev pub IsTime : Nfstime3 → Type 0
IsTime t = IsU32 t.seconds × IsU32 t.nseconds

pub record IsFattr (a : Fattr3) : Type 0 where
  pub type : IsU32 a.type
  pub mode : IsU32 a.mode
  pub nlink : IsU32 a.nlink
  pub uid : IsU32 a.uid
  pub gid : IsU32 a.gid
  pub size : IsU64 a.size
  pub used : IsU64 a.used
  pub major : IsU32 a.rdev.specdata1
  pub minor : IsU32 a.rdev.specdata2
  pub fsid : IsU64 a.fsid
  pub fileid : IsU64 a.fileid
  pub atime : IsTime a.atime
  pub mtime : IsTime a.mtime
  pub ctime : IsTime a.ctime

abbrev pub post_op_attr : Option Fattr3 → List ℕ
post_op_attr none = uint32 0
post_op_attr (some a) = uint32 1 ++ fattr3 a

abbrev pub IsAttr : Option Fattr3 → Type 0
IsAttr none = Unit
IsAttr (some a) = IsFattr a

-- `wcc_attr` is six words: the size, and two times.
abbrev pub pre_op_attr : Option (List ℕ) → List ℕ
pre_op_attr none = uint32 0
pre_op_attr (some words) = uint32 1 ++ each uint32 words

abbrev pub IsPre : Option (List ℕ) → Type 0
IsPre none = Unit
IsPre (some words) = (length words ≡ 6) × All IsU32 words

pub record Wcc : Type 0 where
  pub before : Option (List ℕ)
  pub after : Option Fattr3

abbrev pub wcc_data : Wcc → List ℕ
wcc_data w = pre_op_attr w.before ++ post_op_attr w.after

abbrev pub IsWcc : Wcc → Type 0
IsWcc w = IsPre w.before × IsAttr w.after
