-- ===== src/Nfs4/Attr/Returned.antt =====
-- What a server returns comes out in the right fields, for any set of attributes.
use nfsclient.Base.{
  ℕ, ◌≡◌, append-nil, Bool, true, false, Option, none, some, List, [], ◌++◌, All, length,
  if◌then◌else◌,
}
use nfsclient.Errors.{ok}
use nfsclient.Xdr.Decoder.{Decode, pure, run, ◌>>=◌, get_remaining}
use nfsclient.Xdr.Wire.{IsU32, IsU64, Fits32, uint32, uint64, opaque, each}
use nfsclient.Xdr.Reads.{
  Reads, Reads-pure, Reads-bind, Reads-last, Reads-done, Reads-within, run-Reads, Finishes-bind,
  Finishes-last, run-Finishes,
}
use nfsclient.Xdr.Reads.Items.{
  Reads-uint32, Reads-uint64, Reads-opaque, Reads-string, Reads-repeat, Finishes-remaining,
}
use nfsclient.Nfs4.Types.{Nfstime4, Fattr4, decode_nfstime4}
use nfsclient.Nfs4.Bitmap.{bitmap4_test, decode_bitmap4}
use nfsclient.Nfs4.Bitmap.Sets.{names, bitmap4_test-names}
use nfsclient.Nfs4.Attr.{when_set, skip_fsid, decode_attrlist, decode_fattr4}

-- A value for each attribute; the server sends those that the bitmap names.
pub record Values : Type 0 where
  pub type : ℕ
  pub change : ℕ
  pub size : ℕ
  pub fsid_major : ℕ
  pub fsid_minor : ℕ
  pub fileid : ℕ
  pub mode : ℕ
  pub numlinks : ℕ
  pub owner : List ℕ
  pub owner_group : List ℕ
  pub space_used : ℕ
  pub time_access : Nfstime4
  pub time_metadata : Nfstime4
  pub time_modify : Nfstime4
  pub mounted_on_fileid : ℕ

abbrev pub time4 : Nfstime4 → List ℕ
time4 t = uint64 t.seconds ++ uint32 t.nseconds

abbrev pub IsTime4 : Nfstime4 → Type 0
IsTime4 t = IsU64 t.seconds × IsU32 t.nseconds

pub record IsValues (v : Values) : Type 0 where
  pub type : IsU32 v.type
  pub change : IsU64 v.change
  pub size : IsU64 v.size
  pub fsid_major : IsU64 v.fsid_major
  pub fsid_minor : IsU64 v.fsid_minor
  pub fileid : IsU64 v.fileid
  pub mode : IsU32 v.mode
  pub numlinks : IsU32 v.numlinks
  pub owner : Fits32 v.owner
  pub owner_group : Fits32 v.owner_group
  pub space_used : IsU64 v.space_used
  pub time_access : IsTime4 v.time_access
  pub time_metadata : IsTime4 v.time_metadata
  pub time_modify : IsTime4 v.time_modify
  pub mounted_on_fileid : IsU64 v.mounted_on_fileid

abbrev pub sent : Bool → List ℕ → List ℕ
sent b bs = if b then bs else []

abbrev pub known : {A : Type 0} → Bool → A → Option A
known b a = if b then some a else none

-- `fattr4` of RFC 7530: the values of the named attributes, in the order of their numbers.
unfoldable pub attrs_wire : List ℕ → Values → List ℕ
attrs_wire bm v =
    sent (names bm 1) (uint32 v.type)
    ++ (sent (names bm 3) (uint64 v.change)
        ++ (sent (names bm 4) (uint64 v.size)
            ++ (sent (names bm 8) (uint64 v.fsid_major ++ uint64 v.fsid_minor)
                ++ (sent (names bm 20) (uint64 v.fileid)
                    ++ (sent (names bm 33) (uint32 v.mode)
                        ++ (sent (names bm 35) (uint32 v.numlinks)
                            ++ (sent (names bm 36) (opaque v.owner)
                                ++ (sent (names bm 37) (opaque v.owner_group)
                                    ++ (sent (names bm 45) (uint64 v.space_used)
                                        ++ (sent (names bm 47) (time4 v.time_access)
                                            ++ (sent (names bm 52) (time4 v.time_metadata)
                                                ++ (sent (names bm 53) (time4 v.time_modify)
                                                    ++ (sent (names bm 55)
                                                        (uint64 v.mounted_on_fileid))))))))))))))

unfoldable pub named : List ℕ → Values → Fattr4
named bm v = record {
  type = known (names bm 1) v.type;
  change = known (names bm 3) v.change;
  size = known (names bm 4) v.size;
  fileid = known (names bm 20) v.fileid;
  mode = known (names bm 33) v.mode;
  numlinks = known (names bm 35) v.numlinks;
  owner = known (names bm 36) v.owner;
  owner_group = known (names bm 37) v.owner_group;
  space_used = known (names bm 45) v.space_used;
  time_access = known (names bm 47) v.time_access;
  time_metadata = known (names bm 52) v.time_metadata;
  time_modify = known (names bm 53) v.time_modify;
  mounted_on_fileid = known (names bm 55) v.mounted_on_fileid;
}

Reads-when_set :
    {A : Type 0} {m : Decode A} (bm : List ℕ) (id : ℕ) (bs : List ℕ) (a : A)
    → Reads m bs a
    → Reads (when_set (bitmap4_test bm id) m) (sent (names bm id) bs) (known (names bm id) a)
Reads-when_set {m = m} bm id bs a r = rw (bitmap4_test-names bm id) (by_mark (names bm id))
  where
    by_mark : (b : Bool) → Reads (when_set b m) (sent b bs) (known b a)
    by_mark true = Reads-last _ r
    by_mark false = Reads-pure none

Reads-time4 : (t : Nfstime4) → IsTime4 t → Reads decode_nfstime4 (time4 t) t
unfolding decode_nfstime4
Reads-time4 t (hs, hn) =
    Reads-bind _ (Reads-uint64 t.seconds hs) (Reads-last _ (Reads-uint32 t.nseconds hn))

Reads-fsid : (a b : ℕ) → IsU64 a → IsU64 b → Reads skip_fsid (uint64 a ++ uint64 b) tt
unfolding skip_fsid
Reads-fsid a b ha hb = Reads-bind _ (Reads-uint64 a ha) (Reads-last _ (Reads-uint64 b hb))

Reads-attrlist :
    (bm : List ℕ) (v : Values)
    → IsValues v
    → Reads (decode_attrlist bm) (attrs_wire bm v) (named bm v)
unfolding decode_attrlist attrs_wire named
Reads-attrlist bm v h = Reads-bind _ (Reads-when_set bm 1 _ _ (Reads-uint32 v.type h.type)) (
    Reads-bind _ (Reads-when_set bm 3 _ _ (Reads-uint64 v.change h.change)) (
      Reads-bind _ (Reads-when_set bm 4 _ _ (Reads-uint64 v.size h.size)) (
        Reads-bind _
          (Reads-when_set bm 8 _ _ (Reads-fsid v.fsid_major v.fsid_minor h.fsid_major h.fsid_minor))
          (Reads-bind _ (Reads-when_set bm 20 _ _ (Reads-uint64 v.fileid h.fileid)) (
            Reads-bind _ (Reads-when_set bm 33 _ _ (Reads-uint32 v.mode h.mode)) (
              Reads-bind _ (Reads-when_set bm 35 _ _ (Reads-uint32 v.numlinks h.numlinks)) (
                Reads-bind _ (Reads-when_set bm 36 _ _ (Reads-string v.owner h.owner)) (
                  Reads-bind _ (Reads-when_set bm 37 _ _ (Reads-string v.owner_group h.owner_group))
                    (Reads-bind _
                      (Reads-when_set bm 45 _ _ (Reads-uint64 v.space_used h.space_used))
                      (Reads-bind _
                        (Reads-when_set bm 47 _ _ (Reads-time4 v.time_access h.time_access))
                        (Reads-bind _
                          (Reads-when_set bm 52 _ _ (Reads-time4 v.time_metadata h.time_metadata))
                          (Reads-bind _
                            (Reads-when_set bm 53 _ _ (Reads-time4 v.time_modify h.time_modify))
                            (Reads-last _ (
                              Reads-when_set bm 55 _ _
                                (Reads-uint64 v.mounted_on_fileid h.mounted_on_fileid)))))))))))))))

Reads-bitmap4 :
    (bm : List ℕ)
    → Fits32 bm
    → All IsU32 bm
    → Reads decode_bitmap4 (uint32 (length bm) ++ each uint32 bm) bm
unfolding decode_bitmap4
Reads-bitmap4 bm n h =
    Reads-bind _ (Reads-uint32 (length bm) n) (Reads-repeat uint32 IsU32 Reads-uint32 bm h)

abbrev pub fattr4_wire : List ℕ → Values → List ℕ
fattr4_wire bm v = (uint32 (length bm) ++ each uint32 bm) ++ opaque (attrs_wire bm v)

pub Reads-fattr4 :
    (bm : List ℕ) (v : Values)
    → Fits32 bm
    → All IsU32 bm
    → IsValues v
    → Fits32 (attrs_wire bm v)
    → Reads decode_fattr4 (fattr4_wire bm v) (named bm v)
unfolding decode_fattr4
Reads-fattr4 bm v n hb hv hw = Reads-bind _ (Reads-bitmap4 bm n hb) (
    Reads-done _ (Reads-opaque (attrs_wire bm v) hw) (
      Reads-within (decode_attrlist bm) (attrs_wire bm v)
        (rw append-nil at (run-Reads [] (Reads-attrlist bm v hv)))))

-- Whatever set of the attributes that the client knows is named in the bitmap of a `fattr4`, id `i` by
-- the bit `i % 32`, counted from the lowest, of the word `i / 32`, each of that set comes out with the value that the server sent for it, the others come out absent, and the
-- decoder stops behind the `fattr4`; for values in the range of their types, no values of attributes
-- that the client does not know, and a list of values shorter than 2 ^ 32 bytes.
pub decode_fattr4-named :
    (bm : List ℕ) (v : Values) (rest : List ℕ)
    → Fits32 bm
    → All IsU32 bm
    → IsValues v
    → Fits32 (attrs_wire bm v)
    → run {A = Fattr4 × List ℕ}
        (decode_fattr4 >>= λ a. get_remaining >>= λ left. pure (a, left))
        (fattr4_wire bm v ++ rest)
      ≡ ok (named bm v, rest)
decode_fattr4-named bm v rest n hb hv hw =
    run-Finishes
      (Finishes-bind _ (Reads-fattr4 bm v n hb hv hw) (Finishes-last _ (Finishes-remaining rest)))
