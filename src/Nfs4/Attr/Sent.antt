-- ===== src/Nfs4/Attr/Sent.antt =====
-- What a client sets is what is read: `encode_fattr4` against `decode_fattr4`.
use nfsclient.Base.{
  ℕ, ◌+◌, ◌%◌, ◌^◌, ◌≤◌, ◌<◌, ◌≡◌, refl, sym, ◌∙◌, ap, subst, append-nil, false, Option, none, some,
  List, [], ◌++◌, length, ◌==◌, length-append, arith,
}
use nfsclient.Errors.{ok}
use nfsclient.Xdr.Encoder.{Enc, encoded, put_string, put_opaque}
use nfsclient.Xdr.Decoder.{run}
use nfsclient.Xdr.Wire.{IsU32, IsU64, Fits32, uint32, uint64, opaque, each}
use nfsclient.Xdr.Sizes.{length-uint32, length-uint64, length-opaque}
use nfsclient.Xdr.Emits.{
  Emits, Emits-encoded, Emits-skip, Emits-seq, Emits-uint32, Emits-uint64, Emits-string,
  Emits-opaque, Emits-each,
}
use nfsclient.Xdr.Reads.{Reads, run-Reads}
use nfsclient.Nfs4.Types.{Fattr4}
use nfsclient.Nfs4.Bitmap.{bitmap4_test, encode_bitmap4}
use nfsclient.Nfs4.Bitmap.Sets.{names}
use nfsclient.Nfs4.Attr.Marks.{
  is_some, number, string, given, marks, bm, marked, unmarked, few_words, bm-All,
}
use nfsclient.Nfs4.Attr.Returned.{
  Values, IsValues, attrs_wire, named, sent, known, fattr4_wire, Reads-fattr4,
}
use nfsclient.Nfs4.Attr.{decode_fattr4, Sattr4, settable, put_present, put_attrs, encode_fattr4}

-- The ranges of the C++ types, and strings that are not huge.
abbrev pub IsSettable : Option ℕ → Option ℕ → Option (List ℕ) → Option (List ℕ) → Type 0
IsSettable size mode owner group =
    IsU64 (number size)
    × IsU32 (number mode)
    × (length (string owner) < 2 ^ 30)
    × (length (string group) < 2 ^ 30)

-- A value for each attribute: of those that the client does not set it does not matter which.
values : Option ℕ → Option ℕ → Option (List ℕ) → Option (List ℕ) → Values
values size mode owner group = record {
  type = 0;
  change = 0;
  size = number size;
  fsid_major = 0;
  fsid_minor = 0;
  fileid = 0;
  mode = number mode;
  numlinks = 0;
  owner = string owner;
  owner_group = string group;
  space_used = 0;
  time_access = record { seconds = 0; nseconds = 0 };
  time_metadata = record { seconds = 0; nseconds = 0 };
  time_modify = record { seconds = 0; nseconds = 0 };
  mounted_on_fileid = 0;
}

IsValues-values :
    (size mode : Option ℕ) (owner group : Option (List ℕ))
    → IsSettable size mode owner group
    → IsValues (values size mode owner group)
unfolding values
IsValues-values size mode owner group (hs, hm, ho, hg) = record {
  type = omega arith;
  change = omega arith;
  size = hs;
  fsid_major = omega arith;
  fsid_minor = omega arith;
  fileid = omega arith;
  mode = hm;
  numlinks = omega arith;
  owner = omega arith;
  owner_group = omega arith;
  space_used = omega arith;
  time_access = (omega arith, omega arith);
  time_metadata = (omega arith, omega arith);
  time_modify = (omega arith, omega arith);
  mounted_on_fileid = omega arith;
}

-- The attribute list of those that are set.
list_wire : Option ℕ → Option ℕ → Option (List ℕ) → Option (List ℕ) → List ℕ
list_wire size mode owner group =
    given uint64 size ++ (given uint32 mode ++ (given opaque owner ++ given opaque group))

sent-given : (f : ℕ → List ℕ) (o : Option ℕ) → sent (is_some o) (f (number o)) ≡ given f o
sent-given f none = refl
sent-given f (some a) = refl

sent-given-string : (o : Option (List ℕ)) → sent (is_some o) (opaque (string o)) ≡ given opaque o
sent-given-string none = refl
sent-given-string (some a) = refl

known-number : (o : Option ℕ) → known (is_some o) (number o) ≡ o
known-number none = refl
known-number (some a) = refl

known-string : (o : Option (List ℕ)) → known (is_some o) (string o) ≡ o
known-string none = refl
known-string (some a) = refl

abbrev pub only : Option ℕ → Option ℕ → Option (List ℕ) → Option (List ℕ) → Fattr4
only size mode owner group = record {
  type = none;
  change = none;
  size = size;
  fileid = none;
  mode = mode;
  numlinks = none;
  owner = owner;
  owner_group = group;
  space_used = none;
  time_access = none;
  time_metadata = none;
  time_modify = none;
  mounted_on_fileid = none;
}

module _ (size mode : Option ℕ) (owner group : Option (List ℕ)) where
  abbrev Absent : (j : ℕ) → Type 0
  Absent j = names (bm size mode owner group) j ≡ false

  others :
      Absent 1
      × Absent 3
      × Absent 8
      × Absent 20
      × Absent 35
      × Absent 45
      × Absent 47
      × Absent 52
      × Absent 53
      × Absent 55
  unfolding bitmap4_test
  others =
      let no : (j : ℕ)
          → (37 == j) ≡ false
          → (36 == j) ≡ false
          → (33 == j) ≡ false
          → (4 == j) ≡ false
          → bitmap4_test [] j ≡ false
          → Absent j =
        unmarked size mode owner group in
      (
        no 1 refl refl refl refl refl,
        no 3 refl refl refl refl refl,
        no 8 refl refl refl refl refl,
        no 20 refl refl refl refl refl,
        no 35 refl refl refl refl refl,
        no 45 refl refl refl refl refl,
        no 47 refl refl refl refl refl,
        no 52 refl refl refl refl refl,
        no 53 refl refl refl refl refl,
        no 55 refl refl refl refl refl,
      )

  attrs_wire-values :
      attrs_wire (bm size mode owner group) (values size mode owner group)
      ≡ list_wire size mode owner group
  unfolding attrs_wire values list_wire
  attrs_wire-values =
      let (t4, t33, t36, t37) = marked size mode owner group in
      let (t1, t3, t8, t20, t35, t45, t47, t52, t53, t55) = others in
      rw
        (
          t1,
          t3,
          t4,
          t8,
          t20,
          t33,
          t35,
          t36,
          t37,
          t45,
          t47,
          t52,
          t53,
          t55,
          sent-given uint64 size,
          sent-given uint32 mode,
          sent-given-string owner,
          sent-given-string group,
        )
        (ap (λ (t : List ℕ). given uint64 size ++ (given uint32 mode ++ (given opaque owner ++ t)))
          (append-nil (given opaque group)))

  named-values :
      named (bm size mode owner group) (values size mode owner group) ≡ only size mode owner group
  unfolding named values
  named-values =
      let (t4, t33, t36, t37) = marked size mode owner group in
      let (t1, t3, t8, t20, t35, t45, t47, t52, t53, t55) = others in
      rw (
        t1,
        t3,
        t4,
        t20,
        t33,
        t35,
        t36,
        t37,
        t45,
        t47,
        t52,
        t53,
        t55,
        known-number size,
        known-number mode,
        known-string owner,
        known-string group,
      )

pub Emits-bitmap4 :
    (ws : List ℕ) → Fits32 ws → Emits (encode_bitmap4 ws) (uint32 (length ws) ++ each uint32 ws)
unfolding encode_bitmap4
Emits-bitmap4 ws h =
    let e : length ws % 2 ^ 32 ≡ length ws = omega arith in
    rw e (Emits-seq (Emits-uint32 _) (Emits-each Emits-uint32 ws))

Emits-present :
    {A : Type 0} {put : A → Enc} (f : A → List ℕ) (P : A → Type 0)
    → ((a : A) → P a → Emits (put a) (f a))
    → (o : Option A) → ((a : A) → o ≡ some a → P a)
    → Emits (put_present put o) (given f o)
Emits-present f P r none h = Emits-skip
Emits-present f P r (some a) h = r a (h a refl)

length-given-uint64 : (o : Option ℕ) → length (given uint64 o) ≤ 8
length-given-uint64 none = omega arith
length-given-uint64 (some a) = omega (arith, length-uint64 a)

length-given-uint32 : (o : Option ℕ) → length (given uint32 o) ≤ 4
length-given-uint32 none = omega arith
length-given-uint32 (some a) = omega (arith, length-uint32 a)

length-given-opaque : (o : Option (List ℕ)) → length (given opaque o) ≤ length (string o) + 7
length-given-opaque none = omega arith
length-given-opaque (some a) = omega (arith, length-opaque a)

module _ (size mode : Option ℕ) (owner group : Option (List ℕ))
    (h : IsSettable size mode owner group) where
  Fits32-list_wire : Fits32 (list_wire size mode owner group)
  unfolding list_wire
  Fits32-list_wire =
      let (hs, hm, ho, hg) = h in
      omega (
        arith,
        length-append (given uint64 size)
            (given uint32 mode ++ (given opaque owner ++ given opaque group)),
        length-append (given uint32 mode) (given opaque owner ++ given opaque group),
        length-append (given opaque owner) (given opaque group),
        length-given-uint64 size,
        length-given-uint32 mode,
        length-given-opaque owner,
        length-given-opaque group,
      )

  Emits-string_of :
      (o : Option (List ℕ))
      → length (string o) < 2 ^ 30
      → Emits (put_present put_string o) (given opaque o)
  Emits-string_of o ho = Emits-present opaque Fits32 Emits-string o (λ a e.
      let e' : length (string o) ≡ length a = ap (λ (x : Option (List ℕ)). length (string x)) e in
      omega arith)

  abbrev pub chosen : Sattr4
  chosen = record {
    size = size;
    mode = mode;
    owner = owner;
    owner_group = group;
    time_access = none;
    time_modify = none;
  }

  Emits-attrs : Emits (put_attrs chosen) (list_wire size mode owner group)
  unfolding put_attrs list_wire
  Emits-attrs =
      let (hs, hm, ho, hg) = h in
      Emits-seq (Emits-present uint64 IsU64 Emits-uint64 size (λ a e. subst IsU64 (ap number e) hs))
        (Emits-seq (Emits-present uint32 (λ a. Unit) (λ a u. Emits-uint32 a) mode (λ a e. tt))
          (Emits-seq (Emits-string_of owner ho) (Emits-string_of group hg)))

  Emits-fattr4 :
      Emits
        (encode_fattr4 chosen)
        (fattr4_wire (bm size mode owner group) (values size mode owner group))
  unfolding encode_fattr4 settable bm
  Emits-fattr4 =
      let list : List ℕ = list_wire size mode owner group in
      let put : Emits (put_opaque (encoded (put_attrs chosen))) (opaque list) =
        subst (λ (bs : List ℕ). Emits (put_opaque bs) (opaque list))
          (sym (Emits-encoded Emits-attrs)) (Emits-opaque list Fits32-list_wire) in
      rw (attrs_wire-values size mode owner group) (
        Emits-seq (Emits-bitmap4 (marks size mode owner group) (few_words size mode owner group))
          put)

  Reads-sent :
      Reads decode_fattr4
        (fattr4_wire (bm size mode owner group) (values size mode owner group))
        (only size mode owner group)
  Reads-sent =
      subst
        (Reads decode_fattr4
          (fattr4_wire (bm size mode owner group) (values size mode owner group)))
        (named-values size mode owner group)
        (Reads-fattr4 (bm size mode owner group) (values size mode owner group)
          (few_words size mode owner group) (bm-All size mode owner group)
          (IsValues-values size mode owner group h)
          (subst Fits32 (sym (attrs_wire-values size mode owner group)) Fits32-list_wire))

-- A size, a mode, an owner and a group that a client sets, each or not, are what a reader of the
-- `fattr4` finds, and it finds nothing else; whatever bytes follow, for numbers in the range of their
-- types and strings shorter than 2 ^ 30 bytes.
pub decode_fattr4-encode_fattr4 :
    (size mode : Option ℕ) (owner group : Option (List ℕ)) (rest : List ℕ)
    → IsSettable size mode owner group
    → run decode_fattr4 (
        encoded (
          encode_fattr4 (record {
            size = size;
            mode = mode;
            owner = owner;
            owner_group = group;
            time_access = none;
            time_modify = none;
          }))
        ++ rest)
      ≡ ok (only size mode owner group)
decode_fattr4-encode_fattr4 size mode owner group rest h =
    ap (λ (bs : List ℕ). run decode_fattr4 (bs ++ rest))
      (Emits-encoded (Emits-fattr4 size mode owner group h))
    ∙ run-Reads rest (Reads-sent size mode owner group h)
