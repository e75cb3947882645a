-- ===== src/Nfs3/Listing/Served.antt =====
-- One page of a directory as the server sends it, with the linked list of its entries.
use nfsclient.Base.{
  ℕ, String, ◌≡◌, [], Option, some, none, List, ◌++◌, All, Bool, true, false, not, ◌==◌, length,
  if◌then◌else◌, arith,
}
use nfsclient.Errors.{ok}
use nfsclient.Xdr.Decoder.{Decode, pure, ◌>>=◌, ◌>>◌, get_uint32, get_fixed_opaque, linked_list}
use nfsclient.Xdr.Wire.{IsU64, Fits32, uint32, uint64, opaque, fixed_opaque, linked}
use nfsclient.Xdr.Reads.{Reads, Reads-pure, Reads-bind, Reads-last, Reads-done, run-Reads}
use nfsclient.Xdr.Reads.Items.{
  Reads-uint32, Reads-uint64, Reads-string, Reads-fixed_opaque, Reads-linked_list,
}
use nfsclient.Nfs3.Types.{Fattr3, skip_post_op_attr}
use nfsclient.Nfs3.Types.Wire.{IsFh, fh3, fattr3, IsFattr, post_op_attr, IsAttr}
use nfsclient.Nfs3.Types.Reads.{Reads-fh3, Reads-fattr3, Reads-post_op_attr}
use nfsclient.Nfs3.Status.{check_status, Reads-check_status}
use nfsclient.Nfs3.Listing.{
  DirEntry3, dir_entry, decode_readdir_reply, DirEntryPlus3, optional, dir_entry_plus,
  decode_readdirplus_reply,
}

abbrev pub entry3 : DirEntry3 → List ℕ
entry3 e = uint64 e.fileid ++ (opaque e.name ++ uint64 e.cookie)

abbrev pub IsEntry : DirEntry3 → Type 0
IsEntry e = IsU64 e.fileid × Fits32 e.name × IsU64 e.cookie

-- An optional item: 1 and the item, or 0.
abbrev pub present : {A : Type 0} → (A → List ℕ) → Option A → List ℕ
present f none = uint32 0
present f (some a) = uint32 1 ++ f a

abbrev pub IsPresent : {A : Type 0} → (A → Type 0) → Option A → Type 0
IsPresent P none = Unit
IsPresent P (some a) = P a

abbrev pub entryplus3 : DirEntryPlus3 → List ℕ
entryplus3 e =
    uint64 e.fileid
    ++ (opaque e.name ++ (uint64 e.cookie ++ (present fattr3 e.attrs ++ present fh3 e.fh)))

abbrev pub IsEntryPlus : DirEntryPlus3 → Type 0
IsEntryPlus e =
    IsU64 e.fileid
    × Fits32 e.name
    × IsU64 e.cookie
    × IsPresent IsFattr e.attrs
    × IsPresent IsFh e.fh

abbrev pub flag : Bool → List ℕ
flag b = uint32 (if b then 1 else 0)

Reads-entry : (e : DirEntry3) → IsEntry e → Reads dir_entry (entry3 e) e
unfolding dir_entry
Reads-entry e (hf, hn, hc) =
    Reads-bind _ (Reads-uint64 e.fileid hf)
      (Reads-bind _ (Reads-string e.name hn) (Reads-last _ (Reads-uint64 e.cookie hc)))

Reads-present :
    {A : Type 0} {m : Decode A} (f : A → List ℕ) (P : A → Type 0)
    → ((a : A) → P a → Reads m (f a) a)
    → (o : Option A) → IsPresent P o
    → Reads (optional m) (present f o) o
unfolding optional
Reads-present f P r none h = Reads-done _ (Reads-uint32 0 (omega arith)) (Reads-pure none)
Reads-present f P r (some a) h = Reads-bind _ (Reads-uint32 1 (omega arith)) (Reads-last _ (r a h))

Reads-entryplus : (e : DirEntryPlus3) → IsEntryPlus e → Reads dir_entry_plus (entryplus3 e) e
unfolding dir_entry_plus
Reads-entryplus e (hf, hn, hc, ha, hh) = Reads-bind _ (Reads-uint64 e.fileid hf) (
    Reads-bind _ (Reads-string e.name hn) (
      Reads-bind _ (Reads-uint64 e.cookie hc) (
        Reads-bind _ (Reads-present fattr3 IsFattr Reads-fattr3 e.attrs ha)
          (Reads-last _ (Reads-present fh3 IsFh Reads-fh3 e.fh hh)))))

-- What both replies have: the status, attributes, the verifier, the entries, `eof`.
abbrev pub page_wire : {E : Type 0} → (E → List ℕ) → Option Fattr3 → List ℕ → List E → Bool → List ℕ
page_wire f attrs verf es eof =
    uint32 0 ++ (post_op_attr attrs ++ (fixed_opaque verf ++ (linked f es ++ flag eof)))

Reads-flag :
    {P : Type 0} (make : Bool → P) (b : Bool)
    → Reads (get_uint32 >>= λ v. pure (make (not (v == 0)))) (flag b) (make b)
Reads-flag make true = Reads-last (λ v. make (not (v == 0))) (Reads-uint32 1 (omega arith))
Reads-flag make false = Reads-last (λ v. make (not (v == 0))) (Reads-uint32 0 (omega arith))

Reads-page :
    {E P : Type 0} (proc : String) {item : Decode E} (f : E → List ℕ) (Q : E → Type 0)
    → ((e : E) → Q e → Reads item (f e) e)
    → (make : List E → Bool → List ℕ → P)
    → (attrs : Option Fattr3) (verf : List ℕ) (es : List E) (eof : Bool) → IsAttr attrs
    → length verf ≡ 8
    → All Q es
    → Reads
        (do
          status ← get_uint32
          skip_post_op_attr
          check_status status proc
          cookieverf ← get_fixed_opaque 8
          entries ← linked_list item
          eof ← get_uint32
          pure (make entries (not (eof == 0)) cookieverf))
        (page_wire f attrs verf es eof)
        (make es eof verf)
Reads-page proc f Q r make attrs verf es eof ha hv hes =
    Reads-bind _ (Reads-uint32 0 (omega arith)) (
      Reads-bind _ (Reads-post_op_attr attrs ha) (
        Reads-bind _ {bs = []} (Reads-check_status proc) (
          Reads-bind _ (Reads-fixed_opaque 8 verf hv) (
            Reads-bind _ (Reads-linked_list f Q r es hes) (Reads-flag (λ b. make es b verf) eof)))))

-- A page of READDIR comes back as the server sends it: every entry of the linked list in order, the
-- `eof` mark and the verifier, whether attributes stand before them or not and whatever bytes follow;
-- for 64-bit ids and cookies, names shorter than 2 ^ 32 bytes and a verifier of 8.
pub decode_readdir_reply-page :
    (attrs : Option Fattr3) (verf : List ℕ) (es : List DirEntry3) (eof : Bool) (rest : List ℕ)
    → IsAttr attrs
    → length verf ≡ 8
    → All IsEntry es
    → decode_readdir_reply (page_wire entry3 attrs verf es eof ++ rest)
      ≡ ok (record { entries = es; eof = eof; cookieverf = verf })
unfolding decode_readdir_reply
decode_readdir_reply-page attrs verf es eof rest ha hv hes = run-Reads rest (
    Reads-page "READDIR" entry3 IsEntry Reads-entry
      (λ es eof verf. record { entries = es; eof = eof; cookieverf = verf }) attrs verf es eof ha hv
      hes)

-- A page of READDIRPLUS comes back as the server sends it, with the attributes and the handle of just
-- those entries that have them; under the same conditions, for handles shorter than 2 ^ 32 bytes.
pub decode_readdirplus_reply-page :
    (attrs : Option Fattr3) (verf : List ℕ) (es : List DirEntryPlus3) (eof : Bool) (rest : List ℕ)
    → IsAttr attrs
    → length verf ≡ 8
    → All IsEntryPlus es
    → decode_readdirplus_reply (page_wire entryplus3 attrs verf es eof ++ rest)
      ≡ ok (record { entries = es; eof = eof; cookieverf = verf })
unfolding decode_readdirplus_reply
decode_readdirplus_reply-page attrs verf es eof rest ha hv hes = run-Reads rest (
    Reads-page "READDIRPLUS" entryplus3 IsEntryPlus Reads-entryplus
      (λ es eof verf. record { entries = es; eof = eof; cookieverf = verf }) attrs verf es eof ha hv
      hes)
