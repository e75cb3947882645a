-- ===== src/Nfs3/Listing.antt =====
-- Arguments and replies of src/nfs/readdir.cpp and readdirplus.cpp.
pub mod Served
use nfsclient.Base.{ℕ, Bool, not, Option, none, some, List, ◌==◌, if◌then◌else◌}
use nfsclient.Errors.{Result}
use nfsclient.Xdr.Encoder.{◌⨾◌, encoded, put_uint32, put_uint64, put_fixed_opaque}
use nfsclient.Xdr.Decoder.{
  Decode, pure, run, ◌>>=◌, ◌>>◌, get_uint32, get_uint64, get_string, get_fixed_opaque, linked_list,
}
use nfsclient.Nfs3.Types.{Fh3, Fattr3, encode_fh3, decode_fh3, decode_fattr3, skip_post_op_attr}
use nfsclient.Nfs3.Status.{check_status}

pub record DirEntry3 : Type 0 where
  pub fileid : ℕ
  pub name : List ℕ
  pub cookie : ℕ

pub record ReaddirPage : Type 0 where
  pub entries : List DirEntry3
  pub eof : Bool
  pub cookieverf : List ℕ

unfoldable pub encode_readdir_args : Fh3 → ℕ → List ℕ → ℕ → List ℕ
encode_readdir_args dir cookie cookieverf count =
    encoded (encode_fh3 dir ⨾ put_uint64 cookie ⨾ put_fixed_opaque cookieverf ⨾ put_uint32 count)

unfoldable pub dir_entry : Decode DirEntry3
dir_entry = do
  fileid ← get_uint64
  name ← get_string
  cookie ← get_uint64
  pure (record { fileid = fileid; name = name; cookie = cookie })

unfoldable pub readdir_reply : Decode ReaddirPage
unfolding dir_entry
readdir_reply = do
  status ← get_uint32
  skip_post_op_attr
  check_status status "READDIR"
  cookieverf ← get_fixed_opaque 8
  entries ← linked_list dir_entry
  eof ← get_uint32
  pure (record { entries = entries; eof = not (eof == 0); cookieverf = cookieverf })

unfoldable pub decode_readdir_reply : List ℕ → Result ReaddirPage
unfolding readdir_reply
decode_readdir_reply bytes = run readdir_reply bytes

-- `has_attrs` with `attrs`, and `has_fh` with `fh`, are options: the value counts only if it is set.
pub record DirEntryPlus3 : Type 0 where
  pub fileid : ℕ
  pub name : List ℕ
  pub cookie : ℕ
  pub attrs : Option Fattr3
  pub fh : Option Fh3

pub record ReaddirplusPage : Type 0 where
  pub entries : List DirEntryPlus3
  pub eof : Bool
  pub cookieverf : List ℕ

unfoldable pub encode_readdirplus_args : Fh3 → ℕ → List ℕ → ℕ → ℕ → List ℕ
encode_readdirplus_args dir cookie cookieverf dircount maxcount = encoded (
    encode_fh3 dir
    ⨾ put_uint64 cookie
    ⨾ put_fixed_opaque cookieverf
    ⨾ put_uint32 dircount
    ⨾ put_uint32 maxcount)

-- `has = (get_uint32() != 0); if (has) value = …;`
unfoldable pub optional : {A : Type 0} → Decode A → Decode (Option A)
optional m = do has ← get_uint32; if has == 0 then pure none else (m >>= λ x. pure (some x))

unfoldable pub dir_entry_plus : Decode DirEntryPlus3
unfolding optional
dir_entry_plus = do
  fileid ← get_uint64
  name ← get_string
  cookie ← get_uint64
  attrs ← optional decode_fattr3
  fh ← optional decode_fh3
  pure (record { fileid = fileid; name = name; cookie = cookie; attrs = attrs; fh = fh })

unfoldable pub readdirplus_reply : Decode ReaddirplusPage
unfolding dir_entry_plus
readdirplus_reply = do
  status ← get_uint32
  skip_post_op_attr
  check_status status "READDIRPLUS"
  cookieverf ← get_fixed_opaque 8
  entries ← linked_list dir_entry_plus
  eof ← get_uint32
  pure (record { entries = entries; eof = not (eof == 0); cookieverf = cookieverf })

unfoldable pub decode_readdirplus_reply : List ℕ → Result ReaddirplusPage
unfolding readdirplus_reply
decode_readdirplus_reply bytes = run readdirplus_reply bytes
