-- ===== src/Nfs3/Failures.antt =====
-- What the callers get when the server refuses: the error replies of RFC 1813, with the attributes
-- that some of them carry.
use nfsclient.Base.{ℕ, String, ◌≡◌, ◌≢◌, Option, List, [], ◌++◌}
use nfsclient.Errors.{err, Exception}
use nfsclient.Xdr.Decoder.{Decode, ◌>>=◌, run, get_uint32}
use nfsclient.Xdr.Wire.{IsU32, uint32}
use nfsclient.Xdr.Reads.{Reads, Raises, Raises-bind, Raises-last, Raises-first, run-Raises}
use nfsclient.Xdr.Reads.Items.{Reads-uint32}
use nfsclient.Nfs3.Types.{Fattr3}
use nfsclient.Nfs3.Types.Wire.{post_op_attr, IsAttr, Wcc, wcc_data, IsWcc}
use nfsclient.Nfs3.Types.Reads.{Reads-post_op_attr, Reads-wcc_data}
use nfsclient.Nfs3.Status.{check_status, Raises-check_status}
use nfsclient.Nfs3.Files.{
  decode_getattr_reply, decode_lookup_reply, decode_access_reply, decode_read_reply,
  decode_write_reply, decode_commit_reply, decode_readlink_reply, decode_setattr_reply,
}
use nfsclient.Nfs3.Names.{
  decode_create_reply, decode_mkdir_reply, decode_remove_reply, decode_rmdir_reply,
  decode_rename_reply, decode_symlink_reply, decode_link_reply, decode_mknod_reply,
}
use nfsclient.Nfs3.Info.{decode_fsstat_reply, decode_fsinfo_reply, decode_pathconf_reply}
use nfsclient.Nfs3.Listing.{decode_readdir_reply, decode_readdirplus_reply}

-- The error reply begins with a status that is not `NFS3_OK`.
abbrev pub IsError : ℕ → Type 0
IsError status = IsU32 status × (status ≢ 0)

module _ {A : Type 0} (status : ℕ) (hs : IsError status) (proc : String) where
  Raises-check :
      (k : Unit {0} → Decode A)
      → Raises (check_status status proc >>= k) [] (Exception.nfs_error status proc)
  Raises-check k = Raises-first k (Raises-check_status status proc hs.1)

  -- The decoders that look at the status first.
  pub throws_at_once :
      (k : Unit {0} → Decode A) (rest : List ℕ)
      → run (get_uint32 >>= λ s. check_status s proc >>= k) (uint32 status ++ rest)
        ≡ err (Exception.nfs_error status proc)
  throws_at_once k rest =
      run-Raises rest (Raises-last _ (Reads-uint32 status hs.0) (Raises-check k))

  -- The decoders that first pass over what stands behind the status in both kinds of reply.
  throws_behind :
      {skipped : Decode (Unit {0})} {bs : List ℕ} (k : Unit {0} → Decode A) (rest : List ℕ)
      → Reads skipped bs tt
      → run
          (get_uint32 >>= λ s. skipped >>= λ u. check_status s proc >>= k)
          ((uint32 status ++ bs) ++ rest)
        ≡ err (Exception.nfs_error status proc)
  throws_behind k rest r =
      run-Raises rest (Raises-bind _ (Reads-uint32 status hs.0) (Raises-last _ r (Raises-check k)))

module _ (status : ℕ) (hs : IsError status) (proc : String) where
  throws_at_end :
      {skipped : Decode (Unit {0})} {bs : List ℕ} (rest : List ℕ)
      → Reads skipped bs tt
      → run
          (get_uint32 >>= λ s. skipped >>= λ u. check_status s proc)
          ((uint32 status ++ bs) ++ rest)
        ≡ err (Exception.nfs_error status proc)
  throws_at_end rest r = run-Raises rest (
      Raises-bind _ (Reads-uint32 status hs.0)
        (Raises-last _ r (Raises-check_status status proc hs.1)))

-- An error reply that starts with its status: each of GETATTR, LOOKUP, CREATE, MKDIR, SYMLINK, MKNOD,
-- REMOVE and RMDIR throws an `NfsError` with that status and its own name, whatever bytes follow;
-- for any status that is not 0.
pub decode_reply-error :
    (status : ℕ) (rest : List ℕ)
    → IsError status
    → (decode_getattr_reply (uint32 status ++ rest) ≡ err (Exception.nfs_error status "GETATTR"))
      × (decode_lookup_reply (uint32 status ++ rest) ≡ err (Exception.nfs_error status "LOOKUP"))
      × (decode_create_reply (uint32 status ++ rest) ≡ err (Exception.nfs_error status "CREATE"))
      × (decode_mkdir_reply (uint32 status ++ rest) ≡ err (Exception.nfs_error status "MKDIR"))
      × (decode_symlink_reply (uint32 status ++ rest) ≡ err (Exception.nfs_error status "SYMLINK"))
      × (decode_mknod_reply (uint32 status ++ rest) ≡ err (Exception.nfs_error status "MKNOD"))
      × (decode_remove_reply (uint32 status ++ rest) ≡ err (Exception.nfs_error status "REMOVE"))
      × (decode_rmdir_reply (uint32 status ++ rest) ≡ err (Exception.nfs_error status "RMDIR"))
unfolding decode_getattr_reply decode_lookup_reply decode_create_reply decode_mkdir_reply
    decode_symlink_reply decode_mknod_reply decode_remove_reply decode_rmdir_reply
decode_reply-error status rest h = (
  throws_at_once status h "GETATTR" _ rest,
  throws_at_once status h "LOOKUP" _ rest,
  throws_at_once status h "CREATE" _ rest,
  throws_at_once status h "MKDIR" _ rest,
  throws_at_once status h "SYMLINK" _ rest,
  throws_at_once status h "MKNOD" _ rest,
  throws_at_once status h "REMOVE" _ rest,
  throws_at_once status h "RMDIR" _ rest,
)

-- An error reply with attributes behind its status, present or not: each of ACCESS, READ, READLINK,
-- READDIR, READDIRPLUS, FSSTAT, FSINFO and PATHCONF throws an `NfsError` with that status and its own
-- name, whatever bytes follow; for any status that is not 0 and attributes in range.
pub decode_reply-error_with_attributes :
    (status : ℕ) (attrs : Option Fattr3) (rest : List ℕ)
    → IsError status
    → IsAttr attrs
    → let bytes : List ℕ = (uint32 status ++ post_op_attr attrs) ++ rest in
      (decode_access_reply bytes ≡ err (Exception.nfs_error status "ACCESS"))
      × (decode_read_reply bytes ≡ err (Exception.nfs_error status "READ"))
      × (decode_readlink_reply bytes ≡ err (Exception.nfs_error status "READLINK"))
      × (decode_readdir_reply bytes ≡ err (Exception.nfs_error status "READDIR"))
      × (decode_readdirplus_reply bytes ≡ err (Exception.nfs_error status "READDIRPLUS"))
      × (decode_fsstat_reply bytes ≡ err (Exception.nfs_error status "FSSTAT"))
      × (decode_fsinfo_reply bytes ≡ err (Exception.nfs_error status "FSINFO"))
      × (decode_pathconf_reply bytes ≡ err (Exception.nfs_error status "PATHCONF"))
unfolding decode_access_reply decode_read_reply decode_readlink_reply decode_readdir_reply
    decode_readdirplus_reply decode_fsstat_reply decode_fsinfo_reply decode_pathconf_reply
decode_reply-error_with_attributes status attrs rest h ha =
    let r = Reads-post_op_attr attrs ha in
    (
      throws_behind status h "ACCESS" _ rest r,
      throws_behind status h "READ" _ rest r,
      throws_behind status h "READLINK" _ rest r,
      throws_behind status h "READDIR" _ rest r,
      throws_behind status h "READDIRPLUS" _ rest r,
      throws_behind status h "FSSTAT" _ rest r,
      throws_behind status h "FSINFO" _ rest r,
      throws_behind status h "PATHCONF" _ rest r,
    )

-- An error reply with the attributes before and after of one file: each of WRITE, COMMIT and SETATTR
-- throws an `NfsError` with that status and its own name, whatever bytes follow, and so do RENAME
-- with the attributes of its two directories and LINK with those of the file and its directory; for
-- any status that is not 0 and attributes in range.
pub decode_reply-error_with_wcc :
    (status : ℕ) (attrs : Option Fattr3) (w w' : Wcc) (rest : List ℕ)
    → IsError status
    → IsAttr attrs
    → IsWcc w
    → IsWcc w'
    → let bytes : List ℕ = (uint32 status ++ wcc_data w) ++ rest in
      (decode_write_reply bytes ≡ err (Exception.nfs_error status "WRITE"))
      × (decode_commit_reply bytes ≡ err (Exception.nfs_error status "COMMIT"))
      × (decode_setattr_reply bytes ≡ err (Exception.nfs_error status "SETATTR"))
      × (decode_rename_reply ((uint32 status ++ (wcc_data w ++ wcc_data w')) ++ rest)
          ≡ err (Exception.nfs_error status "RENAME"))
      × (decode_link_reply ((uint32 status ++ (post_op_attr attrs ++ wcc_data w)) ++ rest)
          ≡ err (Exception.nfs_error status "LINK"))
unfolding decode_write_reply decode_commit_reply decode_setattr_reply decode_rename_reply
    decode_link_reply
decode_reply-error_with_wcc status attrs w w' rest h ha hw hw' =
    let r = Reads-wcc_data w hw in
    (
      throws_behind status h "WRITE" _ rest r,
      throws_behind status h "COMMIT" _ rest r,
      throws_at_end status h "SETATTR" rest r,
      run-Raises rest (
          Raises-bind _ (Reads-uint32 status h.0) (
            Raises-bind _ r
              (Raises-last _ (Reads-wcc_data w' hw') (Raises-check_status status "RENAME" h.1)))),
      run-Raises rest (
          Raises-bind _ (Reads-uint32 status h.0) (
            Raises-bind _ (Reads-post_op_attr attrs ha)
              (Raises-last _ r (Raises-check_status status "LINK" h.1)))),
    )
