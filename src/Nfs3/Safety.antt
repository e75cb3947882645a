-- ===== src/Nfs3/Safety.antt =====
-- No reply can make a decoder of src/nfs read outside its buffer.
use nfsclient.Base.{ℕ, ◌≢◌, List, String, none, some}
use nfsclient.Errors.{fault, Fault}
use nfsclient.Xdr.Decoder.{Decode, linked_list}
use nfsclient.Xdr.Safe.{
  Safe, Safe-pure, Safe-bind, Safe-if, Safe-uint32, Safe-uint64, Safe-opaque, Safe-string,
  Safe-fixed_opaque, Safe-linked_list, run-Safe,
}
use nfsclient.Nfs3.Types.Reads.{Safe-fh3, Safe-fattr3, Safe-post_op_attr, Safe-wcc_data}
use nfsclient.Nfs3.Status.{Safe-check_status, Safe-check_present}
use nfsclient.Nfs3.Files.{
  getattr_reply, lookup_reply, access_reply, read_reply, write_reply, commit_reply, readlink_reply,
  setattr_reply, decode_getattr_reply, decode_lookup_reply, decode_access_reply, decode_read_reply,
  decode_write_reply, decode_commit_reply, decode_readlink_reply, decode_setattr_reply,
}
use nfsclient.Nfs3.Names.{
  new_object_reply, removed_reply, rename_reply, link_reply, decode_create_reply,
  decode_mkdir_reply, decode_remove_reply, decode_rmdir_reply, decode_rename_reply,
  decode_symlink_reply, decode_link_reply, decode_mknod_reply,
}
use nfsclient.Nfs3.Info.{
  fsstat_reply, fsinfo_reply, pathconf_reply, decode_fsstat_reply, decode_fsinfo_reply,
  decode_pathconf_reply,
}
use nfsclient.Nfs3.Listing.{
  dir_entry, dir_entry_plus, optional, readdir_reply, readdirplus_reply, decode_readdir_reply,
  decode_readdirplus_reply,
}

ruleset safe_rules = (
  Safe-bind, Safe-pure, Safe-uint32, Safe-uint64, Safe-opaque, Safe-string, Safe-fixed_opaque,
  Safe-fh3, Safe-fattr3, Safe-post_op_attr, Safe-wcc_data, Safe-check_status, Safe-check_present,
)

Safe-new_object_reply : (proc : String) → Safe (new_object_reply proc)
unfolding new_object_reply
Safe-new_object_reply proc = search safe_rules depth 40

Safe-optional : {A : Type 0} (m : Decode A) → Safe m → Safe (optional m)
unfolding optional
Safe-optional m sm =
    Safe-bind _ _ Safe-uint32
      λ v. Safe-if _ (Safe-pure none) (Safe-bind _ _ sm λ x. Safe-pure (some x))

Safe-dir_entry : Safe dir_entry
unfolding dir_entry
Safe-dir_entry = search safe_rules depth 40

Safe-dir_entry_plus : Safe dir_entry_plus
unfolding dir_entry_plus
Safe-dir_entry_plus = search (safe_rules, Safe-optional) depth 40

Safe-dir_entries : Safe (linked_list dir_entry)
Safe-dir_entries = Safe-linked_list dir_entry Safe-dir_entry

Safe-dir_entries_plus : Safe (linked_list dir_entry_plus)
Safe-dir_entries_plus = Safe-linked_list dir_entry_plus Safe-dir_entry_plus

-- On any reply at all, each decoder of a file procedure returns a value or throws: it never reads
-- outside the reply.
pub decode_file_reply-ne-fault :
    (bytes : List ℕ) (x : Fault)
    → (decode_getattr_reply bytes ≢ fault x)
      × (decode_lookup_reply bytes ≢ fault x)
      × (decode_access_reply bytes ≢ fault x)
      × (decode_read_reply bytes ≢ fault x)
      × (decode_write_reply bytes ≢ fault x)
      × (decode_commit_reply bytes ≢ fault x)
      × (decode_readlink_reply bytes ≢ fault x)
      × (decode_setattr_reply bytes ≢ fault x)
      × (decode_fsstat_reply bytes ≢ fault x)
      × (decode_fsinfo_reply bytes ≢ fault x)
      × (decode_pathconf_reply bytes ≢ fault x)
unfolding decode_getattr_reply decode_lookup_reply decode_access_reply decode_read_reply
    decode_write_reply decode_commit_reply decode_readlink_reply decode_setattr_reply
    decode_fsstat_reply decode_fsinfo_reply decode_pathconf_reply
decode_file_reply-ne-fault bytes x = (
  run-Safe {m = getattr_reply} bytes x (search safe_rules depth 40),
  run-Safe {m = lookup_reply} bytes x (search safe_rules depth 40),
  run-Safe {m = access_reply} bytes x (search safe_rules depth 40),
  run-Safe {m = read_reply} bytes x (search safe_rules depth 40),
  run-Safe {m = write_reply} bytes x (search safe_rules depth 40),
  run-Safe {m = commit_reply} bytes x (search safe_rules depth 40),
  run-Safe {m = readlink_reply} bytes x (search safe_rules depth 40),
  run-Safe {m = setattr_reply} bytes x (search safe_rules depth 40),
  run-Safe {m = fsstat_reply} bytes x (search safe_rules depth 40),
  run-Safe {m = fsinfo_reply} bytes x (search safe_rules depth 40),
  run-Safe {m = pathconf_reply} bytes x (search safe_rules depth 40),
)

-- On any reply at all, each decoder of a procedure on directories, the two listings with their linked
-- lists included, returns a value or throws: it never reads outside the reply.
pub decode_name_reply-ne-fault :
    (bytes : List ℕ) (x : Fault)
    → (decode_create_reply bytes ≢ fault x)
      × (decode_mkdir_reply bytes ≢ fault x)
      × (decode_symlink_reply bytes ≢ fault x)
      × (decode_mknod_reply bytes ≢ fault x)
      × (decode_remove_reply bytes ≢ fault x)
      × (decode_rmdir_reply bytes ≢ fault x)
      × (decode_rename_reply bytes ≢ fault x)
      × (decode_link_reply bytes ≢ fault x)
      × (decode_readdir_reply bytes ≢ fault x)
      × (decode_readdirplus_reply bytes ≢ fault x)
unfolding decode_create_reply decode_mkdir_reply decode_symlink_reply decode_mknod_reply
    decode_remove_reply decode_rmdir_reply decode_rename_reply decode_link_reply
    decode_readdir_reply decode_readdirplus_reply
decode_name_reply-ne-fault bytes x = (
  run-Safe bytes x (Safe-new_object_reply "CREATE"),
  run-Safe bytes x (Safe-new_object_reply "MKDIR"),
  run-Safe bytes x (Safe-new_object_reply "SYMLINK"),
  run-Safe bytes x (Safe-new_object_reply "MKNOD"),
  run-Safe {m = removed_reply "REMOVE"} bytes x (search safe_rules depth 40),
  run-Safe {m = removed_reply "RMDIR"} bytes x (search safe_rules depth 40),
  run-Safe {m = rename_reply} bytes x (search safe_rules depth 40),
  run-Safe {m = link_reply} bytes x (search safe_rules depth 40),
  run-Safe {m = readdir_reply} bytes x (search (safe_rules, Safe-dir_entries) depth 40),
  run-Safe {m = readdirplus_reply} bytes x (search (safe_rules, Safe-dir_entries_plus) depth 40),
)
