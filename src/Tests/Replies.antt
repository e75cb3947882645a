-- ===== src/Tests/Replies.antt =====
-- The replies that src/nfs reads, at small inputs.
use nfsclient.Base.{
  ℕ, ◌≡◌, ◌≢◌, refl, true, false, none, some, List, [], ◌∷◌, ◌++◌, replicate, arith,
}
use nfsclient.Errors.{ok, err, fault, Fault, Exception}
use nfsclient.Xdr.Wire.{uint32, opaque}
use nfsclient.Nfs3.Types.{Fh3, Fattr3}
use nfsclient.Nfs3.Types.Wire.{fh3, fattr3, IsFattr, post_op_attr, Wcc, wcc_data}
use nfsclient.Nfs3.Files.{
  decode_getattr_reply, decode_lookup_reply, decode_access_reply, decode_read_reply,
  decode_write_reply, decode_commit_reply, decode_readlink_reply, decode_setattr_reply,
}
use nfsclient.Nfs3.Names.{
  decode_create_reply, decode_mkdir_reply, decode_remove_reply, decode_rmdir_reply,
  decode_rename_reply, decode_symlink_reply, decode_link_reply, decode_mknod_reply,
}
use nfsclient.Nfs3.Info.{decode_fsstat_reply, decode_fsinfo_reply, decode_pathconf_reply}
use nfsclient.Nfs3.Listing.{
  DirEntry3, DirEntryPlus3, decode_readdir_reply, decode_readdirplus_reply,
}
use nfsclient.Nfs3.Listing.Served.{
  entry3, entryplus3, page_wire, decode_readdir_reply-page, decode_readdirplus_reply-page,
}
use nfsclient.Nfs3.Failures.{decode_reply-error}
use nfsclient.Nfs3.Successes.{
  new_object, decode_reply-new_object, decode_reply-found, decode_reply-contents,
}
use nfsclient.Nfs3.Safety.{decode_file_reply-ne-fault, decode_name_reply-ne-fault}
use nfsclient.Nfs3.Mount.{ExportEntry}

abbrev fh : Fh3
fh = record { handle = 1 ∷ 2 ∷ 3 ∷ [] }

abbrev attr : Fattr3
attr = record {
  type = 1;
  mode = 420;
  nlink = 1;
  uid = 1000;
  gid = 100;
  size = 5000000000;
  used = 4096;
  rdev = record { specdata1 = 0; specdata2 = 0 };
  fsid = 64;
  fileid = 12;
  atime = record { seconds = 1; nseconds = 2 };
  mtime = record { seconds = 3; nseconds = 4 };
  ctime = record { seconds = 5; nseconds = 6 };
}

attr-IsFattr : IsFattr attr
attr-IsFattr = record {
  type = omega arith;
  mode = omega arith;
  nlink = omega arith;
  uid = omega arith;
  gid = omega arith;
  size = omega arith;
  used = omega arith;
  major = omega arith;
  minor = omega arith;
  fsid = omega arith;
  fileid = omega arith;
  atime = (omega arith, omega arith);
  mtime = (omega arith, omega arith);
  ctime = (omega arith, omega arith);
}

abbrev wcc : Wcc
wcc = record { before = none; after = some attr }

decode_reply-error_example :
    (decode_getattr_reply (uint32 70 ++ []) ≡ err (Exception.nfs_error 70 "GETATTR"))
    × (decode_lookup_reply (uint32 70 ++ []) ≡ err (Exception.nfs_error 70 "LOOKUP"))
    × (decode_create_reply (uint32 70 ++ []) ≡ err (Exception.nfs_error 70 "CREATE"))
    × (decode_mkdir_reply (uint32 70 ++ []) ≡ err (Exception.nfs_error 70 "MKDIR"))
    × (decode_symlink_reply (uint32 70 ++ []) ≡ err (Exception.nfs_error 70 "SYMLINK"))
    × (decode_mknod_reply (uint32 70 ++ []) ≡ err (Exception.nfs_error 70 "MKNOD"))
    × (decode_remove_reply (uint32 70 ++ []) ≡ err (Exception.nfs_error 70 "REMOVE"))
    × (decode_rmdir_reply (uint32 70 ++ []) ≡ err (Exception.nfs_error 70 "RMDIR"))
decode_reply-error_example = decode_reply-error 70 [] (omega arith, omega arith)

abbrev refused : List ℕ
refused = (uint32 13 ++ post_op_attr (some attr)) ++ []

abbrev refused_write : List ℕ
refused_write = (uint32 28 ++ wcc_data wcc) ++ []

abbrev made : List ℕ
made = new_object fh (some attr) wcc ++ (255 ∷ [])

decode_reply-new_object_example :
    (decode_create_reply made ≡ ok fh)
    × (decode_mkdir_reply made ≡ ok fh)
    × (decode_symlink_reply made ≡ ok fh)
    × (decode_mknod_reply made ≡ ok fh)
decode_reply-new_object_example =
    decode_reply-new_object fh (some attr) wcc (255 ∷ []) (omega arith) attr-IsFattr
      (tt, attr-IsFattr)

decode_reply-found_example :
    (decode_getattr_reply ((uint32 0 ++ fattr3 attr) ++ []) ≡ ok attr)
    × (decode_lookup_reply
          ((uint32 0 ++ (fh3 fh ++ (post_op_attr none ++ post_op_attr (some attr)))) ++ [])
        ≡ ok fh)
decode_reply-found_example =
    decode_reply-found attr fh none (some attr) [] attr-IsFattr (omega arith) tt attr-IsFattr

decode_reply-contents_example :
    (decode_read_reply (
        (uint32 0 ++ (post_op_attr none ++ (uint32 2 ++ (uint32 1 ++ opaque (104 ∷ 105 ∷ [])))))
        ++ [])
      ≡ ok (104 ∷ 105 ∷ []))
    × (decode_readlink_reply ((uint32 0 ++ (post_op_attr none ++ opaque (47 ∷ []))) ++ [])
        ≡ ok (47 ∷ []))
    × (decode_access_reply ((uint32 0 ++ (post_op_attr none ++ uint32 31)) ++ []) ≡ ok 31)
decode_reply-contents_example =
    decode_reply-contents none 2 1 31 (104 ∷ 105 ∷ []) (47 ∷ []) [] tt
      (omega arith, omega arith, omega arith) (omega arith) (omega arith)

abbrev entries : List DirEntry3
entries =
    record { fileid = 1; name = 46 ∷ []; cookie = 11 }
    ∷ record { fileid = 2; name = 97 ∷ 98 ∷ []; cookie = 22 }
    ∷ []

decode_readdir_reply-page_example :
    decode_readdir_reply (page_wire entry3 none (replicate 8 4) entries true ++ [])
    ≡ ok (record { entries = entries; eof = true; cookieverf = replicate 8 4 })
decode_readdir_reply-page_example =
    decode_readdir_reply-page none (replicate 8 4) entries true [] tt refl
      ((omega arith, omega arith, omega arith), ((omega arith, omega arith, omega arith), tt))

abbrev entries_plus : List DirEntryPlus3
entries_plus =
    record { fileid = 1; name = 46 ∷ []; cookie = 11; attrs = some attr; fh = none }
    ∷ record { fileid = 2; name = 97 ∷ []; cookie = 22; attrs = none; fh = some fh }
    ∷ []

decode_readdirplus_reply-page_example :
    decode_readdirplus_reply (page_wire entryplus3 none (replicate 8 4) entries_plus false ++ [])
    ≡ ok (record { entries = entries_plus; eof = false; cookieverf = replicate 8 4 })
decode_readdirplus_reply-page_example =
    decode_readdirplus_reply-page none (replicate 8 4) entries_plus false [] tt refl (
      (omega arith, omega arith, omega arith, attr-IsFattr, tt),
      ((omega arith, omega arith, omega arith, tt, omega arith), tt),
    )

abbrev cut : List ℕ
cut = 0 ∷ 0 ∷ 0 ∷ 0 ∷ 0 ∷ 0 ∷ 0 ∷ 1 ∷ 5 ∷ []

decode_file_reply-ne-fault_example :
    (decode_getattr_reply cut ≢ fault Fault.out_of_bounds)
    × (decode_lookup_reply cut ≢ fault Fault.out_of_bounds)
    × (decode_access_reply cut ≢ fault Fault.out_of_bounds)
    × (decode_read_reply cut ≢ fault Fault.out_of_bounds)
    × (decode_write_reply cut ≢ fault Fault.out_of_bounds)
    × (decode_commit_reply cut ≢ fault Fault.out_of_bounds)
    × (decode_readlink_reply cut ≢ fault Fault.out_of_bounds)
    × (decode_setattr_reply cut ≢ fault Fault.out_of_bounds)
    × (decode_fsstat_reply cut ≢ fault Fault.out_of_bounds)
    × (decode_fsinfo_reply cut ≢ fault Fault.out_of_bounds)
    × (decode_pathconf_reply cut ≢ fault Fault.out_of_bounds)
decode_file_reply-ne-fault_example = decode_file_reply-ne-fault cut Fault.out_of_bounds

decode_name_reply-ne-fault_example :
    (decode_create_reply cut ≢ fault Fault.out_of_bounds)
    × (decode_mkdir_reply cut ≢ fault Fault.out_of_bounds)
    × (decode_symlink_reply cut ≢ fault Fault.out_of_bounds)
    × (decode_mknod_reply cut ≢ fault Fault.out_of_bounds)
    × (decode_remove_reply cut ≢ fault Fault.out_of_bounds)
    × (decode_rmdir_reply cut ≢ fault Fault.out_of_bounds)
    × (decode_rename_reply cut ≢ fault Fault.out_of_bounds)
    × (decode_link_reply cut ≢ fault Fault.out_of_bounds)
    × (decode_readdir_reply cut ≢ fault Fault.out_of_bounds)
    × (decode_readdirplus_reply cut ≢ fault Fault.out_of_bounds)
decode_name_reply-ne-fault_example = decode_name_reply-ne-fault cut Fault.out_of_bounds

abbrev exports : List ExportEntry
exports =
    record { path = 47 ∷ 97 ∷ []; groups = (104 ∷ []) ∷ (105 ∷ 106 ∷ []) ∷ [] }
    ∷ record { path = 47 ∷ []; groups = [] }
    ∷ []
