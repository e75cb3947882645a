-- ===== src/Tests/Version4.antt =====
-- src/nfs4 at small inputs.
use nfsclient.Base.{ℕ, ◌≡◌, refl, none, some, List, [], ◌∷◌, ◌++◌, replicate, arith}
use nfsclient.Base.Bits.{bit}
use nfsclient.Errors.{ok, err, Exception}
use nfsclient.Xdr.Encoder.{encoded}
use nfsclient.Xdr.Decoder.{run, ◌>>=◌, pure, get_remaining}
use nfsclient.Xdr.Wire.{uint32, uint64}
use nfsclient.Nfs4.Types.{Fattr4}
use nfsclient.Nfs4.Bitmap.{bitmap4_set, bitmap4_test, make_bitmap4, set_all, or_at}
use nfsclient.Nfs4.Bitmap.Sets.{contains, bitmap4_test-make_bitmap4}
use nfsclient.Nfs4.Attr.{decode_fattr4, encode_fattr4}
use nfsclient.Nfs4.Attr.Returned.{
  Values, IsValues, attrs_wire, fattr4_wire, named, decode_fattr4-named,
}
use nfsclient.Nfs4.Attr.Sent.{only, decode_fattr4-encode_fattr4}
use nfsclient.Nfs4.Ops.{
  decode_getfh_result, decode_access_result, decode_commit_result, decode_create_result,
  decode_remove_result, decode_rename_result, decode_getattr_result, decode_read_result,
  decode_write_result, decode_readlink_result, decode_setattr_result, decode_readdir_result,
}
use nfsclient.Nfs4.State.{
  decode_open_result, decode_open_confirm_result, decode_close_result, decode_setclientid_result,
}
use nfsclient.Nfs4.Session.{
  decode_exchange_id_result, decode_create_session_result, decode_sequence41_result,
}
use nfsclient.Nfs4.Ops.Failures.{failed, decode_result-error}

bitmap4_test-make_bitmap4_example :
    bitmap4_test (make_bitmap4 (33 ∷ 4 ∷ 33 ∷ [])) 4 ≡ contains (33 ∷ 4 ∷ 33 ∷ []) 4
bitmap4_test-make_bitmap4_example = bitmap4_test-make_bitmap4 (33 ∷ 4 ∷ 33 ∷ []) 4

-- The mode is bit 1 of the second word.
mode_bit : make_bitmap4 (33 ∷ []) ≡ 0 ∷ 2 ∷ []
unfolding make_bitmap4 set_all bitmap4_set or_at
mode_bit = refl

abbrev pub values : Values
values = record {
  type = 1;
  change = 7;
  size = 5000000000;
  fsid_major = 1;
  fsid_minor = 2;
  fileid = 12;
  mode = 420;
  numlinks = 1;
  owner = 97 ∷ [];
  owner_group = 98 ∷ 99 ∷ [];
  space_used = 4096;
  time_access = record { seconds = 1; nseconds = 2 };
  time_metadata = record { seconds = 3; nseconds = 4 };
  time_modify = record { seconds = 5; nseconds = 6 };
  mounted_on_fileid = 12;
}

pub values-IsValues : IsValues values
values-IsValues = record {
  type = omega arith;
  change = omega arith;
  size = omega arith;
  fsid_major = omega arith;
  fsid_minor = omega arith;
  fileid = omega arith;
  mode = omega arith;
  numlinks = omega arith;
  owner = omega arith;
  owner_group = omega arith;
  space_used = omega arith;
  time_access = (omega arith, omega arith);
  time_metadata = (omega arith, omega arith);
  time_modify = (omega arith, omega arith);
  mounted_on_fileid = omega arith;
}

-- The type, the size and the mode.
abbrev asked : List ℕ
asked = 18 ∷ 2 ∷ []

decode_fattr4-named_example :
    run {A = Fattr4 × List ℕ}
      (decode_fattr4 >>= λ a. get_remaining >>= λ left. pure (a, left))
      (fattr4_wire asked values ++ (9 ∷ []))
    ≡ ok (named asked values, 9 ∷ [])
unfolding attrs_wire bit uint32 uint64
decode_fattr4-named_example =
    decode_fattr4-named asked values (9 ∷ []) (omega arith) (omega arith, (omega arith, tt))
      values-IsValues (omega arith)

decode_fattr4-encode_fattr4_example :
    run decode_fattr4 (
      encoded (
        encode_fattr4 (record {
          size = some 10;
          mode = none;
          owner = some (97 ∷ []);
          owner_group = none;
          time_access = none;
          time_modify = none;
        }))
      ++ [])
    ≡ ok (only (some 10) none (some (97 ∷ [])) none)
decode_fattr4-encode_fattr4_example =
    decode_fattr4-encode_fattr4 (some 10) none (some (97 ∷ [])) none []
      (omega arith, omega arith, omega arith, omega arith)

abbrev no_entry : List ℕ
no_entry = failed 15 2 ++ []

decode_result-error_example :
    (run decode_getfh_result no_entry ≡ err (Exception.nfs4_error 2 "GETFH"))
    × (run decode_access_result no_entry ≡ err (Exception.nfs4_error 2 "ACCESS"))
    × (run decode_commit_result no_entry ≡ err (Exception.nfs4_error 2 "COMMIT"))
    × (run decode_create_result no_entry ≡ err (Exception.nfs4_error 2 "CREATE"))
    × (run decode_remove_result no_entry ≡ err (Exception.nfs4_error 2 "REMOVE"))
    × (run decode_rename_result no_entry ≡ err (Exception.nfs4_error 2 "RENAME"))
    × (run decode_getattr_result no_entry ≡ err (Exception.nfs4_error 2 "GETATTR"))
    × (run decode_read_result no_entry ≡ err (Exception.nfs4_error 2 "READ"))
    × (run decode_write_result no_entry ≡ err (Exception.nfs4_error 2 "WRITE"))
    × (run decode_readlink_result no_entry ≡ err (Exception.nfs4_error 2 "READLINK"))
    × (run decode_setattr_result no_entry ≡ err (Exception.nfs4_error 2 "SETATTR"))
    × (run decode_readdir_result no_entry ≡ err (Exception.nfs4_error 2 "READDIR"))
    × (run decode_open_result no_entry ≡ err (Exception.nfs4_error 2 "OPEN"))
    × (run decode_open_confirm_result no_entry ≡ err (Exception.nfs4_error 2 "OPEN_CONFIRM"))
    × (run decode_close_result no_entry ≡ err (Exception.nfs4_error 2 "CLOSE"))
    × (run decode_setclientid_result no_entry ≡ err (Exception.nfs4_error 2 "SETCLIENTID"))
    × (run decode_exchange_id_result no_entry ≡ err (Exception.nfs4_error 2 "EXCHANGE_ID"))
    × (run decode_create_session_result no_entry ≡ err (Exception.nfs4_error 2 "CREATE_SESSION"))
    × (run decode_sequence41_result no_entry ≡ err (Exception.nfs4_error 2 "SEQUENCE"))
decode_result-error_example = decode_result-error 15 2 [] (omega arith, omega arith) (omega arith)

abbrev eight : List ℕ
eight = replicate 8 3
