-- ===== src/Nfs3/Mount.antt =====
-- Arguments and replies of src/nfs/mount.cpp and portmap.cpp.
pub mod Calls
pub mod Replies
use nfsclient.Base.{ℕ, ◌%◌, ◌^◌, List, ◌==◌, if◌then◌else◌}
use nfsclient.Errors.{Result, Reason, Exception}
use nfsclient.Xdr.Encoder.{◌⨾◌, encoded, put_uint32, put_string}
use nfsclient.Xdr.Decoder.{
  Decode, pure, raise, run, ◌>>=◌, ◌>>◌, get_uint32, get_opaque, get_string, linked_list,
}
use nfsclient.Nfs3.Types.{Fh3}
use nfsclient.Nfs3.Status.{check_status}

pub record ExportEntry : Type 0 where
  pub path : List ℕ
  pub groups : List (List ℕ)

unfoldable pub encode_getport_args : ℕ → ℕ → List ℕ
encode_getport_args prog vers =
    encoded (put_uint32 prog ⨾ put_uint32 vers ⨾ put_uint32 6 ⨾ put_uint32 0)

-- The port is cut to a `uint16_t`.
unfoldable pub getport_reply : ℕ → ℕ → Decode ℕ
getport_reply prog vers = do
  port ← get_uint32
  if port == 0
      then raise (Exception.runtime_error (Reason.not_registered prog vers))
      else pure (port % 2 ^ 16)

unfoldable pub encode_path_args : List ℕ → List ℕ
encode_path_args export_path = encoded (put_string export_path)

unfoldable pub mnt_reply : Decode Fh3
mnt_reply = do
  status ← get_uint32
  check_status status "MOUNT MNT3 mountstat3"
  bytes ← get_opaque
  pure (record { handle = bytes })

unfoldable pub export_entry : Decode ExportEntry
export_entry = do
  path ← get_string
  groups ← linked_list get_string
  pure (record { path = path; groups = groups })

unfoldable pub export_reply : Decode (List ExportEntry)
unfolding export_entry
export_reply = linked_list export_entry
