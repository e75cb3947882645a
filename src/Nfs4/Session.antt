-- ===== src/Nfs4/Session.antt =====
-- src/nfs4/session41.cpp: the operations that make, use and end a session of NFS version 4.1.
pub mod Granted
pub mod Created
use nfsclient.Base.{ℕ, Bool, if◌then◌else◌, List}
use nfsclient.Xdr.Encoder.{Enc, ◌⨾◌, put_uint32, put_uint64, put_opaque, put_fixed_opaque}
use nfsclient.Xdr.Decoder.{
  Decode, pure, ◌>>=◌, ◌>>◌, get_uint32, get_uint64, get_opaque, get_fixed_opaque, repeat,
}
use nfsclient.Nfs4.Ops.{check_op_status}

pub record ExchangeIdResult : Type 0 where
  pub clientid : ℕ
  pub sequenceid : ℕ

-- The flag is `EXCHGID4_FLAG_USE_NON_PNFS`.
unfoldable pub encode_exchange_id : List ℕ → List ℕ → Enc
encode_exchange_id verifier client_id =
    put_uint32 42
    ⨾ put_fixed_opaque verifier
    ⨾ put_opaque client_id
    ⨾ put_uint32 0x00020000
    ⨾ put_uint32 0
    ⨾ put_uint32 0

-- One `nfs_impl_id4`.
unfoldable pub skip_impl_id : Decode (Unit {0})
skip_impl_id = do
  nii_domain ← get_opaque
  nii_name ← get_opaque
  seconds ← get_uint64
  nseconds ← get_uint32
  pure tt

unfoldable pub decode_exchange_id_result : Decode ExchangeIdResult
unfolding check_op_status skip_impl_id
decode_exchange_id_result = do
  check_op_status "EXCHANGE_ID"
  clientid ← get_uint64
  sequenceid ← get_uint32
  eir_flags ← get_uint32
  sprotect ← get_uint32
  so_minor_id ← get_uint64
  so_major_id ← get_opaque
  eir_server_scope ← get_opaque
  impl_count ← get_uint32
  impl_ids ← repeat impl_count skip_impl_id
  pure (record { clientid = clientid; sequenceid = sequenceid })

unfoldable pub encode_channel_attrs : ℕ → ℕ → ℕ → Enc
encode_channel_attrs maxrqst maxresp maxresp_cached =
    put_uint32 0
    ⨾ put_uint32 maxrqst
    ⨾ put_uint32 maxresp
    ⨾ put_uint32 maxresp_cached
    ⨾ put_uint32 16
    ⨾ put_uint32 1
    ⨾ put_uint32 0

unfoldable pub encode_create_session : ℕ → ℕ → Enc
unfolding encode_channel_attrs
encode_create_session clientid sequenceid =
    put_uint32 43
    ⨾ put_uint64 clientid
    ⨾ put_uint32 sequenceid
    ⨾ put_uint32 0
    ⨾ encode_channel_attrs 65536 65536 1024
    ⨾ encode_channel_attrs 4096 4096 256
    ⨾ put_uint32 0
    ⨾ put_uint32 1
    ⨾ put_uint32 0

-- The session id, an array of 16 bytes; the rest is read and dropped.
unfoldable pub decode_create_session_result : Decode (List ℕ)
unfolding check_op_status
decode_create_session_result = do
  check_op_status "CREATE_SESSION"
  sid ← get_fixed_opaque 16
  csr_sequence ← get_uint32
  csr_flags ← get_uint32
  csr_fore_chan_attrs ← repeat 7 get_uint32
  csr_back_chan_attrs ← repeat 7 get_uint32
  pure sid

unfoldable pub encode_sequence41 : List ℕ → ℕ → ℕ → ℕ → Bool → Enc
encode_sequence41 sessionid sequenceid slotid highest_slotid cachethis =
    put_uint32 53
    ⨾ put_fixed_opaque sessionid
    ⨾ put_uint32 sequenceid
    ⨾ put_uint32 slotid
    ⨾ put_uint32 highest_slotid
    ⨾ put_uint32 (if cachethis then 1 else 0)

unfoldable pub decode_sequence41_result : Decode (Unit {0})
unfolding check_op_status
decode_sequence41_result = do
  check_op_status "SEQUENCE"
  sr_sessionid ← get_fixed_opaque 16
  sr_sequenceid ← get_uint32
  sr_slotid ← get_uint32
  sr_highest_slotid ← get_uint32
  sr_target_highest_slotid ← get_uint32
  sr_status_flags ← get_uint32
  pure tt

unfoldable pub encode_reclaim_complete : Bool → Enc
encode_reclaim_complete one_fs = put_uint32 58 ⨾ put_uint32 (if one_fs then 1 else 0)

unfoldable pub decode_reclaim_complete_result : Decode (Unit {0})
unfolding check_op_status
decode_reclaim_complete_result = check_op_status "RECLAIM_COMPLETE"

unfoldable pub encode_destroy_session : List ℕ → Enc
encode_destroy_session sessionid = put_uint32 44 ⨾ put_fixed_opaque sessionid

unfoldable pub decode_destroy_session_result : Decode (Unit {0})
unfolding check_op_status
decode_destroy_session_result = check_op_status "DESTROY_SESSION"
