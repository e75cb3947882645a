-- ===== src/Nfs4/State.antt =====
-- src/nfs4/open.cpp and src/nfs4/setclientid.cpp: the operations that make and end state at the server.
pub mod Granted
use nfsclient.Base.{ℕ, ◌==◌, if◌then◌else◌, List, [], ◌∷◌}
use nfsclient.Xdr.Encoder.{
  Enc, ◌⨾◌, put_uint32, put_uint64, put_opaque, put_string, put_fixed_opaque,
}
use nfsclient.Xdr.Decoder.{
  Decode, pure, ◌>>=◌, ◌>>◌, get_uint32, get_uint64, get_string, get_fixed_opaque,
}
use nfsclient.Nfs4.Types.{Stateid4, encode_stateid4, decode_stateid4, skip_change_info4}
use nfsclient.Nfs4.Attr.{Sattr4, encode_fattr4}
use nfsclient.Nfs4.Ops.{check_op_status, skip_bitmap}

-- `OPEN4_SHARE_ACCESS_READ`, `OPEN4_SHARE_ACCESS_WRITE` and `OPEN4_RESULT_CONFIRM`.
abbrev pub share_access_read : ℕ
share_access_read = 1

abbrev pub share_access_write : ℕ
share_access_write = 2

abbrev pub result_confirm : ℕ
result_confirm = 2

pub record Open4Result : Type 0 where
  pub stateid : Stateid4
  pub rflags : ℕ

unfoldable pub encode_open_prefix : ℕ → ℕ → ℕ → List ℕ → Enc
encode_open_prefix seqid share_access clientid owner =
    put_uint32 18
    ⨾ put_uint32 seqid
    ⨾ put_uint32 share_access
    ⨾ put_uint32 0
    ⨾ put_uint64 clientid
    ⨾ put_opaque owner

unfoldable pub encode_open_nocreate : ℕ → ℕ → ℕ → List ℕ → List ℕ → Enc
unfolding encode_open_prefix
encode_open_nocreate seqid share_access clientid owner name =
    encode_open_prefix seqid share_access clientid owner
    ⨾ put_uint32 0
    ⨾ put_uint32 0
    ⨾ put_string name

unfoldable pub encode_open_create : ℕ → ℕ → ℕ → List ℕ → List ℕ → Sattr4 → Enc
unfolding encode_open_prefix
encode_open_create seqid share_access clientid owner name attrs =
    encode_open_prefix seqid share_access clientid owner
    ⨾ put_uint32 1
    ⨾ put_uint32 0
    ⨾ encode_fattr4 attrs
    ⨾ put_uint32 0
    ⨾ put_string name

-- `nfsace4`: its type, flag, mask and the name of who it is for.
unfoldable pub skip_ace : Decode (Unit {0})
skip_ace = do
  type ← get_uint32
  flag ← get_uint32
  access_mask ← get_uint32
  who ← get_string
  pure tt

unfoldable pub skip_read_delegation : Decode (Unit {0})
unfolding skip_ace
skip_read_delegation = do stateid ← decode_stateid4; recall ← get_uint32; skip_ace

unfoldable pub skip_write_delegation : Decode (Unit {0})
unfolding skip_ace
skip_write_delegation = do
  stateid ← decode_stateid4
  recall ← get_uint32
  limitby ← get_uint32
  num_blocks ← get_uint32
  bytes_per_block ← get_uint32
  skip_ace

-- `if (deleg_type == 1) … else if (deleg_type == 2) …`
unfoldable pub skip_delegation : ℕ → Decode (Unit {0})
unfolding skip_read_delegation skip_write_delegation
skip_delegation deleg_type =
    if deleg_type == 1
    then skip_read_delegation
    else if deleg_type == 2
    then skip_write_delegation
    else pure tt

unfoldable pub decode_open_result : Decode Open4Result
unfolding check_op_status skip_bitmap skip_delegation
decode_open_result = do
  check_op_status "OPEN"
  stateid ← decode_stateid4
  skip_change_info4
  rflags ← get_uint32
  skip_bitmap
  deleg_type ← get_uint32
  skip_delegation deleg_type
  pure (record { stateid = stateid; rflags = rflags })

unfoldable pub encode_open_confirm : Stateid4 → ℕ → Enc
encode_open_confirm stateid seqid = put_uint32 20 ⨾ encode_stateid4 stateid ⨾ put_uint32 seqid

unfoldable pub decode_open_confirm_result : Decode Stateid4
unfolding check_op_status
decode_open_confirm_result = do check_op_status "OPEN_CONFIRM"; decode_stateid4

unfoldable pub encode_close : ℕ → Stateid4 → Enc
encode_close seqid stateid = put_uint32 4 ⨾ put_uint32 seqid ⨾ encode_stateid4 stateid

unfoldable pub decode_close_result : Decode (Unit {0})
unfolding check_op_status
decode_close_result = do check_op_status "CLOSE"; stateid ← decode_stateid4; pure tt

unfoldable pub encode_renew : ℕ → Enc
encode_renew clientid = put_uint32 30 ⨾ put_uint64 clientid

unfoldable pub decode_renew_result : Decode (Unit {0})
unfolding check_op_status
decode_renew_result = check_op_status "RENEW"

pub record SetclientidResult : Type 0 where
  pub clientid : ℕ
  pub confirm_verifier : List ℕ

-- "tcp" and "0.0.0.0.0.0"
abbrev pub netid_tcp : List ℕ
netid_tcp = b't' ∷ b'c' ∷ b'p' ∷ []

abbrev pub null_addr : List ℕ
null_addr = b'0' ∷ b'.' ∷ b'0' ∷ b'.' ∷ b'0' ∷ b'.' ∷ b'0' ∷ b'.' ∷ b'0' ∷ b'.' ∷ b'0' ∷ []

unfoldable pub encode_setclientid : List ℕ → List ℕ → ℕ → Enc
encode_setclientid verifier client_id cb_program =
    put_uint32 35
    ⨾ put_fixed_opaque verifier
    ⨾ put_opaque client_id
    ⨾ put_uint32 cb_program
    ⨾ put_string netid_tcp
    ⨾ put_string null_addr
    ⨾ put_uint32 0

unfoldable pub decode_setclientid_result : Decode SetclientidResult
unfolding check_op_status
decode_setclientid_result = do
  check_op_status "SETCLIENTID"
  clientid ← get_uint64
  confirm_verifier ← get_fixed_opaque 8
  pure (record { clientid = clientid; confirm_verifier = confirm_verifier })

unfoldable pub encode_setclientid_confirm : ℕ → List ℕ → Enc
encode_setclientid_confirm clientid confirm_verifier =
    put_uint32 36 ⨾ put_uint64 clientid ⨾ put_fixed_opaque confirm_verifier

unfoldable pub decode_setclientid_confirm_result : Decode (Unit {0})
unfolding check_op_status
decode_setclientid_confirm_result = check_op_status "SETCLIENTID_CONFIRM"
