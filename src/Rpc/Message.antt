-- ===== src/Rpc/Message.antt =====
-- src/rpc/rpc_types.hpp, and `TcpRpcClient::buildCallMessage` and `addRecordMark` of
-- src/rpc/rpc_client.cpp.
pub mod Layout
use nfsclient.Base.{ℕ, ◌*◌, ◌/◌, ◌%◌, ◌^◌, bit_or, Option, none, some, List, [], ◌∷◌, ◌++◌, length}
use nfsclient.Xdr.Encoder.{Enc, ◌⨾◌, encoded, put_uint32, put_opaque, put_string, put_each}

abbrev pub rpc_version : ℕ
rpc_version = 2

abbrev pub auth_none : ℕ
auth_none = 0

abbrev pub auth_sys_flav : ℕ
auth_sys_flav = 1

-- `MsgType`, `ReplyStat::MSG_ACCEPTED` and `AcceptStat::SUCCESS`, as their numbers on the wire.
pub data MsgType : Type 0 where
  call reply : MsgType

unfoldable pub msg_type : MsgType → ℕ
msg_type MsgType.call = 0
msg_type MsgType.reply = 1

pub data ReplyStat : Type 0 where
  msg_accepted msg_denied : ReplyStat

unfoldable pub reply_stat : ReplyStat → ℕ
reply_stat ReplyStat.msg_accepted = 0
reply_stat ReplyStat.msg_denied = 1

pub data AcceptStat : Type 0 where
  success prog_unavail prog_mismatch proc_unavail garbage_args system_err : AcceptStat

unfoldable pub accept_stat : AcceptStat → ℕ
accept_stat AcceptStat.success = 0
accept_stat AcceptStat.prog_unavail = 1
accept_stat AcceptStat.prog_mismatch = 2
accept_stat AcceptStat.proc_unavail = 3
accept_stat AcceptStat.garbage_args = 4
accept_stat AcceptStat.system_err = 5

pub record AuthSys : Type 0 where
  pub stamp : ℕ
  pub machinename : List ℕ
  pub uid : ℕ
  pub gid : ℕ
  pub gids : List ℕ

unfoldable pub put_auth_sys : AuthSys → Enc
put_auth_sys auth =
    put_uint32 auth.stamp
    ⨾ put_string auth.machinename
    ⨾ put_uint32 auth.uid
    ⨾ put_uint32 auth.gid
    ⨾ put_uint32 (length auth.gids % 2 ^ 32)
    ⨾ put_each put_uint32 auth.gids

-- `auth == nullptr` is `none`.
unfoldable pub put_credential : Option AuthSys → Enc
put_credential (some auth) = put_uint32 auth_sys_flav ⨾ put_opaque (encoded (put_auth_sys auth))
put_credential none = put_uint32 auth_none ⨾ put_uint32 0

unfoldable pub build_call_message : ℕ → ℕ → ℕ → ℕ → List ℕ → Option AuthSys → List ℕ
unfolding msg_type
build_call_message xid prog vers proc args auth =
    encoded (
      put_uint32 xid
      ⨾ put_uint32 (msg_type MsgType.call)
      ⨾ put_uint32 rpc_version
      ⨾ put_uint32 prog
      ⨾ put_uint32 vers
      ⨾ put_uint32 proc
      ⨾ put_credential auth
      ⨾ put_uint32 auth_none
      ⨾ put_uint32 0)
    ++ args

-- `(1u << 31) | len`
unfoldable pub record_mark : ℕ → ℕ
record_mark size = bit_or (1 * 2 ^ 31) (size % 2 ^ 32)

unfoldable pub add_record_mark : List ℕ → List ℕ
unfolding record_mark
add_record_mark payload =
    let mark = record_mark (length payload) in
    (mark / 2 ^ 24 % 256) ∷ (mark / 2 ^ 16 % 256) ∷ (mark / 2 ^ 8 % 256) ∷ (mark % 256) ∷ payload
