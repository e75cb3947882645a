-- ===== src/Rpc/Reply.antt =====
-- `TcpRpcClient::parseReply` of src/rpc/rpc_client.cpp.
pub mod Outcomes
use nfsclient.Base.{ℕ, List, ◌==◌, if◌then◌else◌}
use nfsclient.Errors.{Result, Reason, Exception}
use nfsclient.Xdr.Decoder.{Decode, raise, run, ◌>>=◌, ◌>>◌, get_uint32, get_opaque, get_remaining}
use nfsclient.Rpc.Message.{MsgType, ReplyStat, AcceptStat, msg_type, reply_stat, accept_stat}

unfoldable pub decode_reply : Decode (List ℕ)
unfolding msg_type reply_stat accept_stat
decode_reply = do
  xid ← get_uint32
  mtype ← get_uint32
  if mtype == msg_type MsgType.reply
      then (do
        rstat ← get_uint32
        if rstat == reply_stat ReplyStat.msg_accepted
            then (do
              verf_flavor ← get_uint32
              verf_body ← get_opaque
              astat ← get_uint32
              if astat == accept_stat AcceptStat.success
                  then get_remaining
                  else raise (Exception.runtime_error (Reason.not_accepted astat)))
            else raise (Exception.runtime_error (Reason.message_denied rstat)))
      else raise (Exception.runtime_error Reason.expected_reply)

unfoldable pub parse_reply : List ℕ → Result (List ℕ)
unfolding decode_reply
parse_reply record_bytes = run decode_reply record_bytes
