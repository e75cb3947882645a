-- ===== src/Tests/Transport.antt =====
-- src/rpc at small inputs: calls over the pipe.
use nfsclient.Base.{ℕ, ◌+◌, ◌%◌, ◌^◌, ◌≡◌, refl, none, some, List, [], ◌∷◌, ◌++◌, flatten, arith}
use nfsclient.Errors.{ok, err, Reason, Exception}
use nfsclient.Xdr.Decoder.{run}
use nfsclient.Xdr.Wire.{uint32, opaque, fixed_opaque, padding}
use nfsclient.Rpc.Message.{AuthSys, build_call_message}
use nfsclient.Rpc.Message.Layout.{read_call, read_call-build_call_message}
use nfsclient.Rpc.Reply.{parse_reply}
use nfsclient.Rpc.Reply.Outcomes.{Message, wire, parse_reply-wire}
use nfsclient.Rpc.Socket.{recv_record}
use nfsclient.Rpc.Socket.Records.{record_wire, recv_record-record_wire}
use nfsclient.Rpc.Client.{TcpRpcClient, call, tcp_transport}
use nfsclient.Rpc.Client.Calls.{call_frame, call_lem}
use nfsclient.Nfs3.Files.{decode_access_reply, encode_access_args}
use nfsclient.Nfs3.Calls.{nfs_call}
use nfsclient.Nfs3.Calls.Answers.{answer, nfs_call-answer}
use nfsclient.Tests.Pipe.{Ends, pipe, pipe_reliable}

abbrev auth : AuthSys
auth = record {
  stamp = 7;
  machinename = 104 ∷ 111 ∷ 115 ∷ 116 ∷ 49 ∷ [];
  uid = 1000;
  gid = 100;
  gids = 100 ∷ 27 ∷ [];
}

read_call-build_call_message_example :
    run read_call (build_call_message 9 100003 3 6 (1 ∷ 2 ∷ 3 ∷ []) (some auth))
    ≡ ok (record {
      xid = 9;
      mtype = 0;
      rpcvers = 2;
      prog = 100003;
      vers = 3;
      proc = 6;
      credential = some auth;
      args = 1 ∷ 2 ∷ 3 ∷ [];
    })
read_call-build_call_message_example =
    read_call-build_call_message 9 100003 3 6 (1 ∷ 2 ∷ 3 ∷ []) (some auth)
      (omega arith, omega arith, omega arith, omega arith)
      (
        omega arith,
        omega arith,
        omega arith,
        omega arith,
        omega arith,
        (omega arith, (omega arith, tt)),
      )

parse_reply-wire_example :
    parse_reply (uint32 9 ++ wire (Message.failed 0 (5 ∷ []) 3 (1 ∷ [])))
    ≡ err (Exception.runtime_error (Reason.not_accepted 3))
parse_reply-wire_example =
    parse_reply-wire 9 (Message.failed 0 (5 ∷ []) 3 (1 ∷ [])) (omega arith)
      (omega arith, omega arith, omega arith, omega arith)

-- A reply of ACCESS that grants the mask 31, in two fragments, with a byte of the next record behind it.
abbrev front : List (List ℕ)
front = (0 ∷ 0 ∷ 0 ∷ 9 ∷ 0 ∷ 0 ∷ 0 ∷ 1 ∷ 0 ∷ 0 ∷ 0 ∷ 0 ∷ 0 ∷ 0 ∷ []) ∷ []

abbrev final : List ℕ
final = 0 ∷ 0 ∷ 0 ∷ 0 ∷ 0 ∷ 0 ∷ 0 ∷ 0 ∷ 0 ∷ 0 ∷ 0 ∷ 0 ∷ 0 ∷ 0 ∷ 0 ∷ 0 ∷ 0 ∷ 0 ∷ 0 ∷ 0 ∷ 0 ∷ 31 ∷ []

abbrev line : Ends
line = record { inbox = record_wire front final ++ (128 ∷ []); outbox = [] }

abbrev client : TcpRpcClient pipe
client = record { sock = line; xid = 9; auth_sys = none }

abbrev args : List ℕ
args = encode_access_args (record { handle = 1 ∷ 2 ∷ [] }) 63

recv_record-record_wire_example :
    (h : Ends) × (recv_record pipe 2 line ≡ (ok (flatten front ++ final), h))
    × (h.outbox ≡ line.outbox)
    × (h.inbox ≡ 128 ∷ [])
recv_record-record_wire_example =
    recv_record-record_wire pipe pipe_reliable front final (128 ∷ []) 2 line (omega arith, tt)
      (omega arith) (omega arith) refl

call_lem_example :
    (h : Ends) × (call pipe 2 100003 3 4 args client ≡ (
      parse_reply (flatten front ++ final),
      record { sock = h; xid = (9 + 1) % 2 ^ 32; auth_sys = none },
    ))
    × (h.outbox ≡ [] ++ call_frame pipe client 100003 3 4 args)
    × (h.inbox ≡ 128 ∷ [])
call_lem_example =
    call_lem pipe pipe_reliable client 2 100003 3 4 args front final (128 ∷ []) (omega arith, tt)
      (omega arith) (omega arith) refl

abbrev granted : Message
granted = Message.succeeded 0 [] (0 ∷ 0 ∷ 0 ∷ 0 ∷ 0 ∷ 0 ∷ 0 ∷ 0 ∷ 0 ∷ 0 ∷ 0 ∷ 31 ∷ [])

nfs_call-answer_example :
    (h : Ends) × (nfs_call (tcp_transport pipe 2) 4 args decode_access_reply client ≡ (
      answer decode_access_reply (ok (0 ∷ 0 ∷ 0 ∷ 0 ∷ 0 ∷ 0 ∷ 0 ∷ 0 ∷ 0 ∷ 0 ∷ 0 ∷ 31 ∷ [])),
      record { sock = h; xid = 10; auth_sys = none },
    ))
    × (h.outbox ≡ [] ++ call_frame pipe client 100003 3 4 args)
    × (h.inbox ≡ 128 ∷ [])
unfolding uint32 opaque fixed_opaque padding flatten
nfs_call-answer_example =
    nfs_call-answer pipe pipe_reliable client 2 4 args decode_access_reply 9 granted front final
      (128 ∷ []) (omega arith) (omega arith, omega arith) ((omega arith, tt), omega arith)
      (omega arith) refl refl
