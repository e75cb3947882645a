-- ===== src/Tests/Clients4.antt =====
-- src/nfs4_client.cpp and src/nfs41_client.cpp at small inputs, over a connection whose replies are
-- written down in advance.
use nfsclient.Base.{
  ℕ, none, some, ◌≡◌, ◌≢◌, refl, ◌+◌, ◌%◌, ◌^◌, ◌<◌, true, false, List, [], ◌∷◌, ◌++◌, replicate,
  arith,
}
use nfsclient.Base.Bits.{bit}
use nfsclient.Errors.{Result, ok, err, fault, Reason, Exception, Fault}
use nfsclient.Exec
use nfsclient.Nfs4.Compound.{call_compound}
use nfsclient.Xdr.Wire.{uint32, uint64}
use nfsclient.Rpc.Transport.{Transport}
use nfsclient.Rpc.Client.{connected, tcp_transport}
use nfsclient.Tests.Pipe.{pipe, pipe_bounded}
use nfsclient.Nfs4.Types.{Nfs4Fh, Stateid4}
use nfsclient.Nfs4.Compound.Header.{header, Reply, reply_wire, Fails}
use nfsclient.Nfs4.Ops.Successes.{granted}
use nfsclient.Nfs4.Grace.{retry_in_grace}
use nfsclient.Nfs4.Grace.Rounds.{Ends, retry_in_grace-Ends}
use nfsclient.Nfs4.State.{SetclientidResult}
use nfsclient.Nfs4.State.Granted.{Opened, IsOpened, Delegation}
use nfsclient.Nfs4.Session.Granted.{SequenceResult, IsSequence, sequence_result_wire}
use nfsclient.Nfs4.Session.Created.{
  Exchanged, IsExchanged, exchanged_wire, Created, IsCreated, created_wire,
}
use nfsclient.Nfs4.Requests.{root_sentinel}
use nfsclient.Nfs4.Calls.{Call}
use nfsclient.Nfs4.Calls.Wire.{Sent, IsSent, results_wire}
use nfsclient.Nfs4.Calls.Opens.{open_results_wire, confirm_results_wire}
use nfsclient.Nfs4.Calls.Roots.{root_results_wire}
use nfsclient.Nfs4.Client.{Nfs4Client, do_open, readdir}
use nfsclient.Nfs4.Client.Setup.{unregistered, register}
use nfsclient.Nfs4.Client.Answers.{
  Method, method_results, run_method, run_method-answer, run_method-Fails,
}
use nfsclient.Nfs4.Client.Opens.{open_call, do_open-granted, do_open-confirmed, do_open-refused}
use nfsclient.Nfs4.Client.Handshake.{registered_wire, register-answer}
use nfsclient.Nfs41.Client.{Nfs41Client}
use nfsclient.Nfs41.Client as Client41
use nfsclient.Nfs41.Setup.{sessionless, start_session, enter_session, destroy_call}
use nfsclient.Nfs41.Actions.{Action, act_all}
use nfsclient.Nfs41.Actions as Actions
use nfsclient.Nfs41.Answers.{run_call41-answer}
use nfsclient.Nfs41.Opens.{do_open41-answer}
use nfsclient.Nfs41.Handshake.{in_session_wire, in_session, start_session-answer}
use nfsclient.Nfs41.Safety.{methods-ne-fault}
use nfsclient.Nfs41.Slots.{recorded, Numbered}
use nfsclient.Nfs41.Slots.Kept.{act_all-Numbered}
use nfsclient.Nfs4.Attr.{Sattr4}
use nfsclient.Nfs4.Attr.Bytes.{IsSattr}
use nfsclient.Nfs4.Attr.Returned.{attrs_wire}
use nfsclient.Tests.Version4.{values, values-IsValues}

abbrev Script : Type 0
Script = List (Result (List ℕ))

abbrev reply_next : Script → Result (List ℕ) × Script
reply_next [] = (err (Exception.runtime_error Reason.recv_mark_failed), [])
reply_next (r ∷ rs) = (r, rs)

abbrev script : Transport
script = record { Conn = Script; call = λ prog vers proc args c. reply_next c }

abbrev dir : Nfs4Fh
dir = record { handle = [] }

abbrev file_fh : Nfs4Fh
file_fh = record { handle = 7 ∷ 8 ∷ [] }

abbrev name : List ℕ
name = 97 ∷ 98 ∷ []

abbrev stateid : Stateid4
stateid = record { seqid = 1; other = replicate 12 5 }

abbrev sent_values : Sent
sent_values = record {
  fh = file_fh;
  bytes = 1 ∷ 2 ∷ 3 ∷ [];
  number = 3;
  other_number = 1;
  verf = replicate 8 9;
  stateid = stateid;
  change = record { atomic = 1; before = 2; after = 3 };
  other_change = record { atomic = 0; before = 4; after = 5 };
  bitmap = [];
  values = values;
}

sent_values-IsSent : IsSent sent_values
unfolding attrs_wire bit
sent_values-IsSent = record {
  fh = omega arith;
  bytes = omega arith;
  number = omega arith;
  other_number = omega arith;
  verf = omega arith;
  stateid = (omega arith, omega arith);
  change = (omega arith, omega arith, omega arith);
  other_change = (omega arith, omega arith, omega arith);
  bitmap = (omega arith, tt);
  values = values-IsValues;
  attrs = omega arith;
}

abbrev client : Script → Nfs4Client script
client replies = record {
  host = [];
  rpc = replies;
  root_fh = root_sentinel;
  clientid = 77;
  open_seqid = 4;
}

abbrev client41 : Script → ℕ → Nfs41Client script
client41 replies n = record {
  host = [];
  rpc = replies;
  root_fh = root_sentinel;
  clientid = 77;
  sessionid = replicate 16 6;
  slot_seqid = n;
  open_seqid = 4;
}

abbrev made_link : Sattr4
made_link = record {
  size = none;
  mode = some 511;
  owner = none;
  owner_group = none;
  time_access = none;
  time_modify = some (record { seconds = 3; nseconds = 4 });
}

made_link-IsSattr : IsSattr made_link
unfolding uint32 uint64
made_link-IsSattr = record {
  size = tt;
  owner = tt;
  owner_group = tt;
  time_access = tt;
  time_modify = omega arith;
  values = omega arith;
}

abbrev link_call : Method
link_call = Method.one_call (Call.symlink dir name name made_link)

run_method-answer_example :
    run_method script link_call
      (client (ok (header [] 3 ++ (method_results sent_values link_call ++ [])) ∷ []))
    ≡ (ok file_fh, client [])
run_method-answer_example =
    run_method-answer script link_call sent_values
      (client (ok (header [] 3 ++ (method_results sent_values link_call ++ [])) ∷ [])) [] [] [] 3
      (omega arith, omega arith, omega arith, made_link-IsSattr) sent_values-IsSent
      (omega arith, omega arith) refl

-- `NFS4ERR_STALE_CLIENTID`
run_method-Fails_example :
    run_method script Method.renewal (client (ok (uint32 10022 ++ []) ∷ []))
    ≡ (err (Exception.nfs4_error 10022 "COMPOUND"), client [])
run_method-Fails_example =
    run_method-Fails script Method.renewal (client (ok (uint32 10022 ++ []) ∷ [])) []
      (ok (uint32 10022 ++ [])) (Exception.nfs4_error 10022 "COMPOUND") (omega arith)
      (Fails.bad_status 10022 [] (omega arith) (omega arith)) refl

abbrev sequenced : SequenceResult
sequenced = record {
  sessionid = replicate 16 6;
  sequenceid = 9;
  slotid = 0;
  highest_slotid = 0;
  target_highest_slotid = 0;
  status_flags = 0;
}

sequenced-IsSequence : IsSequence sequenced
sequenced-IsSequence = record {
  sessionid = omega arith;
  sequenceid = omega arith;
  slotid = omega arith;
  highest_slotid = omega arith;
  target_highest_slotid = omega arith;
  status_flags = omega arith;
}

abbrev read41_reply : Result (List ℕ)
read41_reply = ok (
    header [] 3
    ++ ((sequence_result_wire sequenced
          ++ results_wire sent_values
              (Call.read (record { fh = file_fh; stateid = stateid; seqid = 5 }) 0 3))
        ++ []))

run_call41-answer_example :
    Actions.run_call script
      (Call.read (record { fh = file_fh; stateid = stateid; seqid = 5 }) 0 3)
      (client41 (read41_reply ∷ []) 9)
    ≡ (ok (1 ∷ 2 ∷ 3 ∷ []), client41 [] 10)
run_call41-answer_example =
    run_call41-answer script (Call.read (record { fh = file_fh; stateid = stateid; seqid = 5 }) 0 3)
      sent_values sequenced (client41 (read41_reply ∷ []) 9) [] [] [] 3 (omega arith, omega arith)
      (sent_values-IsSent, sequenced-IsSequence) (omega arith, omega arith) refl

abbrev opened : ℕ → Opened
opened rflags = record {
  stateid = stateid;
  change = record { atomic = 1; before = 2; after = 3 };
  rflags = rflags;
  attrset = [];
  delegation =
      Delegation.to_read stateid 0 (record { type = 0; flag = 0; access_mask = 1; who = name });
}

opened-IsOpened : (rflags : ℕ) → rflags < 2 ^ 32 → IsOpened (opened rflags)
opened-IsOpened rflags h = record {
  stateid = (omega arith, omega arith);
  change = (omega arith, omega arith, omega arith);
  rflags = h;
  attrset = (omega arith, tt);
  delegation = (
    (omega arith, omega arith),
    omega arith,
    (omega arith, omega arith, omega arith, omega arith),
  );
}

-- A round of the grace period.
abbrev in_grace : List ℕ
in_grace = uint32 10013 ++ []

abbrev open_reply : ℕ → List ℕ
open_reply rflags = header [] 3 ++ (open_results_wire dir (opened rflags) file_fh ++ [])

open_rounds :
    (rflags : ℕ) (more : Script)
    → Ends
        (open_call script (client (ok in_grace ∷ ok (open_reply rflags) ∷ more)) dir name 1 false)
        2
        (ok in_grace ∷ ok (open_reply rflags) ∷ more)
        (ok (open_reply rflags))
        more
open_rounds rflags more = Ends.held [] refl (
    Ends.accepted [] (open_results_wire dir (opened rflags) file_fh ++ []) 3 refl (omega arith)
      (omega arith))

retry_in_grace-Ends_example :
    retry_in_grace
      (open_call script (client (ok in_grace ∷ ok (open_reply 0) ∷ [])) dir name 1 false)
      5
      (ok in_grace ∷ ok (open_reply 0) ∷ [])
    ≡ (ok (open_reply 0), [])
retry_in_grace-Ends_example =
    retry_in_grace-Ends
      (open_call script (client (ok in_grace ∷ ok (open_reply 0) ∷ [])) dir name 1 false)
      (open_rounds 0 []) 5 (omega arith)

do_open-granted_example :
    do_open script 5 dir name 1 false (client (ok in_grace ∷ ok (open_reply 0) ∷ [])) ≡ (
      ok (record { fh = file_fh; stateid = stateid; seqid = 5 }),
      record (client []) { open_seqid = 5 },
    )
do_open-granted_example =
    do_open-granted script (client (ok in_grace ∷ ok (open_reply 0) ∷ [])) 5 dir name 1 false
      (omega arith, omega arith, omega arith) (opened 0) file_fh [] [] 3
      (opened-IsOpened 0 (omega arith)) (omega arith) (omega arith, omega arith) refl
      (open_rounds 0 []) (omega arith)

abbrev confirmed : Stateid4
confirmed = record { seqid = 2; other = replicate 12 5 }

abbrev confirm_reply : Result (List ℕ)
confirm_reply = ok (header [] 2 ++ (confirm_results_wire file_fh confirmed ++ []))

do_open-confirmed_example :
    do_open script 5 dir name 1 false
      (client (ok in_grace ∷ ok (open_reply 2) ∷ confirm_reply ∷ []))
    ≡ (
      ok (record { fh = file_fh; stateid = confirmed; seqid = 6 }),
      record (client []) { open_seqid = 6 },
    )
do_open-confirmed_example =
    do_open-confirmed script (client (ok in_grace ∷ ok (open_reply 2) ∷ confirm_reply ∷ [])) 5 dir
      name 1 false (omega arith, omega arith, omega arith) [] (opened 2) file_fh confirmed [] [] []
      [] 3 2 (opened-IsOpened 2 (omega arith), (omega arith, omega arith)) (omega arith)
      (omega arith, omega arith) (omega arith, omega arith) (omega arith)
      (open_rounds 2 (confirm_reply ∷ [])) (omega arith) refl

-- `NFS4ERR_ACCESS`
do_open-refused_example :
    do_open script 5 dir name 2 true (client (ok (uint32 13 ++ []) ∷ []))
    ≡ (err (Exception.nfs4_error 13 "COMPOUND"), record (client []) { open_seqid = 5 })
do_open-refused_example =
    do_open-refused script (client (ok (uint32 13 ++ []) ∷ [])) 5 dir name 2 true
      (omega arith, omega arith, omega arith) (Exception.nfs4_error 13 "COMPOUND")
      (Ends.refused 13 [] refl (omega arith) (omega arith) (omega arith)) (omega arith)

abbrev open41_reply : List ℕ
open41_reply =
    header [] 4
    ++ ((sequence_result_wire sequenced ++ open_results_wire dir (opened 0) file_fh) ++ [])

do_open41-answer_example :
    (Client41.do_open script 5 dir name 1 false (client41 (ok open41_reply ∷ []) 9) ≡ (
      ok (record { fh = file_fh; stateid = stateid; seqid = 5 }),
      record (client41 [] 10) { open_seqid = 5 },
    ))
    × (◌≡◌ {A = ℕ} 10 ((9 + 1) % 2 ^ 32))
unfolding Client41.compound41 call_compound Exec.◌>>=◌
do_open41-answer_example =
    do_open41-answer script (client41 (ok open41_reply ∷ []) 9)
      (record (client41 [] 10) { open_seqid = 5 }) 5 dir name 1 false sequenced (opened 0) file_fh
      [] [] 4 (omega arith, omega arith, omega arith)
      (sequenced-IsSequence, opened-IsOpened 0 (omega arith)) (omega arith)
      (omega arith, omega arith)
      (Ends.accepted []
        ((sequence_result_wire sequenced ++ open_results_wire dir (opened 0) file_fh) ++ []) 4 refl
        (omega arith) (omega arith))
      (omega arith)

abbrev plain : ℕ → Reply
plain n = record { tag = []; num_results = n; rest = [] }

abbrev registered : SetclientidResult
registered = record { clientid = 77; confirm_verifier = replicate 8 4 }

register-answer_example :
    register script 123456 (
      unregistered script [] (
        ok (reply_wire (plain 1) (registered_wire registered))
        ∷ ok (reply_wire (plain 1) (granted 36))
        ∷ ok (reply_wire (plain 2) (root_results_wire file_fh))
        ∷ []))
    ≡ (ok tt, record (client []) { open_seqid = 0 })
register-answer_example =
    register-answer script 123456 [] _
      (ok (reply_wire (plain 1) (granted 36))
        ∷ ok (reply_wire (plain 2) (root_results_wire file_fh))
        ∷ [])
      (ok (reply_wire (plain 2) (root_results_wire file_fh)) ∷ []) [] registered file_fh (plain 1)
      (plain 1) (plain 2) (omega arith) (omega arith, omega arith) (omega arith)
      ((omega arith, omega arith), (omega arith, omega arith), (omega arith, omega arith)) refl refl
      refl

abbrev exchanged : Exchanged
exchanged = record {
  clientid = 77;
  sequenceid = 1;
  flags = 131072;
  minor_id = 0;
  major_id = 1 ∷ [];
  scope = 2 ∷ [];
  impls = record { domain = 3 ∷ []; name = 4 ∷ []; seconds = 5; nseconds = 6 } ∷ [];
}

exchanged-IsExchanged : IsExchanged exchanged
exchanged-IsExchanged = record {
  clientid = omega arith;
  sequenceid = omega arith;
  flags = omega arith;
  minor_id = omega arith;
  major_id = omega arith;
  scope = omega arith;
  few_impls = omega arith;
  impls = ((omega arith, omega arith, omega arith, omega arith), tt);
}

abbrev created : Created
created = record {
  sessionid = replicate 16 6;
  sequence = 1;
  flags = 0;
  fore_channel = replicate 7 1;
  back_channel = replicate 7 0;
}

created-IsCreated : IsCreated created
created-IsCreated = record {
  sessionid = omega arith;
  sequence = omega arith;
  flags = omega arith;
  seven_fore = omega arith;
  fore_channel = omega arith;
  seven_back = omega arith;
  back_channel = omega arith;
}

abbrev session_script_2 : Script
session_script_2 =
    ok (in_session_wire (plain 2) sequenced (granted 58))
    ∷ ok (in_session_wire (plain 3) sequenced (root_results_wire file_fh))
    ∷ []

start_session-answer_example :
    start_session script 123456 (
      sessionless script [] (
        ok (reply_wire (plain 1) (exchanged_wire exchanged))
        ∷ ok (reply_wire (plain 1) (created_wire created))
        ∷ session_script_2))
    ≡ (ok tt, in_session script [] 77 (replicate 16 6) [] 3)
start_session-answer_example =
    start_session-answer script 123456 []
      (ok (reply_wire (plain 1) (exchanged_wire exchanged))
        ∷ ok (reply_wire (plain 1) (created_wire created))
        ∷ session_script_2)
      (ok (reply_wire (plain 1) (created_wire created)) ∷ session_script_2) session_script_2
      (ok (in_session_wire (plain 3) sequenced (root_results_wire file_fh)) ∷ []) [] exchanged
      created file_fh (plain 1) (plain 1) (plain 2) (plain 3) sequenced sequenced (omega arith)
      (exchanged-IsExchanged, created-IsCreated) (omega arith)
      ((omega arith, omega arith), (omega arith, omega arith))
      ((omega arith, omega arith), sequenced-IsSequence)
      ((omega arith, omega arith), sequenced-IsSequence) refl refl refl refl

-- A session of two methods on a connection that breaks at once.
abbrev recorded_client : Nfs41Client (recorded script)
recorded_client = record {
  host = [];
  rpc = ([], []);
  root_fh = root_sentinel;
  clientid = 77;
  sessionid = replicate 16 6;
  slot_seqid = 1;
  open_seqid = 0;
}

abbrev actions : List Action
actions = Action.one_call (Call.remove dir name) ∷ Action.open_read 3 dir name ∷ []

abbrev after_actions : Nfs41Client (recorded script)
after_actions =
    act_all (recorded script) actions (enter_session (recorded script) recorded_client).1

act_all-Numbered_example :
    (after_actions.sessionid ≡ replicate 16 6)
    × Numbered (replicate 16 6) [] after_actions.rpc.1 after_actions.slot_seqid
act_all-Numbered_example = act_all-Numbered script recorded_client actions refl

-- A peer that breaks off inside a record mark.
abbrev silent : Nfs4Client (tcp_transport pipe 3)
silent = record {
  host = [];
  rpc = connected pipe (record { inbox = 128 ∷ 0 ∷ []; outbox = [] });
  root_fh = root_sentinel;
  clientid = 77;
  open_seqid = 4;
}

abbrev silent41 : Nfs41Client (tcp_transport pipe 3)
silent41 = record {
  host = [];
  rpc = connected pipe (record { inbox = 128 ∷ 0 ∷ []; outbox = [] });
  root_fh = root_sentinel;
  clientid = 77;
  sessionid = replicate 16 6;
  slot_seqid = 1;
  open_seqid = 4;
}

methods-ne-fault_example :
    ((register (tcp_transport pipe 3) 123456 silent).0 ≢ fault Fault.out_of_bounds)
    × ((run_method (tcp_transport pipe 3) Method.renewal silent).0 ≢ fault Fault.out_of_bounds)
    × ((do_open (tcp_transport pipe 3) 5 dir name 1 false silent).0 ≢ fault Fault.out_of_bounds)
    × ((readdir (tcp_transport pipe 3) 5 dir silent).0 ≢ fault Fault.out_of_bounds)
    × ((start_session (tcp_transport pipe 3) 123456 silent41).0 ≢ fault Fault.out_of_bounds)
    × ((Actions.run_call (tcp_transport pipe 3) (Call.lookup dir name) silent41).0
        ≢ fault Fault.out_of_bounds)
    × ((Client41.do_open (tcp_transport pipe 3) 5 dir name 1 false silent41).0
        ≢ fault Fault.out_of_bounds)
    × ((Client41.readdir (tcp_transport pipe 3) 5 dir silent41).0 ≢ fault Fault.out_of_bounds)
    × ((destroy_call (tcp_transport pipe 3) (replicate 16 6) silent41.rpc).0
        ≢ fault Fault.out_of_bounds)
methods-ne-fault_example =
    methods-ne-fault pipe pipe_bounded 3 5 123456 Method.renewal (Call.lookup dir name) dir name 1
      false silent silent41
