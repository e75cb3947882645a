-- ===== src/Nfs41/Answers.antt =====
-- The methods of `Nfs41Client` from their arguments to their results: src/nfs41_client.cpp down to the
-- call of the RPC connection.
use nfsclient.Base.{ℕ, ◌+◌, ◌%◌, ◌^◌, ◌≡◌, refl, ap, ◌∙◌, List, [], ◌++◌, arith}
use nfsclient.Errors.{Result, ok, err, Exception}
use nfsclient.Exec.{lift, continue, bind-continue, ◌>>=◌}
use nfsclient.Xdr.Decoder.{Decode, run}
use nfsclient.Xdr.Wire.{IsU32, Fits32}
use nfsclient.Xdr.Reads.{Reads, Reads-bind}
use nfsclient.Xdr.Emits.{Emits, Emits-encoded}
use nfsclient.Rpc.Transport.{Transport}
use nfsclient.Nfs4.Compound.Header.{
  compound_wire, call_compound-wire, header, run-after_header, Fails, Fails-continue,
}
use nfsclient.Nfs4.Session.Granted.{
  sequence_wire, sequence-wire, SequenceResult, IsSequence, sequence_result_wire, Reads-sequence,
}
use nfsclient.Nfs4.Requests.{Request, after_header}
use nfsclient.Nfs4.Calls.{Call, request_of}
use nfsclient.Nfs4.Calls.Wire.{ops_wire, op_count, IsCall, Sent, IsSent, results_wire, answer}
use nfsclient.Nfs4.Calls.Exact.{Emits-ops, Reads-results, num_ops-count}
use nfsclient.Nfs41.Client.{
  Nfs41Client, after_sequence, compound41, exchange41, perform, lookup, getattr, access, close,
  read, write, commit, mkdir, remove, rename, symlink, readlink, setattr,
}
use nfsclient.Nfs41.Actions.{run_call}

-- The results behind the header and SEQUENCE, with anything behind them.
pub run-after_sequence :
    {A : Type 0} {m : Decode A} {body : List ℕ} {a : A} (q : SequenceResult) (tag rest : List ℕ)
    (num_ops : ℕ)
    → IsSequence q
    → Fits32 tag
    → IsU32 num_ops
    → Reads m body a
    → run (after_sequence m) (header tag num_ops ++ ((sequence_result_wire q ++ body) ++ rest))
      ≡ ok a
unfolding after_sequence after_header
run-after_sequence q tag rest num_ops hq ht hn r =
    run-after_header tag rest num_ops ht hn (Reads-bind _ (Reads-sequence q hq) r)

op_count-small : (k : Call) → (op_count k + 1) % 2 ^ 32 ≡ op_count k + 1
op_count-small (Call.lookup dir name) = refl
op_count-small (Call.getattr fh) = refl
op_count-small (Call.access fh mask) = refl
op_count-small (Call.close f) = refl
op_count-small (Call.read f offset count) = refl
op_count-small (Call.write f offset how bytes) = refl
op_count-small (Call.commit f offset count) = refl
op_count-small (Call.mkdir dir name attrs) = refl
op_count-small (Call.remove dir name) = refl
op_count-small (Call.rename src_dir src_name dst_dir dst_name) = refl
op_count-small (Call.symlink dir name target attrs) = refl
op_count-small (Call.readlink fh) = refl
op_count-small (Call.setattr fh attrs) = refl

module _ (t : Transport) where
  open t use {Conn, call}

  pub run_call-perform : (k : Call) → run_call t k ≡ perform t (request_of k)
  unfolding run_call lookup getattr access close read write commit mkdir remove rename symlink
      readlink setattr
  run_call-perform (Call.lookup dir name) = refl
  run_call-perform (Call.getattr fh) = refl
  run_call-perform (Call.access fh mask) = refl
  run_call-perform (Call.close f) = refl
  run_call-perform (Call.read f offset count) = refl
  run_call-perform (Call.write f offset how bytes) = refl
  run_call-perform (Call.commit f offset count) = refl
  run_call-perform (Call.mkdir dir name attrs) = refl
  run_call-perform (Call.remove dir name) = refl
  run_call-perform (Call.rename src_dir src_name dst_dir dst_name) = refl
  run_call-perform (Call.symlink dir name target attrs) = refl
  run_call-perform (Call.readlink fh) = refl
  run_call-perform (Call.setattr fh attrs) = refl

  -- The client after one COMPOUND.
  abbrev pub used : Nfs41Client t → Conn → Nfs41Client t
  used c conn = record c { rpc = conn; slot_seqid = (c.slot_seqid + 1) % 2 ^ 32 }

  -- The COMPOUND on the wire.
  pub compound41-call :
      (tag ops : List ℕ) (num_ops : ℕ) (c : Nfs41Client t) (conn : Conn) (reply : Result (List ℕ))
      → Fits32 tag
      → call 100003 4 1
          (compound_wire tag 1
            ((num_ops + 1) % 2 ^ 32)
            (sequence_wire c.sessionid c.slot_seqid ++ ops))
          c.rpc
        ≡ (reply, conn)
      → compound41 t tag ops num_ops c ≡ (reply, used c conn)
  unfolding compound41 ◌>>=◌
  compound41-call tag ops num_ops c conn reply ht e =
      rw
        (
          sequence-wire c.sessionid c.slot_seqid,
          call_compound-wire t tag (sequence_wire c.sessionid c.slot_seqid ++ ops)
              ((num_ops + 1) % 2 ^ 32) 1 ht,
          e,
        )
        refl

  pub exchange41-call :
      {A : Type 0} (tag : List ℕ) (r : Request A) (c : Nfs41Client t) (conn : Conn) (ops : List ℕ)
      (reply : Result (List ℕ))
      → Fits32 tag
      → Emits r.ops ops
      → call 100003 4 1
          (compound_wire tag 1
            ((r.num_ops + 1) % 2 ^ 32)
            (sequence_wire c.sessionid c.slot_seqid ++ ops))
          c.rpc
        ≡ (reply, conn)
      → exchange41 t tag r c
        ≡ continue reply (λ bs. lift (run (after_sequence r.results) bs)) (used c conn)
  unfolding exchange41 compound41
  exchange41-call tag r c conn ops reply ht em e = rw (Emits-encoded em) (
      bind-continue (compound41 t tag ops r.num_ops)
        (λ bs. lift (run (after_sequence r.results) bs)) c (used c conn) reply
        (compound41-call tag ops r.num_ops c conn reply ht e))

  -- Each method that is one COMPOUND sends SEQUENCE for its session and slot, with the next sequence id,
  -- and behind it exactly the operations that `Nfs4Client` sends for that method, in a COMPOUND of minor
  -- version 1 with one operation more; and where the server answers that call with the results of
  -- SEQUENCE and of those operations, it returns the same as `Nfs4Client` does. The sequence id has
  -- gone up by one modulo 2 ^ 32 and the rest of the client stays as it is. For lengths and numbers that
  -- XDR can carry, any tag in the reply, and any bytes behind the results.
  pub run_call41-answer :
      (k : Call) (v : Sent) (q : SequenceResult) (c : Nfs41Client t) (conn : Conn)
      (tag rest : List ℕ) (num_results : ℕ)
      → IsCall k
      → IsSent v × IsSequence q
      → Fits32 tag × IsU32 num_results
      → call 100003 4 1
          (compound_wire [] 1
            (op_count k + 1)
            (sequence_wire c.sessionid c.slot_seqid ++ ops_wire k))
          c.rpc
        ≡ (
          ok (header tag num_results ++ ((sequence_result_wire q ++ results_wire v k) ++ rest)),
          conn,
        )
      → run_call t k c ≡ (ok (answer v k), used c conn)
  unfolding perform
  run_call41-answer k v q c conn tag rest num_results hk (hv, hq) (ht, hn) e =
      rw (run_call-perform k) (
        exchange41-call [] (request_of k) c conn (ops_wire k)
          (ok (header tag num_results ++ ((sequence_result_wire q ++ results_wire v k) ++ rest)))
          (omega arith) (Emits-ops k hk) (rw (num_ops-count k, op_count-small k) e)
        ∙ ap (λ r. (r, used c conn))
            (run-after_sequence q tag rest num_results hq ht hn (Reads-results v k hv)))

  -- Each such method throws the `Nfs4Error` with the status, and the name COMPOUND, when the reply to
  -- its call has a status that is not 0, whatever else is in it, and what the connection throws when
  -- that throws. The sequence id has gone up by one modulo 2 ^ 32 all the same.
  pub run_call41-Fails :
      (k : Call) (c : Nfs41Client t) (conn : Conn) (reply : Result (List ℕ)) (x : Exception)
      → IsCall k
      → Fails reply x
      → call 100003 4 1
          (compound_wire [] 1
            (op_count k + 1)
            (sequence_wire c.sessionid c.slot_seqid ++ ops_wire k))
          c.rpc
        ≡ (reply, conn)
      → run_call t k c ≡ (err x, used c conn)
  unfolding perform after_sequence after_header
  run_call41-Fails k c conn reply x hk hf e = rw (run_call-perform k) (
      exchange41-call [] (request_of k) c conn (ops_wire k) reply (omega arith) (Emits-ops k hk)
        (rw (num_ops-count k, op_count-small k) e)
      ∙ Fails-continue _ (used c conn) hf)
