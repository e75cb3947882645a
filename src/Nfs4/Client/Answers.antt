-- ===== src/Nfs4/Client/Answers.antt =====
-- The methods of `Nfs4Client` from their arguments to their results: src/nfs4_client.cpp down to the
-- call of the RPC connection.
use nfsclient.Base.{ℕ, ◌≡◌, refl, ap, List, [], ◌++◌, arith}
use nfsclient.Errors.{Result, ok, err, Exception}
use nfsclient.Exec.{Exec, lift, continue, ◌>>=◌}
use nfsclient.Xdr.Decoder.{run}
use nfsclient.Xdr.Wire.{IsU32, IsU64, Fits32, uint32, uint64}
use nfsclient.Xdr.Emits.{Emits, Emits-encoded, Emits-seq, Emits-uint32, Emits-uint64}
use nfsclient.Xdr.Reads.{Reads}
use nfsclient.Nfs4.Ops.Successes.{granted, Reads-op}
use nfsclient.Nfs4.State.{encode_renew, decode_renew_result}
use nfsclient.Rpc.Transport.{Transport}
use nfsclient.Nfs4.Compound.Header.{
  compound_wire, call_compound-wire, header, run-after_header, Fails, Fails-continue,
}
use nfsclient.Nfs4.Requests.{Request, after_header}
use nfsclient.Nfs4.Calls.{Call, Answer, request_of}
use nfsclient.Nfs4.Calls.Wire.{ops_wire, op_count, IsCall, Sent, IsSent, results_wire, answer}
use nfsclient.Nfs4.Calls.Exact.{Emits-ops, Reads-results, num_ops-count}
use nfsclient.Nfs4.Client.{
  Nfs4Client, exchange, perform, lookup, getattr, access, close, read, write, commit, mkdir, remove,
  rename, symlink, readlink, setattr, renew,
}

module _ (t : Transport) where
  open t use {Conn, call}

  -- The method for each call.
  unfoldable pub run_call : (k : Call) → Exec (Nfs4Client t) (Answer k)
  run_call (Call.lookup dir name) = lookup t dir name
  run_call (Call.getattr fh) = getattr t fh
  run_call (Call.access fh mask) = access t fh mask
  run_call (Call.close f) = close t f
  run_call (Call.read f offset count) = read t f offset count
  run_call (Call.write f offset how bytes) = write t f offset how bytes
  run_call (Call.commit f offset count) = commit t f offset count
  run_call (Call.mkdir dir name attrs) = mkdir t dir name attrs
  run_call (Call.remove dir name) = remove t dir name
  run_call (Call.rename src_dir src_name dst_dir dst_name) =
      rename t src_dir src_name dst_dir dst_name
  run_call (Call.symlink dir name target attrs) = symlink t dir name target attrs
  run_call (Call.readlink fh) = readlink t fh
  run_call (Call.setattr fh attrs) = setattr t fh attrs

  pub run_call-perform : (k : Call) → run_call k ≡ perform t (request_of k)
  unfolding run_call lookup getattr access close read write commit mkdir remove rename symlink
      readlink setattr
  run_call-perform (Call.lookup dir name) = refl
  run_call-perform (Call.getattr fh) = refl
  run_call-perform (Call.access fh mask) = refl
  run_call-perform (Call.close f) = refl
  run_call-perform (Call.read f offset count) = refl
  run_call-perform (Call.write f offset how bytes) = refl
  run_call-perform (Call.commit f offset count) = refl
  run_call-perform (Call.mkdir dir name attrs) = refl
  run_call-perform (Call.remove dir name) = refl
  run_call-perform (Call.rename src_dir src_name dst_dir dst_name) = refl
  run_call-perform (Call.symlink dir name target attrs) = refl
  run_call-perform (Call.readlink fh) = refl
  run_call-perform (Call.setattr fh attrs) = refl

  -- The request on the wire, and what the client makes of the outcome of the call.
  pub exchange-call :
      {A : Type 0} (tag : List ℕ) (r : Request A) (c c' : Conn) (ops : List ℕ)
      (reply : Result (List ℕ))
      → Fits32 tag
      → Emits r.ops ops
      → call 100003 4 1 (compound_wire tag 0 r.num_ops ops) c ≡ (reply, c')
      → exchange t tag r c ≡ continue reply (λ bs. lift (run (after_header r.results) bs)) c'
  unfolding exchange ◌>>=◌
  exchange-call tag r c c' ops reply ht em e =
      rw (Emits-encoded em, call_compound-wire t tag ops r.num_ops 0 ht, e) refl

  pub perform-call :
      {A : Type 0} (r : Request A) (c : Nfs4Client t) (conn : Conn) (ops : List ℕ)
      (reply : Result (List ℕ)) {out : Result A}
      → Emits r.ops ops
      → call 100003 4 1 (compound_wire [] 0 r.num_ops ops) c.rpc ≡ (reply, conn)
      → continue reply (λ bs. lift (run (after_header r.results) bs)) conn ≡ (out, conn)
      → perform t r c ≡ (out, record c { rpc = conn })
  unfolding perform
  perform-call r c conn ops reply em e d =
      rw (exchange-call [] r c.rpc conn ops reply (omega arith) em e, d) refl

  -- RENEW carries the client id that the client keeps.
  perform-renew :
      (c : Nfs4Client t) (conn : Conn) (reply : Result (List ℕ)) {out : Result (Unit {0})}
      → IsU64 c.clientid
      → call 100003 4 1 (compound_wire [] 0 1 (uint32 30 ++ uint64 c.clientid)) c.rpc
        ≡ (reply, conn)
      → continue reply (λ bs. lift (run (after_header decode_renew_result) bs)) conn ≡ (out, conn)
      → renew t c ≡ (out, record c { rpc = conn })
  unfolding renew ◌>>=◌ encode_renew
  perform-renew c conn reply hc e d =
      perform-call
        (record { ops = encode_renew c.clientid; num_ops = 1; results = decode_renew_result }) c
        conn (uint32 30 ++ uint64 c.clientid) reply
        (Emits-seq (Emits-uint32 30) (Emits-uint64 c.clientid hc)) e d

-- The methods of `Nfs4Client` that are one COMPOUND each.
pub data Method : Type 0 where
  one_call : Call → Method
  renewal : Method

abbrev pub MethodAnswer : Method → Type 0
MethodAnswer (Method.one_call k) = Answer k
MethodAnswer Method.renewal = Unit

-- What a method sends for a client id, and how many operations.
abbrev pub method_wire : ℕ → Method → List ℕ
method_wire clientid (Method.one_call k) = ops_wire k
method_wire clientid Method.renewal = uint32 30 ++ uint64 clientid

abbrev pub method_count : Method → ℕ
method_count (Method.one_call k) = op_count k
method_count Method.renewal = 1

abbrev pub IsMethod : ℕ → Method → Type 0
IsMethod clientid (Method.one_call k) = IsCall k
IsMethod clientid Method.renewal = IsU64 clientid

-- The results when all operations succeed, and what the method should return then.
abbrev pub method_results : Sent → Method → List ℕ
method_results v (Method.one_call k) = results_wire v k
method_results v Method.renewal = granted 30

abbrev pub method_answer : Sent → (m : Method) → MethodAnswer m
method_answer v (Method.one_call k) = answer v k
method_answer v Method.renewal = tt

Reads-renew : Reads decode_renew_result (granted 30) tt
unfolding decode_renew_result
Reads-renew = Reads-op 30 "RENEW" (omega arith)

module _ (t : Transport) where
  open t use {Conn, call}

  unfoldable pub run_method : (m : Method) → Exec (Nfs4Client t) (MethodAnswer m)
  run_method (Method.one_call k) = run_call t k
  run_method Method.renewal = renew t

  -- Each method of `Nfs4Client` that is one COMPOUND, `renew` included, sends exactly these operations,
  -- PUTROOTFH in
  -- place of PUTFH where the handle is empty, in a COMPOUND of minor version 0: those that RFC 7530 has
  -- for it, byte by byte, but for the times that a client sets, which have the ids 64 and 65 of
  -- `nfs4_attr.hpp` in the bitmap, where the RFC has 48 and 54. Where the server answers that call with
  -- the results of RFC 7530 it returns what they say: the handle, the attributes, the mask, the data, the
  -- count, the verifier or the target. The rest of the client stays as it is. For lengths and numbers
  -- that XDR can carry, any tag in the reply, and any bytes behind the results.
  pub run_method-answer :
      (m : Method) (v : Sent) (c : Nfs4Client t) (conn : Conn) (tag rest : List ℕ) (num_results : ℕ)
      → IsMethod c.clientid m
      → IsSent v
      → Fits32 tag × IsU32 num_results
      → call 100003 4 1 (compound_wire [] 0 (method_count m) (method_wire c.clientid m)) c.rpc
        ≡ (ok (header tag num_results ++ (method_results v m ++ rest)), conn)
      → run_method m c ≡ (ok (method_answer v m), record c { rpc = conn })
  unfolding after_header run_method
  run_method-answer (Method.one_call k) v c conn tag rest num_results hk hv (ht, hn) e =
      rw (run_call-perform t k) (
        perform-call t (request_of k) c conn (ops_wire k)
          (ok (header tag num_results ++ (results_wire v k ++ rest))) (Emits-ops k hk)
          (rw (num_ops-count k) e)
          (ap (λ r. (r, conn))
            (run-after_header tag rest num_results ht hn (Reads-results v k hv))))
  run_method-answer Method.renewal v c conn tag rest num_results hc hv (ht, hn) e =
      perform-renew t c conn (ok (header tag num_results ++ (granted 30 ++ rest))) hc e
        (ap (λ r. (r, conn)) (run-after_header tag rest num_results ht hn Reads-renew))

  -- Each method of `Nfs4Client` that is one COMPOUND, `renew` included, throws the `Nfs4Error` with the status, and the name COMPOUND,
  -- when the reply to its call has a status that is not 0, whatever else is in it, and what the
  -- connection throws when that throws; nothing but the connection has changed.
  pub run_method-Fails :
      (m : Method) (c : Nfs4Client t) (conn : Conn) (reply : Result (List ℕ)) (x : Exception)
      → IsMethod c.clientid m
      → Fails reply x
      → call 100003 4 1 (compound_wire [] 0 (method_count m) (method_wire c.clientid m)) c.rpc
        ≡ (reply, conn)
      → run_method m c ≡ (err x, record c { rpc = conn })
  unfolding after_header run_method
  run_method-Fails (Method.one_call k) c conn reply x hk hf e = rw (run_call-perform t k) (
      perform-call t (request_of k) c conn (ops_wire k) reply (Emits-ops k hk)
        (rw (num_ops-count k) e) (Fails-continue (request_of k).results conn hf))
  run_method-Fails Method.renewal c conn reply x hc hf e =
      perform-renew t c conn reply hc e (Fails-continue decode_renew_result conn hf)
