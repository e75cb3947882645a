-- ===== src/Rpc/Reply/Outcomes.antt =====
-- `parseReply` against the reply messages of RFC 5531, all branches.
use nfsclient.Base.{ℕ, ◌≡◌, ◌≢◌, List, ◌++◌, append_assoc, ne→==, arith}
use nfsclient.Errors.{Result, ok, err, fault, Reason, Exception, Fault}
use nfsclient.Xdr.Wire.{IsU32, Fits32, uint32, opaque}
use nfsclient.Xdr.Reads.{
  Raises, Raises-bind, Raises-last, Raises-raise, Finishes-bind, run-Finishes, run-Raises,
}
use nfsclient.Xdr.Reads.Items.{Reads-uint32, Reads-opaque, Finishes-remaining}
use nfsclient.Xdr.Safe.{
  Safe, Safe-bind, Safe-if, Safe-raise, Safe-uint32, Safe-opaque, Safe-remaining, run-Safe,
}
use nfsclient.Rpc.Reply.{decode_reply, parse_reply}

-- A message behind its xid: an accepted call with its results, an accepted call that failed, a
-- denied call, and a message that is no reply. `tail` is whatever follows.
pub data Message : Type 0 where
  succeeded : (flavor : ℕ) (verf results : List ℕ) → Message
  failed : (flavor : ℕ) (verf : List ℕ) (stat : ℕ) (tail : List ℕ) → Message
  denied : (stat : ℕ) (tail : List ℕ) → Message
  no_reply : (mtype : ℕ) (tail : List ℕ) → Message

abbrev pub wire : Message → List ℕ
wire (succeeded flavor verf results) =
    uint32 1 ++ (uint32 0 ++ (uint32 flavor ++ (opaque verf ++ (uint32 0 ++ results))))
wire (failed flavor verf stat tail) =
    (uint32 1 ++ (uint32 0 ++ (uint32 flavor ++ (opaque verf ++ uint32 stat)))) ++ tail
wire (denied stat tail) = (uint32 1 ++ uint32 stat) ++ tail
wire (no_reply mtype tail) = uint32 mtype ++ tail

abbrev pub IsMessage : Message → Type 0
IsMessage (succeeded flavor verf results) = IsU32 flavor × Fits32 verf
IsMessage (failed flavor verf stat tail) = IsU32 flavor × Fits32 verf × IsU32 stat × (stat ≢ 0)
IsMessage (denied stat tail) = IsU32 stat × (stat ≢ 0)
IsMessage (no_reply mtype tail) = IsU32 mtype × (mtype ≢ 1)

abbrev pub outcome : Message → Result (List ℕ)
outcome (succeeded flavor verf results) = ok results
outcome (failed flavor verf stat tail) = err (Exception.runtime_error (Reason.not_accepted stat))
outcome (denied stat tail) = err (Exception.runtime_error (Reason.message_denied stat))
outcome (no_reply mtype tail) = err (Exception.runtime_error Reason.expected_reply)

module _ (xid : ℕ) (hx : IsU32 xid) where
  parse-succeeded :
      (flavor : ℕ) (verf results : List ℕ)
      → IsU32 flavor
      → Fits32 verf
      → parse_reply (uint32 xid ++ wire (succeeded flavor verf results)) ≡ ok results
  unfolding parse_reply
  parse-succeeded flavor verf results hf hv = run-Finishes (
      Finishes-bind _ (Reads-uint32 xid hx) (
        Finishes-bind _ (Reads-uint32 1 (omega arith)) (
          Finishes-bind _ (Reads-uint32 0 (omega arith)) (
            Finishes-bind _ (Reads-uint32 flavor hf) (
              Finishes-bind _ (Reads-opaque verf hv)
                (Finishes-bind _ (Reads-uint32 0 (omega arith)) (Finishes-remaining results)))))))

  Raises-failed :
      (flavor : ℕ) (verf : List ℕ) (stat : ℕ)
      → IsU32 flavor
      → Fits32 verf
      → IsU32 stat
      → stat ≢ 0
      → Raises decode_reply
          (uint32 xid
            ++ (uint32 1 ++ (uint32 0 ++ (uint32 flavor ++ (opaque verf ++ uint32 stat)))))
          (Exception.runtime_error (Reason.not_accepted stat))
  unfolding decode_reply
  Raises-failed flavor verf stat hf hv hs ne = Raises-bind _ (Reads-uint32 xid hx) (
      Raises-bind _ (Reads-uint32 1 (omega arith)) (
        Raises-bind _ (Reads-uint32 0 (omega arith)) (
          Raises-bind _ (Reads-uint32 flavor hf) (
            Raises-bind _ (Reads-opaque verf hv)
              (Raises-last _ (Reads-uint32 stat hs) (rw (ne→== stat 0 ne) (Raises-raise _)))))))

  Raises-denied :
      (stat : ℕ)
      → IsU32 stat
      → stat ≢ 0
      → Raises decode_reply
          (uint32 xid ++ (uint32 1 ++ uint32 stat))
          (Exception.runtime_error (Reason.message_denied stat))
  unfolding decode_reply
  Raises-denied stat hs ne = Raises-bind _ (Reads-uint32 xid hx) (
      Raises-bind _ (Reads-uint32 1 (omega arith))
        (Raises-last _ (Reads-uint32 stat hs) (rw (ne→== stat 0 ne) (Raises-raise _))))

  Raises-no_reply :
      (mtype : ℕ)
      → IsU32 mtype
      → mtype ≢ 1
      → Raises decode_reply
          (uint32 xid ++ uint32 mtype)
          (Exception.runtime_error Reason.expected_reply)
  unfolding decode_reply
  Raises-no_reply mtype hm ne =
      Raises-bind _ (Reads-uint32 xid hx)
        (Raises-last _ (Reads-uint32 mtype hm) (rw (ne→== mtype 1 ne) (Raises-raise _)))

-- On every reply message, whatever its xid, `parse_reply` has the outcome that the message states:
-- the results of an accepted call, and otherwise the exception for the status that it carries; for
-- words below 2 ^ 32 and a verifier shorter than that.
pub parse_reply-wire :
    (xid : ℕ) (m : Message)
    → IsU32 xid
    → IsMessage m
    → parse_reply (uint32 xid ++ wire m) ≡ outcome m
unfolding parse_reply
parse_reply-wire xid (succeeded flavor verf results) hx (hf, hv) =
    parse-succeeded xid hx flavor verf results hf hv
parse_reply-wire xid (failed flavor verf stat tail) hx (hf, hv, hs, ne) =
    rw (← append_assoc) (run-Raises tail (Raises-failed xid hx flavor verf stat hf hv hs ne))
parse_reply-wire xid (denied stat tail) hx (hs, ne) =
    rw (← append_assoc) (run-Raises tail (Raises-denied xid hx stat hs ne))
parse_reply-wire xid (no_reply mtype tail) hx (hm, ne) =
    rw (← append_assoc) (run-Raises tail (Raises-no_reply xid hx mtype hm ne))

Safe-reply : Safe decode_reply
unfolding decode_reply
Safe-reply = Safe-bind _ _ Safe-uint32 λ xid. Safe-bind _ _ Safe-uint32 λ mtype.
    Safe-if _
      (Safe-bind _ _ Safe-uint32 λ rstat.
        Safe-if _
          (Safe-bind _ _ Safe-uint32 λ flavor.
            Safe-bind _ _ Safe-opaque
              λ body. Safe-bind _ _ Safe-uint32 λ astat. Safe-if _ Safe-remaining (Safe-raise _))
          (Safe-raise _))
      (Safe-raise _)

-- On any bytes `parse_reply` returns or throws: it reads nothing outside the record.
pub parse_reply-ne-fault : (bytes : List ℕ) (x : Fault) → parse_reply bytes ≢ fault x
unfolding parse_reply
parse_reply-ne-fault bytes x = run-Safe bytes x Safe-reply
