-- ===== src/Nfs4/Session/Granted.antt =====
-- What `Nfs4/Session` sends and reads, against RFC 8881, section 18.
use nfsclient.Base.{ℕ, ◌≡◌, false, List, ◌++◌, length, arith}
use nfsclient.Xdr.Encoder.{encoded}
use nfsclient.Xdr.Wire.{IsU32, uint32, fixed_opaque}
use nfsclient.Xdr.Emits.{Emits-encoded, Emits-seq, Emits-uint32, Emits-fixed_opaque}
use nfsclient.Xdr.Reads.{Reads, Reads-bind, Reads-last}
use nfsclient.Xdr.Reads.Items.{Reads-uint32, Reads-fixed_opaque}
use nfsclient.Nfs4.Ops.Successes.{granted, Reads-op}
use nfsclient.Nfs4.Session.{encode_sequence41, decode_sequence41_result}

-- SEQUENCE on slot 0 of a session, with no reply cached.
abbrev pub sequence_wire : List ℕ → ℕ → List ℕ
sequence_wire sid n =
    uint32 53 ++ (fixed_opaque sid ++ (uint32 n ++ (uint32 0 ++ (uint32 0 ++ uint32 0))))

pub sequence-wire :
    (sid : List ℕ) (n : ℕ) → encoded (encode_sequence41 sid n 0 0 false) ≡ sequence_wire sid n
unfolding encode_sequence41
sequence-wire sid n = Emits-encoded (
    Emits-seq (Emits-uint32 53) (
      Emits-seq (Emits-fixed_opaque sid) (
        Emits-seq (Emits-uint32 n)
          (Emits-seq (Emits-uint32 0) (Emits-seq (Emits-uint32 0) (Emits-uint32 0))))))

-- The results of SEQUENCE.
pub record SequenceResult : Type 0 where
  pub sessionid : List ℕ
  pub sequenceid : ℕ
  pub slotid : ℕ
  pub highest_slotid : ℕ
  pub target_highest_slotid : ℕ
  pub status_flags : ℕ

pub record IsSequence (q : SequenceResult) : Type 0 where
  pub sessionid : length q.sessionid ≡ 16
  pub sequenceid : IsU32 q.sequenceid
  pub slotid : IsU32 q.slotid
  pub highest_slotid : IsU32 q.highest_slotid
  pub target_highest_slotid : IsU32 q.target_highest_slotid
  pub status_flags : IsU32 q.status_flags

abbrev pub sequence_result_wire : SequenceResult → List ℕ
sequence_result_wire q =
    granted 53
    ++ (fixed_opaque q.sessionid
        ++ (uint32 q.sequenceid
            ++ (uint32 q.slotid
                ++ (uint32 q.highest_slotid
                    ++ (uint32 q.target_highest_slotid ++ uint32 q.status_flags)))))

pub Reads-sequence :
    (q : SequenceResult) → IsSequence q → Reads decode_sequence41_result (sequence_result_wire q) tt
unfolding decode_sequence41_result
Reads-sequence q h = Reads-bind _ (Reads-op 53 "SEQUENCE" (omega arith)) (
    Reads-bind _ (Reads-fixed_opaque 16 q.sessionid h.sessionid) (
      Reads-bind _ (Reads-uint32 q.sequenceid h.sequenceid) (
        Reads-bind _ (Reads-uint32 q.slotid h.slotid) (
          Reads-bind _ (Reads-uint32 q.highest_slotid h.highest_slotid) (
            Reads-bind _ (Reads-uint32 q.target_highest_slotid h.target_highest_slotid)
              (Reads-last _ (Reads-uint32 q.status_flags h.status_flags)))))))
