-- ===== src/Nfs41/Slots.antt =====
-- What `Nfs41Client` sends in its session, against RFC 8881, section 2.10.6: the COMPOUNDs on the one
-- slot are numbered in order, whatever comes back.
pub mod Kept
use nfsclient.Base.{
  ℕ, zero, suc, ◌+◌, ◌%◌, ◌^◌, ◌≡◌, refl, ap, ◌∙◌, append_assoc, Bool, true, false, List, [], ◌∷◌,
  ◌++◌, arith,
}
use nfsclient.Errors.{Result, ok, err, fault, Exception}
use nfsclient.Exec.{Exec, pure, raise, lift, continue, ◌>>=◌, ◌>>◌}
use nfsclient.Xdr.Encoder.{◌⨾◌, put_uint32, put_string, encoded}
use nfsclient.Xdr.Wire.{Fits32, uint32, opaque, fixed_opaque}
use nfsclient.Xdr.Emits.{Emits-encoded, Emits-seq, Emits-uint32, Emits-fixed_opaque, Emits-string}
use nfsclient.Rpc.Transport.{Transport}
use nfsclient.Nfs4.Compound.{call_compound, compound_args}
use nfsclient.Nfs4.Compound.Header.{compound_wire, compound_args-wire}
use nfsclient.Nfs4.Session.Granted.{sequence_wire, sequence-wire}
use nfsclient.Nfs4.Session.{encode_sequence41}
use nfsclient.Nfs41.Client.{Nfs41Client, compound41}

-- The arguments of a COMPOUND that SEQUENCE opens.
abbrev pub numbered_wire : List ℕ → ℕ → List ℕ → ℕ → List ℕ → List ℕ
numbered_wire sid n tag num_ops ops = compound_wire tag 1 num_ops (sequence_wire sid n ++ ops)

-- The calls that went out since `before`, the newest first, are COMPOUNDs of the session numbered from
-- 1 on, modulo 2 ^ 32, and `n` is the next number.
pub data Numbered (sid : List ℕ) (before : List (List ℕ)) : List (List ℕ) → ℕ → Type 0 where
  start : Numbered sid before before 1
  next :
      {sent : List (List ℕ)} {n : ℕ} (tag ops : List ℕ) (num_ops : ℕ)
      → Numbered sid before sent n
      → Numbered sid before (numbered_wire sid n tag num_ops ops ∷ sent) ((n + 1) % 2 ^ 32)

-- A connection that keeps the arguments of its calls.
abbrev pub recorded : Transport → Transport
recorded t = record {
  Conn = t.Conn × List (List ℕ);
  call = λ prog vers proc args c.
      let (r, conn) = t.call prog vers proc args c.0 in (r, (conn, args ∷ c.1));
}

pub args-wire :
    (sid : List ℕ) (n : ℕ) (tag ops : List ℕ) (num_ops : ℕ)
    → Fits32 tag
    → compound_args tag (encoded (encode_sequence41 sid n 0 0 false) ++ ops) num_ops 1
      ≡ numbered_wire sid n tag num_ops ops
args-wire sid n tag ops num_ops ht =
    compound_args-wire tag (encoded (encode_sequence41 sid n 0 0 false) ++ ops) num_ops 1 ht
    ∙ ap (λ (bs : List ℕ). compound_wire tag 1 num_ops (bs ++ ops)) (sequence-wire sid n)

module _ (t : Transport) (sid : List ℕ) (before : List (List ℕ)) where
  -- The state of the client between two calls.
  pub record InOrder (c : Nfs41Client (recorded t)) : Type 0 where
    pub session : c.sessionid ≡ sid
    pub numbers : Numbered sid before c.rpc.1 c.slot_seqid

  -- An action that keeps it, also when it throws.
  pub record Keeps {A : Type 0} (m : Exec (Nfs41Client (recorded t)) A) : Type 0 where
    pub at : (c : Nfs41Client (recorded t)) → InOrder c → InOrder (m c).1

  pub Keeps-compound41 :
      (tag ops : List ℕ) (num_ops : ℕ)
      → Fits32 tag
      → Keeps (compound41 (recorded t) tag ops num_ops)
  unfolding compound41 call_compound ◌>>=◌
  Keeps-compound41 tag ops num_ops ht = record {
    at = λ c h. record {
      session = h.session;
      numbers =
          rw (args-wire c.sessionid c.slot_seqid tag ops ((num_ops + 1) % 2 ^ 32) ht)
            (rw h.session (next tag ops ((num_ops + 1) % 2 ^ 32) h.numbers));
    };
  }

  module _ {A : Type 0} where
    pub Keeps-pure : (a : A) → Keeps (pure a)
    Keeps-pure a = record { at = λ c h. h }

    pub Keeps-raise : (e : Exception) → Keeps {A = A} (raise e)
    Keeps-raise e = record { at = λ c h. h }

    pub Keeps-lift : (r : Result A) → Keeps (lift r)
    Keeps-lift r = record { at = λ c h. h }

  module _ {A B : Type 0} where
    InOrder-continue :
        (r : Result A) (f : A → Exec (Nfs41Client (recorded t)) B) (c : Nfs41Client (recorded t))
        → InOrder c
        → ((a : A) → Keeps (f a))
        → InOrder (continue r f c).1
    InOrder-continue (ok a) f c h k = (k a).at c h
    InOrder-continue (err e) f c h k = h
    InOrder-continue (fault x) f c h k = h

    pub Keeps-bind :
        (m : Exec (Nfs41Client (recorded t)) A) (f : A → Exec (Nfs41Client (recorded t)) B)
        → Keeps m
        → ((a : A) → Keeps (f a))
        → Keeps (m >>= f)
    unfolding ◌>>=◌
    Keeps-bind m f km kf = record { at = λ c h. InOrder-continue (m c).0 f (m c).1 (km.at c h) kf }
