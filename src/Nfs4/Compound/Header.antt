-- ===== src/Nfs4/Compound/Header.antt =====
-- The header of a COMPOUND against RFC 7530, section 15.2.
use nfsclient.Base.{
  ℕ, String, ◌≡◌, ◌≢◌, refl, ◌∙◌, sym, ap, append_assoc, List, [], ◌++◌, ne→==, arith,
}
use nfsclient.Errors.{Result, ok, err, Exception}
use nfsclient.Exec.{continue, lift}
use nfsclient.Xdr.Decoder.{Decode, pure, run, ◌>>=◌, get_uint32, get_string, get_remaining}
use nfsclient.Xdr.Wire.{IsU32, Fits32, uint32, opaque}
use nfsclient.Xdr.Emits.{Emits-encoded, Emits-seq, Emits-uint32, Emits-string}
use nfsclient.Xdr.Reads.{
  Reads, Reads-pure, Reads-bind, Reads-last, Raises-last, Raises-first, Raises-raise, run-Raises,
  run-Reads, Finishes-bind, Finishes-last, run-Finishes, Raises,
}
use nfsclient.Xdr.Reads.Items.{Reads-uint32, Reads-string, Finishes-remaining}
use nfsclient.Rpc.Transport.{Transport}
use nfsclient.Nfs4.Compound.{check_status4, compound_args, call_compound, check_compound_status}

-- `COMPOUND4args`: the tag, the minor version, the number of operations, and their bytes.
pub read_compound : Decode (List ℕ × ℕ × ℕ × List ℕ)
read_compound = do
  tag ← get_string
  minorversion ← get_uint32
  num_ops ← get_uint32
  ops ← get_remaining
  pure (tag, minorversion, num_ops, ops)

-- The same as bytes.
abbrev pub compound_wire : List ℕ → ℕ → ℕ → List ℕ → List ℕ
compound_wire tag minorversion num_ops ops =
    (opaque tag ++ (uint32 minorversion ++ uint32 num_ops)) ++ ops

pub compound_args-wire :
    (tag ops : List ℕ) (num_ops minorversion : ℕ)
    → Fits32 tag
    → compound_args tag ops num_ops minorversion ≡ compound_wire tag minorversion num_ops ops
unfolding compound_args
compound_args-wire tag ops num_ops minorversion ht =
    ap (λ (bs : List ℕ). bs ++ ops)
      (Emits-encoded (
        Emits-seq (Emits-string tag ht)
          (Emits-seq (Emits-uint32 minorversion) (Emits-uint32 num_ops))))

pub call_compound-wire :
    (t : Transport) (tag ops : List ℕ) (num_ops minorversion : ℕ)
    → Fits32 tag
    → call_compound t tag ops num_ops minorversion
      ≡ t.call 100003 4 1 (compound_wire tag minorversion num_ops ops)
unfolding call_compound
call_compound-wire t tag ops num_ops minorversion ht =
    ap (t.call 100003 4 1) (compound_args-wire tag ops num_ops minorversion ht)

-- A server that reads the arguments of a COMPOUND finds the tag, the minor version, the number of
-- operations and the bytes of the operations that were given; for a tag shorter than 2 ^ 32 bytes.
pub read_compound-compound_args :
    (tag ops : List ℕ) (num_ops minorversion : ℕ)
    → Fits32 tag
    → IsU32 num_ops × IsU32 minorversion
    → run read_compound (compound_args tag ops num_ops minorversion)
      ≡ ok (tag, minorversion, num_ops, ops)
unfolding read_compound
read_compound-compound_args tag ops num_ops minorversion ht (hn, hm) =
    ap (run read_compound) (compound_args-wire tag ops num_ops minorversion ht)
    ∙ ap (run read_compound) (
        append_assoc (opaque tag) (uint32 minorversion ++ uint32 num_ops) ops
        ∙ ap (λ (bs : List ℕ). opaque tag ++ bs)
            (append_assoc (uint32 minorversion) (uint32 num_ops) ops))
    ∙ run-Finishes (
        Finishes-bind _ (Reads-string tag ht) (
          Finishes-bind _ (Reads-uint32 minorversion hm)
            (Finishes-bind _ (Reads-uint32 num_ops hn) (Finishes-last _ (Finishes-remaining ops)))))

pub Reads-check4 : (name : String) → Reads (check_status4 0 name) [] tt
unfolding check_status4
Reads-check4 name = Reads-pure tt

pub Raises-check4 :
    (status : ℕ) (name : String)
    → status ≢ 0
    → Raises (check_status4 status name) [] (Exception.nfs4_error status name)
unfolding check_status4
Raises-check4 status name ne = rw (ne→== status 0 ne) (Raises-raise _)

-- The bytes of a result's header.
abbrev pub header : List ℕ → ℕ → List ℕ
header tag num_ops = uint32 0 ++ (opaque tag ++ uint32 num_ops)

pub Reads-header :
    (tag : List ℕ) (num_ops : ℕ)
    → Fits32 tag
    → IsU32 num_ops
    → Reads check_compound_status (header tag num_ops) tt
unfolding check_compound_status
Reads-header tag num_ops ht hn = Reads-bind _ (Reads-uint32 0 (omega arith)) (
    Reads-bind _ {bs = []} (Reads-check4 "COMPOUND")
      (Reads-bind _ (Reads-string tag ht) (Reads-last _ (Reads-uint32 num_ops hn))))

-- The header of a result: where its status is 0 the decoder passes over the tag and the number of
-- results and stops at the first result, and any other status is an `Nfs4Error` that carries it,
-- whatever follows; for a tag shorter than 2 ^ 32 bytes.
pub check_compound_status-header :
    (tag : List ℕ) (num_ops status : ℕ) (results : List ℕ)
    → Fits32 tag
    → IsU32 num_ops × IsU32 status
    → status ≢ 0
    → (run (check_compound_status >>= λ u. get_remaining) (header tag num_ops ++ results)
        ≡ ok results)
      × (run check_compound_status (uint32 status ++ results)
          ≡ err (Exception.nfs4_error status "COMPOUND"))
unfolding check_compound_status
check_compound_status-header tag num_ops status results ht (hn, hs) ne = (
  run-Finishes (Finishes-bind _ (Reads-header tag num_ops ht hn) (Finishes-remaining results)),
  run-Raises results (
      Raises-last _ (Reads-uint32 status hs) (Raises-first _ (Raises-check4 status "COMPOUND" ne))),
)

-- The results behind a header that says success, with anything behind them.
pub run-after_header :
    {A : Type 0} {m : Decode A} {body : List ℕ} {a : A} (tag rest : List ℕ) (num_ops : ℕ)
    → Fits32 tag
    → IsU32 num_ops
    → Reads m body a
    → run (check_compound_status >>= λ u. m) (header tag num_ops ++ (body ++ rest)) ≡ ok a
run-after_header {m = m} {body = body} tag rest num_ops ht hn r =
    ap (run (check_compound_status >>= λ u. m)) (sym (append_assoc (header tag num_ops) body rest))
    ∙ run-Reads rest (Reads-bind _ (Reads-header tag num_ops ht hn) r)

-- A reply that says success, by what else is in it: the tag, the number of results and what follows
-- the results.
pub record Reply : Type 0 where
  pub tag : List ℕ
  pub num_results : ℕ
  pub rest : List ℕ

abbrev pub reply_wire : Reply → List ℕ → List ℕ
reply_wire p body = header p.tag p.num_results ++ (body ++ p.rest)

abbrev pub IsReply : Reply → Type 0
IsReply p = Fits32 p.tag × IsU32 p.num_results

-- A header with any other status, whatever follows; then with something read behind it.
pub run-bad_status :
    (status : ℕ) (rest : List ℕ)
    → IsU32 status
    → status ≢ 0
    → run check_compound_status (uint32 status ++ rest)
      ≡ err (Exception.nfs4_error status "COMPOUND")
unfolding check_compound_status
run-bad_status status rest hs ne =
    run-Raises rest
      (Raises-last _ (Reads-uint32 status hs) (Raises-first _ (Raises-check4 status "COMPOUND" ne)))

pub run-bad_header :
    {A : Type 0} (m : Decode A) (status : ℕ) (rest : List ℕ)
    → IsU32 status
    → status ≢ 0
    → run (check_compound_status >>= λ u. m) (uint32 status ++ rest)
      ≡ err (Exception.nfs4_error status "COMPOUND")
unfolding check_compound_status
run-bad_header m status rest hs ne = run-Raises rest (
    Raises-first _ (
      Raises-last _ (Reads-uint32 status hs) (Raises-first _ (Raises-check4 status "COMPOUND" ne))))

-- A call of COMPOUND that cannot succeed, and the exception that tells of it: a reply with a status
-- that is not 0, whatever follows, and a connection that throws.
pub data Fails : Result (List ℕ) → Exception → Type 0 where
  bad_status :
      (status : ℕ) (rest : List ℕ)
      → IsU32 status
      → status ≢ 0
      → Fails (ok (uint32 status ++ rest)) (Exception.nfs4_error status "COMPOUND")
  broken : (x : Exception) → Fails (err x) x

-- What the callers make of it.
pub Fails-continue :
    {S A : Type 0} (m : Decode A) {r : Result (List ℕ)} {x : Exception} (s : S)
    → Fails r x
    → continue r (λ reply. lift (run (check_compound_status >>= λ u. m) reply)) s ≡ (err x, s)
Fails-continue m s (bad_status status rest hs ne) =
    ap (λ r. (r, s)) (run-bad_header m status rest hs ne)
Fails-continue m s (broken x) = refl
