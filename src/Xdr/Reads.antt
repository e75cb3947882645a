-- ===== src/Xdr/Reads.antt =====
-- What the `get_` methods read off well-formed bytes, and rules for a sequence of them.
pub mod Items
use nfsclient.Base.{
  ℕ, zero, suc, ◌+◌, ◌-◌, ◌*◌, ◌/◌, ◌%◌, ◌^◌, ◌≤◌, ◌<◌, ◌≡◌, refl, sym, ap, ◌∙◌, subst, List, [],
  ◌∷◌, ◌++◌, length, take, drop, some, get_elem?, append-nil, append_assoc, length-append,
  length-replicate, take-append, drop-append, drop-drop, le→leb, leb, true, if◌then◌else◌, arith,
}
use nfsclient.Base.Bits.{bit_or_shifted}
use nfsclient.Errors.{Result, ok, err, Exception}
use nfsclient.Xdr.Encoder.{pad_size}
use nfsclient.Xdr.Decoder.{
  XdrDecoder, Decode, pure, raise, run, within, ◌>>=◌, require, load, copy_range, advance, join32,
  get_uint32,
}
use nfsclient.Xdr.Wire.{IsU32, uint32}

-- The bytes `bs` are what the decoder has not read.
abbrev pub Left : XdrDecoder → List ℕ → Type 0
Left d bs = (d.offset + length bs ≡ length d.buffer) × (drop d.offset d.buffer ≡ bs)

-- At the bytes `bs`, followed by any others, `m` returns `a` and stops behind `bs`.
pub record Reads {A : Type 0} (m : Decode A) (bs : List ℕ) (a : A) : Type 0 where
  pub at :
      (d : XdrDecoder) (rest : List ℕ)
      → Left d (bs ++ rest)
      → (d' : XdrDecoder) × (m d ≡ ok (a, d')) × Left d' rest

-- At the bytes `bs`, followed by any others, `m` throws `e`.
pub record Raises {A : Type 0} (m : Decode A) (bs : List ℕ) (e : Exception) : Type 0 where
  pub at : (d : XdrDecoder) (rest : List ℕ) → Left d (bs ++ rest) → m d ≡ err e

-- At exactly the bytes `bs`, to the end of the buffer, `m` returns `a`.
pub record Finishes {A : Type 0} (m : Decode A) (bs : List ℕ) (a : A) : Type 0 where
  pub at : (d : XdrDecoder) → Left d bs → (d' : XdrDecoder) × (m d ≡ ok (a, d'))

module _ {A : Type 0} where
  pub run-Finishes : {m : Decode A} {bs : List ℕ} {a : A} → Finishes m bs a → run m bs ≡ ok a
  run-Finishes {m} {bs} {a} r =
      let (d, e) = r.at (record { buffer = bs; offset = 0 }) (omega arith, refl) in rw (e, run)

  pub Reads-pure : (a : A) → Reads (pure a) [] a
  Reads-pure a = record { at = λ d rest l. (d, refl, l) }

  pub Reads-within :
      (m : Decode A) (bytes : List ℕ) {a : A} → run m bytes ≡ ok a → Reads (within m bytes) [] a
  Reads-within m bytes {a} e = record { at = λ d rest l. (d, rw (e, within), l) }

  pub Raises-raise : (e : Exception) → Raises {A = A} (raise e) [] e
  Raises-raise e = record { at = λ d rest l. refl }

  -- A decoder at the start of its bytes; bytes behind what it reads are ignored.
  pub run-Reads :
      {m : Decode A} {bs : List ℕ} {a : A} (rest : List ℕ)
      → Reads m bs a
      → run m (bs ++ rest) ≡ ok a
  run-Reads {m} {bs} {a} rest r =
      let (d, e, l) = r.at (record { buffer = bs ++ rest; offset = 0 }) rest (omega arith, refl) in
      rw (e, run)

  pub run-Raises :
      {m : Decode A} {bs : List ℕ} {e : Exception} (rest : List ℕ)
      → Raises m bs e
      → run m (bs ++ rest) ≡ err e
  run-Raises {m} {bs} {e} rest r =
      rw (r.at (record { buffer = bs ++ rest; offset = 0 }) rest (omega arith, refl), run)

module _ {A B : Type 0} where
  pub Reads-bind :
      {m : Decode A} (f : A → Decode B) {bs cs : List ℕ} {a : A} {b : B}
      → Reads m bs a
      → Reads (f a) cs b
      → Reads (m >>= f) (bs ++ cs) b
  unfolding ◌>>=◌
  Reads-bind {m} f {bs} {cs} {a} {b} rm rf = record {
    at = λ d rest l.
        let l' : Left d (bs ++ (cs ++ rest)) = subst (Left d) (append_assoc bs cs rest) l in
        let (d1, e1, l1) = rm.at d (cs ++ rest) l' in
        let (d2, e2, l2) = rf.at d1 rest l1 in (d2, rw e1 e2, l2);
  }

  pub Finishes-bind :
      {m : Decode A} (f : A → Decode B) {bs cs : List ℕ} {a : A} {b : B}
      → Reads m bs a
      → Finishes (f a) cs b
      → Finishes (m >>= f) (bs ++ cs) b
  unfolding ◌>>=◌
  Finishes-bind {m} f {bs} {cs} {a} {b} rm rf = record {
    at = λ d l. let (d1, e1, l1) = rm.at d cs l in let (d2, e2) = rf.at d1 l1 in (d2, rw e1 e2);
  }

  pub Finishes-last :
      {m : Decode A} {bs : List ℕ} {a : A} (g : A → B)
      → Finishes m bs a
      → Finishes (m >>= λ x. pure (g x)) bs (g a)
  unfolding ◌>>=◌
  Finishes-last g rm = record { at = λ d l. let (d1, e1) = rm.at d l in (d1, rw e1) }

  -- The last item of a sequence, with nothing behind it.
  pub Reads-last :
      {m : Decode A} {bs : List ℕ} {a : A} (g : A → B)
      → Reads m bs a
      → Reads (m >>= λ x. pure (g x)) bs (g a)
  unfolding ◌>>=◌
  Reads-last g rm = record { at = λ d rest l. let (d1, e1, l1) = rm.at d rest l in (d1, rw e1, l1) }

  -- The same where what follows is already computed.
  pub Reads-done :
      {m : Decode A} (f : A → Decode B) {bs : List ℕ} {a : A} {b : B}
      → Reads m bs a
      → Reads (f a) [] b
      → Reads (m >>= f) bs b
  unfolding ◌>>=◌
  Reads-done {m} f {bs} {a} {b} rm rf = record {
    at = λ d rest l.
        let (d1, e1, l1) = rm.at d rest l in
        let (d2, e2, l2) = rf.at d1 rest l1 in (d2, rw e1 e2, l2);
  }

  pub Raises-bind :
      {m : Decode A} (f : A → Decode B) {bs cs : List ℕ} {a : A} {e : Exception}
      → Reads m bs a
      → Raises (f a) cs e
      → Raises (m >>= f) (bs ++ cs) e
  unfolding ◌>>=◌
  Raises-bind {m} f {bs} {cs} {a} {e} rm rf = record {
    at = λ d rest l.
        let l' : Left d (bs ++ (cs ++ rest)) = subst (Left d) (append_assoc bs cs rest) l in
        let (d1, e1, l1) = rm.at d (cs ++ rest) l' in rw e1 (rf.at d1 rest l1);
  }

  pub Raises-last :
      {m : Decode A} (f : A → Decode B) {bs : List ℕ} {a : A} {e : Exception}
      → Reads m bs a
      → Raises (f a) [] e
      → Raises (m >>= f) bs e
  unfolding ◌>>=◌
  Raises-last {m} f {bs} {a} {e} rm rf = record {
    at = λ d rest l. let (d1, e1, l1) = rm.at d rest l in rw e1 (rf.at d1 rest l1);
  }

  -- What follows an exception does not matter.
  pub Raises-first :
      {m : Decode A} (f : A → Decode B) {bs : List ℕ} {e : Exception}
      → Raises m bs e
      → Raises (m >>= f) bs e
  unfolding ◌>>=◌
  Raises-first f rm = record { at = λ d rest l. rw (rm.at d rest l) }
