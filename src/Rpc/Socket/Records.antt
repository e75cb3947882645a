-- ===== src/Rpc/Socket/Records.antt =====
-- Record marking (RFC 5531, section 11): `recvRecord` against records cut into fragments.
use nfsclient.Base.{
  ℕ, zero, suc, ◌+◌, ◌*◌, ◌%◌, ◌^◌, ◌<◌, bit_and, ◌≡◌, refl, sym, ap, ◌∙◌, Bool, true, false, not,
  List, [], ◌∷◌, ◌++◌, All, flatten, length, ◌==◌, if◌then◌else◌, append_assoc, arith,
}
use nfsclient.Base.Bits.{bit_or_shifted, bit_and_power, bit_above}
use nfsclient.Errors.{ok, Reason}
use nfsclient.Exec.{◌>>=◌}
use nfsclient.Xdr.Wire.{uint32, each}
use nfsclient.Xdr.Reads.Items.{join32-split}
use nfsclient.Rpc.Message.{add_record_mark, record_mark}
use nfsclient.Rpc.Socket.{
  Socket, IsReliable, last_fragment, frag_len, recv_fragments, recv_record, mark_of,
}
use nfsclient.Rpc.Socket.Transfer.{recv_exactly-receives}

-- `1` in the top bit of the mark of the last fragment.
abbrev top : Bool → ℕ
top true = 1
top false = 0

mark : Bool → List ℕ → ℕ
mark last bs = top last * 2 ^ 31 + length bs

unfoldable pub fragment : Bool → List ℕ → List ℕ
unfolding mark
fragment last bs = uint32 (mark last bs) ++ bs

-- A record in fragments: any number of them, and the last one.
abbrev pub record_wire : List (List ℕ) → List ℕ → List ℕ
record_wire front final = each (fragment false) front ++ fragment true final

abbrev pub IsFragment : List ℕ → Type 0
IsFragment bs = length bs < 2 ^ 31

last_fragment-mark :
    (last : Bool) (bs : List ℕ) → IsFragment bs → last_fragment (mark last bs) ≡ last
unfolding last_fragment mark
last_fragment-mark last bs h =
    let e : bit_and (top last * 2 ^ 31 + length bs) (2 ^ 31) ≡ top last % 2 * 2 ^ 31 =
      bit_and_power (top last * 2 ^ 31 + length bs) 31
      ∙ ap (λ (t : ℕ). t * 2 ^ 31) (bit_above 31 (top last) (length bs) h) in
    rw e (by_bit last)
  where
    by_bit : (b : Bool) → not (top b % 2 * 2 ^ 31 == 0) ≡ b
    by_bit true = refl
    by_bit false = refl

frag_len-mark : (last : Bool) (bs : List ℕ) → IsFragment bs → frag_len (mark last bs) ≡ length bs
unfolding mark
frag_len-mark true bs h = omega arith
frag_len-mark false bs h = omega arith

mark-lt : (last : Bool) (bs : List ℕ) → IsFragment bs → mark last bs < 2 ^ 32
unfolding mark
mark-lt true bs h = omega arith
mark-lt false bs h = omega arith

module _ (s : Socket) (rel : IsReliable s) where
  open s use {Handle}
  open rel use {inbox, outbox}

  mark_of-uint32 : (v : ℕ) (h : Handle) → v < 2 ^ 32 → mark_of s (uint32 v) h ≡ (ok v, h)
  unfolding uint32
  mark_of-uint32 v h lt = rw (join32-split v lt)

  -- A round of the loop on one fragment.
  recv_fragments-round :
      (last : Bool) (bs rest collected : List ℕ) (fuel : ℕ) (h : Handle)
      → IsFragment bs
      → inbox h ≡ fragment last bs ++ rest
      → (h' : Handle) × (recv_fragments s (suc fuel) collected h ≡ (
          if last then (ok (collected ++ bs), h') else recv_fragments s fuel (collected ++ bs) h'))
        × (outbox h' ≡ outbox h)
        × (inbox h' ≡ rest)
  unfolding recv_fragments ◌>>=◌ fragment
  recv_fragments-round last bs rest collected fuel h fits box =
      let (h1, e1, ob1, ib1) =
        recv_exactly-receives s rel Reason.recv_mark_failed (uint32 (mark last bs)) (bs ++ rest) 4 h
          (unfold uint32 in refl) (box ∙ append_assoc (uint32 (mark last bs)) bs rest) in
      let (h2, e2, ob2, ib2) =
        recv_exactly-receives s rel Reason.recv_data_failed bs rest (frag_len (mark last bs)) h1
          (sym (frag_len-mark last bs fits)) ib1 in
      (
        h2,
        rw
            (
              e1,
              mark_of-uint32 (mark last bs) h1 (mark-lt last bs fits),
              e2,
              last_fragment-mark last bs fits,
            )
            (branch last (collected ++ bs) h2),
        ob2 ∙ ob1,
        ib2,
      )
    where
      branch :
          (b : Bool) (all : List ℕ) (h' : Handle)
          → (if b then (λ (h'' : Handle). (ok all, h'')) else recv_fragments s fuel all) h'
            ≡ (if b then (ok all, h') else recv_fragments s fuel all h')
      branch true all h' = refl
      branch false all h' = refl

  fragments_joined :
      (front : List (List ℕ)) (final rest collected : List ℕ) (fuel : ℕ) (h : Handle)
      → All IsFragment front
      → IsFragment final
      → length front < fuel
      → inbox h ≡ record_wire front final ++ rest
      → (h' : Handle) × (recv_fragments s fuel collected h
          ≡ (ok (collected ++ (flatten front ++ final)), h'))
        × (outbox h' ≡ outbox h)
        × (inbox h' ≡ rest)
  unfolding flatten
  fragments_joined front final rest collected zero h hf hl lt box = absurd (omega arith)
  fragments_joined [] final rest collected (suc fuel) h hf hl lt box =
      recv_fragments-round true final rest collected fuel h hl box
  fragments_joined (bs ∷ front) final rest collected (suc fuel) h (hb, hf) hl lt box =
      let (h1, e1, ob1, ib1) =
        recv_fragments-round false bs (record_wire front final ++ rest) collected fuel h hb
          (box ∙ simp append_assoc) in
      let (h2, e2, ob2, ib2) =
        fragments_joined front final rest (collected ++ bs) fuel h1 hf hl (omega arith) ib1 in
      (h2, e1 ∙ e2 ∙ ap (λ (t : List ℕ). (ok t, h2)) (simp append_assoc), ob2 ∙ ob1, ib2)

  -- Over a reliable connection, from a stream that begins with a record in any fragments of less than
  -- 2 ^ 31 bytes, `recv_record` returns the record put together, takes exactly its bytes off the
  -- stream and sends nothing, given more rounds than there are fragments before the last.
  pub recv_record-record_wire :
      (front : List (List ℕ)) (final rest : List ℕ) (fuel : ℕ) (h : Handle)
      → All IsFragment front
      → IsFragment final
      → length front < fuel
      → inbox h ≡ record_wire front final ++ rest
      → (h' : Handle) × (recv_record s fuel h ≡ (ok (flatten front ++ final), h'))
        × (outbox h' ≡ outbox h)
        × (inbox h' ≡ rest)
  unfolding recv_record
  recv_record-record_wire front final rest fuel h hf hl lt box =
      fragments_joined front final rest [] fuel h hf hl lt box

-- What `add_record_mark` frames is one last fragment.
pub add_record_mark-fragment :
    (payload : List ℕ) → IsFragment payload → add_record_mark payload ≡ fragment true payload
unfolding add_record_mark fragment record_mark uint32 mark
add_record_mark-fragment payload h =
    let e : length payload % 2 ^ 32 ≡ length payload = omega arith in
    rw (e, bit_or_shifted 31 1 (length payload) h)
