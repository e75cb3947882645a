-- ===== src/Rpc/Socket/Transfer.antt =====
-- Over a reliable connection, however it cuts the bytes up: `sendAll` sends everything, and
-- `recvRecord` puts a record of any fragments together.
use nfsclient.Base.{
  ℕ, zero, suc, ◌+◌, ◌-◌, ◌≤◌, ◌<◌, ◌≡◌, refl, sym, ap, ◌∙◌, some, List, [], ◌∷◌, ◌++◌, inl, inr,
  length, take, drop, ltb, ltb→lt, lt→ltb, le→ltb, ltb→le, Bool-cases, length-drop, drop_all,
  drop-drop, take-append-drop, append_split, length-append, append-nil, append_assoc, arith,
}
use nfsclient.Errors.{ok, Reason}
use nfsclient.Exec.{Exec, ◌>>=◌}
use nfsclient.Rpc.Socket.{
  Socket, IsReliable, sent_some, send_loop, send_all, received_some, recv_loop, recv_exactly,
}

module _ (s : Socket) (rel : IsReliable s) where
  open s use {Handle, send, recv}
  open rel use {inbox, outbox, send_takes, recv_gives}

  -- What a finished transfer leaves behind.
  abbrev pub After : Handle → Handle → List ℕ → List ℕ → Type 0
  After h h' sent left = (outbox h' ≡ outbox h ++ sent) × (inbox h' ≡ left)

  sent_some-pos :
      {B : Type 0} (n : ℕ) (k : ℕ → Exec Handle B) (h : Handle)
      → 0 < n
      → (sent_some s (some n) >>= k) h ≡ k n h
  unfolding ◌>>=◌
  sent_some-pos zero k h p = absurd (omega arith)
  sent_some-pos (suc n) k h p = refl

  send_loop-sends :
      (fuel : ℕ) (bytes : List ℕ) (total : ℕ) (h : Handle)
      → length bytes < total + fuel
      → total ≤ length bytes
      → (h' : Handle) × (send_loop s fuel bytes total h ≡ (ok tt, h'))
        × After h h' (drop total bytes) (inbox h)
  unfolding send_loop
  send_loop-sends zero bytes total h lt le = absurd (omega arith)
  send_loop-sends (suc fuel) bytes total h lt le = elim (Bool-cases (ltb total (length bytes))) [
    | inr all_sent ↦ (
      h,
      rw all_sent,
      (
        sym (append-nil (outbox h))
            ∙ ap (λ t. outbox h ++ t)
                (sym (drop_all total bytes (ltb→le total (length bytes) all_sent))),
        refl,
      ),
    )
    | inl more ↦
        let left : List ℕ = drop total bytes in
        let (n, h1, es, pos, fits, ob, ib) =
          send_takes h left
            (omega (arith, length-drop total bytes, ltb→lt total (length bytes) more)) in
        let (h2, er, (ob2, ib2)) =
          send_loop-sends fuel bytes (total + n) h1 (omega arith)
            (omega (arith, length-drop total bytes)) in
        (
          h2,
          rw (more, es) (sent_some-pos n (λ k. send_loop s fuel bytes (total + k)) h1 pos ∙ er),
          (
            ob2
                ∙ ap (λ t. t ++ drop (total + n) bytes) ob
                ∙ append_assoc (outbox h) (take n left) (drop (total + n) bytes)
                ∙ ap (λ t. outbox h ++ (take n left ++ t))
                    (sym (drop-drop n total (total + n) bytes refl))
                ∙ ap (λ t. outbox h ++ t) (take-append-drop n left),
            ib2 ∙ ib,
          ),
        )
  ]

  -- `send_all` sends every byte, in order and once, and reads nothing.
  pub send_all-sends :
      (bytes : List ℕ) (h : Handle)
      → (h' : Handle) × (send_all s bytes h ≡ (ok tt, h')) × After h h' bytes (inbox h)
  unfolding send_all
  send_all-sends bytes h =
      send_loop-sends (suc (length bytes)) bytes 0 h (omega arith) (omega arith)

  received_some-pos :
      {B : Type 0} (reason : Reason) (chunk : List ℕ) (k : List ℕ → Exec Handle B) (h : Handle)
      → 0 < length chunk
      → (received_some s reason (some chunk) >>= k) h ≡ k chunk h
  unfolding ◌>>=◌
  received_some-pos reason [] k h p = absurd (omega arith)
  received_some-pos reason (b ∷ bs) k h p = refl

  recv_loop-receives :
      (fuel : ℕ) (reason : Reason) (want : ℕ) (got need rest : List ℕ) (h : Handle)
      → length need < fuel
      → length got + length need ≡ want
      → inbox h ≡ need ++ rest
      → (h' : Handle) × (recv_loop s fuel reason want got h ≡ (ok (got ++ need), h'))
        × (outbox h' ≡ outbox h)
        × (inbox h' ≡ rest)
  unfolding recv_loop
  recv_loop-receives zero reason want got need rest h lt e box = absurd (omega arith)
  recv_loop-receives (suc fuel) reason want got [] rest h lt e box =
      (h, rw (le→ltb (length got) want (omega arith), append-nil), refl, box)
  recv_loop-receives (suc fuel) reason want got (b ∷ bs) rest h lt e box =
      let need : List ℕ = b ∷ bs in
      let (chunk, h1, er, pos, fits, ib, ob) =
        recv_gives h (want - length got) (omega arith) (omega (arith, ap length box)) in
      let (e1, e2) = append_split need rest chunk (inbox h1) (sym box ∙ ib) (omega arith) in
      let back : List ℕ = drop (length chunk) need in
      let (h2, er2, ob2, ib2) =
        recv_loop-receives fuel reason want (got ++ chunk) back rest h1
          (omega (arith, length-drop (length chunk) need))
          (omega (arith, length-drop (length chunk) need, length-append got chunk)) e2 in
      (
        h2,
        rw (lt→ltb (length got) want (omega arith), er)
            (received_some-pos reason chunk (λ c. recv_loop s fuel reason want (got ++ c)) h1 pos
              ∙ er2
              ∙ ap (λ (t : List ℕ). (ok t, h2))
                  (append_assoc got chunk back ∙ ap (λ t. got ++ t) (sym e1))),
        ob2 ∙ ob,
        ib2,
      )

  pub recv_exactly-receives :
      (reason : Reason) (need rest : List ℕ) (want : ℕ) (h : Handle)
      → length need ≡ want
      → inbox h ≡ need ++ rest
      → (h' : Handle) × (recv_exactly s reason want h ≡ (ok need, h'))
        × (outbox h' ≡ outbox h)
        × (inbox h' ≡ rest)
  unfolding recv_exactly
  recv_exactly-receives reason need rest want h e box =
      recv_loop-receives (suc want) reason want [] need rest h (omega arith) (omega arith) box
