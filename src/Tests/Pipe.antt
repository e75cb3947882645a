-- ===== src/Tests/Pipe.antt =====
-- A connection for tests: a peer that has said all it will say, over a line that takes at most three
-- bytes and gives at most five at a time.
use nfsclient.Base.{
  ℕ, zero, suc, [], ◌∷◌, ◌≤◌, ◌<◌, refl, sym, ap, ◌≡◌, some, List, ◌++◌, length, take, drop,
  take-append-drop, leb, if◌then◌else◌, arith,
}
use nfsclient.Rpc.Socket.{Socket, IsReliable}
use nfsclient.Rpc.Client.Safety.{IsBounded}

pub record Ends : Type 0 where
  pub inbox : List ℕ
  pub outbox : List ℕ

abbrev pub at_most : ℕ → ℕ → ℕ
at_most a b = if leb a b then a else b

abbrev pub pipe : Socket
pipe = record {
  Handle = Ends;
  send = λ h bytes. (
    some (at_most 3 (length bytes)),
    record h { outbox = h.outbox ++ take (at_most 3 (length bytes)) bytes },
  );
  recv = λ h max.
      (some (take (at_most 5 max) h.inbox), record h { inbox = drop (at_most 5 max) h.inbox });
}

pub at_most-range : (a b : ℕ) → 0 < a → 0 < b → (0 < at_most a b) × (at_most a b ≤ b)
at_most-range a b ha hb = ground arith

at_most-le : (a b : ℕ) → at_most a b ≤ b
at_most-le a b = ground arith

take-le : (n : ℕ) (xs : List ℕ) → length (take n xs) ≤ n
take-le zero xs = omega arith
take-le (suc n) [] = omega arith
take-le (suc n) (x ∷ xs) = omega (arith, take-le n xs)

some_inj : {xs ys : List ℕ} → some xs ≡ some ys → xs ≡ ys
some_inj e = cc

pub pipe_bounded : IsBounded pipe
pipe_bounded h h' max chunk e =
    let given : (take (at_most 5 max) h.inbox ≡ chunk) = some_inj (ap (λ p. p.0) e) in
    omega (arith, take-le (at_most 5 max) h.inbox, at_most-le 5 max, ap length given)

pub take-range :
    (n : ℕ) (xs : List ℕ)
    → 0 < n
    → 0 < length xs
    → (0 < length (take n xs)) × (length (take n xs) ≤ n)
take-range zero xs h h' = absurd (omega arith)
take-range (suc n) [] h h' = absurd (omega arith)
take-range (suc n) (x ∷ xs) h h' = (omega arith, omega (arith, take-le n xs))

abbrev pub pipe_reliable : IsReliable pipe
pipe_reliable = record {
  inbox = λ h. h.inbox;
  outbox = λ h. h.outbox;
  send_takes = λ h bytes p.
      let (pos, le) = at_most-range 3 (length bytes) (omega arith) p in
      (_, _, refl, pos, le, refl, refl);
  recv_gives = λ h max p q.
      let (pos, le) = at_most-range 5 max (omega arith) p in
      let (some_bytes, few) = take-range (at_most 5 max) h.inbox pos q in
      (_, _, refl, some_bytes, omega arith, sym (take-append-drop (at_most 5 max) h.inbox), refl);
}
