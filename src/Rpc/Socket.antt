-- ===== src/Rpc/Socket.antt =====
-- `sendAll` and `recvRecord` of src/rpc/rpc_client.cpp, over the socket calls of the system.
pub mod Transfer
pub mod Records
use nfsclient.Base.{
  ℕ, zero, suc, ◌+◌, ◌-◌, ◌%◌, ◌^◌, ◌≤◌, ◌<◌, bit_and, ◌≡◌, Bool, not, Option, none, some, List, [],
  ◌∷◌, ◌++◌, length, take, drop, ltb, ◌==◌, if◌then◌else◌,
}
use nfsclient.Errors.{Result, ok, err, fault, Reason, Exception, Fault}
use nfsclient.Exec.{Exec, ◌>>=◌}
use nfsclient.Xdr.Decoder.{join32}

-- `send` and `recv` of the system. `none` is a negative result. `send` says how many bytes it took;
-- `recv` gives at most as many bytes as it is asked for, and none at the end of the stream.
pub record Socket : Type 1 where
  pub Handle : Type 0
  pub send : Handle → List ℕ → Option ℕ × Handle
  pub recv : Handle → ℕ → Option (List ℕ) × Handle

-- What a blocking TCP socket promises while the connection stands: `send` takes a part of what it is
-- given, and `recv` hands out the bytes of the peer in order, each once.
pub record IsReliable (s : Socket) : Type 0 where
  pub inbox : s.Handle → List ℕ
  pub outbox : s.Handle → List ℕ
  pub send_takes :
      (h : s.Handle) (bytes : List ℕ)
      → 0 < length bytes
      → (n : ℕ) × (h' : s.Handle) × (s.send h bytes ≡ (some n, h'))
        × (0 < n)
        × (n ≤ length bytes)
        × (outbox h' ≡ outbox h ++ take n bytes)
        × (inbox h' ≡ inbox h)
  pub recv_gives :
      (h : s.Handle) (max : ℕ)
      → 0 < max
      → 0 < length (inbox h)
      → (chunk : List ℕ) × (h' : s.Handle) × (s.recv h max ≡ (some chunk, h'))
        × (0 < length chunk)
        × (length chunk ≤ max)
        × (inbox h ≡ chunk ++ inbox h')
        × (outbox h' ≡ outbox h)

-- `(mark & 0x80000000u) != 0` and `mark & 0x7FFFFFFFu`
unfoldable pub last_fragment : ℕ → Bool
last_fragment mark = not (bit_and mark (2 ^ 31) == 0)

abbrev pub frag_len : ℕ → ℕ
frag_len mark = mark % 2 ^ 31

module _ (s : Socket) where
  open s use {Handle, send, recv}

  -- `n <= 0` throws.
  abbrev pub sent_some : Option ℕ → Exec Handle ℕ
  sent_some none h = (err (Exception.runtime_error Reason.send_failed), h)
  sent_some (some zero) h = (err (Exception.runtime_error Reason.send_failed), h)
  sent_some (some (suc n)) h = (ok (suc n), h)

  unfoldable pub send_loop : ℕ → List ℕ → ℕ → Exec Handle (Unit {0})
  send_loop zero data_bytes total h = (fault Fault.out_of_fuel, h)
  send_loop (suc fuel) data_bytes total h =
      let more : Result (Unit {0}) × Handle =
        (let (n, h') = send h (drop total data_bytes) in
          (sent_some n >>= λ k. send_loop fuel data_bytes (total + k)) h') in
      if ltb total (length data_bytes) then more else (ok tt, h)

  -- A round sends one byte at least.
  unfoldable pub send_all : List ℕ → Exec Handle (Unit {0})
  unfolding send_loop
  send_all data_bytes = send_loop (suc (length data_bytes)) data_bytes 0

  abbrev pub received_some : Reason → Option (List ℕ) → Exec Handle (List ℕ)
  received_some reason none h = (err (Exception.runtime_error reason), h)
  received_some reason (some []) h = (err (Exception.runtime_error reason), h)
  received_some reason (some (b ∷ bs)) h = (ok (b ∷ bs), h)

  -- `while (received < want) { n = recv(…, want - received); … }`; `got` is what was received.
  unfoldable pub recv_loop : ℕ → Reason → ℕ → List ℕ → Exec Handle (List ℕ)
  recv_loop zero reason want got h = (fault Fault.out_of_fuel, h)
  recv_loop (suc fuel) reason want got h =
      let more : Result (List ℕ) × Handle =
        (let (r, h') = recv h (want - length got) in
          (received_some reason r >>= λ chunk. recv_loop fuel reason want (got ++ chunk)) h') in
      if ltb (length got) want then more else (ok got, h)

  unfoldable pub recv_exactly : Reason → ℕ → Exec Handle (List ℕ)
  unfolding recv_loop
  recv_exactly reason want = recv_loop (suc want) reason want []

  abbrev pub mark_of : List ℕ → Exec Handle ℕ
  mark_of (b0 ∷ b1 ∷ b2 ∷ b3 ∷ []) h = (ok (join32 b0 b1 b2 b3), h)
  mark_of _ h = (fault Fault.out_of_bounds, h)

  -- One round of the `for (;;)` for each unit of fuel: a round reads one fragment.
  unfoldable pub recv_fragments : ℕ → List ℕ → Exec Handle (List ℕ)
  unfolding recv_exactly last_fragment
  recv_fragments zero collected = λ h. (fault Fault.out_of_fuel, h)
  recv_fragments (suc fuel) collected = do
    mark_buf ← recv_exactly Reason.recv_mark_failed 4
    mark ← mark_of mark_buf
    bytes ← recv_exactly Reason.recv_data_failed (frag_len mark)
    let done : Exec Handle (List ℕ) = λ h. (ok (collected ++ bytes), h)
    let more : Exec Handle (List ℕ) = recv_fragments fuel (collected ++ bytes)
    if last_fragment mark then done else more

  unfoldable pub recv_record : ℕ → Exec Handle (List ℕ)
  unfolding recv_fragments
  recv_record fuel = recv_fragments fuel []
