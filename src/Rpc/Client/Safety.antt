-- ===== src/Rpc/Client/Safety.antt =====
-- `TcpRpcClient::call` of src/rpc/rpc_client.hpp on any connection: it never reads outside its buffers.
use nfsclient.Base.{
  ℕ, zero, suc, ◌+◌, ◌-◌, ◌≤◌, ◌≡◌, ◌≢◌, refl, Bool, true, false, Option, none, some, List, [], ◌∷◌,
  ◌++◌, length, drop, ltb, ltb→le, length-append, if◌then◌else◌, inl, inr, Bool-cases, arith,
}
use nfsclient.Errors.{Result, ok, err, fault, Reason, Fault}
use nfsclient.Exec.{Exec, continue, ◌>>=◌}
use nfsclient.Exec.Sound.{Sound, Sound-pure, Sound-lift, Sound-bind}
use nfsclient.Rpc.Reply.Outcomes.{parse_reply-ne-fault}
use nfsclient.Rpc.Socket.{
  Socket, last_fragment, frag_len, sent_some, send_loop, send_all, received_some, recv_loop,
  recv_exactly, mark_of, recv_fragments, recv_record,
}
use nfsclient.Rpc.Client.{on_sock, call}

-- What the system says of `recv`: it gives at most as many bytes as it is asked for.
abbrev pub IsBounded : Socket → Type 0
IsBounded s =
    (h h' : s.Handle) (max : ℕ) (chunk : List ℕ)
    → s.recv h max ≡ (some chunk, h')
    → length chunk ≤ max

-- A result of `n` bytes, or none.
abbrev HasBytes : ℕ → Result (List ℕ) → Type 0
HasBytes n (ok bytes) = length bytes ≡ n
HasBytes n (err e) = Unit
HasBytes n (fault x) = x ≢ Fault.out_of_bounds

continue-HasBytes :
    {S B : Type 0} (n : ℕ) (r : Result (List ℕ)) (f : List ℕ → Exec S B) (s : S)
    → HasBytes n r
    → ((bytes : List ℕ) → length bytes ≡ n → Sound Fault.out_of_bounds (f bytes))
    → (continue r f s).0 ≢ fault Fault.out_of_bounds
continue-HasBytes n (ok bytes) f s h k = (k bytes h).at s
continue-HasBytes n (err e) f s h k = cc
continue-HasBytes n (fault x) f s h k = λ e. h (cc)

HasBytes-ne-fault : (n : ℕ) (r : Result (List ℕ)) → HasBytes n r → r ≢ fault Fault.out_of_bounds
HasBytes-ne-fault n (ok bytes) h = cc
HasBytes-ne-fault n (err e) h = cc
HasBytes-ne-fault n (fault x) h = λ e. h (cc)

Sound-branch :
    {S A : Type 0} (b : Bool) {m n : Exec S A}
    → Sound Fault.out_of_bounds m
    → Sound Fault.out_of_bounds n
    → Sound Fault.out_of_bounds (if b then m else n)
Sound-branch true sm sn = sm
Sound-branch false sm sn = sn

module _ (s : Socket) where
  open s use {Handle, send, recv}

  Sound-sent_some : (n : Option ℕ) → Sound Fault.out_of_bounds (sent_some s n)
  Sound-sent_some none = record { at = λ h. cc }
  Sound-sent_some (some zero) = record { at = λ h. cc }
  Sound-sent_some (some (suc n)) = record { at = λ h. cc }

  Sound-send_loop :
      (fuel : ℕ) (bytes : List ℕ) (total : ℕ)
      → Sound Fault.out_of_bounds (send_loop s fuel bytes total)
  unfolding send_loop
  Sound-send_loop zero bytes total = record { at = λ h. cc }
  Sound-send_loop (suc fuel) bytes total = record {
    at = λ h. elim (Bool-cases (ltb total (length bytes))) [
      | inl more ↦ rw more (
          (Sound-bind _ _ (Sound-sent_some (send h (drop total bytes)).0)
              (λ k. Sound-send_loop fuel bytes (total + k))).at
            (send h (drop total bytes)).1)
      | inr all_sent ↦ rw all_sent cc
    ];
  }

  -- What came of one `recv`, once the rest of the loop is done.
  received-HasBytes :
      (reason : Reason) (want : ℕ) (got : List ℕ) (next : List ℕ → Exec Handle (List ℕ))
      (r : Option (List ℕ)) (h : Handle)
      → ((chunk : List ℕ) → r ≡ some chunk → HasBytes want (next (got ++ chunk) h).0)
      → HasBytes want ((received_some s reason r >>= λ chunk. next (got ++ chunk)) h).0
  unfolding ◌>>=◌
  received-HasBytes reason want got next none h k = tt
  received-HasBytes reason want got next (some []) h k = tt
  received-HasBytes reason want got next (some (b ∷ bs)) h k = k (b ∷ bs) refl

  module _ (bounded : IsBounded s) where
    recv_loop-HasBytes :
        (fuel : ℕ) (reason : Reason) (want : ℕ) (got : List ℕ) (h : Handle)
        → length got ≤ want
        → HasBytes want (recv_loop s fuel reason want got h).0
    unfolding recv_loop
    recv_loop-HasBytes zero reason want got h le = cc
    recv_loop-HasBytes (suc fuel) reason want got h le = elim (Bool-cases (ltb (length got) want)) [
      | inl more ↦ rw more (
          received-HasBytes reason want got (recv_loop s fuel reason want)
            (recv h (want - length got)).0 (recv h (want - length got)).1
            (λ chunk e. recv_loop-HasBytes fuel reason want (got ++ chunk) _ (
              omega (
                arith,
                length-append got chunk,
                bounded h (recv h (want - length got)).1 (want - length got) chunk (cc),
              ))))
      | inr enough ↦ rw enough (omega (arith, ltb→le (length got) want enough))
    ]

    recv_exactly-HasBytes :
        (reason : Reason) (want : ℕ) (h : Handle) → HasBytes want (recv_exactly s reason want h).0
    unfolding recv_exactly
    recv_exactly-HasBytes reason want h =
        recv_loop-HasBytes (suc want) reason want [] h (omega arith)

    Sound-recv_exactly :
        (reason : Reason) (want : ℕ) → Sound Fault.out_of_bounds (recv_exactly s reason want)
    Sound-recv_exactly reason want = record {
      at = λ h. HasBytes-ne-fault want _ (recv_exactly-HasBytes reason want h);
    }

    -- Four bytes are a mark.
    Sound-mark_of :
        (bytes : List ℕ) → length bytes ≡ 4 → Sound Fault.out_of_bounds (mark_of s bytes)
    Sound-mark_of [] e = absurd (omega arith)
    Sound-mark_of (a ∷ []) e = absurd (omega arith)
    Sound-mark_of (a ∷ b ∷ []) e = absurd (omega arith)
    Sound-mark_of (a ∷ b ∷ c ∷ []) e = absurd (omega arith)
    Sound-mark_of (a ∷ b ∷ c ∷ d ∷ []) e = record { at = λ h. cc }
    Sound-mark_of (a ∷ b ∷ c ∷ d ∷ x ∷ xs) e = absurd (omega arith)

    Sound-recv_fragments :
        (fuel : ℕ) (collected : List ℕ)
        → Sound Fault.out_of_bounds (recv_fragments s fuel collected)
    unfolding recv_fragments ◌>>=◌
    Sound-recv_fragments zero collected = record { at = λ h. cc }
    Sound-recv_fragments (suc fuel) collected = record {
      at = λ h.
          continue-HasBytes 4 (recv_exactly s Reason.recv_mark_failed 4 h).0 _ _
            (recv_exactly-HasBytes Reason.recv_mark_failed 4 h)
            (λ mark_buf four. Sound-bind _ _ (Sound-mark_of mark_buf four) (λ mark.
              Sound-bind _ _ (Sound-recv_exactly Reason.recv_data_failed (frag_len mark)) (λ bytes.
                Sound-branch (last_fragment mark) (Sound-pure (collected ++ bytes))
                  (Sound-recv_fragments fuel (collected ++ bytes)))));
    }

    Sound-send_all : (bytes : List ℕ) → Sound Fault.out_of_bounds (send_all s bytes)
    unfolding send_all
    Sound-send_all bytes = Sound-send_loop (suc (length bytes)) bytes 0

    Sound-on_sock :
        {A : Type 0} (m : Exec Handle A)
        → Sound Fault.out_of_bounds m
        → Sound Fault.out_of_bounds (on_sock s m)
    Sound-on_sock m sm = record { at = λ c. sm.at c.sock }

    pub Sound-call :
        (fuel prog vers proc : ℕ) (args : List ℕ)
        → Sound Fault.out_of_bounds (call s fuel prog vers proc args)
    unfolding call recv_record
    Sound-call fuel prog vers proc args =
        Sound-bind _ _ (record { at = λ c. cc })
          λ my_xid.
            Sound-bind _ _ (record { at = λ c. cc })
              λ auth. Sound-bind _ _ (Sound-on_sock _ (Sound-send_all _)) λ u.
                Sound-bind _ _ (Sound-on_sock _ (Sound-recv_fragments fuel []))
                  λ reply. Sound-lift _ (parse_reply-ne-fault reply Fault.out_of_bounds)
