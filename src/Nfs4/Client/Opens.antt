-- ===== src/Nfs4/Client/Opens.antt =====
-- Opening a file with `Nfs4Client`: the rounds of a grace period, OPEN, and OPEN_CONFIRM.
use nfsclient.Base.{
  ℕ, ◌+◌, ◌%◌, ◌^◌, ◌≤◌, ◌≡◌, ◌≢◌, refl, ◌∙◌, ap, bit_and, ne→==, Bool, List, [], ◌++◌, arith,
}
use nfsclient.Errors.{Result, ok, err, Exception}
use nfsclient.Exec.{◌>>=◌}
use nfsclient.Xdr.Encoder.{encoded}
use nfsclient.Xdr.Wire.{IsU32, IsU64, Fits32}
use nfsclient.Xdr.Emits.{Emits-encoded}
use nfsclient.Rpc.Transport.{Transport}
use nfsclient.Nfs4.Types.{Nfs4Fh, Stateid4, Nfs4File}
use nfsclient.Nfs4.Compound.{call_compound}
use nfsclient.Nfs4.Compound.Header.{compound_wire, call_compound-wire, header, run-after_header}
use nfsclient.Nfs4.Grace.{retry_in_grace}
use nfsclient.Nfs4.Grace.Rounds.{Ends, retry_in_grace-Ends}
use nfsclient.Nfs4.Ops.Items.{IsStateid}
use nfsclient.Nfs4.State.{result_confirm}
use nfsclient.Nfs4.State.Granted.{Opened, IsOpened}
use nfsclient.Nfs4.Requests.{after_header, open_ops, open_confirm_request}
use nfsclient.Nfs4.Calls.Opens.{
  open_wire, Emits-open, open_results_wire, Reads-open_results, confirm_wire, Emits-confirm,
  confirm_results_wire, Reads-confirm, num_ops-confirm,
}
use nfsclient.Nfs4.Client.{Nfs4Client, owner_v4, perform, confirm_open, do_open}
use nfsclient.Nfs4.Client.Answers.{perform-call}

module _ (t : Transport) where
  open t use {Conn, call}

  -- The seqid that the next OPEN or OPEN_CONFIRM carries.
  abbrev pub next_seqid : Nfs4Client t → ℕ
  next_seqid c = (c.open_seqid + 1) % 2 ^ 32

  -- OPEN on the wire.
  abbrev pub open_call : Nfs4Client t → Nfs4Fh → List ℕ → ℕ → Bool → Conn → Result (List ℕ) × Conn
  open_call c dir name share_access create = call 100003 4 1 (
      compound_wire [] 0 3
        (open_wire dir (next_seqid c) share_access c.clientid owner_v4 name create))

  abbrev pub IsOpen : Nfs4Client t → Nfs4Fh → List ℕ → Type 0
  IsOpen c dir name = Fits32 dir.handle × IsU64 c.clientid × Fits32 name

  confirm_open-clear :
      (f : Nfs4File) (rflags : ℕ)
      → bit_and rflags result_confirm ≡ 0
      → (c : Nfs4Client t) → confirm_open t f rflags c ≡ (ok f, c)
  unfolding confirm_open
  confirm_open-clear f rflags e c = rw e refl

  perform-confirm :
      (f : Nfs4File) (seqid : ℕ) (c : Nfs4Client t) (conn : Conn) (sid : Stateid4)
      (tag rest : List ℕ) (num_results : ℕ)
      → IsStateid sid
      → Fits32 f.fh.handle
      → Fits32 tag × IsU32 num_results
      → call 100003 4 1 (compound_wire [] 0 2 (confirm_wire f.fh f.stateid seqid)) c.rpc
        ≡ (ok (header tag num_results ++ (confirm_results_wire f.fh sid ++ rest)), conn)
      → perform t (open_confirm_request f.fh f.stateid seqid) c ≡ (ok sid, record c { rpc = conn })
  unfolding after_header
  perform-confirm f seqid c conn sid tag rest num_results hs hf (ht, hn) e =
      perform-call t (open_confirm_request f.fh f.stateid seqid) c conn
        (confirm_wire f.fh f.stateid seqid)
        (ok (header tag num_results ++ (confirm_results_wire f.fh sid ++ rest)))
        (Emits-confirm f.fh f.stateid seqid hf) (rw (num_ops-confirm f.fh f.stateid seqid) e)
        (ap (λ r. (r, conn))
          (run-after_header tag rest num_results ht hn (Reads-confirm f.fh f.stateid sid seqid hs)))

  confirm_open-asked :
      (f : Nfs4File) (rflags : ℕ)
      → bit_and rflags result_confirm ≢ 0
      → (c : Nfs4Client t) (conn : Conn) (sid : Stateid4) (tag rest : List ℕ) (num_results : ℕ)
      → IsStateid sid
      → Fits32 f.fh.handle
      → Fits32 tag × IsU32 num_results
      → call 100003 4 1 (compound_wire [] 0 2 (confirm_wire f.fh f.stateid (next_seqid c))) c.rpc
        ≡ (ok (header tag num_results ++ (confirm_results_wire f.fh sid ++ rest)), conn)
      → confirm_open t f rflags c ≡ (
        ok (record { fh = f.fh; stateid = sid; seqid = next_seqid c }),
        record c { rpc = conn; open_seqid = next_seqid c },
      )
  unfolding confirm_open ◌>>=◌
  confirm_open-asked f rflags asked c conn sid tag rest num_results hs hf ht e =
      rw
        (
          ne→== (bit_and rflags result_confirm) 0 asked,
          perform-confirm f (next_seqid c) (record c { open_seqid = next_seqid c }) conn sid tag
              rest num_results hs hf ht e,
        )
        refl

  module _ (c : Nfs4Client t) (rounds : ℕ) (dir : Nfs4Fh) (name : List ℕ) (share_access : ℕ)
      (create : Bool) (h : IsOpen c dir name) where
    rounds-call :
        {n : ℕ} {conn : Conn} {r : Result (List ℕ)}
        → Ends (open_call c dir name share_access create) n c.rpc r conn
        → n ≤ rounds
        → retry_in_grace
            (call_compound t []
              (encoded (open_ops dir (next_seqid c) share_access c.clientid owner_v4 name create))
              3
              0)
            rounds
            c.rpc
          ≡ (r, conn)
    rounds-call ends le =
        let (hd, hc, hn) = h in
        rw
          (
            Emits-encoded (
                Emits-open dir (next_seqid c) share_access c.clientid owner_v4 name create hd hc
                  (omega arith) hn),
            call_compound-wire t []
                (open_wire dir (next_seqid c) share_access c.clientid owner_v4 name create) 3 0
                (omega arith),
          )
          (retry_in_grace-Ends _ ends rounds le)

    do_open-opened :
        {n : ℕ} {conn : Conn} (o : Opened) (fh : Nfs4Fh) (tag rest : List ℕ) (num_results : ℕ)
        → IsOpened o
        → Fits32 fh.handle
        → Fits32 tag × IsU32 num_results
        → Ends
            (open_call c dir name share_access create)
            n
            c.rpc
            (ok (header tag num_results ++ (open_results_wire dir o fh ++ rest)))
            conn
        → n ≤ rounds
        → do_open t rounds dir name share_access create c
          ≡ confirm_open t
              (record { fh = fh; stateid = o.stateid; seqid = next_seqid c })
              o.rflags
              (record c { rpc = conn; open_seqid = next_seqid c })
    unfolding do_open ◌>>=◌ after_header
    do_open-opened o fh tag rest num_results ho hf (ht, hn) ends le =
        rw
          (
            rounds-call ends le,
            run-after_header tag rest num_results ht hn (Reads-open_results dir o fh ho hf),
          )
          refl

    -- Opening a file, where the server grants it without a confirmation: if OPEN with the next seqid,
    -- sent again and again, is turned down by some rounds of the grace period and granted in the `n`-th,
    -- `do_open` returns the handle and the stateid that the server sent and that seqid, with any kind of
    -- delegation read past; OPEN has gone out `n` times with that one seqid, which alone is used up. For
    -- fuel `n` or more, and lengths and numbers that XDR can carry.
    pub do_open-granted :
        {n : ℕ} {conn : Conn} (o : Opened) (fh : Nfs4Fh) (tag rest : List ℕ) (num_results : ℕ)
        → IsOpened o
        → Fits32 fh.handle
        → Fits32 tag × IsU32 num_results
        → bit_and o.rflags 2 ≡ 0
        → Ends
            (open_call c dir name share_access create)
            n
            c.rpc
            (ok (header tag num_results ++ (open_results_wire dir o fh ++ rest)))
            conn
        → n ≤ rounds
        → do_open t rounds dir name share_access create c ≡ (
          ok (record { fh = fh; stateid = o.stateid; seqid = next_seqid c }),
          record c { rpc = conn; open_seqid = next_seqid c },
        )
    do_open-granted {conn = conn} o fh tag rest num_results ho hf ht clear ends le =
        do_open-opened o fh tag rest num_results ho hf ht ends le
        ∙ confirm_open-clear (record { fh = fh; stateid = o.stateid; seqid = next_seqid c })
            o.rflags clear (record c { rpc = conn; open_seqid = next_seqid c })

    -- Opening a file, where the server wants a confirmation: after the OPEN that is granted, with the
    -- rounds of the grace period before it, the client sends OPEN_CONFIRM for the handle and the stateid
    -- that came back, with the seqid after that of OPEN, and returns the stateid that this gives and that
    -- seqid; both seqids are used up. For fuel that suffices for the rounds, and lengths and numbers that
    -- XDR can carry.
    pub do_open-confirmed :
        {n : ℕ} {conn : Conn} (conn' : Conn) (o : Opened) (fh : Nfs4Fh) (sid : Stateid4)
        (tag rest tag' rest' : List ℕ) (num_results num_results' : ℕ)
        → IsOpened o × IsStateid sid
        → Fits32 fh.handle
        → Fits32 tag × IsU32 num_results
        → Fits32 tag' × IsU32 num_results'
        → bit_and o.rflags 2 ≢ 0
        → Ends
            (open_call c dir name share_access create)
            n
            c.rpc
            (ok (header tag num_results ++ (open_results_wire dir o fh ++ rest)))
            conn
        → n ≤ rounds
        → call 100003 4 1
            (compound_wire [] 0 2 (confirm_wire fh o.stateid ((next_seqid c + 1) % 2 ^ 32)))
            conn
          ≡ (ok (header tag' num_results' ++ (confirm_results_wire fh sid ++ rest')), conn')
        → do_open t rounds dir name share_access create c ≡ (
          ok (record { fh = fh; stateid = sid; seqid = (next_seqid c + 1) % 2 ^ 32 }),
          record c { rpc = conn'; open_seqid = (next_seqid c + 1) % 2 ^ 32 },
        )
    do_open-confirmed {conn = conn} conn' o fh sid tag rest tag' rest' num_results num_results'
          (ho, hs) hf ht ht' asked ends le e =
        do_open-opened o fh tag rest num_results ho hf ht ends le
        ∙ confirm_open-asked (record { fh = fh; stateid = o.stateid; seqid = next_seqid c })
            o.rflags asked (record c { rpc = conn; open_seqid = next_seqid c }) conn' sid tag' rest'
            num_results' hs hf ht' e

    -- A server that refuses the OPEN in the `n`-th round, after rounds of its grace period, makes
    -- `do_open` throw: the `Nfs4Error` with the name COMPOUND and the status of that reply, whichever it
    -- is but 0 and 10013, `NFS4ERR_GRACE`, and whatever follows it; where the header of the reply cannot
    -- be read, or the connection throws, what that threw. OPEN has gone out `n` times, and the seqid is
    -- used up all the same. For fuel `n` or more, and lengths and numbers that XDR can carry.
    pub do_open-refused :
        {n : ℕ} {conn : Conn} (x : Exception)
        → Ends (open_call c dir name share_access create) n c.rpc (err x) conn
        → n ≤ rounds
        → do_open t rounds dir name share_access create c
          ≡ (err x, record c { rpc = conn; open_seqid = next_seqid c })
    unfolding do_open ◌>>=◌
    do_open-refused x ends le = rw (rounds-call ends le) refl
