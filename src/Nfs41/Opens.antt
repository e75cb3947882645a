-- ===== src/Nfs41/Opens.antt =====
-- Opening a file with `Nfs41Client`: the rounds of a grace period, and OPEN.
use nfsclient.Base.{
  ℕ, ◌+◌, ◌%◌, ◌^◌, ◌≤◌, ◌≡◌, sym, ap, bit_and, ◌==◌, if◌then◌else◌, Bool, List, [], ◌++◌, arith,
}
use nfsclient.Errors.{Result, ok, err, Reason, Exception}
use nfsclient.Exec.{◌>>=◌}
use nfsclient.Xdr.Wire.{IsU32, IsU64, Fits32}
use nfsclient.Xdr.Emits.{Emits-encoded}
use nfsclient.Rpc.Transport.{Transport}
use nfsclient.Nfs4.Types.{Nfs4Fh, Nfs4File}
use nfsclient.Nfs4.Compound.Header.{header}
use nfsclient.Nfs4.Grace.Rounds.{
  Ends, unreadable, accepted, refused, unreadable, broken, held, retry_in_grace-Ends,
}
use nfsclient.Nfs4.State.Granted.{Opened, IsOpened}
use nfsclient.Nfs4.Session.Granted.{SequenceResult, IsSequence, sequence_result_wire}
use nfsclient.Nfs4.Calls.Opens.{open_wire, Emits-open, open_results_wire, Reads-open_results}
use nfsclient.Nfs41.Answers.{run-after_sequence}
use nfsclient.Nfs41.Client.{Nfs41Client, owner_v41, compound41, refuse_confirm, do_open}

module _ (t : Transport) where
  slot-compound41 :
      (tag ops : List ℕ) (num_ops : ℕ) (c c' : Nfs41Client t) {r : Result (List ℕ)}
      → compound41 t tag ops num_ops c ≡ (r, c')
      → c'.slot_seqid ≡ (c.slot_seqid + 1) % 2 ^ 32
  unfolding compound41 ◌>>=◌
  slot-compound41 tag ops num_ops c c' e =
      sym (ap (λ (x : Result (List ℕ) × Nfs41Client t). x.1.slot_seqid) e)

  -- Each round of the grace period takes a sequence id of its own.
  slot-Ends :
      (tag ops : List ℕ) (num_ops : ℕ) {n : ℕ} {c c' : Nfs41Client t} {r : Result (List ℕ)}
      → Ends (compound41 t tag ops num_ops) n c r c'
      → c'.slot_seqid ≡ (c.slot_seqid + n) % 2 ^ 32
  slot-Ends tag ops num_ops (accepted {s = c} {s' = c'} tag' rest num_results e ht hn) =
      slot-compound41 tag ops num_ops c c' e
  slot-Ends tag ops num_ops (refused {s = c} {s' = c'} status rest e h n0 ng) =
      slot-compound41 tag ops num_ops c c' e
  slot-Ends tag ops num_ops (unreadable {s = c} {s' = c'} reply reason e x) =
      slot-compound41 tag ops num_ops c c' e
  slot-Ends tag ops num_ops (broken {s = c} {s' = c'} x e) = slot-compound41 tag ops num_ops c c' e
  slot-Ends tag ops num_ops (held {s = c} {s' = c'} rest e r) =
      omega (arith, slot-compound41 tag ops num_ops c c' e, slot-Ends tag ops num_ops r)

  refuse_confirm-if :
      (f : Nfs4File) (rflags : ℕ) (c : Nfs41Client t)
      → refuse_confirm t f rflags c ≡ (
        if bit_and rflags 2 == 0
            then ok f
            else err (Exception.runtime_error Reason.confirm_requested),
        c,
      )
  unfolding refuse_confirm
  refuse_confirm-if f rflags c = ground arith

  -- Opening a file in a session: if OPEN, sent again and again, is turned down by some rounds of the
  -- grace period and granted in the `n`-th, `do_open` returns the handle and the stateid that the server
  -- sent and the next open seqid, unless the server asks for a confirmation, which is an exception. The
  -- `n` COMPOUNDs have taken `n` sequence ids of the slot, modulo 2 ^ 32. For fuel `n` or more, and
  -- lengths and numbers that XDR can carry.
  pub do_open41-answer :
      (c c' : Nfs41Client t) (rounds : ℕ) (dir : Nfs4Fh) (name : List ℕ) (share_access : ℕ)
      (create : Bool) {n : ℕ} (q : SequenceResult) (o : Opened) (fh : Nfs4Fh) (tag rest : List ℕ)
      (num_results : ℕ)
      → Fits32 dir.handle × IsU64 c.clientid × Fits32 name
      → IsSequence q × IsOpened o
      → Fits32 fh.handle
      → Fits32 tag × IsU32 num_results
      → Ends
          (compound41 t []
            (open_wire dir
              ((c.open_seqid + 1) % 2 ^ 32)
              share_access
              c.clientid
              owner_v41
              name
              create)
            3)
          n
          (record c { open_seqid = (c.open_seqid + 1) % 2 ^ 32 })
          (ok (
            header tag num_results
            ++ ((sequence_result_wire q ++ open_results_wire dir o fh) ++ rest)))
          c'
      → n ≤ rounds
      → (do_open t rounds dir name share_access create c ≡ (
        if bit_and o.rflags 2 == 0
            then ok (record { fh = fh; stateid = o.stateid; seqid = (c.open_seqid + 1) % 2 ^ 32 })
            else err (Exception.runtime_error Reason.confirm_requested),
        c',
      ))
        × (c'.slot_seqid ≡ (c.slot_seqid + n) % 2 ^ 32)
  unfolding do_open ◌>>=◌
  do_open41-answer c c' rounds dir name share_access create q o fh tag rest num_results (hd, hc, hn)
        (hq, ho) hf (ht, hr) ends le =
      let seqid : ℕ = (c.open_seqid + 1) % 2 ^ 32 in
      (
        rw
            (
              Emits-encoded (
                  Emits-open dir seqid share_access c.clientid owner_v41 name create hd hc
                    (omega arith) hn),
              retry_in_grace-Ends _ ends rounds le,
              run-after_sequence q tag rest num_results hq ht hr
                  (Reads-open_results dir o fh ho hf),
            )
            (refuse_confirm-if (record { fh = fh; stateid = o.stateid; seqid = seqid }) o.rflags
              c'),
        slot-Ends [] _ 3 ends,
      )
