-- ===== src/Nfs41/Slots/Kept.antt =====
-- Every method of `Nfs41Client`, and any sequence of them, keeps the numbers of its slot in order.
use nfsclient.Base.{
  ℕ, zero, suc, ◌≡◌, refl, bit_and, ◌==◌, Bool, true, false, if◌then◌else◌, List, [], ◌∷◌, ◌++◌,
  arith,
}
use nfsclient.Errors.{Result, ok, err, fault, Fault, Reason, Exception}
use nfsclient.Exec.{Exec, pure, raise}
use nfsclient.Xdr.Encoder.{encoded}
use nfsclient.Xdr.Decoder.{run}
use nfsclient.Xdr.Wire.{Fits32}
use nfsclient.Pages.{Page, last_cookie, zero_verf, list_from, list_all}
use nfsclient.Rpc.Transport.{Transport}
use nfsclient.Nfs4.Types.{Nfs4Fh, Nfs4File}
use nfsclient.Nfs4.Compound.{check_compound_status}
use nfsclient.Nfs4.State.{result_confirm}
use nfsclient.Nfs4.Requests.{Request, cookie_of, readdir_request, tag_init, root_request}
use nfsclient.Nfs4.Grace.{again_if, is_grace, next_round, retry_in_grace}
use nfsclient.Nfs41.Client.{
  Nfs41Client, next_open_seqid, own_clientid, exchange41, perform, refuse_confirm, do_open,
  open_read, open_write, readdir,
}
use nfsclient.Nfs4.Calls.{Call, request_of}
use nfsclient.Nfs41.Answers.{run_call-perform}
use nfsclient.Nfs41.Actions.{run_call, Action, act, act_all}
use nfsclient.Nfs41.Setup.{enter_session, reclaim_complete_request}
use nfsclient.Nfs41.Slots.{
  recorded, Numbered, InOrder, Keeps, Keeps-compound41, Keeps-pure, Keeps-raise, Keeps-lift,
  Keeps-bind,
}

module _ (t : Transport) (sid : List ℕ) (before : List (List ℕ)) where
  abbrev Does : Type 0 → Type 0
  Does A = Exec (Nfs41Client (recorded t)) A

  Keeps-again_if :
      (b : Bool) (e : Exception) (again : Does (List ℕ))
      → Keeps t sid before again
      → Keeps t sid before (again_if b e again)
  Keeps-again_if true e again k = k
  Keeps-again_if false e again k = Keeps-raise t sid before e

  Keeps-next_round :
      (reply : List ℕ) (again : Does (List ℕ)) (r : Result (Unit {0}))
      → Keeps t sid before again
      → Keeps t sid before (next_round reply again r)
  Keeps-next_round reply again (ok _) k = Keeps-pure t sid before reply
  Keeps-next_round reply again (err e) k = Keeps-again_if (is_grace e) e again k
  Keeps-next_round reply again (fault x) k = Keeps-lift t sid before (fault x)

  Keeps-retry_in_grace :
      (ask : Does (List ℕ)) (rounds : ℕ)
      → Keeps t sid before ask
      → Keeps t sid before (retry_in_grace ask rounds)
  unfolding retry_in_grace
  Keeps-retry_in_grace ask zero k = Keeps-lift t sid before (fault Fault.out_of_fuel)
  Keeps-retry_in_grace ask (suc rounds) k = Keeps-bind t sid before _ _ k (λ reply.
      Keeps-next_round reply _ (run check_compound_status reply)
        (Keeps-retry_in_grace ask rounds k))

  Keeps-list_from :
      {E : Type 0} (cookie_of : E → ℕ) (ask : ℕ → List ℕ → Does (Page E))
      → ((cookie : ℕ) (verf : List ℕ) → Keeps t sid before (ask cookie verf))
      → (pages cookie : ℕ) (verf : List ℕ) (all : List E)
      → Keeps t sid before (list_from cookie_of ask pages cookie verf all)
  unfolding list_from
  Keeps-list_from cookie_of ask k zero cookie verf all =
      Keeps-lift t sid before (fault Fault.out_of_fuel)
  Keeps-list_from {E} cookie_of ask k (suc pages) cookie verf all =
      Keeps-bind t sid before _ _ (k cookie verf) (λ page. ends page (page.eof) (
        Keeps-list_from cookie_of ask k pages (last_cookie cookie_of cookie page.entries)
          page.cookieverf (all ++ page.entries)))
    where
      ends :
          (page : Page E) (eof : Bool) {more : Does (List E)}
          → Keeps t sid before more
          → Keeps t sid before (elim eof [ true ↦ pure (all ++ page.entries) | false ↦ more ])
      ends page true m = Keeps-pure t sid before _
      ends page false m = m

  Keeps-exchange41 :
      {A : Type 0} (tag : List ℕ) (r : Request A)
      → Fits32 tag
      → Keeps t sid before (exchange41 (recorded t) tag r)
  unfolding exchange41
  Keeps-exchange41 tag r ht =
      Keeps-bind t sid before _ _ (Keeps-compound41 t sid before tag (encoded r.ops) r.num_ops ht)
        (λ reply. Keeps-lift t sid before _)

  Keeps-perform : {A : Type 0} (r : Request A) → Keeps t sid before (perform (recorded t) r)
  unfolding perform
  Keeps-perform r = Keeps-exchange41 [] r (omega arith)

  Keeps-refuse_confirm :
      (f : Nfs4File) (rflags : ℕ) → Keeps t sid before (refuse_confirm (recorded t) f rflags)
  unfolding refuse_confirm
  Keeps-refuse_confirm f rflags = ends (bit_and rflags result_confirm == 0)
    where
      ends :
          (b : Bool)
          → Keeps t sid before
              (if b then pure f else raise (Exception.runtime_error Reason.confirm_requested))
      ends true = Keeps-pure t sid before f
      ends false = Keeps-raise t sid before _

  Keeps-do_open :
      (rounds : ℕ) (dir : Nfs4Fh) (name : List ℕ) (share_access : ℕ) (create : Bool)
      → Keeps t sid before (do_open (recorded t) rounds dir name share_access create)
  unfolding do_open
  Keeps-do_open rounds dir name share_access create =
      Keeps-bind t sid before _ _ Keeps-open_seqid λ seqid.
        Keeps-bind t sid before _ _ Keeps-own_clientid λ clientid.
          Keeps-bind t sid before _ _
            (Keeps-retry_in_grace _ rounds (Keeps-compound41 t sid before [] _ 3 (omega arith)))
            λ reply.
              Keeps-bind t sid before _ _ (Keeps-lift t sid before _)
                λ opened. Keeps-refuse_confirm _ _
    where
      Keeps-open_seqid : Keeps t sid before (next_open_seqid (recorded t))
      Keeps-open_seqid = record { at = λ c h. record { session = h.session; numbers = h.numbers } }

      Keeps-own_clientid : Keeps t sid before (own_clientid (recorded t))
      Keeps-own_clientid = record { at = λ c h. h }

  Keeps-readdir : (pages : ℕ) (dir : Nfs4Fh) → Keeps t sid before (readdir (recorded t) pages dir)
  unfolding readdir list_all
  Keeps-readdir pages dir =
      Keeps-list_from cookie_of
        (λ cookie verf. perform (recorded t) (readdir_request dir cookie verf))
        (λ cookie verf. Keeps-perform (readdir_request dir cookie verf)) pages 0 zero_verf []

  Keeps-run_call : (k : Call) → Keeps t sid before (run_call (recorded t) k)
  Keeps-run_call k = rw (run_call-perform (recorded t) k) (Keeps-perform (request_of k))

  act-InOrder :
      (a : Action) (c : Nfs41Client (recorded t))
      → InOrder t sid before c
      → InOrder t sid before (act (recorded t) a c)
  unfolding act open_read open_write
  act-InOrder (Action.one_call k) c h = (Keeps-run_call k).at c h
  act-InOrder (Action.open_read rounds dir name) c h =
      (Keeps-do_open rounds dir name 1 false).at c h
  act-InOrder (Action.open_write rounds dir name create) c h =
      (Keeps-do_open rounds dir name 2 create).at c h
  act-InOrder (Action.readdir pages dir) c h = (Keeps-readdir pages dir).at c h

  act_all-InOrder :
      (rest : List Action) (c : Nfs41Client (recorded t))
      → InOrder t sid before c
      → InOrder t sid before (act_all (recorded t) rest c)
  unfolding act_all
  act_all-InOrder [] c h = h
  act_all-InOrder (a ∷ rest) c h = act_all-InOrder rest (act (recorded t) a c) (act-InOrder a c h)

  Keeps-enter_session : Keeps t sid before (enter_session (recorded t))
  unfolding enter_session
  Keeps-enter_session =
      Keeps-bind t sid before _ _ (Keeps-exchange41 tag_init reclaim_complete_request (omega arith))
        λ u.
          Keeps-bind t sid before _ _ (Keeps-exchange41 [] root_request (omega arith))
            λ u. record { at = λ c h. record { session = h.session; numbers = h.numbers } }

-- From the creation of a session on, every COMPOUND that a client sends in it, be it the two that end
-- the constructor or those of any sequence of its methods, with whatever number of rounds of a grace
-- period and pages of a listing, begins with SEQUENCE on slot 0 of that session, and they are numbered
-- 1, 2, 3, … modulo 2 ^ 32 in the order in which they go out, with no number left out or used twice.
-- This holds for any server, whether the methods return or throw.
pub act_all-Numbered :
    (t : Transport) (c : Nfs41Client (recorded t)) (actions : List Action)
    → c.slot_seqid ≡ 1
    → let c' = act_all (recorded t) actions (enter_session (recorded t) c).1 in
      (c'.sessionid ≡ c.sessionid) × Numbered c.sessionid c.rpc.1 c'.rpc.1 c'.slot_seqid
act_all-Numbered t c actions e =
    let first : InOrder t c.sessionid c.rpc.1 c = record {
      session = refl;
      numbers = rw e Numbered.start;
    } in
    let h =
      act_all-InOrder t c.sessionid c.rpc.1 actions _
        ((Keeps-enter_session t c.sessionid c.rpc.1).at c first) in
    (h.session, h.numbers)
