-- ===== src/Nfs4/Client.antt =====
-- `Nfs4Client` of src/nfs4_client.hpp and src/nfs4_client.cpp: the client of version 4.0, over an RPC
-- connection. `rounds` bounds the rounds of the grace period, `pages` the pages of a listing.
pub mod Setup
pub mod Answers
pub mod Safety
pub mod Opens
pub mod Handshake
use nfsclient.Base.{
  ℕ, ◌+◌, ◌%◌, ◌^◌, bit_and, ◌==◌, Bool, true, false, if◌then◌else◌, List, [], ◌∷◌,
}
use nfsclient.Errors.{Result, ok}
use nfsclient.Exec.{Exec, pure, lift, ◌>>=◌, ◌>>◌}
use nfsclient.Xdr.Encoder.{Enc, ◌⨾◌, encoded}
use nfsclient.Xdr.Decoder as Decoder
use nfsclient.Xdr.Decoder.{Decode, run}
use nfsclient.Pages.{Page, list_all}
use nfsclient.Rpc.Transport.{Transport}
use nfsclient.Nfs4.Types.{Nfs4Fh, Stateid4, Stable4, Fattr4, Nfs4File, Nfs4DirEntry}
use nfsclient.Nfs4.Attr.{Sattr4}
use nfsclient.Nfs4.Compound.{call_compound, check_compound_status}
use nfsclient.Nfs4.Ops.{ReaddirPage4, encode_getfh}
use nfsclient.Nfs4.State.{
  Open4Result, share_access_read, share_access_write, result_confirm, encode_renew,
  decode_renew_result,
}
use nfsclient.Nfs4.Requests.{
  Request, after_header, open_ops, cookie_of, lookup_request, getattr_request, access_request,
  open_results, open_confirm_request, close_request, read_request, write_request, commit_request,
  mkdir_request, remove_request, rename_request, symlink_request, readlink_request, setattr_request,
  readdir_request,
}
use nfsclient.Nfs4.Grace.{retry_in_grace}

-- "nfsclient-v4"
abbrev pub owner_v4 : List ℕ
owner_v4 = b'n' ∷ b'f' ∷ b's' ∷ b'c' ∷ b'l' ∷ b'i' ∷ b'e' ∷ b'n' ∷ b't' ∷ b'-' ∷ b'v' ∷ b'4' ∷ []

module _ (t : Transport) where
  open t use {Conn}

  pub record Nfs4Client : Type 0 where
    pub host : List ℕ
    pub rpc : Conn
    pub root_fh : Nfs4Fh
    pub clientid : ℕ
    pub open_seqid : ℕ

  -- The lines that each method repeats: the call, and the results behind the header.
  unfoldable pub exchange : {A : Type 0} → List ℕ → Request A → Exec Conn A
  exchange tag r = do
    reply ← call_compound t tag (encoded r.ops) r.num_ops 0
    lift (run (after_header r.results) reply)

  -- An action on the connection.
  abbrev pub on_rpc : {A : Type 0} → Exec Conn A → Exec Nfs4Client A
  on_rpc m c = let (r, conn) = m c.rpc in (r, record c { rpc = conn })

  unfoldable pub perform : {A : Type 0} → Request A → Exec Nfs4Client A
  unfolding exchange
  perform r = on_rpc (exchange [] r)

  unfoldable pub lookup : Nfs4Fh → List ℕ → Exec Nfs4Client Nfs4Fh
  unfolding perform
  lookup dir name = perform (lookup_request dir name)

  unfoldable pub getattr : Nfs4Fh → Exec Nfs4Client Fattr4
  unfolding perform
  getattr fh = perform (getattr_request fh)

  unfoldable pub access : Nfs4Fh → ℕ → Exec Nfs4Client ℕ
  unfolding perform
  access fh mask = perform (access_request fh mask)

  -- `++open_seqid_`
  abbrev pub next_open_seqid : Exec Nfs4Client ℕ
  next_open_seqid c =
      let seqid = (c.open_seqid + 1) % 2 ^ 32 in (ok seqid, record c { open_seqid = seqid })

  abbrev pub own_clientid : Exec Nfs4Client ℕ
  own_clientid c = (ok c.clientid, c)

  -- `if (open_res.rflags & OPEN4_RESULT_CONFIRM) { … }`
  unfoldable pub confirm_open : Nfs4File → ℕ → Exec Nfs4Client Nfs4File
  confirm_open f rflags = if bit_and rflags result_confirm == 0 then pure f else do
    confirm_seqid ← next_open_seqid
    stateid ← perform (open_confirm_request f.fh f.stateid confirm_seqid)
    pure (record { fh = f.fh; stateid = stateid; seqid = confirm_seqid })

  unfoldable pub do_open : ℕ → Nfs4Fh → List ℕ → ℕ → Bool → Exec Nfs4Client Nfs4File
  do_open rounds dir name share_access create = do
    seqid ← next_open_seqid
    clientid ← own_clientid
    let ops = open_ops dir seqid share_access clientid owner_v4 name create
    reply ← on_rpc (retry_in_grace (call_compound t [] (encoded ops) 3 0) rounds)
    (open_res, fh) ← lift (run (after_header open_results) reply)
    confirm_open (record { fh = fh; stateid = open_res.stateid; seqid = seqid }) open_res.rflags

  unfoldable pub open_read : ℕ → Nfs4Fh → List ℕ → Exec Nfs4Client Nfs4File
  unfolding do_open
  open_read rounds dir name = do_open rounds dir name share_access_read false

  unfoldable pub open_write : ℕ → Nfs4Fh → List ℕ → Bool → Exec Nfs4Client Nfs4File
  unfolding do_open
  open_write rounds dir name create = do_open rounds dir name share_access_write create

  unfoldable pub close : Nfs4File → Exec Nfs4Client (Unit {0})
  unfolding perform
  close f = perform (close_request f)

  unfoldable pub read : Nfs4File → ℕ → ℕ → Exec Nfs4Client (List ℕ)
  unfolding perform
  read f offset count = perform (read_request f offset count)

  unfoldable pub write : Nfs4File → ℕ → Stable4 → List ℕ → Exec Nfs4Client ℕ
  unfolding perform
  write f offset stable bytes = perform (write_request f offset stable bytes)

  unfoldable pub commit : Nfs4File → ℕ → ℕ → Exec Nfs4Client (List ℕ)
  unfolding perform
  commit f offset count = perform (commit_request f offset count)

  unfoldable pub mkdir : Nfs4Fh → List ℕ → Sattr4 → Exec Nfs4Client Nfs4Fh
  unfolding perform
  mkdir dir name attrs = perform (mkdir_request dir name attrs)

  unfoldable pub remove : Nfs4Fh → List ℕ → Exec Nfs4Client (Unit {0})
  unfolding perform
  remove dir name = perform (remove_request dir name)

  unfoldable pub rename : Nfs4Fh → List ℕ → Nfs4Fh → List ℕ → Exec Nfs4Client (Unit {0})
  unfolding perform
  rename src_dir src_name dst_dir dst_name =
      perform (rename_request src_dir src_name dst_dir dst_name)

  unfoldable pub symlink : Nfs4Fh → List ℕ → List ℕ → Sattr4 → Exec Nfs4Client Nfs4Fh
  unfolding perform
  symlink dir name target attrs = perform (symlink_request dir name target attrs)

  unfoldable pub readlink : Nfs4Fh → Exec Nfs4Client (List ℕ)
  unfolding perform
  readlink fh = perform (readlink_request fh)

  unfoldable pub setattr : Nfs4Fh → Sattr4 → Exec Nfs4Client (Unit {0})
  unfolding perform
  setattr fh attrs = perform (setattr_request fh attrs)

  unfoldable pub readdir : ℕ → Nfs4Fh → Exec Nfs4Client (List Nfs4DirEntry)
  unfolding perform
  readdir pages dir =
      list_all cookie_of (λ cookie verf. perform (readdir_request dir cookie verf)) pages

  unfoldable pub renew : Exec Nfs4Client (Unit {0})
  unfolding perform
  renew = do
    clientid ← own_clientid
    perform (record { ops = encode_renew clientid; num_ops = 1; results = decode_renew_result })
