-- ===== src/Nfs41/Client.antt =====
-- `Nfs41Client` of src/nfs41_client.hpp and src/nfs41_client.cpp: the client of version 4.1, over an RPC
-- connection and one slot of a session. `rounds` bounds the rounds of the grace period, `pages` the
-- pages of a listing.
use nfsclient.Base.{
  ℕ, ◌+◌, ◌%◌, ◌^◌, bit_and, ◌==◌, Bool, false, if◌then◌else◌, List, [], ◌∷◌, ◌++◌,
}
use nfsclient.Errors.{ok, Reason, Exception}
use nfsclient.Exec.{Exec, pure, raise, lift, ◌>>=◌}
use nfsclient.Xdr.Encoder.{encoded}
use nfsclient.Xdr.Decoder as Decoder
use nfsclient.Xdr.Decoder.{Decode, run}
use nfsclient.Pages.{list_all}
use nfsclient.Rpc.Transport.{Transport}
use nfsclient.Nfs4.Types.{Nfs4Fh, Stable4, Fattr4, Nfs4File, Nfs4DirEntry}
use nfsclient.Nfs4.Attr.{Sattr4}
use nfsclient.Nfs4.Compound.{call_compound}
use nfsclient.Nfs4.State.{share_access_read, share_access_write, result_confirm}
use nfsclient.Nfs4.Session.{encode_sequence41, decode_sequence41_result}
use nfsclient.Nfs4.Requests.{
  Request, after_header, cookie_of, open_ops, lookup_request, getattr_request, access_request,
  open_results, close_request, read_request, write_request, commit_request, mkdir_request,
  remove_request, rename_request, symlink_request, readlink_request, setattr_request,
  readdir_request,
}
use nfsclient.Nfs4.Grace.{retry_in_grace}

-- "nfsclient-v41"
abbrev pub owner_v41 : List ℕ
owner_v41 =
    b'n' ∷ b'f' ∷ b's' ∷ b'c' ∷ b'l' ∷ b'i' ∷ b'e' ∷ b'n' ∷ b't' ∷ b'-' ∷ b'v' ∷ b'4' ∷ b'1' ∷ []

-- `check_compound_status(dec); decode_sequence41_result(dec); …`
unfoldable pub after_sequence : {A : Type 0} → Decode A → Decode A
unfolding after_header
after_sequence results = after_header (Decoder.◌>>◌ decode_sequence41_result results)

module _ (t : Transport) where
  open t use {Conn}

  pub record Nfs41Client : Type 0 where
    pub host : List ℕ
    pub rpc : Conn
    pub root_fh : Nfs4Fh
    pub clientid : ℕ
    pub sessionid : List ℕ
    pub slot_seqid : ℕ
    pub open_seqid : ℕ

  -- An action on the connection.
  abbrev pub on_rpc : {A : Type 0} → Exec Conn A → Exec Nfs41Client A
  on_rpc m c = let (r, conn) = m c.rpc in (r, record c { rpc = conn })

  -- `encode_sequence41(seq, sessionid_, slot_seqid_++)`
  abbrev pub next_sequence : Exec Nfs41Client (List ℕ)
  next_sequence c = (
    ok (encoded (encode_sequence41 c.sessionid c.slot_seqid 0 0 false)),
    record c { slot_seqid = (c.slot_seqid + 1) % 2 ^ 32 },
  )

  unfoldable pub compound41 : List ℕ → List ℕ → ℕ → Exec Nfs41Client (List ℕ)
  compound41 tag ops_bytes num_ops = do
    seq_bytes ← next_sequence
    on_rpc (call_compound t tag (seq_bytes ++ ops_bytes) ((num_ops + 1) % 2 ^ 32) 1)

  -- The lines that each method repeats: the call, and the results behind the header and SEQUENCE.
  unfoldable pub exchange41 : {A : Type 0} → List ℕ → Request A → Exec Nfs41Client A
  unfolding compound41
  exchange41 tag r = do
    reply ← compound41 tag (encoded r.ops) r.num_ops
    lift (run (after_sequence r.results) reply)

  unfoldable pub perform : {A : Type 0} → Request A → Exec Nfs41Client A
  unfolding exchange41
  perform r = exchange41 [] r

  unfoldable pub lookup : Nfs4Fh → List ℕ → Exec Nfs41Client Nfs4Fh
  unfolding perform
  lookup dir name = perform (lookup_request dir name)

  unfoldable pub getattr : Nfs4Fh → Exec Nfs41Client Fattr4
  unfolding perform
  getattr fh = perform (getattr_request fh)

  unfoldable pub access : Nfs4Fh → ℕ → Exec Nfs41Client ℕ
  unfolding perform
  access fh mask = perform (access_request fh mask)

  -- `++open_seqid_`
  abbrev pub next_open_seqid : Exec Nfs41Client ℕ
  next_open_seqid c =
      let seqid = (c.open_seqid + 1) % 2 ^ 32 in (ok seqid, record c { open_seqid = seqid })

  abbrev pub own_clientid : Exec Nfs41Client ℕ
  own_clientid c = (ok c.clientid, c)

  -- `if (open_res.rflags & OPEN4_RESULT_CONFIRM) throw …`
  unfoldable pub refuse_confirm : Nfs4File → ℕ → Exec Nfs41Client Nfs4File
  refuse_confirm f rflags =
      if bit_and rflags result_confirm == 0
      then pure f
      else raise (Exception.runtime_error Reason.confirm_requested)

  unfoldable pub do_open : ℕ → Nfs4Fh → List ℕ → ℕ → Bool → Exec Nfs41Client Nfs4File
  do_open rounds dir name share_access create = do
    seqid ← next_open_seqid
    clientid ← own_clientid
    let ops = open_ops dir seqid share_access clientid owner_v41 name create
    reply ← retry_in_grace (compound41 [] (encoded ops) 3) rounds
    (open_res, fh) ← lift (run (after_sequence open_results) reply)
    refuse_confirm (record { fh = fh; stateid = open_res.stateid; seqid = seqid }) open_res.rflags

  unfoldable pub open_read : ℕ → Nfs4Fh → List ℕ → Exec Nfs41Client Nfs4File
  unfolding do_open
  open_read rounds dir name = do_open rounds dir name share_access_read false

  unfoldable pub open_write : ℕ → Nfs4Fh → List ℕ → Bool → Exec Nfs41Client Nfs4File
  unfolding do_open
  open_write rounds dir name create = do_open rounds dir name share_access_write create

  unfoldable pub close : Nfs4File → Exec Nfs41Client (Unit {0})
  unfolding perform
  close f = perform (close_request f)

  unfoldable pub read : Nfs4File → ℕ → ℕ → Exec Nfs41Client (List ℕ)
  unfolding perform
  read f offset count = perform (read_request f offset count)

  unfoldable pub write : Nfs4File → ℕ → Stable4 → List ℕ → Exec Nfs41Client ℕ
  unfolding perform
  write f offset stable bytes = perform (write_request f offset stable bytes)

  unfoldable pub commit : Nfs4File → ℕ → ℕ → Exec Nfs41Client (List ℕ)
  unfolding perform
  commit f offset count = perform (commit_request f offset count)

  unfoldable pub mkdir : Nfs4Fh → List ℕ → Sattr4 → Exec Nfs41Client Nfs4Fh
  unfolding perform
  mkdir dir name attrs = perform (mkdir_request dir name attrs)

  unfoldable pub remove : Nfs4Fh → List ℕ → Exec Nfs41Client (Unit {0})
  unfolding perform
  remove dir name = perform (remove_request dir name)

  unfoldable pub rename : Nfs4Fh → List ℕ → Nfs4Fh → List ℕ → Exec Nfs41Client (Unit {0})
  unfolding perform
  rename src_dir src_name dst_dir dst_name =
      perform (rename_request src_dir src_name dst_dir dst_name)

  unfoldable pub symlink : Nfs4Fh → List ℕ → List ℕ → Sattr4 → Exec Nfs41Client Nfs4Fh
  unfolding perform
  symlink dir name target attrs = perform (symlink_request dir name target attrs)

  unfoldable pub readlink : Nfs4Fh → Exec Nfs41Client (List ℕ)
  unfolding perform
  readlink fh = perform (readlink_request fh)

  unfoldable pub setattr : Nfs4Fh → Sattr4 → Exec Nfs41Client (Unit {0})
  unfolding perform
  setattr fh attrs = perform (setattr_request fh attrs)

  unfoldable pub readdir : ℕ → Nfs4Fh → Exec Nfs41Client (List Nfs4DirEntry)
  unfolding perform
  readdir pages dir =
      list_all cookie_of (λ cookie verf. perform (readdir_request dir cookie verf)) pages
