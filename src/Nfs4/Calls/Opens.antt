-- ===== src/Nfs4/Calls/Opens.antt =====
-- OPEN in the two clients, as bytes: the request of `do_open` and the results that it reads.
use nfsclient.Base.{ℕ, ◌≡◌, Bool, true, false, List, [], ◌++◌, refl, arith}
use nfsclient.Xdr.Wire.{IsU64, Fits32, uint32, opaque}
use nfsclient.Xdr.Emits.{Emits, Emits-seq, Emits-uint32, Emits-string}
use nfsclient.Xdr.Reads.{Reads, Reads-bind, Reads-last}
use nfsclient.Nfs4.Types.{Nfs4Fh, Stateid4}
use nfsclient.Nfs4.Attr.Bytes.{IsSattr, Emits-fattr4}
use nfsclient.Nfs4.Ops.Items.{stateid_wire, IsStateid, bitmap_wire}
use nfsclient.Nfs4.Ops.Successes.{granted}
use nfsclient.Nfs4.State.{encode_open_nocreate, encode_open_create}
use nfsclient.Nfs4.State.Granted.{
  open_prefix_wire, Emits-open_prefix, Opened, IsOpened, opened_wire, Reads-open,
  Reads-open_confirm, Emits-open_confirm,
}
use nfsclient.Nfs4.Requests.{none_set, open_ops, open_results, open_confirm_request}
use nfsclient.Nfs4.Calls.Wire.{handle_op, handle_wire}
use nfsclient.Nfs4.Calls.Exact.{Emits-encode_fh, Emits-getfh, Reads-putfh, Reads-getfh}

-- An open without creation, and an unchecked creation with no attributes.
abbrev pub open_how_wire : Bool → List ℕ → List ℕ
open_how_wire false name = uint32 0 ++ (uint32 0 ++ opaque name)
open_how_wire true name =
    uint32 1 ++ (uint32 0 ++ ((bitmap_wire [] ++ opaque []) ++ (uint32 0 ++ opaque name)))

abbrev pub open_wire : Nfs4Fh → ℕ → ℕ → ℕ → List ℕ → List ℕ → Bool → List ℕ
open_wire dir seqid share_access clientid owner name create =
    handle_wire dir.handle
    ++ ((open_prefix_wire seqid share_access clientid owner ++ open_how_wire create name)
        ++ uint32 10)

none_set-IsSattr : IsSattr none_set
none_set-IsSattr = record {
  size = tt;
  owner = tt;
  owner_group = tt;
  time_access = tt;
  time_modify = tt;
  values = omega arith;
}

pub Emits-open :
    (dir : Nfs4Fh) (seqid share_access clientid : ℕ) (owner name : List ℕ) (create : Bool)
    → Fits32 dir.handle
    → IsU64 clientid
    → Fits32 owner
    → Fits32 name
    → Emits
        (open_ops dir seqid share_access clientid owner name create)
        (open_wire dir seqid share_access clientid owner name create)
unfolding open_ops encode_open_nocreate encode_open_create
Emits-open dir seqid share_access clientid owner name false h hc ho hn =
    Emits-seq (Emits-encode_fh dir h) (
      Emits-seq
        (Emits-seq (Emits-open_prefix seqid share_access clientid owner hc ho)
          (Emits-seq (Emits-uint32 0) (Emits-seq (Emits-uint32 0) (Emits-string name hn))))
        Emits-getfh)
Emits-open dir seqid share_access clientid owner name true h hc ho hn =
    Emits-seq (Emits-encode_fh dir h) (
      Emits-seq
        (Emits-seq (Emits-open_prefix seqid share_access clientid owner hc ho) (
          Emits-seq (Emits-uint32 1) (
            Emits-seq (Emits-uint32 0) (
              Emits-seq (Emits-fattr4 none_set none_set-IsSattr)
                (Emits-seq (Emits-uint32 0) (Emits-string name hn))))))
        Emits-getfh)

abbrev pub open_results_wire : Nfs4Fh → Opened → Nfs4Fh → List ℕ
open_results_wire dir o fh =
    granted (handle_op dir.handle) ++ (opened_wire o ++ (granted 10 ++ opaque fh.handle))

pub Reads-open_results :
    (dir : Nfs4Fh) (o : Opened) (fh : Nfs4Fh)
    → IsOpened o
    → Fits32 fh.handle
    → Reads open_results
        (open_results_wire dir o fh)
        (record { stateid = o.stateid; rflags = o.rflags }, fh)
unfolding open_results
Reads-open_results dir o fh ho hf =
    Reads-bind _ (Reads-putfh dir.handle)
      (Reads-bind _ (Reads-open o ho) (Reads-last _ (Reads-getfh fh hf)))

abbrev pub confirm_wire : Nfs4Fh → Stateid4 → ℕ → List ℕ
confirm_wire fh sid seqid =
    handle_wire fh.handle ++ (uint32 20 ++ (stateid_wire sid ++ uint32 seqid))

pub Emits-confirm :
    (fh : Nfs4Fh) (sid : Stateid4) (seqid : ℕ)
    → Fits32 fh.handle
    → Emits (open_confirm_request fh sid seqid).ops (confirm_wire fh sid seqid)
unfolding open_confirm_request
Emits-confirm fh sid seqid h = Emits-seq (Emits-encode_fh fh h) (Emits-open_confirm sid seqid)

abbrev pub confirm_results_wire : Nfs4Fh → Stateid4 → List ℕ
confirm_results_wire fh sid = granted (handle_op fh.handle) ++ (granted 20 ++ stateid_wire sid)

pub Reads-confirm :
    (fh : Nfs4Fh) (old sid : Stateid4) (seqid : ℕ)
    → IsStateid sid
    → Reads (open_confirm_request fh old seqid).results (confirm_results_wire fh sid) sid
unfolding open_confirm_request
Reads-confirm fh old sid seqid h = Reads-bind _ (Reads-putfh fh.handle) (Reads-open_confirm sid h)

pub num_ops-confirm :
    (fh : Nfs4Fh) (sid : Stateid4) (seqid : ℕ) → (open_confirm_request fh sid seqid).num_ops ≡ 2
unfolding open_confirm_request
num_ops-confirm fh sid seqid = refl
