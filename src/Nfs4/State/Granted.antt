-- ===== src/Nfs4/State/Granted.antt =====
-- What `Nfs4/State` sends and reads, against RFC 7530, sections 16.2, 16.16, 16.18 and 16.33.
use nfsclient.Base.{ℕ, ◌≡◌, List, [], ◌++◌, length, arith}
use nfsclient.Xdr.Wire.{IsU32, IsU64, Fits32, uint32, uint64, opaque, fixed_opaque}
use nfsclient.Xdr.Emits.{
  Emits, Emits-seq, Emits-uint32, Emits-uint64, Emits-opaque, Emits-string, Emits-fixed_opaque,
}
use nfsclient.Xdr.Reads.{Reads, Reads-bind, Reads-last, Reads-pure}
use nfsclient.Xdr.Reads.Items.{Reads-uint32, Reads-uint64, Reads-string, Reads-fixed_opaque}
use nfsclient.Nfs4.Types.{Stateid4}
use nfsclient.Nfs4.Ops.Items.{
  stateid_wire, IsStateid, ChangeInfo, change_wire, IsChange, bitmap_wire, IsBitmap, Emits-stateid,
  Reads-stateid, Reads-change, Reads-bitmap,
}
use nfsclient.Nfs4.Ops.Successes.{granted, Reads-op}
use nfsclient.Nfs4.State.{
  encode_open_prefix, skip_ace, skip_read_delegation, skip_write_delegation, skip_delegation,
  decode_open_result, encode_open_confirm, decode_open_confirm_result, SetclientidResult, netid_tcp,
  null_addr, encode_setclientid, decode_setclientid_result, encode_setclientid_confirm,
}

-- `OPEN4args` up to the owner.
abbrev pub open_prefix_wire : ℕ → ℕ → ℕ → List ℕ → List ℕ
open_prefix_wire seqid share_access clientid owner =
    uint32 18
    ++ (uint32 seqid ++ (uint32 share_access ++ (uint32 0 ++ (uint64 clientid ++ opaque owner))))

pub Emits-open_prefix :
    (seqid share_access clientid : ℕ) (owner : List ℕ)
    → IsU64 clientid
    → Fits32 owner
    → Emits
        (encode_open_prefix seqid share_access clientid owner)
        (open_prefix_wire seqid share_access clientid owner)
unfolding encode_open_prefix
Emits-open_prefix seqid share_access clientid owner hc ho = Emits-seq (Emits-uint32 18) (
    Emits-seq (Emits-uint32 seqid) (
      Emits-seq (Emits-uint32 share_access) (
        Emits-seq (Emits-uint32 0) (Emits-seq (Emits-uint64 clientid hc) (Emits-opaque owner ho)))))

-- `nfsace4`
pub record Ace : Type 0 where
  pub type : ℕ
  pub flag : ℕ
  pub access_mask : ℕ
  pub who : List ℕ

abbrev pub ace_wire : Ace → List ℕ
ace_wire a = uint32 a.type ++ (uint32 a.flag ++ (uint32 a.access_mask ++ opaque a.who))

abbrev pub IsAce : Ace → Type 0
IsAce a = IsU32 a.type × IsU32 a.flag × IsU32 a.access_mask × Fits32 a.who

Reads-ace : (a : Ace) → IsAce a → Reads skip_ace (ace_wire a) tt
unfolding skip_ace
Reads-ace a (ht, hf, hm, hw) = Reads-bind _ (Reads-uint32 a.type ht) (
    Reads-bind _ (Reads-uint32 a.flag hf)
      (Reads-bind _ (Reads-uint32 a.access_mask hm) (Reads-last _ (Reads-string a.who hw))))

-- `open_delegation4`: none; one to read, with `recall`; one to write, with the limit on the space of
-- the file as well, which is two words however it is given.
pub data Delegation : Type 0 where
  no_delegation : Delegation
  to_read : Stateid4 → ℕ → Ace → Delegation
  to_write : Stateid4 → ℕ → ℕ → ℕ → ℕ → Ace → Delegation

abbrev pub delegation_type : Delegation → ℕ
delegation_type Delegation.no_delegation = 0
delegation_type (Delegation.to_read sid recall ace) = 1
delegation_type (Delegation.to_write sid recall limitby high low ace) = 2

abbrev pub delegation_body : Delegation → List ℕ
delegation_body Delegation.no_delegation = []
delegation_body (Delegation.to_read sid recall ace) =
    stateid_wire sid ++ (uint32 recall ++ ace_wire ace)
delegation_body (Delegation.to_write sid recall limitby high low ace) =
    stateid_wire sid
    ++ (uint32 recall ++ (uint32 limitby ++ (uint32 high ++ (uint32 low ++ ace_wire ace))))

abbrev pub IsDelegation : Delegation → Type 0
IsDelegation Delegation.no_delegation = Unit
IsDelegation (Delegation.to_read sid recall ace) = IsStateid sid × IsU32 recall × IsAce ace
IsDelegation (Delegation.to_write sid recall limitby high low ace) =
    IsStateid sid × IsU32 recall × IsU32 limitby × IsU32 high × IsU32 low × IsAce ace

Reads-delegation :
    (d : Delegation)
    → IsDelegation d
    → Reads (skip_delegation (delegation_type d)) (delegation_body d) tt
unfolding skip_delegation skip_read_delegation skip_write_delegation
Reads-delegation Delegation.no_delegation h = Reads-pure tt
Reads-delegation (Delegation.to_read sid recall ace) (hs, hr, ha) =
    Reads-bind _ (Reads-stateid sid hs) (Reads-bind _ (Reads-uint32 recall hr) (Reads-ace ace ha))
Reads-delegation (Delegation.to_write sid recall limitby high low ace) (hs, hr, hl, hh, ho, ha) =
    Reads-bind _ (Reads-stateid sid hs) (
      Reads-bind _ (Reads-uint32 recall hr) (
        Reads-bind _ (Reads-uint32 limitby hl) (
          Reads-bind _ (Reads-uint32 high hh)
            (Reads-bind _ (Reads-uint32 low ho) (Reads-ace ace ha)))))

-- `OPEN4resok`
pub record Opened : Type 0 where
  pub stateid : Stateid4
  pub change : ChangeInfo
  pub rflags : ℕ
  pub attrset : List ℕ
  pub delegation : Delegation

pub record IsOpened (o : Opened) : Type 0 where
  pub stateid : IsStateid o.stateid
  pub change : IsChange o.change
  pub rflags : IsU32 o.rflags
  pub attrset : IsBitmap o.attrset
  pub delegation : IsDelegation o.delegation

abbrev pub opened_wire : Opened → List ℕ
opened_wire o =
    granted 18
    ++ (stateid_wire o.stateid
        ++ (change_wire o.change
            ++ (uint32 o.rflags
                ++ (bitmap_wire o.attrset
                    ++ (uint32 (delegation_type o.delegation) ++ delegation_body o.delegation)))))

IsU32-delegation_type : (d : Delegation) → IsU32 (delegation_type d)
IsU32-delegation_type Delegation.no_delegation = omega arith
IsU32-delegation_type (Delegation.to_read sid recall ace) = omega arith
IsU32-delegation_type (Delegation.to_write sid recall limitby high low ace) = omega arith

pub Reads-open :
    (o : Opened)
    → IsOpened o
    → Reads decode_open_result (opened_wire o) (record { stateid = o.stateid; rflags = o.rflags })
unfolding decode_open_result
Reads-open o h = Reads-bind _ (Reads-op 18 "OPEN" (omega arith)) (
    Reads-bind _ (Reads-stateid o.stateid h.stateid) (
      Reads-bind _ (Reads-change o.change h.change) (
        Reads-bind _ (Reads-uint32 o.rflags h.rflags) (
          Reads-bind _ (Reads-bitmap o.attrset h.attrset) (
            Reads-bind _
              (Reads-uint32 (delegation_type o.delegation) (IsU32-delegation_type o.delegation))
              (Reads-last _ (Reads-delegation o.delegation h.delegation)))))))

pub Reads-open_confirm :
    (sid : Stateid4)
    → IsStateid sid
    → Reads decode_open_confirm_result (granted 20 ++ stateid_wire sid) sid
unfolding decode_open_confirm_result
Reads-open_confirm sid h =
    Reads-bind _ (Reads-op 20 "OPEN_CONFIRM" (omega arith)) (Reads-stateid sid h)

pub Emits-open_confirm :
    (sid : Stateid4) (seqid : ℕ)
    → Emits (encode_open_confirm sid seqid) (uint32 20 ++ (stateid_wire sid ++ uint32 seqid))
unfolding encode_open_confirm
Emits-open_confirm sid seqid =
    Emits-seq (Emits-uint32 20) (Emits-seq (Emits-stateid sid) (Emits-uint32 seqid))

-- SETCLIENTID for a client with no callbacks.
abbrev pub setclientid_wire : List ℕ → List ℕ → List ℕ
setclientid_wire verifier client_id =
    uint32 35
    ++ (fixed_opaque verifier
        ++ (opaque client_id ++ (uint32 0 ++ (opaque netid_tcp ++ (opaque null_addr ++ uint32 0)))))

pub Emits-setclientid :
    (verifier client_id : List ℕ)
    → Fits32 client_id
    → Emits (encode_setclientid verifier client_id 0) (setclientid_wire verifier client_id)
unfolding encode_setclientid
Emits-setclientid verifier client_id h = Emits-seq (Emits-uint32 35) (
    Emits-seq (Emits-fixed_opaque verifier) (
      Emits-seq (Emits-opaque client_id h) (
        Emits-seq (Emits-uint32 0) (
          Emits-seq (Emits-string netid_tcp (omega arith))
            (Emits-seq (Emits-string null_addr (omega arith)) (Emits-uint32 0))))))

pub Reads-setclientid :
    (r : SetclientidResult)
    → IsU64 r.clientid
    → length r.confirm_verifier ≡ 8
    → Reads decode_setclientid_result
        (granted 35 ++ (uint64 r.clientid ++ fixed_opaque r.confirm_verifier))
        r
unfolding decode_setclientid_result
Reads-setclientid r hc hv = Reads-bind _ (Reads-op 35 "SETCLIENTID" (omega arith)) (
    Reads-bind _ (Reads-uint64 r.clientid hc)
      (Reads-last _ (Reads-fixed_opaque 8 r.confirm_verifier hv)))

pub Emits-setclientid_confirm :
    (clientid : ℕ) (verifier : List ℕ)
    → IsU64 clientid
    → Emits
        (encode_setclientid_confirm clientid verifier)
        (uint32 36 ++ (uint64 clientid ++ fixed_opaque verifier))
unfolding encode_setclientid_confirm
Emits-setclientid_confirm clientid verifier h =
    Emits-seq (Emits-uint32 36) (Emits-seq (Emits-uint64 clientid h) (Emits-fixed_opaque verifier))
