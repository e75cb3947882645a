-- ===== src/Nfs4/Calls/Roots.antt =====
-- What the constructors of both clients share: the verifier, and the handle of the root.
use nfsclient.Base.{ℕ, ◌^◌, ◌<◌, ◌≡◌, refl, List, ◌++◌, arith}
use nfsclient.Xdr.Wire.{Fits32, uint32, uint64, opaque}
use nfsclient.Xdr.Emits.{Emits, Emits-seq, Emits-uint32}
use nfsclient.Xdr.Reads.{Reads, Reads-bind, Reads-last}
use nfsclient.Nfs4.Types.{Nfs4Fh}
use nfsclient.Nfs4.Ops.{encode_putrootfh, decode_putrootfh_result}
use nfsclient.Nfs4.Ops.Successes.{granted, Reads-op}
use nfsclient.Nfs4.Requests.{clock_bytes, boot_verifier, root_request}
use nfsclient.Nfs4.Calls.Exact.{Emits-getfh, Reads-getfh}

-- The verifier is the clock in eight bytes, the first one first.
pub boot_verifier-uint64 : (now : ℕ) → now < 2 ^ 64 → boot_verifier now ≡ uint64 now
unfolding boot_verifier clock_bytes uint64 uint32
boot_verifier-uint64 now h = ground arith

pub Emits-root : Emits root_request.ops (uint32 24 ++ uint32 10)
unfolding root_request encode_putrootfh
Emits-root = Emits-seq (Emits-uint32 24) Emits-getfh

pub num_ops-root : root_request.num_ops ≡ 2
unfolding root_request
num_ops-root = refl

abbrev pub root_results_wire : Nfs4Fh → List ℕ
root_results_wire fh = granted 24 ++ (granted 10 ++ opaque fh.handle)

pub Reads-root :
    (fh : Nfs4Fh) → Fits32 fh.handle → Reads root_request.results (root_results_wire fh) tt
unfolding root_request decode_putrootfh_result
Reads-root fh h =
    Reads-bind _ (Reads-op 24 "PUTROOTFH" (omega arith)) (Reads-last _ (Reads-getfh fh h))
