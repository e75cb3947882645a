-- ===== src/Nfs3/Mount/Replies.antt =====
-- What the portmapper and the mount server say, as the callers get it.
use nfsclient.Base.{ℕ, ◌≡◌, ◌≢◌, ◌%◌, ◌^◌, ◌<◌, List, ◌++◌, All, ne→==, arith}
use nfsclient.Errors.{ok, err, fault, Fault, Reason, Exception}
use nfsclient.Xdr.Decoder.{run, get_string}
use nfsclient.Xdr.Wire.{IsU32, Fits32, uint32, opaque, linked}
use nfsclient.Xdr.Reads.{
  Reads, Reads-pure, Reads-bind, Reads-last, Reads-done, run-Reads, Raises-last, Raises-raise,
  run-Raises,
}
use nfsclient.Xdr.Reads.Items.{Reads-uint32, Reads-opaque, Reads-string, Reads-linked_list}
use nfsclient.Xdr.Safe.{
  Safe, Safe-pure, Safe-bind, Safe-if, Safe-raise, Safe-uint32, Safe-opaque, Safe-string,
  Safe-linked_list, run-Safe,
}
use nfsclient.Nfs3.Types.{Fh3}
use nfsclient.Nfs3.Types.Wire.{IsFh, fh3}
use nfsclient.Nfs3.Status.{Safe-check_status}
use nfsclient.Nfs3.Failures.{throws_at_once}
use nfsclient.Nfs3.Successes.{Reads-ok}
use nfsclient.Nfs3.Mount.{ExportEntry, getport_reply, mnt_reply, export_entry, export_reply}

-- The portmapper's answer: a port from 1 to 65535 is returned as it is, and 0 is the exception that
-- the program and version are not registered; whatever bytes follow.
pub getport_reply-port :
    (prog vers port : ℕ) (rest : List ℕ)
    → port < 2 ^ 16
    → port ≢ 0
    → (run (getport_reply prog vers) (uint32 port ++ rest) ≡ ok port)
      × (run (getport_reply prog vers) (uint32 0 ++ rest)
          ≡ err (Exception.runtime_error (Reason.not_registered prog vers)))
unfolding getport_reply
getport_reply-port prog vers port rest lt ne =
    let e : port % 2 ^ 16 ≡ port = omega arith in
    (
      run-Reads rest (
          Reads-done _ (Reads-uint32 port (omega arith))
            (rw (ne→== port 0 ne, e) (Reads-pure port))),
      run-Raises rest (Raises-last _ (Reads-uint32 0 (omega arith)) (Raises-raise _)),
    )

-- The mount server's answer: the root handle where it grants the mount, whatever follows, and the
-- `NfsError` of its status where it does not; for a handle shorter than 2 ^ 32 bytes.
pub mnt_reply-wire :
    (fh : Fh3) (status : ℕ) (rest : List ℕ)
    → IsFh fh
    → IsU32 status
    → status ≢ 0
    → (run mnt_reply ((uint32 0 ++ fh3 fh) ++ rest) ≡ ok fh)
      × (run mnt_reply (uint32 status ++ rest)
          ≡ err (Exception.nfs_error status "MOUNT MNT3 mountstat3"))
unfolding mnt_reply
mnt_reply-wire fh status rest hf hs ne = (
  run-Reads rest (Reads-ok "MOUNT MNT3 mountstat3" _ (Reads-last _ (Reads-opaque fh.handle hf))),
  throws_at_once status (hs, ne) "MOUNT MNT3 mountstat3" _ rest,
)

abbrev pub export_wire : ExportEntry → List ℕ
export_wire e = opaque e.path ++ linked opaque e.groups

abbrev pub IsExport : ExportEntry → Type 0
IsExport e = Fits32 e.path × All Fits32 e.groups

Reads-export : (e : ExportEntry) → IsExport e → Reads export_entry (export_wire e) e
unfolding export_entry
Reads-export e (hp, hg) =
    Reads-bind _ (Reads-string e.path hp)
      (Reads-last _ (Reads-linked_list opaque Fits32 Reads-string e.groups hg))

-- The list of exports, a linked list of paths each with a linked list of groups, comes back with every
-- path and group in order, whatever bytes follow; for names shorter than 2 ^ 32 bytes.
pub export_reply-wire :
    (es : List ExportEntry) (rest : List ℕ)
    → All IsExport es
    → run export_reply (linked export_wire es ++ rest) ≡ ok es
unfolding export_reply
export_reply-wire es rest h =
    run-Reads rest (Reads-linked_list export_wire IsExport Reads-export es h)

Safe-export : Safe export_entry
unfolding export_entry
Safe-export =
    Safe-bind _ _ Safe-string
      λ path. Safe-bind _ _ (Safe-linked_list get_string Safe-string) λ gs. Safe-pure _

-- On any reply at all, the decoders of GETPORT, MNT and EXPORT return or throw: they never read
-- outside the reply.
pub mount_reply-ne-fault :
    (prog vers : ℕ) (bytes : List ℕ) (x : Fault)
    → (run (getport_reply prog vers) bytes ≢ fault x)
      × (run mnt_reply bytes ≢ fault x)
      × (run export_reply bytes ≢ fault x)
unfolding getport_reply mnt_reply export_reply
mount_reply-ne-fault prog vers bytes x = (
  run-Safe bytes x (Safe-bind _ _ Safe-uint32 λ v. Safe-if _ (Safe-raise _) (Safe-pure _)),
  run-Safe bytes x (
      Safe-bind _ _ Safe-uint32 λ v.
        Safe-bind _ _ (Safe-check_status v _) λ u. Safe-bind _ _ Safe-opaque λ bs. Safe-pure _),
  run-Safe bytes x (Safe-linked_list export_entry Safe-export),
)
