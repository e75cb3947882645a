-- ===== src/Nfs3/Successes.antt =====
-- What the callers get when the server grants: the `resok` replies of RFC 1813, with every way their
-- optional attributes can be there or not.
use nfsclient.Base.{ℕ, String, ◌≡◌, [], Option, List, ◌++◌, length, arith}
use nfsclient.Errors.{ok}
use nfsclient.Xdr.Decoder.{Decode, ◌>>=◌, get_uint32}
use nfsclient.Xdr.Wire.{IsU32, Fits32, uint32, opaque, fixed_opaque}
use nfsclient.Xdr.Reads.{Reads, Reads-bind, Reads-last, run-Reads}
use nfsclient.Xdr.Reads.Items.{Reads-uint32, Reads-opaque, Reads-string, Reads-fixed_opaque}
use nfsclient.Nfs3.Types.{Fh3, Fattr3}
use nfsclient.Nfs3.Types.Wire.{
  IsFh, fh3, fattr3, IsFattr, post_op_attr, IsAttr, Wcc, wcc_data, IsWcc,
}
use nfsclient.Nfs3.Types.Reads.{Reads-fh3, Reads-fattr3, Reads-post_op_attr, Reads-wcc_data}
use nfsclient.Nfs3.Status.{check_status, Reads-check_status, Reads-check_present}
use nfsclient.Nfs3.Files.{
  decode_getattr_reply, decode_lookup_reply, decode_access_reply, decode_read_reply,
  decode_write_reply, decode_commit_reply, decode_readlink_reply,
}
use nfsclient.Nfs3.Names.{
  new_object_reply, decode_create_reply, decode_mkdir_reply, decode_symlink_reply,
  decode_mknod_reply,
}

-- `NFS3_OK`, and the check of it.
pub Reads-ok :
    {A : Type 0} (proc : String) (k : Unit {0} → Decode A) {bs : List ℕ} {a : A}
    → Reads (k tt) bs a
    → Reads (get_uint32 >>= λ s. check_status s proc >>= k) (uint32 0 ++ bs) a
Reads-ok proc k r =
    Reads-bind _ (Reads-uint32 0 (omega arith)) (Reads-bind k {bs = []} (Reads-check_status proc) r)

-- The same where the decoder first passes over what stands in both kinds of reply.
Reads-ok_behind :
    {A : Type 0} (proc : String) (k : Unit {0} → Decode A) {skipped : Decode (Unit {0})}
    {bs cs : List ℕ} {a : A}
    → Reads skipped bs tt
    → Reads (k tt) cs a
    → Reads
        (get_uint32 >>= λ s. skipped >>= λ u. check_status s proc >>= k)
        (uint32 0 ++ (bs ++ cs))
        a
Reads-ok_behind proc k rs r =
    Reads-bind _ (Reads-uint32 0 (omega arith))
      (Reads-bind _ rs (Reads-bind k {bs = []} (Reads-check_status proc) r))

-- `post_op_fh3` with a handle, the attributes of the new object, and those of its directory.
abbrev pub new_object : Fh3 → Option Fattr3 → Wcc → List ℕ
new_object fh attrs w = uint32 0 ++ (uint32 1 ++ (fh3 fh ++ (post_op_attr attrs ++ wcc_data w)))

Reads-new_object :
    (proc : String) (fh : Fh3) (attrs : Option Fattr3) (w : Wcc)
    → IsFh fh
    → IsAttr attrs
    → IsWcc w
    → Reads (new_object_reply proc) (new_object fh attrs w) fh
unfolding new_object_reply
Reads-new_object proc fh attrs w hf ha hw = Reads-ok proc _ (
    Reads-bind _ (Reads-uint32 1 (omega arith)) (
      Reads-bind _ {bs = []} (Reads-check_present proc) (
        Reads-bind _ (Reads-fh3 fh hf)
          (Reads-bind _ (Reads-post_op_attr attrs ha) (Reads-last _ (Reads-wcc_data w hw))))))

-- When the server grants CREATE, MKDIR, SYMLINK or MKNOD and gives the handle of the new object,
-- that handle is what each of the decoders returns, whichever attributes follow it and whatever bytes
-- stand behind them; for a handle shorter than 2 ^ 32 bytes and attributes in range.
pub decode_reply-new_object :
    (fh : Fh3) (attrs : Option Fattr3) (w : Wcc) (rest : List ℕ)
    → IsFh fh
    → IsAttr attrs
    → IsWcc w
    → let bytes : List ℕ = new_object fh attrs w ++ rest in
      (decode_create_reply bytes ≡ ok fh)
      × (decode_mkdir_reply bytes ≡ ok fh)
      × (decode_symlink_reply bytes ≡ ok fh)
      × (decode_mknod_reply bytes ≡ ok fh)
unfolding decode_create_reply decode_mkdir_reply decode_symlink_reply decode_mknod_reply
decode_reply-new_object fh attrs w rest hf ha hw = (
  run-Reads rest (Reads-new_object "CREATE" fh attrs w hf ha hw),
  run-Reads rest (Reads-new_object "MKDIR" fh attrs w hf ha hw),
  run-Reads rest (Reads-new_object "SYMLINK" fh attrs w hf ha hw),
  run-Reads rest (Reads-new_object "MKNOD" fh attrs w hf ha hw),
)

-- GETATTR returns all 21 words of the attributes that the server sends, each in its field, and LOOKUP
-- the handle, whichever attributes follow it; for a handle shorter than 2 ^ 32 bytes and attributes
-- in range.
pub decode_reply-found :
    (a : Fattr3) (fh : Fh3) (obj dir : Option Fattr3) (rest : List ℕ)
    → IsFattr a
    → IsFh fh
    → IsAttr obj
    → IsAttr dir
    → (decode_getattr_reply ((uint32 0 ++ fattr3 a) ++ rest) ≡ ok a)
      × (decode_lookup_reply
            ((uint32 0 ++ (fh3 fh ++ (post_op_attr obj ++ post_op_attr dir))) ++ rest)
          ≡ ok fh)
unfolding decode_getattr_reply decode_lookup_reply
decode_reply-found a fh obj dir rest h hf ho hd = (
  run-Reads rest (Reads-ok "GETATTR" _ (Reads-fattr3 a h)),
  run-Reads rest (
      Reads-ok "LOOKUP" _ (
        Reads-bind _ (Reads-fh3 fh hf)
          (Reads-bind _ (Reads-post_op_attr obj ho) (Reads-last _ (Reads-post_op_attr dir hd))))),
)

-- READ returns the data the server sends, whatever its count and `eof` say, READLINK the target and
-- ACCESS the granted mask, whether attributes stand before them or not; for data and a target shorter
-- than 2 ^ 32 bytes, and words and attributes in range.
pub decode_reply-contents :
    (attrs : Option Fattr3) (count eof mask : ℕ) (bytes target rest : List ℕ)
    → IsAttr attrs
    → IsU32 count × IsU32 eof × IsU32 mask
    → Fits32 bytes
    → Fits32 target
    → (decode_read_reply (
          (uint32 0 ++ (post_op_attr attrs ++ (uint32 count ++ (uint32 eof ++ opaque bytes))))
          ++ rest)
        ≡ ok bytes)
      × (decode_readlink_reply ((uint32 0 ++ (post_op_attr attrs ++ opaque target)) ++ rest)
          ≡ ok target)
      × (decode_access_reply ((uint32 0 ++ (post_op_attr attrs ++ uint32 mask)) ++ rest) ≡ ok mask)
unfolding decode_read_reply decode_readlink_reply decode_access_reply
decode_reply-contents attrs count eof mask bytes target rest ha (hc, he, hm) hb ht =
    let r = Reads-post_op_attr attrs ha in
    (
      run-Reads rest (
          Reads-ok_behind "READ" _ r (
            Reads-bind _ (Reads-uint32 count hc)
              (Reads-bind _ (Reads-uint32 eof he) (Reads-opaque bytes hb)))),
      run-Reads rest (Reads-ok_behind "READLINK" _ r (Reads-string target ht)),
      run-Reads rest (Reads-ok_behind "ACCESS" _ r (Reads-uint32 mask hm)),
    )

-- WRITE returns the count, the commitment and the verifier that the server sends, and COMMIT its
-- verifier, whichever attributes stand before them; for a verifier of 8 bytes, and words and attributes in range.
pub decode_reply-written :
    (w : Wcc) (count committed : ℕ) (verf rest : List ℕ)
    → IsWcc w
    → IsU32 count × IsU32 committed
    → length verf ≡ 8
    → (decode_write_reply (
          (uint32 0 ++ (wcc_data w ++ (uint32 count ++ (uint32 committed ++ fixed_opaque verf))))
          ++ rest)
        ≡ ok (record { count = count; committed = committed; verf = verf }))
      × (decode_commit_reply ((uint32 0 ++ (wcc_data w ++ fixed_opaque verf)) ++ rest) ≡ ok verf)
unfolding decode_write_reply decode_commit_reply
decode_reply-written w count committed verf rest hw (hc, hk) hv =
    let r = Reads-wcc_data w hw in
    (
      run-Reads rest (
          Reads-ok_behind "WRITE" _ r (
            Reads-bind _ (Reads-uint32 count hc) (
              Reads-bind _ (Reads-uint32 committed hk)
                (Reads-last _ (Reads-fixed_opaque 8 verf hv))))),
      run-Reads rest (Reads-ok_behind "COMMIT" _ r (Reads-fixed_opaque 8 verf hv)),
    )
