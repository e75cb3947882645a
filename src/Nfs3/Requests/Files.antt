-- ===== src/Nfs3/Requests/Files.antt =====
-- Arguments of the procedures on files, and of the two listings.
use nfsclient.Base.{
  ℕ, ◌≡◌, ◌%◌, ◌^◌, sym, subst, Bool, true, false, Option, none, some, List, length, ◌==◌,
  if◌then◌else◌, arith,
}
use nfsclient.Errors.{ok}
use nfsclient.Xdr.Encoder.{◌⨾◌, put_uint32}
use nfsclient.Xdr.Decoder.{
  Decode, pure, run, ◌>>=◌, get_uint32, get_uint64, get_opaque, get_fixed_opaque,
}
use nfsclient.Xdr.Wire.{IsU32, IsU64, Fits32}
use nfsclient.Xdr.Carries.{
  Carries, Carries-uint32, Carries-uint64, Carries-opaque, Carries-fixed_opaque, Carries-skip,
  Carries-bind, Carries-last,
}
use nfsclient.Nfs3.Types.{Fh3, Stable3, stable3, Nfstime3, Sattr3, put_if}
use nfsclient.Nfs3.Types.Wire.{IsFh}
use nfsclient.Nfs3.Files.{
  encode_read_args, encode_write_args, encode_commit_args, SattrGuard3, encode_setattr_args,
}
use nfsclient.Nfs3.Listing.{encode_readdir_args, encode_readdirplus_args}
use nfsclient.Nfs3.Requests.{
  Changes, read_fh, read_sattr, changes, IsSattr, Carries-fh, Carries-sattr,
}
use nfsclient.Nfs3.Requests.Names.{exactly}

-- A handle, an offset and a count: READ and COMMIT.
pub read_range : Decode (Fh3 × ℕ × ℕ)
read_range = do fh ← read_fh; offset ← get_uint64; count ← get_uint32; pure (fh, offset, count)

pub read_write : Decode (Fh3 × ℕ × ℕ × ℕ × List ℕ)
read_write = do
  fh ← read_fh
  offset ← get_uint64
  count ← get_uint32
  stable ← get_uint32
  bytes ← get_opaque
  pure (fh, offset, count, stable, bytes)

-- The time that the file must still have, or none.
read_guard : Decode (Option Nfstime3)
read_guard = do
  check ← get_uint32
  if check == 1
      then (do
        sec ← get_uint32
        nsec ← get_uint32
        pure (some (record { seconds = sec; nseconds = nsec })))
      else pure none

pub read_setattr : Decode (Fh3 × Changes × Option Nfstime3)
read_setattr = do fh ← read_fh; attrs ← read_sattr; guard ← read_guard; pure (fh, attrs, guard)

pub read_readdir : Decode (Fh3 × ℕ × List ℕ × ℕ)
read_readdir = do
  dir ← read_fh
  cookie ← get_uint64
  verf ← get_fixed_opaque 8
  count ← get_uint32
  pure (dir, cookie, verf, count)

pub read_readdirplus : Decode (Fh3 × ℕ × List ℕ × ℕ × ℕ)
read_readdirplus = do
  dir ← read_fh
  cookie ← get_uint64
  verf ← get_fixed_opaque 8
  dircount ← get_uint32
  maxcount ← get_uint32
  pure (dir, cookie, verf, dircount, maxcount)

abbrev pub guard_time : SattrGuard3 → Option Nfstime3
guard_time g =
    if g.check then some (record { seconds = g.ctime_sec; nseconds = g.ctime_nsec }) else none

Carries-guard :
    (check : Bool) (sec nsec : ℕ)
    → IsU32 sec × IsU32 nsec
    → Carries
        (put_if check (put_uint32 sec ⨾ put_uint32 nsec))
        read_guard
        (if check then some (record { seconds = sec; nseconds = nsec }) else none)
unfolding read_guard
Carries-guard true sec nsec (hs, hn) =
    Carries-bind _ (Carries-uint32 1 (omega arith))
      (Carries-bind _ (Carries-uint32 sec hs) (Carries-last _ (Carries-uint32 nsec hn)))
Carries-guard false sec nsec h = Carries-bind _ (Carries-uint32 0 (omega arith)) (Carries-skip none)

IsU32-stable3 : (stable : Stable3) → IsU32 (stable3 stable)
unfolding stable3
IsU32-stable3 Stable3.unstable = omega arith
IsU32-stable3 Stable3.data_sync = omega arith
IsU32-stable3 Stable3.file_sync = omega arith

Carries-count :
    (bytes : List ℕ)
    → Fits32 bytes
    → Carries (put_uint32 (length bytes % 2 ^ 32)) get_uint32 (length bytes)
Carries-count bytes h =
    let e : length bytes % 2 ^ 32 ≡ length bytes = omega arith in
    subst (λ (n : ℕ). Carries (put_uint32 n) get_uint32 (length bytes)) (sym e)
      (Carries-uint32 (length bytes) h)

-- A server that reads the arguments of READ, COMMIT, WRITE and SETATTR by RFC 1813 finds the handle,
-- the offset and the count that were given; of WRITE the data with its length as the count and the
-- requested stability; of SETATTR just the attributes whose flags are set, and the guard's time if
-- the guard is on; for handles and data shorter than 2 ^ 32 bytes and words in the range of their C++
-- types.
pub encode_args-files :
    (fh : Fh3) (offset count : ℕ) (stable : Stable3) (bytes : List ℕ) (s : Sattr3) (g : SattrGuard3)
    → IsFh fh
    → IsU64 offset × IsU32 count
    → Fits32 bytes
    → IsSattr s
    → IsU32 g.ctime_sec × IsU32 g.ctime_nsec
    → (run read_range (encode_read_args fh offset count) ≡ ok (fh, offset, count))
      × (run read_range (encode_commit_args fh offset count) ≡ ok (fh, offset, count))
      × (run read_write (encode_write_args fh offset stable bytes)
          ≡ ok (fh, offset, length bytes, stable3 stable, bytes))
      × (run read_setattr (encode_setattr_args fh s g) ≡ ok (fh, changes s, guard_time g))
unfolding encode_read_args encode_commit_args encode_write_args encode_setattr_args read_range
    read_write read_setattr
encode_args-files fh offset count stable bytes s g hf (ho, hc) hb hs hg =
    let cf = Carries-fh fh hf in
    let co = Carries-uint64 offset ho in
    (
      exactly (Carries-bind _ cf (Carries-bind _ co (Carries-last _ (Carries-uint32 count hc)))),
      exactly (Carries-bind _ cf (Carries-bind _ co (Carries-last _ (Carries-uint32 count hc)))),
      exactly (
          Carries-bind _ cf (
            Carries-bind _ co (
              Carries-bind _ (Carries-count bytes hb) (
                Carries-bind _ (Carries-uint32 _ (IsU32-stable3 stable))
                  (Carries-last _ (Carries-opaque bytes hb)))))),
      exactly (
          Carries-bind _ cf
            (Carries-bind _ (Carries-sattr s hs) (Carries-last _ (Carries-guard g.check _ _ hg)))),
    )

-- A server that reads the arguments of READDIR and READDIRPLUS by RFC 1813 finds the directory, the
-- cookie, the verifier and the limits that were given; for a handle shorter than 2 ^ 32 bytes, a
-- verifier of 8 bytes and words in the range of their C++ types.
pub encode_args-listings :
    (dir : Fh3) (cookie : ℕ) (verf : List ℕ) (count maxcount : ℕ)
    → IsFh dir
    → IsU64 cookie × IsU32 count × IsU32 maxcount
    → length verf ≡ 8
    → (run read_readdir (encode_readdir_args dir cookie verf count) ≡ ok (dir, cookie, verf, count))
      × (run read_readdirplus (encode_readdirplus_args dir cookie verf count maxcount)
          ≡ ok (dir, cookie, verf, count, maxcount))
unfolding encode_readdir_args encode_readdirplus_args read_readdir read_readdirplus
encode_args-listings dir cookie verf count maxcount hd (hk, hc, hm) hv =
    let cd = Carries-fh dir hd in
    let ck = Carries-uint64 cookie hk in
    let cv = Carries-fixed_opaque 8 verf hv in
    (
      exactly (
          Carries-bind _ cd
            (Carries-bind _ ck (Carries-bind _ cv (Carries-last _ (Carries-uint32 count hc))))),
      exactly (
          Carries-bind _ cd (
            Carries-bind _ ck (
              Carries-bind _ cv (
                Carries-bind _ (Carries-uint32 count hc)
                  (Carries-last _ (Carries-uint32 maxcount hm)))))),
    )
