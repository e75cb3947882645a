-- ===== src/Nfs3/Requests.antt =====
-- The server's side of the arguments that src/nfs encodes, by RFC 1813. Every reader of arguments is
-- written from the RFC and not from the encoder; the attributes of `sattr3` come first.
pub mod Files
pub mod Names
use nfsclient.Base.{
  ℕ, ◌≡◌, ◌<◌, Bool, true, false, Option, none, some, List, ◌==◌, if◌then◌else◌, arith,
}
use nfsclient.Xdr.Encoder.{Enc, ◌⨾◌, skip, put_uint32}
use nfsclient.Xdr.Decoder.{Decode, pure, ◌>>=◌, get_uint32, get_uint64, get_opaque}
use nfsclient.Xdr.Wire.{IsU32, IsU64}
use nfsclient.Xdr.Carries.{
  Carries, Carries-uint32, Carries-uint64, Carries-opaque, Carries-skip, Carries-bind, Carries-last,
}
use nfsclient.Nfs3.Types.{
  Fh3, Nfstime3, SetTimeHow, set_time_how, Sattr3, encode_fh3, encode_sattr3, put_if, put_time,
}
use nfsclient.Nfs3.Types.Wire.{IsFh}

-- What a server is to do with a time.
pub data TimeChange : Type 0 where
  keep server_time : TimeChange
  client_time : Nfstime3 → TimeChange

-- What a server learns from a `sattr3`: the attributes to change, each with its value.
pub record Changes : Type 0 where
  pub mode : Option ℕ
  pub uid : Option ℕ
  pub gid : Option ℕ
  pub size : Option ℕ
  pub atime : TimeChange
  pub mtime : TimeChange

pub read_fh : Decode Fh3
read_fh = get_opaque >>= λ bs. pure (record { handle = bs })

read_set : {A : Type 0} → Decode A → Decode (Option A)
read_set m = do set_it ← get_uint32; if set_it == 1 then (m >>= λ x. pure (some x)) else pure none

read_client_time : Decode TimeChange
read_client_time = do
  sec ← get_uint32
  nsec ← get_uint32
  pure (TimeChange.client_time (record { seconds = sec; nseconds = nsec }))

read_time : Decode TimeChange
unfolding read_client_time
read_time = do
  how ← get_uint32
  if how == 0
      then pure TimeChange.keep
      else if how == 1
      then pure TimeChange.server_time
      else read_client_time

pub read_sattr : Decode Changes
read_sattr = do
  mode ← read_set get_uint32
  uid ← read_set get_uint32
  gid ← read_set get_uint32
  size ← read_set get_uint64
  atime ← read_time
  mtime ← read_time
  pure (record { mode = mode; uid = uid; gid = gid; size = size; atime = atime; mtime = mtime })

abbrev set_value : Bool → ℕ → Option ℕ
set_value b v = if b then some v else none

abbrev time_change : SetTimeHow → ℕ → ℕ → TimeChange
time_change SetTimeHow.dont_change sec nsec = TimeChange.keep
time_change SetTimeHow.set_to_server_time sec nsec = TimeChange.server_time
time_change SetTimeHow.set_to_client_time sec nsec =
    TimeChange.client_time (record { seconds = sec; nseconds = nsec })

-- What the caller of the library asks for: a field counts if its flag is set.
unfoldable pub changes : Sattr3 → Changes
changes s = record {
  mode = set_value s.set_mode s.mode;
  uid = set_value s.set_uid s.uid;
  gid = set_value s.set_gid s.gid;
  size = set_value s.set_size s.size;
  atime = time_change s.set_atime s.atime_sec s.atime_nsec;
  mtime = time_change s.set_mtime s.mtime_sec s.mtime_nsec;
}

-- The ranges of the C++ types.
pub record IsSattr (s : Sattr3) : Type 0 where
  pub mode : IsU32 s.mode
  pub uid : IsU32 s.uid
  pub gid : IsU32 s.gid
  pub size : IsU64 s.size
  pub atime : IsU32 s.atime_sec × IsU32 s.atime_nsec
  pub mtime : IsU32 s.mtime_sec × IsU32 s.mtime_nsec

pub Carries-fh : (fh : Fh3) → IsFh fh → Carries (encode_fh3 fh) read_fh fh
unfolding encode_fh3 read_fh
Carries-fh fh h = Carries-last _ (Carries-opaque fh.handle h)

Carries-set :
    {f : Enc} {m : Decode ℕ} (b : Bool) (v : ℕ)
    → Carries f m v
    → Carries (put_if b f) (read_set m) (set_value b v)
unfolding read_set
Carries-set true v c = Carries-bind _ (Carries-uint32 1 (omega arith)) (Carries-last _ c)
Carries-set false v c = Carries-bind _ (Carries-uint32 0 (omega arith)) (Carries-skip none)

Carries-time :
    (how : SetTimeHow) (sec nsec : ℕ)
    → IsU32 sec × IsU32 nsec
    → Carries (put_time how sec nsec) read_time (time_change how sec nsec)
unfolding set_time_how read_time read_client_time
Carries-time SetTimeHow.dont_change sec nsec h =
    Carries-bind _ (Carries-uint32 0 (omega arith)) (Carries-skip _)
Carries-time SetTimeHow.set_to_server_time sec nsec h =
    Carries-bind _ (Carries-uint32 1 (omega arith)) (Carries-skip _)
Carries-time SetTimeHow.set_to_client_time sec nsec (hs, hn) =
    Carries-bind _ (Carries-uint32 2 (omega arith))
      (Carries-bind _ (Carries-uint32 sec hs) (Carries-last _ (Carries-uint32 nsec hn)))

pub Carries-sattr : (s : Sattr3) → IsSattr s → Carries (encode_sattr3 s) read_sattr (changes s)
unfolding encode_sattr3 read_sattr changes
Carries-sattr s h = Carries-bind _ (Carries-set s.set_mode s.mode (Carries-uint32 s.mode h.mode)) (
    Carries-bind _ (Carries-set s.set_uid s.uid (Carries-uint32 s.uid h.uid)) (
      Carries-bind _ (Carries-set s.set_gid s.gid (Carries-uint32 s.gid h.gid)) (
        Carries-bind _ (Carries-set s.set_size s.size (Carries-uint64 s.size h.size)) (
          Carries-bind _ (Carries-time s.set_atime _ _ h.atime)
            (Carries-last _ (Carries-time s.set_mtime _ _ h.mtime))))))
