-- ===== src/Nfs4/Calls.antt =====
-- The methods that both clients have and that are one COMPOUND, and what RFC 7530 says of each: the
-- operations that it sends, and the results that answer them. The times that a client sets have ids of
-- their own, as Nfs4/Attr/Bytes says.
pub mod Wire
pub mod Exact
pub mod Roots
pub mod Safety
pub mod Opens
use nfsclient.Base.{ℕ, List}
use nfsclient.Nfs4.Types.{Nfs4Fh, Stable4, Fattr4, Nfs4File}
use nfsclient.Nfs4.Attr.{Sattr4}
use nfsclient.Nfs4.Requests.{
  Request, lookup_request, getattr_request, access_request, close_request, read_request,
  write_request, commit_request, mkdir_request, remove_request, rename_request, symlink_request,
  readlink_request, setattr_request,
}

pub data Call : Type 0 where
  lookup : Nfs4Fh → List ℕ → Call
  getattr : Nfs4Fh → Call
  access : Nfs4Fh → ℕ → Call
  close : Nfs4File → Call
  read : Nfs4File → ℕ → ℕ → Call
  write : Nfs4File → ℕ → Stable4 → List ℕ → Call
  commit : Nfs4File → ℕ → ℕ → Call
  mkdir : Nfs4Fh → List ℕ → Sattr4 → Call
  remove : Nfs4Fh → List ℕ → Call
  rename : Nfs4Fh → List ℕ → Nfs4Fh → List ℕ → Call
  symlink : Nfs4Fh → List ℕ → List ℕ → Sattr4 → Call
  readlink : Nfs4Fh → Call
  setattr : Nfs4Fh → Sattr4 → Call

abbrev pub Answer : Call → Type 0
Answer (Call.lookup dir name) = Nfs4Fh
Answer (Call.getattr fh) = Fattr4
Answer (Call.access fh mask) = ℕ
Answer (Call.close f) = Unit
Answer (Call.read f offset count) = List ℕ
Answer (Call.write f offset how bytes) = ℕ
Answer (Call.commit f offset count) = List ℕ
Answer (Call.mkdir dir name attrs) = Nfs4Fh
Answer (Call.remove dir name) = Unit
Answer (Call.rename src_dir src_name dst_dir dst_name) = Unit
Answer (Call.symlink dir name target attrs) = Nfs4Fh
Answer (Call.readlink fh) = List ℕ
Answer (Call.setattr fh attrs) = Unit

abbrev pub request_of : (k : Call) → Request (Answer k)
request_of (Call.lookup dir name) = lookup_request dir name
request_of (Call.getattr fh) = getattr_request fh
request_of (Call.access fh mask) = access_request fh mask
request_of (Call.close f) = close_request f
request_of (Call.read f offset count) = read_request f offset count
request_of (Call.write f offset how bytes) = write_request f offset how bytes
request_of (Call.commit f offset count) = commit_request f offset count
request_of (Call.mkdir dir name attrs) = mkdir_request dir name attrs
request_of (Call.remove dir name) = remove_request dir name
request_of (Call.rename src_dir src_name dst_dir dst_name) =
    rename_request src_dir src_name dst_dir dst_name
request_of (Call.symlink dir name target attrs) = symlink_request dir name target attrs
request_of (Call.readlink fh) = readlink_request fh
request_of (Call.setattr fh attrs) = setattr_request fh attrs
