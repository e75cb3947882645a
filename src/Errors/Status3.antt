-- ===== src/Errors/Status3.antt =====
-- The status codes of src/nfs/nfs_error.hpp, and `NfsError::is`.
use nfsclient.Base.{ℕ, ◌==◌, Bool, false}
use nfsclient.Errors.{Exception}

pub data Nfsstat3 : Type 0 where
  nfs3_ok nfs3err_perm nfs3err_noent nfs3err_io nfs3err_nxio nfs3err_acces nfs3err_exist
        nfs3err_xdev nfs3err_nodev nfs3err_notdir nfs3err_isdir nfs3err_inval nfs3err_fbig
        nfs3err_nospc nfs3err_rofs nfs3err_mlink nfs3err_nametoolong nfs3err_notempty nfs3err_dquot
        nfs3err_stale nfs3err_remote nfs3err_badhandle nfs3err_not_sync nfs3err_bad_cookie
        nfs3err_notsupp nfs3err_toosmall nfs3err_serverfault nfs3err_badtype nfs3err_jukebox :
      Nfsstat3

unfoldable pub nfsstat3 : Nfsstat3 → ℕ
nfsstat3 Nfsstat3.nfs3_ok = 0
nfsstat3 Nfsstat3.nfs3err_perm = 1
nfsstat3 Nfsstat3.nfs3err_noent = 2
nfsstat3 Nfsstat3.nfs3err_io = 5
nfsstat3 Nfsstat3.nfs3err_nxio = 6
nfsstat3 Nfsstat3.nfs3err_acces = 13
nfsstat3 Nfsstat3.nfs3err_exist = 17
nfsstat3 Nfsstat3.nfs3err_xdev = 18
nfsstat3 Nfsstat3.nfs3err_nodev = 19
nfsstat3 Nfsstat3.nfs3err_notdir = 20
nfsstat3 Nfsstat3.nfs3err_isdir = 21
nfsstat3 Nfsstat3.nfs3err_inval = 22
nfsstat3 Nfsstat3.nfs3err_fbig = 27
nfsstat3 Nfsstat3.nfs3err_nospc = 28
nfsstat3 Nfsstat3.nfs3err_rofs = 30
nfsstat3 Nfsstat3.nfs3err_mlink = 31
nfsstat3 Nfsstat3.nfs3err_nametoolong = 63
nfsstat3 Nfsstat3.nfs3err_notempty = 66
nfsstat3 Nfsstat3.nfs3err_dquot = 69
nfsstat3 Nfsstat3.nfs3err_stale = 70
nfsstat3 Nfsstat3.nfs3err_remote = 71
nfsstat3 Nfsstat3.nfs3err_badhandle = 10001
nfsstat3 Nfsstat3.nfs3err_not_sync = 10002
nfsstat3 Nfsstat3.nfs3err_bad_cookie = 10003
nfsstat3 Nfsstat3.nfs3err_notsupp = 10004
nfsstat3 Nfsstat3.nfs3err_toosmall = 10005
nfsstat3 Nfsstat3.nfs3err_serverfault = 10006
nfsstat3 Nfsstat3.nfs3err_badtype = 10007
nfsstat3 Nfsstat3.nfs3err_jukebox = 10008

-- `NfsError::is`; an exception of another class has no such member.
abbrev pub is_status3 : Exception → Nfsstat3 → Bool
is_status3 (Exception.nfs_error status name) code = status == nfsstat3 code
is_status3 (Exception.nfs4_error status name) code = false
is_status3 (Exception.runtime_error reason) code = false
