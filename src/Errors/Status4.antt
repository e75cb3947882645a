-- ===== src/Errors/Status4.antt =====
-- The status codes of src/nfs4/nfs4_error.hpp, and `Nfs4Error::is`.
use nfsclient.Base.{ℕ, ◌==◌, Bool, false}
use nfsclient.Errors.{Exception}

pub data Nfsstat4 : Type 0 where
  nfs4_ok nfs4err_perm nfs4err_noent nfs4err_io nfs4err_nxio nfs4err_access nfs4err_exist
        nfs4err_xdev nfs4err_notdir nfs4err_isdir nfs4err_inval nfs4err_fbig nfs4err_nospc
        nfs4err_rofs nfs4err_mlink nfs4err_nametoolong nfs4err_notempty nfs4err_dquot nfs4err_stale
        nfs4err_badhandle nfs4err_bad_cookie nfs4err_notsupp nfs4err_toosmall nfs4err_serverfault
        nfs4err_badtype nfs4err_delay nfs4err_same nfs4err_denied nfs4err_expired nfs4err_locked
        nfs4err_grace nfs4err_fhexpired nfs4err_share_denied nfs4err_wrongsec nfs4err_clid_inuse
        nfs4err_resource nfs4err_moved nfs4err_nofilehandle nfs4err_minor_vers_mismatch
        nfs4err_stale_clientid nfs4err_stale_stateid nfs4err_old_stateid nfs4err_bad_stateid
        nfs4err_bad_seqid nfs4err_not_same nfs4err_lock_range nfs4err_symlink nfs4err_restorefh
        nfs4err_lease_moved nfs4err_attrnotsupp nfs4err_no_grace nfs4err_reclaim_bad
        nfs4err_reclaim_conflict nfs4err_badxdr nfs4err_locks_held nfs4err_openmode nfs4err_badowner
        nfs4err_badchar nfs4err_badname nfs4err_bad_range nfs4err_lock_notsupp nfs4err_op_illegal
        nfs4err_deadlock nfs4err_file_open nfs4err_admin_revoked nfs4err_cb_path_down
        nfs4err_badsession nfs4err_badslot nfs4err_bad_high_slot nfs4err_conn_not_bound_to_session
        nfs4err_deadsession nfs4err_seq_false_retry nfs4err_seq_misordered :
      Nfsstat4

unfoldable pub nfsstat4 : Nfsstat4 → ℕ
nfsstat4 Nfsstat4.nfs4_ok = 0
nfsstat4 Nfsstat4.nfs4err_perm = 1
nfsstat4 Nfsstat4.nfs4err_noent = 2
nfsstat4 Nfsstat4.nfs4err_io = 5
nfsstat4 Nfsstat4.nfs4err_nxio = 6
nfsstat4 Nfsstat4.nfs4err_access = 13
nfsstat4 Nfsstat4.nfs4err_exist = 17
nfsstat4 Nfsstat4.nfs4err_xdev = 18
nfsstat4 Nfsstat4.nfs4err_notdir = 20
nfsstat4 Nfsstat4.nfs4err_isdir = 21
nfsstat4 Nfsstat4.nfs4err_inval = 22
nfsstat4 Nfsstat4.nfs4err_fbig = 27
nfsstat4 Nfsstat4.nfs4err_nospc = 28
nfsstat4 Nfsstat4.nfs4err_rofs = 30
nfsstat4 Nfsstat4.nfs4err_mlink = 31
nfsstat4 Nfsstat4.nfs4err_nametoolong = 63
nfsstat4 Nfsstat4.nfs4err_notempty = 66
nfsstat4 Nfsstat4.nfs4err_dquot = 69
nfsstat4 Nfsstat4.nfs4err_stale = 70
nfsstat4 Nfsstat4.nfs4err_badhandle = 10001
nfsstat4 Nfsstat4.nfs4err_bad_cookie = 10003
nfsstat4 Nfsstat4.nfs4err_notsupp = 10004
nfsstat4 Nfsstat4.nfs4err_toosmall = 10005
nfsstat4 Nfsstat4.nfs4err_serverfault = 10006
nfsstat4 Nfsstat4.nfs4err_badtype = 10007
nfsstat4 Nfsstat4.nfs4err_delay = 10008
nfsstat4 Nfsstat4.nfs4err_same = 10009
nfsstat4 Nfsstat4.nfs4err_denied = 10010
nfsstat4 Nfsstat4.nfs4err_expired = 10011
nfsstat4 Nfsstat4.nfs4err_locked = 10012
nfsstat4 Nfsstat4.nfs4err_grace = 10013
nfsstat4 Nfsstat4.nfs4err_fhexpired = 10014
nfsstat4 Nfsstat4.nfs4err_share_denied = 10015
nfsstat4 Nfsstat4.nfs4err_wrongsec = 10016
nfsstat4 Nfsstat4.nfs4err_clid_inuse = 10017
nfsstat4 Nfsstat4.nfs4err_resource = 10018
nfsstat4 Nfsstat4.nfs4err_moved = 10019
nfsstat4 Nfsstat4.nfs4err_nofilehandle = 10020
nfsstat4 Nfsstat4.nfs4err_minor_vers_mismatch = 10021
nfsstat4 Nfsstat4.nfs4err_stale_clientid = 10022
nfsstat4 Nfsstat4.nfs4err_stale_stateid = 10023
nfsstat4 Nfsstat4.nfs4err_old_stateid = 10024
nfsstat4 Nfsstat4.nfs4err_bad_stateid = 10025
nfsstat4 Nfsstat4.nfs4err_bad_seqid = 10026
nfsstat4 Nfsstat4.nfs4err_not_same = 10027
nfsstat4 Nfsstat4.nfs4err_lock_range = 10028
nfsstat4 Nfsstat4.nfs4err_symlink = 10029
nfsstat4 Nfsstat4.nfs4err_restorefh = 10030
nfsstat4 Nfsstat4.nfs4err_lease_moved = 10031
nfsstat4 Nfsstat4.nfs4err_attrnotsupp = 10032
nfsstat4 Nfsstat4.nfs4err_no_grace = 10033
nfsstat4 Nfsstat4.nfs4err_reclaim_bad = 10034
nfsstat4 Nfsstat4.nfs4err_reclaim_conflict = 10035
nfsstat4 Nfsstat4.nfs4err_badxdr = 10036
nfsstat4 Nfsstat4.nfs4err_locks_held = 10037
nfsstat4 Nfsstat4.nfs4err_openmode = 10038
nfsstat4 Nfsstat4.nfs4err_badowner = 10039
nfsstat4 Nfsstat4.nfs4err_badchar = 10040
nfsstat4 Nfsstat4.nfs4err_badname = 10041
nfsstat4 Nfsstat4.nfs4err_bad_range = 10042
nfsstat4 Nfsstat4.nfs4err_lock_notsupp = 10043
nfsstat4 Nfsstat4.nfs4err_op_illegal = 10044
nfsstat4 Nfsstat4.nfs4err_deadlock = 10045
nfsstat4 Nfsstat4.nfs4err_file_open = 10046
nfsstat4 Nfsstat4.nfs4err_admin_revoked = 10047
nfsstat4 Nfsstat4.nfs4err_cb_path_down = 10048
nfsstat4 Nfsstat4.nfs4err_badsession = 10052
nfsstat4 Nfsstat4.nfs4err_badslot = 10053
nfsstat4 Nfsstat4.nfs4err_bad_high_slot = 10054
nfsstat4 Nfsstat4.nfs4err_conn_not_bound_to_session = 10055
nfsstat4 Nfsstat4.nfs4err_deadsession = 10056
nfsstat4 Nfsstat4.nfs4err_seq_false_retry = 10060
nfsstat4 Nfsstat4.nfs4err_seq_misordered = 10063

-- `Nfs4Error::is`; an exception of another class has no such member.
abbrev pub is_status4 : Exception → Nfsstat4 → Bool
is_status4 (Exception.nfs4_error status name) code = status == nfsstat4 code
is_status4 (Exception.nfs_error status name) code = false
is_status4 (Exception.runtime_error reason) code = false
