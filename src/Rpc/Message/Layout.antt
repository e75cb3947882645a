-- ===== src/Rpc/Message/Layout.antt =====
-- A call message, as a server reads it by RFC 5531.
use nfsclient.Base.{
  ℕ, ◌%◌, ◌^◌, ◌≤◌, ◌≡◌, ap, ◌∙◌, Option, none, some, List, [], ◌++◌, All, length, length-append,
  append-nil, append_assoc, ◌==◌, if◌then◌else◌, arith,
}
use nfsclient.Errors.{ok}
use nfsclient.Xdr.Encoder.{put_uint32}
use nfsclient.Xdr.Decoder.{
  Decode, pure, run, within, ◌>>=◌, get_uint32, get_opaque, get_string, get_remaining, repeat,
}
use nfsclient.Xdr.Wire.{IsU32, Fits32, uint32, padding, fixed_opaque, opaque, each}
use nfsclient.Xdr.Sizes.{length-opaque, length-each-uint32}
use nfsclient.Xdr.Emits.{
  Emits, Emits-seq, Emits-encoded, Emits-uint32, Emits-opaque, Emits-string, Emits-each,
}
use nfsclient.Xdr.Reads.{
  Reads, Reads-pure, Reads-bind, Reads-last, Reads-done, Reads-within, Finishes-bind, run-Finishes,
  run-Reads, Finishes-last,
}
use nfsclient.Xdr.Reads.Items.{
  Reads-uint32, Reads-opaque, Reads-string, Reads-repeat, Finishes-remaining,
}
use nfsclient.Rpc.Message.{AuthSys, put_auth_sys, put_credential, build_call_message}

-- The bounds that RFC 5531 sets for AUTH_SYS.
abbrev pub IsAuth : AuthSys → Type 0
IsAuth a =
    IsU32 a.stamp
    × (length a.machinename ≤ 255)
    × IsU32 a.uid
    × IsU32 a.gid
    × (length a.gids ≤ 16)
    × All IsU32 a.gids

abbrev pub IsCredential : Option AuthSys → Type 0
IsCredential none = Unit
IsCredential (some a) = IsAuth a

pub record Call : Type 0 where
  pub xid : ℕ
  pub mtype : ℕ
  pub rpcvers : ℕ
  pub prog : ℕ
  pub vers : ℕ
  pub proc : ℕ
  pub credential : Option AuthSys
  pub args : List ℕ

read_auth_sys : Decode AuthSys
read_auth_sys = do
  stamp ← get_uint32
  machinename ← get_string
  uid ← get_uint32
  gid ← get_uint32
  n ← get_uint32
  gids ← repeat n get_uint32
  pure (record { stamp = stamp; machinename = machinename; uid = uid; gid = gid; gids = gids })

read_credential : Decode (Option AuthSys)
read_credential = do
  flavor ← get_uint32
  body ← get_opaque
  if flavor == 1 then (within read_auth_sys body >>= λ a. pure (some a)) else pure none

-- The server's side of a call, up to the arguments of the procedure.
pub read_call : Decode Call
read_call = do
  xid ← get_uint32
  mtype ← get_uint32
  rpcvers ← get_uint32
  prog ← get_uint32
  vers ← get_uint32
  proc ← get_uint32
  credential ← read_credential
  verf_flavor ← get_uint32
  verf ← get_opaque
  args ← get_remaining
  pure (record {
    xid = xid;
    mtype = mtype;
    rpcvers = rpcvers;
    prog = prog;
    vers = vers;
    proc = proc;
    credential = credential;
    args = args;
  })

auth_sys_wire : AuthSys → List ℕ
auth_sys_wire a =
    uint32 a.stamp
    ++ (opaque a.machinename
        ++ (uint32 a.uid ++ (uint32 a.gid ++ (uint32 (length a.gids) ++ each uint32 a.gids))))

credential_wire : Option AuthSys → List ℕ
credential_wire none = uint32 0 ++ opaque []
credential_wire (some a) = uint32 1 ++ opaque (auth_sys_wire a)

Emits-auth_sys : (a : AuthSys) → IsAuth a → Emits (put_auth_sys a) (auth_sys_wire a)
unfolding put_auth_sys auth_sys_wire
Emits-auth_sys a (hs, hm, hu, hg, hn, hgs) =
    let e : length a.gids % 2 ^ 32 ≡ length a.gids = omega arith in
    rw e (
      Emits-seq (Emits-uint32 a.stamp) (
        Emits-seq (Emits-string a.machinename (omega arith)) (
          Emits-seq (Emits-uint32 a.uid) (
            Emits-seq (Emits-uint32 a.gid)
              (Emits-seq (Emits-uint32 _) (Emits-each Emits-uint32 a.gids))))))

length-auth_sys : (a : AuthSys) → IsAuth a → Fits32 (auth_sys_wire a)
unfolding auth_sys_wire uint32
length-auth_sys a (hs, hm, hu, hg, hn, hgs) =
    let tail : List ℕ = each uint32 a.gids in
    omega (
      arith,
      length-append (opaque a.machinename)
          (uint32 a.uid ++ (uint32 a.gid ++ (uint32 (length a.gids) ++ tail))),
      length-opaque a.machinename,
      length-each-uint32 a.gids,
    )

-- A length of zero is all of an empty opaque.
Emits-empty : Emits (put_uint32 0) (opaque [])
unfolding opaque fixed_opaque padding uint32
Emits-empty = Emits-uint32 0

Emits-credential :
    (c : Option AuthSys) → IsCredential c → Emits (put_credential c) (credential_wire c)
unfolding put_credential credential_wire
Emits-credential none h = Emits-seq (Emits-uint32 0) Emits-empty
Emits-credential (some a) h =
    rw (Emits-encoded (Emits-auth_sys a h))
      (Emits-seq (Emits-uint32 1) (Emits-opaque (auth_sys_wire a) (length-auth_sys a h)))

Reads-auth_sys : (a : AuthSys) → IsAuth a → Reads read_auth_sys (auth_sys_wire a) a
unfolding read_auth_sys auth_sys_wire
Reads-auth_sys a (hs, hm, hu, hg, hn, hgs) = Reads-bind _ (Reads-uint32 a.stamp hs) (
    Reads-bind _ (Reads-string a.machinename (omega arith)) (
      Reads-bind _ (Reads-uint32 a.uid hu) (
        Reads-bind _ (Reads-uint32 a.gid hg) (
          Reads-bind _ (Reads-uint32 (length a.gids) (omega arith))
            (Reads-last _ (Reads-repeat uint32 IsU32 Reads-uint32 a.gids hgs))))))

Reads-credential :
    (c : Option AuthSys) → IsCredential c → Reads read_credential (credential_wire c) c
unfolding read_credential credential_wire
Reads-credential none h =
    Reads-bind _ (Reads-uint32 0 (omega arith))
      (Reads-done _ (Reads-opaque [] (omega arith)) (Reads-pure none))
Reads-credential (some a) h = Reads-bind _ (Reads-uint32 1 (omega arith)) (
    Reads-done _ (Reads-opaque (auth_sys_wire a) (length-auth_sys a h)) (
      Reads-last _ (
        Reads-within read_auth_sys (auth_sys_wire a)
          (rw append-nil at (run-Reads [] (Reads-auth_sys a h))))))

call_wire : ℕ → ℕ → ℕ → ℕ → Option AuthSys → List ℕ → List ℕ
call_wire xid prog vers proc auth args =
    uint32 xid
    ++ (uint32 0
        ++ (uint32 2
            ++ (uint32 prog
                ++ (uint32 vers
                    ++ (uint32 proc
                        ++ (credential_wire auth ++ (uint32 0 ++ (opaque [] ++ args))))))))

module _ (xid prog vers proc : ℕ) (args : List ℕ) (auth : Option AuthSys)
    (ha : IsCredential auth) where
  build_call_message-wire :
      build_call_message xid prog vers proc args auth ≡ call_wire xid prog vers proc auth args
  unfolding build_call_message call_wire
  build_call_message-wire =
      ap (λ (t : List ℕ). t ++ args)
        (Emits-encoded (
          Emits-seq (Emits-uint32 xid) (
            Emits-seq (Emits-uint32 0) (
              Emits-seq (Emits-uint32 2) (
                Emits-seq (Emits-uint32 prog) (
                  Emits-seq (Emits-uint32 vers) (
                    Emits-seq (Emits-uint32 proc) (
                      Emits-seq (Emits-credential auth ha)
                        (Emits-seq (Emits-uint32 0) Emits-empty)))))))))
      ∙ simp append_assoc

abbrev pub IsHeader : ℕ → ℕ → ℕ → ℕ → Type 0
IsHeader xid prog vers proc = IsU32 xid × IsU32 prog × IsU32 vers × IsU32 proc

-- A server that reads the built message by RFC 5531 finds an RPC version 2 call with the xid, the
-- program, version and procedure, the credential and the arguments that were given; for words below
-- 2 ^ 32 and a credential within the bounds of AUTH_SYS.
pub read_call-build_call_message :
    (xid prog vers proc : ℕ) (args : List ℕ) (auth : Option AuthSys)
    → IsHeader xid prog vers proc
    → IsCredential auth
    → run read_call (build_call_message xid prog vers proc args auth)
      ≡ ok (record {
        xid = xid;
        mtype = 0;
        rpcvers = 2;
        prog = prog;
        vers = vers;
        proc = proc;
        credential = auth;
        args = args;
      })
unfolding read_call call_wire
read_call-build_call_message xid prog vers proc args auth (hx, hp, hv, hc) ha =
    rw (build_call_message-wire xid prog vers proc args auth ha) (
      run-Finishes (
        Finishes-bind _ (Reads-uint32 xid hx) (
          Finishes-bind _ (Reads-uint32 0 (omega arith)) (
            Finishes-bind _ (Reads-uint32 2 (omega arith)) (
              Finishes-bind _ (Reads-uint32 prog hp) (
                Finishes-bind _ (Reads-uint32 vers hv) (
                  Finishes-bind _ (Reads-uint32 proc hc) (
                    Finishes-bind _ (Reads-credential auth ha) (
                      Finishes-bind _ (Reads-uint32 0 (omega arith)) (
                        Finishes-bind _ (Reads-opaque [] (omega arith))
                          (Finishes-last _ (Finishes-remaining args))))))))))))
