-- ===== src/Nfs4/Session/Created.antt =====
-- The operations that make a session, against RFC 8881, sections 18.35, 18.36 and 18.51.
use nfsclient.Base.{ℕ, ◌≡◌, ◌<◌, ◌^◌, subst, false, List, [], ◌∷◌, ◌++◌, All, length, arith}
use nfsclient.Xdr.Wire.{IsU32, IsU64, Fits32, uint32, uint64, opaque, fixed_opaque, each}
use nfsclient.Xdr.Emits.{
  Emits, Emits-seq, Emits-uint32, Emits-uint64, Emits-opaque, Emits-fixed_opaque,
}
use nfsclient.Xdr.Decoder.{repeat, get_uint32}
use nfsclient.Xdr.Reads.{Reads, Reads-pure, Reads-bind, Reads-last}
use nfsclient.Xdr.Reads.Items.{
  Reads-uint32, Reads-uint64, Reads-opaque, Reads-fixed_opaque, Reads-repeat,
}
use nfsclient.Nfs4.Ops.Successes.{granted, Reads-op}
use nfsclient.Nfs4.Session.{
  encode_exchange_id, skip_impl_id, decode_exchange_id_result, encode_channel_attrs,
  encode_create_session, decode_create_session_result, encode_reclaim_complete,
  decode_reclaim_complete_result,
}

-- EXCHANGE_ID with `EXCHGID4_FLAG_USE_NON_PNFS`, no state protection and no implementation id.
abbrev pub exchange_id_wire : List ℕ → List ℕ → List ℕ
exchange_id_wire verifier client_id =
    uint32 42
    ++ (fixed_opaque verifier ++ (opaque client_id ++ (uint32 131072 ++ (uint32 0 ++ uint32 0))))

pub Emits-exchange_id :
    (verifier client_id : List ℕ)
    → Fits32 client_id
    → Emits (encode_exchange_id verifier client_id) (exchange_id_wire verifier client_id)
unfolding encode_exchange_id
Emits-exchange_id verifier client_id h = Emits-seq (Emits-uint32 42) (
    Emits-seq (Emits-fixed_opaque verifier) (
      Emits-seq (Emits-opaque client_id h)
        (Emits-seq (Emits-uint32 131072) (Emits-seq (Emits-uint32 0) (Emits-uint32 0)))))

-- `nfs_impl_id4`
pub record ImplId : Type 0 where
  pub domain : List ℕ
  pub name : List ℕ
  pub seconds : ℕ
  pub nseconds : ℕ

abbrev pub impl_wire : ImplId → List ℕ
impl_wire i = opaque i.domain ++ (opaque i.name ++ (uint64 i.seconds ++ uint32 i.nseconds))

abbrev pub IsImpl : ImplId → Type 0
IsImpl i = Fits32 i.domain × Fits32 i.name × IsU64 i.seconds × IsU32 i.nseconds

Reads-impl : (i : ImplId) → IsImpl i → Reads skip_impl_id (impl_wire i) tt
unfolding skip_impl_id
Reads-impl i (hd, hn, hs, ht) = Reads-bind _ (Reads-opaque i.domain hd) (
    Reads-bind _ (Reads-opaque i.name hn)
      (Reads-bind _ (Reads-uint64 i.seconds hs) (Reads-last _ (Reads-uint32 i.nseconds ht))))

Reads-impls :
    (is : List ImplId)
    → All IsImpl is
    → (us : List (Unit {0})) × Reads (repeat (length is) skip_impl_id) (each impl_wire is) us
unfolding repeat
Reads-impls [] h = ([], Reads-pure [])
Reads-impls (i ∷ is) h =
    let (us, r) = Reads-impls is h.1 in (tt ∷ us, Reads-bind _ (Reads-impl i h.0) (Reads-last _ r))

-- `EXCHANGE_ID4resok`, with no state protection.
pub record Exchanged : Type 0 where
  pub clientid : ℕ
  pub sequenceid : ℕ
  pub flags : ℕ
  pub minor_id : ℕ
  pub major_id : List ℕ
  pub scope : List ℕ
  pub impls : List ImplId

pub record IsExchanged (x : Exchanged) : Type 0 where
  pub clientid : IsU64 x.clientid
  pub sequenceid : IsU32 x.sequenceid
  pub flags : IsU32 x.flags
  pub minor_id : IsU64 x.minor_id
  pub major_id : Fits32 x.major_id
  pub scope : Fits32 x.scope
  pub few_impls : length x.impls < 2 ^ 32
  pub impls : All IsImpl x.impls

abbrev pub exchanged_wire : Exchanged → List ℕ
exchanged_wire x =
    granted 42
    ++ (uint64 x.clientid
        ++ (uint32 x.sequenceid
            ++ (uint32 x.flags
                ++ (uint32 0
                    ++ (uint64 x.minor_id
                        ++ (opaque x.major_id
                            ++ (opaque x.scope
                                ++ (uint32 (length x.impls) ++ each impl_wire x.impls))))))))

pub Reads-exchange_id :
    (x : Exchanged)
    → IsExchanged x
    → Reads decode_exchange_id_result
        (exchanged_wire x)
        (record { clientid = x.clientid; sequenceid = x.sequenceid })
unfolding decode_exchange_id_result
Reads-exchange_id x h = Reads-bind _ (Reads-op 42 "EXCHANGE_ID" (omega arith)) (
    Reads-bind _ (Reads-uint64 x.clientid h.clientid) (
      Reads-bind _ (Reads-uint32 x.sequenceid h.sequenceid) (
        Reads-bind _ (Reads-uint32 x.flags h.flags) (
          Reads-bind _ (Reads-uint32 0 (omega arith)) (
            Reads-bind _ (Reads-uint64 x.minor_id h.minor_id) (
              Reads-bind _ (Reads-opaque x.major_id h.major_id) (
                Reads-bind _ (Reads-opaque x.scope h.scope) (
                  Reads-bind _ (Reads-uint32 (length x.impls) h.few_impls)
                    (Reads-last _ (Reads-impls x.impls h.impls).1)))))))))

-- `channel_attrs4`: no header padding, the sizes, 16 operations, one request and no RDMA.
abbrev pub channel_wire : ℕ → ℕ → ℕ → List ℕ
channel_wire request response cached =
    uint32 0
    ++ (uint32 request
        ++ (uint32 response ++ (uint32 cached ++ (uint32 16 ++ (uint32 1 ++ uint32 0)))))

Emits-channel :
    (request response cached : ℕ)
    → Emits (encode_channel_attrs request response cached) (channel_wire request response cached)
unfolding encode_channel_attrs
Emits-channel request response cached = Emits-seq (Emits-uint32 0) (
    Emits-seq (Emits-uint32 request) (
      Emits-seq (Emits-uint32 response) (
        Emits-seq (Emits-uint32 cached)
          (Emits-seq (Emits-uint32 16) (Emits-seq (Emits-uint32 1) (Emits-uint32 0))))))

-- CREATE_SESSION with no flags, the two channels, no callback program, and AUTH_NONE for callbacks.
abbrev pub create_session_wire : ℕ → ℕ → List ℕ
create_session_wire clientid sequenceid =
    uint32 43
    ++ (uint64 clientid
        ++ (uint32 sequenceid
            ++ (uint32 0
                ++ (channel_wire 65536 65536 1024
                    ++ (channel_wire 4096 4096 256 ++ (uint32 0 ++ (uint32 1 ++ uint32 0)))))))

pub Emits-create_session :
    (clientid sequenceid : ℕ)
    → IsU64 clientid
    → Emits (encode_create_session clientid sequenceid) (create_session_wire clientid sequenceid)
unfolding encode_create_session
Emits-create_session clientid sequenceid h = Emits-seq (Emits-uint32 43) (
    Emits-seq (Emits-uint64 clientid h) (
      Emits-seq (Emits-uint32 sequenceid) (
        Emits-seq (Emits-uint32 0) (
          Emits-seq (Emits-channel 65536 65536 1024) (
            Emits-seq (Emits-channel 4096 4096 256)
              (Emits-seq (Emits-uint32 0) (Emits-seq (Emits-uint32 1) (Emits-uint32 0))))))))

-- `CREATE_SESSION4resok`: the session id, two words, and the seven words of each channel.
pub record Created : Type 0 where
  pub sessionid : List ℕ
  pub sequence : ℕ
  pub flags : ℕ
  pub fore_channel : List ℕ
  pub back_channel : List ℕ

pub record IsCreated (x : Created) : Type 0 where
  pub sessionid : length x.sessionid ≡ 16
  pub sequence : IsU32 x.sequence
  pub flags : IsU32 x.flags
  pub seven_fore : length x.fore_channel ≡ 7
  pub fore_channel : All IsU32 x.fore_channel
  pub seven_back : length x.back_channel ≡ 7
  pub back_channel : All IsU32 x.back_channel

abbrev pub created_wire : Created → List ℕ
created_wire x =
    granted 43
    ++ (fixed_opaque x.sessionid
        ++ (uint32 x.sequence
            ++ (uint32 x.flags ++ (each uint32 x.fore_channel ++ each uint32 x.back_channel))))

Reads-words :
    (ws : List ℕ) → length ws ≡ 7 → All IsU32 ws → Reads (repeat 7 get_uint32) (each uint32 ws) ws
Reads-words ws n h =
    subst (λ (k : ℕ). Reads (repeat k get_uint32) (each uint32 ws) ws) n
      (Reads-repeat uint32 IsU32 Reads-uint32 ws h)

pub Reads-create_session :
    (x : Created) → IsCreated x → Reads decode_create_session_result (created_wire x) x.sessionid
unfolding decode_create_session_result
Reads-create_session x h = Reads-bind _ (Reads-op 43 "CREATE_SESSION" (omega arith)) (
    Reads-bind _ (Reads-fixed_opaque 16 x.sessionid h.sessionid) (
      Reads-bind _ (Reads-uint32 x.sequence h.sequence) (
        Reads-bind _ (Reads-uint32 x.flags h.flags) (
          Reads-bind _ (Reads-words x.fore_channel h.seven_fore h.fore_channel)
            (Reads-last _ (Reads-words x.back_channel h.seven_back h.back_channel))))))

pub Emits-reclaim_complete : Emits (encode_reclaim_complete false) (uint32 58 ++ uint32 0)
unfolding encode_reclaim_complete
Emits-reclaim_complete = Emits-seq (Emits-uint32 58) (Emits-uint32 0)

pub Reads-reclaim_complete : Reads decode_reclaim_complete_result (granted 58) tt
unfolding decode_reclaim_complete_result
Reads-reclaim_complete = Reads-op 58 "RECLAIM_COMPLETE" (omega arith)
