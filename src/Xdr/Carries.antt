-- ===== src/Xdr/Carries.antt =====
-- An encoder and a decoder that fit: what the one appends is what the other reads.
use nfsclient.Base.{ℕ, ◌≡◌, ◌∙◌, ap, List, [], ◌++◌, length}
use nfsclient.Errors.{ok}
use nfsclient.Xdr.Encoder.{
  Enc, ◌⨾◌, skip, encoded, put_uint32, put_uint64, put_opaque, put_string, put_fixed_opaque,
}
use nfsclient.Xdr.Decoder.{
  Decode, pure, run, ◌>>=◌, get_uint32, get_uint64, get_opaque, get_string, get_fixed_opaque,
}
use nfsclient.Xdr.Wire.{IsU32, IsU64, Fits32, uint32, uint64, opaque, fixed_opaque}
use nfsclient.Xdr.Emits.{
  Emits, Emits-encoded, Emits-skip, Emits-seq, Emits-uint32, Emits-uint64, Emits-opaque,
  Emits-string, Emits-fixed_opaque,
}
use nfsclient.Xdr.Reads.{Reads, Reads-pure, Reads-bind, Reads-last, run-Reads}
use nfsclient.Xdr.Reads.Items.{
  Reads-uint32, Reads-uint64, Reads-opaque, Reads-string, Reads-fixed_opaque,
}

-- `f` appends some bytes at which `m` returns `a`, stopping behind them.
pub record Carries {A : Type 0} (f : Enc) (m : Decode A) (a : A) : Type 0 where
  pub wire : List ℕ
  pub emits : Emits f wire
  pub reads : Reads m wire a

pub Carries-uint32 : (v : ℕ) → IsU32 v → Carries (put_uint32 v) get_uint32 v
Carries-uint32 v h = record { wire = uint32 v; emits = Emits-uint32 v; reads = Reads-uint32 v h }

pub Carries-uint64 : (v : ℕ) → IsU64 v → Carries (put_uint64 v) get_uint64 v
Carries-uint64 v h = record { wire = uint64 v; emits = Emits-uint64 v h; reads = Reads-uint64 v h }

pub Carries-opaque : (bs : List ℕ) → Fits32 bs → Carries (put_opaque bs) get_opaque bs
Carries-opaque bs h = record {
  wire = opaque bs;
  emits = Emits-opaque bs h;
  reads = Reads-opaque bs h;
}

pub Carries-string : (s : List ℕ) → Fits32 s → Carries (put_string s) get_string s
Carries-string s h = record { wire = opaque s; emits = Emits-string s h; reads = Reads-string s h }

pub Carries-fixed_opaque :
    (n : ℕ) (bs : List ℕ) → length bs ≡ n → Carries (put_fixed_opaque bs) (get_fixed_opaque n) bs
Carries-fixed_opaque n bs h = record {
  wire = fixed_opaque bs;
  emits = Emits-fixed_opaque bs;
  reads = Reads-fixed_opaque n bs h;
}

module _ {A : Type 0} where
  pub Carries-skip : (a : A) → Carries skip (pure a) a
  Carries-skip a = record { wire = []; emits = Emits-skip; reads = Reads-pure a }

  -- What an encoder makes is read back, and bytes behind it do not matter.
  pub run-Carries :
      {f : Enc} {m : Decode A} {a : A} (rest : List ℕ)
      → Carries f m a
      → run m (encoded f ++ rest) ≡ ok a
  run-Carries {f} {m} rest c =
      ap (λ (t : List ℕ). run m (t ++ rest)) (Emits-encoded c.emits) ∙ run-Reads rest c.reads

module _ {A B : Type 0} where
  pub Carries-bind :
      {f g : Enc} {m : Decode A} (k : A → Decode B) {a : A} {b : B}
      → Carries f m a
      → Carries g (k a) b
      → Carries (f ⨾ g) (m >>= k) b
  Carries-bind k cf cg = record {
    wire = cf.wire ++ cg.wire;
    emits = Emits-seq cf.emits cg.emits;
    reads = Reads-bind k cf.reads cg.reads;
  }

  pub Carries-last :
      {f : Enc} {m : Decode A} (g : A → B) {a : A}
      → Carries f m a
      → Carries f (m >>= λ x. pure (g x)) (g a)
  Carries-last g c = record { wire = c.wire; emits = c.emits; reads = Reads-last g c.reads }
