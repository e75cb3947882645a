-- ===== src/Xdr/Emits.antt =====
-- What the `put_` methods append, and a rule for a sequence of them.
use nfsclient.Base.{
  ℕ, zero, suc, ◌/◌, ◌%◌, ◌^◌, ◌≡◌, refl, sym, ap, ◌∙◌, List, [], ◌∷◌, ◌++◌, length, replicate,
  append-nil, append_assoc, arith,
}
use nfsclient.Xdr.Encoder.{
  Enc, ◌⨾◌, skip, encoded, put_uint32, put_uint64, push_zeros, put_opaque, put_string,
  put_fixed_opaque, put_each,
}
use nfsclient.Xdr.Wire.{IsU64, Fits32, uint32, uint64, padding, fixed_opaque, opaque, each}

-- `f` appends `bs`, whatever was written before.
pub record Emits (f : Enc) (bs : List ℕ) : Type 0 where
  pub at : (buf : List ℕ) → f buf ≡ buf ++ bs

pub Emits-encoded : {f : Enc} {bs : List ℕ} → Emits f bs → encoded f ≡ bs
Emits-encoded e = e.at []

pub Emits-skip : Emits skip []
Emits-skip = record { at = λ buf. sym (append-nil buf) }

pub Emits-seq : {f g : Enc} {bs cs : List ℕ} → Emits f bs → Emits g cs → Emits (f ⨾ g) (bs ++ cs)
Emits-seq {f} {g} {bs} {cs} ef eg = record {
  at = λ buf. ap g (ef.at buf) ∙ eg.at (buf ++ bs) ∙ append_assoc buf bs cs;
}

pub Emits-uint32 : (v : ℕ) → Emits (put_uint32 v) (uint32 v)
unfolding put_uint32 uint32
Emits-uint32 v = record { at = λ buf. simp append_assoc }

pub Emits-uint64 : (v : ℕ) → IsU64 v → Emits (put_uint64 v) (uint64 v)
unfolding put_uint64 uint64
Emits-uint64 v h =
    let e : v / 2 ^ 32 % 2 ^ 32 ≡ v / 2 ^ 32 = omega arith in
    rw e (Emits-seq (Emits-uint32 _) (Emits-uint32 _))

push_zeros-replicate : (n : ℕ) → Emits (push_zeros n) (replicate n 0)
unfolding push_zeros
push_zeros-replicate zero = Emits-skip
push_zeros-replicate (suc n) =
    Emits-seq {bs = 0 ∷ []} (record { at = λ buf. refl }) (push_zeros-replicate n)

pub Emits-fixed_opaque : (bs : List ℕ) → Emits (put_fixed_opaque bs) (fixed_opaque bs)
unfolding put_fixed_opaque fixed_opaque padding
Emits-fixed_opaque bs = Emits-seq (record { at = λ buf. refl }) (push_zeros-replicate _)

pub Emits-opaque : (bs : List ℕ) → Fits32 bs → Emits (put_opaque bs) (opaque bs)
unfolding put_opaque opaque put_fixed_opaque
Emits-opaque bs h =
    let e : length bs % 2 ^ 32 ≡ length bs = omega arith in
    rw e (Emits-seq (Emits-uint32 _) (Emits-fixed_opaque bs))

pub Emits-string : (s : List ℕ) → Fits32 s → Emits (put_string s) (opaque s)
unfolding put_string
Emits-string = Emits-opaque

pub Emits-each {ℓ} :
    {A : Type ℓ} {put : A → Enc} {f : A → List ℕ}
    → ((a : A) → Emits (put a) (f a))
    → (xs : List A) → Emits (put_each put xs) (each f xs)
unfolding put_each
Emits-each h [] = Emits-skip
Emits-each h (x ∷ xs) = Emits-seq (h x) (Emits-each h xs)

pub ruleset emits_rules = (
  Emits-skip, Emits-seq, Emits-uint32, Emits-uint64, Emits-fixed_opaque, Emits-opaque, Emits-string,
)
