-- ===== src/Xdr/Sizes.antt =====
-- How many bytes the items take: always a multiple of four.
use nfsclient.Base.{
  ℕ, ◌+◌, ◌*◌, ◌%◌, ◌≤◌, ◌≡◌, refl, List, [], ◌∷◌, length, length-append, length-replicate, arith,
}
use nfsclient.Xdr.Encoder.{pad_size}
use nfsclient.Xdr.Wire.{uint32, uint64, padding, fixed_opaque, opaque, each}

pub length-uint32 : (v : ℕ) → length (uint32 v) ≡ 4
unfolding uint32
length-uint32 v = refl

pub length-uint64 : (v : ℕ) → length (uint64 v) ≡ 8
unfolding uint64 uint32
length-uint64 v = refl

pub length-padding : (n : ℕ) → length (padding n) ≡ pad_size n
unfolding padding
length-padding n = length-replicate (pad_size n) 0

pub length-fixed_opaque :
    (bs : List ℕ)
    → (length (fixed_opaque bs) % 4 ≡ 0)
      × (length bs ≤ length (fixed_opaque bs))
      × (length (fixed_opaque bs) ≤ length bs + 3)
unfolding fixed_opaque
length-fixed_opaque bs =
    omega (arith, length-append bs (padding (length bs)), length-padding (length bs))

pub length-opaque :
    (bs : List ℕ)
    → (length (opaque bs) % 4 ≡ 0)
      × (length bs + 4 ≤ length (opaque bs))
      × (length (opaque bs) ≤ length bs + 7)
unfolding opaque
length-opaque bs = omega (
  arith,
  length-append (uint32 (length bs)) (fixed_opaque bs),
  length-uint32 (length bs),
  length-fixed_opaque bs,
)

pub length-each-uint32 : (vs : List ℕ) → length (each uint32 vs) ≡ 4 * length vs
length-each-uint32 [] = refl
length-each-uint32 (v ∷ vs) =
    omega (arith, length-append (uint32 v) (each uint32 vs), length-uint32 v, length-each-uint32 vs)
