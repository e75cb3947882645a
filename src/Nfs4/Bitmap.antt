-- ===== src/Nfs4/Bitmap.antt =====
-- Bitmaps of attribute ids, of src/nfs4/nfs4_attr.cpp: attribute `id` is bit `id % 32` of word
-- `id / 32`.
pub mod Sets
use nfsclient.Base.{
  ℕ, zero, suc, ◌+◌, ◌-◌, ◌/◌, ◌%◌, ◌^◌, bit_and, bit_or, Bool, false, not, none, some, List, [],
  ◌∷◌, ◌++◌, length, replicate, get_elem?, leb, ◌==◌, if◌then◌else◌,
}
use nfsclient.Xdr.Encoder.{Enc, ◌⨾◌, put_uint32, put_each}
use nfsclient.Xdr.Decoder.{Decode, ◌>>=◌, get_uint32, repeat}

-- `bm.resize(n, 0)` where `bm` is shorter than `n`.
abbrev pub grown : ℕ → List ℕ → List ℕ
grown n bm = if leb n (length bm) then bm else bm ++ replicate (n - length bm) 0

-- `bm[word] |= bit`
unfoldable pub or_at : ℕ → ℕ → List ℕ → List ℕ
or_at word b [] = []
or_at zero b (w ∷ ws) = bit_or w b ∷ ws
or_at (suc word) b (w ∷ ws) = w ∷ or_at word b ws

unfoldable pub bitmap4_set : List ℕ → ℕ → List ℕ
unfolding or_at
bitmap4_set bm id = or_at (id / 32) (2 ^ (id % 32)) (grown (id / 32 + 1) bm)

unfoldable pub bitmap4_test : List ℕ → ℕ → Bool
bitmap4_test bm id = if leb (length bm) (id / 32) then false else elim (get_elem? bm (id / 32)) [
  | none ↦ false
  | some w ↦ not (bit_and w (2 ^ (id % 32)) == 0)
]

unfoldable pub set_all : List ℕ → List ℕ → List ℕ
set_all bm [] = bm
set_all bm (id ∷ ids) = set_all (bitmap4_set bm id) ids

unfoldable pub make_bitmap4 : List ℕ → List ℕ
unfolding set_all
make_bitmap4 ids = set_all [] ids

unfoldable pub encode_bitmap4 : List ℕ → Enc
encode_bitmap4 bm = put_uint32 (length bm % 2 ^ 32) ⨾ put_each put_uint32 bm

unfoldable pub decode_bitmap4 : Decode (List ℕ)
decode_bitmap4 = do count ← get_uint32; repeat count get_uint32

unfoldable pub encode_attr_request : List ℕ → Enc
unfolding make_bitmap4 encode_bitmap4
encode_attr_request ids = encode_bitmap4 (make_bitmap4 ids)
