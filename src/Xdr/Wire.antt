-- ===== src/Xdr/Wire.antt =====
-- The XDR format itself (RFC 4506), written without the encoder: what each item looks like in bytes.
use nfsclient.Base.{ℕ, ◌/◌, ◌%◌, ◌^◌, ◌<◌, List, [], ◌∷◌, ◌++◌, length, replicate}
use nfsclient.Xdr.Encoder.{pad_size}

abbrev pub IsU32 : ℕ → Type 0
IsU32 v = v < 2 ^ 32

abbrev pub IsU64 : ℕ → Type 0
IsU64 v = v < 2 ^ 64

abbrev pub Fits32 : List ℕ → Type 0
Fits32 bs = length bs < 2 ^ 32

unfoldable pub uint32 : ℕ → List ℕ
uint32 v = (v / 2 ^ 24 % 256) ∷ (v / 2 ^ 16 % 256) ∷ (v / 2 ^ 8 % 256) ∷ (v % 256) ∷ []

unfoldable pub uint64 : ℕ → List ℕ
uint64 v = uint32 (v / 2 ^ 32) ++ uint32 (v % 2 ^ 32)

unfoldable pub padding : ℕ → List ℕ
padding size = replicate (pad_size size) 0

unfoldable pub fixed_opaque : List ℕ → List ℕ
fixed_opaque bs = bs ++ padding (length bs)

unfoldable pub opaque : List ℕ → List ℕ
opaque bs = uint32 (length bs) ++ fixed_opaque bs

abbrev pub each {ℓ} : {A : Type ℓ} → (A → List ℕ) → List A → List ℕ
each f [] = []
each f (x ∷ xs) = f x ++ each f xs

-- An optional item, and a list whose items are each announced by a 1 and that a 0 ends.
abbrev pub linked {ℓ} : {A : Type ℓ} → (A → List ℕ) → List A → List ℕ
linked f [] = uint32 0
linked f (x ∷ xs) = uint32 1 ++ (f x ++ linked f xs)
