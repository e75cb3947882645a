-- ===== src/Xdr/Encoder.antt =====
-- `XdrEncoder`. Its only field is the buffer, so an encoder is the list of the bytes written so far,
-- and a `put_` method is a function from the buffer before to the buffer after.
use nfsclient.Base.{ℕ, zero, suc, ◌-◌, ◌/◌, ◌%◌, ◌^◌, List, [], ◌∷◌, ◌++◌, length}

abbrev pub XdrEncoder : Type 0
XdrEncoder = List ℕ

abbrev pub Enc : Type 0
Enc = XdrEncoder → XdrEncoder

-- One statement after another.
infixr 20 ◌⨾◌
abbrev pub ◌⨾◌ : Enc → Enc → Enc
◌⨾◌ f g buf = g (f buf)

abbrev pub skip : Enc
skip buf = buf

-- The bytes that a fresh encoder holds after `f`: `bytes()` and `release()`.
abbrev pub encoded : Enc → List ℕ
encoded f = f []

abbrev push_back : ℕ → Enc
push_back b buf = buf ++ (b ∷ [])

abbrev insert_end : List ℕ → Enc
insert_end bs buf = buf ++ bs

unfoldable pub put_uint32 : ℕ → Enc
put_uint32 v =
    push_back (v / 2 ^ 24 % 256)
    ⨾ push_back (v / 2 ^ 16 % 256)
    ⨾ push_back (v / 2 ^ 8 % 256)
    ⨾ push_back (v % 256)

unfoldable pub put_uint64 : ℕ → Enc
put_uint64 v = put_uint32 (v / 2 ^ 32 % 2 ^ 32) ⨾ put_uint32 (v % 2 ^ 32)

-- `(4 - (size % 4)) % 4`
abbrev pub pad_size : ℕ → ℕ
pad_size size = (4 - size % 4) % 4

unfoldable pub push_zeros : ℕ → Enc
push_zeros zero = skip
push_zeros (suc n) = push_back 0 ⨾ push_zeros n

unfoldable pub put_opaque : List ℕ → Enc
put_opaque bs = put_uint32 (length bs % 2 ^ 32) ⨾ insert_end bs ⨾ push_zeros (pad_size (length bs))

unfoldable pub put_string : List ℕ → Enc
put_string s = put_opaque s

unfoldable pub put_fixed_opaque : List ℕ → Enc
put_fixed_opaque bs = insert_end bs ⨾ push_zeros (pad_size (length bs))

-- `for (x : xs) put(x);`
unfoldable pub put_each {ℓ} : {A : Type ℓ} → (A → Enc) → List A → Enc
put_each put [] = skip
put_each put (x ∷ xs) = put x ⨾ put_each put xs
