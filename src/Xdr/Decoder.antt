-- ===== src/Xdr/Decoder.antt =====
-- `XdrDecoder`: a buffer and an offset into it. A `get_` method moves the offset or throws.
-- A load outside the buffer is a fault of the model, as it is undefined in C++.
use nfsclient.Base.{
  ℕ, zero, suc, ◌+◌, ◌-◌, ◌*◌, ◌^◌, bit_or, List, [], ◌∷◌, none, some, length, get_elem?, take,
  drop, leb, ◌==◌, if◌then◌else◌,
}
use nfsclient.Errors.{Result, ok, err, fault, Reason, Exception, Fault}
use nfsclient.Xdr.Encoder.{pad_size}

-- `size_` is the length of `buffer`.
pub record XdrDecoder : Type 0 where
  pub buffer : List ℕ
  pub offset : ℕ

abbrev pub Decode {ℓ} : Type ℓ → Type ℓ
Decode A = XdrDecoder → Result (A × XdrDecoder)

abbrev pub pure {ℓ} : {A : Type ℓ} → A → Decode A
pure a d = ok (a, d)

abbrev pub raise {ℓ} : {A : Type ℓ} → Exception → Decode A
raise e d = err e

abbrev pub continue {ℓ κ} :
    {A : Type ℓ} {B : Type κ} → Result (A × XdrDecoder) → (A → Decode B) → Result (B × XdrDecoder)
continue (ok (a, d)) f = f a d
continue (err e) f = err e
continue (fault x) f = fault x

infixl 10 ◌>>=◌ ◌>>◌
unfoldable pub ◌>>=◌ {ℓ κ} : {A : Type ℓ} {B : Type κ} → Decode A → (A → Decode B) → Decode B
◌>>=◌ m f d = continue (m d) f

abbrev pub ◌>>◌ {ℓ κ} : {A : Type ℓ} {B : Type κ} → Decode A → Decode B → Decode B
m >> n = m >>= λ _. n

-- `offset_ + n > size_`, on `size_t` sums that cannot wrap: `n` is below 2 ^ 32.
unfoldable pub require : ℕ → Decode (Unit {0})
require n d =
    if leb (d.offset + n) (length d.buffer)
    then ok (tt, d)
    else err (Exception.runtime_error Reason.buffer_underflow)

-- `data_[offset_ + i]`
unfoldable pub load : ℕ → Decode ℕ
load i d = elim (get_elem? d.buffer (d.offset + i)) [
  | none ↦ fault Fault.out_of_bounds
  | some b ↦ ok (b, d)
]

-- `std::vector<uint8_t>(data_ + offset_, data_ + offset_ + n)`
unfoldable pub copy_range : ℕ → Decode (List ℕ)
copy_range n d =
    if leb (d.offset + n) (length d.buffer)
    then ok (take n (drop d.offset d.buffer), d)
    else fault Fault.out_of_bounds

-- `offset_ += n`
unfoldable pub advance : ℕ → Decode (Unit {0})
advance n d = ok (tt, record d { offset = d.offset + n })

-- `(b0 << 24) | (b1 << 16) | (b2 << 8) | b3`
unfoldable pub join32 : ℕ → ℕ → ℕ → ℕ → ℕ
join32 b0 b1 b2 b3 = bit_or (bit_or (bit_or (b0 * 2 ^ 24) (b1 * 2 ^ 16)) (b2 * 2 ^ 8)) b3

unfoldable pub get_uint32 : Decode ℕ
unfolding require load advance
get_uint32 = do
  require 4
  b0 ← load 0
  b1 ← load 1
  b2 ← load 2
  b3 ← load 3
  advance 4
  pure (join32 b0 b1 b2 b3)

unfoldable pub get_uint64 : Decode ℕ
get_uint64 = do hi ← get_uint32; lo ← get_uint32; pure (bit_or (hi * 2 ^ 32) lo)

unfoldable pub get_fixed_opaque : ℕ → Decode (List ℕ)
get_fixed_opaque n = do
  require n
  result ← copy_range n
  advance n
  require (pad_size n)
  advance (pad_size n)
  pure result

unfoldable pub get_opaque : Decode (List ℕ)
get_opaque = do
  len ← get_uint32
  require len
  result ← copy_range len
  advance len
  require (pad_size len)
  advance (pad_size len)
  pure result

unfoldable pub get_string : Decode (List ℕ)
get_string = get_opaque

-- `size_ - offset_` bytes, to the end of the buffer.
unfoldable pub get_remaining : Decode (List ℕ)
get_remaining = do
  n ← λ d. ok (length d.buffer - d.offset, d)
  result ← copy_range n
  λ d. ok (result, record d { offset = length d.buffer })

-- `XdrDecoder dec(bytes); …`, whose result is what the function returns.
abbrev pub run {ℓ} : {A : Type ℓ} → Decode A → List ℕ → Result A
run m bytes = elim (m (record { buffer = bytes; offset = 0 })) [
  | ok (a, d) ↦ ok a
  | err e ↦ err e
  | fault x ↦ fault x
]

-- A second decoder over bytes that the first one read.
abbrev pub within {ℓ} : {A : Type ℓ} → Decode A → List ℕ → Decode A
within m bytes d = elim (run m bytes) [ ok a ↦ ok (a, d) | err e ↦ err e | fault x ↦ fault x ]

-- `for (uint32_t i = 0; i < n; ++i) m;`
unfoldable pub repeat {ℓ} : {A : Type ℓ} → ℕ → Decode A → Decode (List A)
repeat zero m = pure []
repeat (suc n) m = do x ← m; xs ← repeat n m; pure (x ∷ xs)

-- `while (dec.get_uint32() != 0) { out.push_back(item); }`
unfoldable pub linked_list_loop {ℓ} : {A : Type ℓ} → ℕ → Decode A → Decode (List A)
linked_list_loop zero item = λ d. fault Fault.out_of_fuel
linked_list_loop (suc fuel) item = do
  follows ← get_uint32
  if follows == 0 then pure [] else do x ← item; xs ← linked_list_loop fuel item; pure (x ∷ xs)

-- A round takes four bytes at least, so the size of the buffer is fuel enough.
unfoldable pub linked_list {ℓ} : {A : Type ℓ} → Decode A → Decode (List A)
linked_list item d = linked_list_loop (suc (length d.buffer)) item d
