-- ===== src/Xdr/RoundTrip.antt =====
-- The two classes of src/xdr against each other, for any sequence of their methods.
use nfsclient.Base.{
  ℕ, ◌%◌, ◌≡◌, refl, ap, ◌∙◌, List, [], ◌∷◌, ◌++◌, All, length, length-append, arith,
}
use nfsclient.Errors.{ok}
use nfsclient.Xdr.Encoder.{
  Enc, ◌⨾◌, skip, encoded, put_uint32, put_uint64, put_opaque, put_string, put_fixed_opaque,
}
use nfsclient.Xdr.Decoder.{
  Decode, pure, run, ◌>>=◌, get_uint32, get_uint64, get_opaque, get_string, get_fixed_opaque,
}
use nfsclient.Xdr.Wire.{IsU32, IsU64, Fits32, uint32, uint64, opaque, fixed_opaque}
use nfsclient.Xdr.Emits.{
  Emits, Emits-encoded, Emits-skip, Emits-seq, Emits-uint32, Emits-uint64, Emits-opaque,
  Emits-string, Emits-fixed_opaque,
}
use nfsclient.Xdr.Sizes.{length-uint32, length-uint64, length-opaque, length-fixed_opaque}
use nfsclient.Xdr.Carries.{
  Carries, Carries-uint32, Carries-uint64, Carries-opaque, Carries-string, Carries-fixed_opaque,
  Carries-skip, Carries-bind, Carries-last, run-Carries,
}

-- One call of a `put_` method, with its argument.
pub data Item : Type 0 where
  word hyper : ℕ → Item
  bytes text fixed : List ℕ → Item

abbrev pub IsItem : Item → Type 0
IsItem (Item.word v) = IsU32 v
IsItem (Item.hyper v) = IsU64 v
IsItem (Item.bytes bs) = Fits32 bs
IsItem (Item.text s) = Fits32 s
IsItem (Item.fixed bs) = Unit

unfoldable pub put_item : Item → Enc
put_item (Item.word v) = put_uint32 v
put_item (Item.hyper v) = put_uint64 v
put_item (Item.bytes bs) = put_opaque bs
put_item (Item.text s) = put_string s
put_item (Item.fixed bs) = put_fixed_opaque bs

-- The `get_` method of the same kind; of the argument it only uses the size of a fixed opaque.
unfoldable pub get_item : Item → Decode Item
get_item (Item.word v) = get_uint32 >>= λ x. pure (Item.word x)
get_item (Item.hyper v) = get_uint64 >>= λ x. pure (Item.hyper x)
get_item (Item.bytes bs) = get_opaque >>= λ x. pure (Item.bytes x)
get_item (Item.text s) = get_string >>= λ x. pure (Item.text x)
get_item (Item.fixed bs) = get_fixed_opaque (length bs) >>= λ x. pure (Item.fixed x)

unfoldable pub put_items : List Item → Enc
put_items [] = skip
put_items (i ∷ is) = put_item i ⨾ put_items is

unfoldable pub get_items : List Item → Decode (List Item)
get_items [] = pure []
get_items (i ∷ is) = do x ← get_item i; xs ← get_items is; pure (x ∷ xs)

Carries-item : (i : Item) → IsItem i → Carries (put_item i) (get_item i) i
unfolding put_item get_item
Carries-item (Item.word v) h = Carries-last _ (Carries-uint32 v h)
Carries-item (Item.hyper v) h = Carries-last _ (Carries-uint64 v h)
Carries-item (Item.bytes bs) h = Carries-last _ (Carries-opaque bs h)
Carries-item (Item.text s) h = Carries-last _ (Carries-string s h)
Carries-item (Item.fixed bs) h = Carries-last _ (Carries-fixed_opaque (length bs) bs refl)

Carries-items : (is : List Item) → All IsItem is → Carries (put_items is) (get_items is) is
unfolding put_items get_items
Carries-items [] h = Carries-skip []
Carries-items (i ∷ is) h =
    Carries-bind _ (Carries-item i h.0) (Carries-last _ (Carries-items is h.1))

-- Any sequence of `put_` calls is read back by the `get_` calls of the same kinds in the same
-- order, whatever bytes follow; for 32-bit and 64-bit words and for opaques and strings shorter
-- than 2 ^ 32 bytes.
pub get_items-put_items :
    (is : List Item) (rest : List ℕ)
    → All IsItem is
    → run (get_items is) (encoded (put_items is) ++ rest) ≡ ok is
get_items-put_items is rest h = run-Carries rest (Carries-items is h)

-- Some bytes that an encoder appends, a multiple of four of them.
record Aligned (f : Enc) : Type 0 where
  wire : List ℕ
  emits : Emits f wire
  four : length wire % 4 ≡ 0

Aligned-item : (i : Item) → IsItem i → Aligned (put_item i)
unfolding put_item
Aligned-item (Item.word v) h = record {
  wire = uint32 v;
  emits = Emits-uint32 v;
  four = omega (arith, length-uint32 v);
}
Aligned-item (Item.hyper v) h = record {
  wire = uint64 v;
  emits = Emits-uint64 v h;
  four = omega (arith, length-uint64 v);
}
Aligned-item (Item.bytes bs) h = record {
  wire = opaque bs;
  emits = Emits-opaque bs h;
  four = (length-opaque bs).0;
}
Aligned-item (Item.text s) h = record {
  wire = opaque s;
  emits = Emits-string s h;
  four = (length-opaque s).0;
}
Aligned-item (Item.fixed bs) h = record {
  wire = fixed_opaque bs;
  emits = Emits-fixed_opaque bs;
  four = (length-fixed_opaque bs).0;
}

Aligned-items : (is : List Item) → All IsItem is → Aligned (put_items is)
unfolding put_items
Aligned-items [] h = record { wire = []; emits = Emits-skip; four = refl }
Aligned-items (i ∷ is) h =
    let a = Aligned-item i h.0 in
    let more = Aligned-items is h.1 in
    record {
      wire = a.wire ++ more.wire;
      emits = Emits-seq a.emits more.emits;
      four = omega (arith, a.four, more.four, length-append a.wire more.wire);
    }

-- Whatever the sequence of `put_` calls, the buffer is a whole number of four-byte units; for the
-- same items.
pub length-put_items : (is : List Item) → All IsItem is → length (encoded (put_items is)) % 4 ≡ 0
length-put_items is h =
    let a = Aligned-items is h in
    ap (λ (bs : List ℕ). length bs % 4) (Emits-encoded a.emits) ∙ a.four
