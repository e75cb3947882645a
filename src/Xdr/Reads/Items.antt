-- ===== src/Xdr/Reads/Items.antt =====
-- Each `get_` method reads back what the format says for its item.
use nfsclient.Base.{
  bit_or, ℕ, zero, suc, ◌+◌, ◌-◌, ◌*◌, ◌/◌, ◌%◌, ◌^◌, ◌≤◌, ◌<◌, ◌≡◌, refl, sym, ap, ◌∙◌, subst,
  List, [], ◌∷◌, ◌++◌, All, length, take, drop, some, get_elem?, append-nil, append_assoc,
  length-append, length-replicate, take-append, drop-append, drop-drop, le→leb, arith,
}
use nfsclient.Base.Bits.{bit_or_shifted}
use nfsclient.Errors.{ok}
use nfsclient.Xdr.Encoder.{pad_size}
use nfsclient.Xdr.Decoder.{
  XdrDecoder, Decode, pure, ◌>>=◌, ◌>>◌, require, load, copy_range, advance, join32, get_uint32,
  get_uint64, get_opaque, get_string, get_fixed_opaque, repeat, linked_list, linked_list_loop,
  get_remaining,
}
use nfsclient.Xdr.Wire.{
  IsU32, IsU64, Fits32, uint32, uint64, padding, fixed_opaque, opaque, each, linked,
}
use nfsclient.Xdr.Reads.{Left, Reads, Reads-bind, Reads-last, Reads-done, Reads-pure, Finishes}

module _ (d : XdrDecoder) where
  Left-length : (xs ys : List ℕ) → Left d (xs ++ ys) → d.offset + length xs ≤ length d.buffer
  Left-length xs ys l = omega (arith, l.0, length-append xs ys)

  Left-drop :
      (n : ℕ) (xs ys : List ℕ)
      → length xs ≡ n
      → Left d (xs ++ ys)
      → Left (record d { offset = d.offset + n }) ys
  Left-drop n xs ys h l = (
    omega (arith, l.0, length-append xs ys),
    sym (drop-drop n d.offset (d.offset + n) d.buffer refl)
        ∙ ap (drop n) l.1
        ∙ ap (λ (k : ℕ). drop k (xs ++ ys)) (sym h)
        ∙ drop-append xs ys,
  )

get_elem?-drop : (i n k : ℕ) (xs : List ℕ) → n + i ≡ k → get_elem? (drop n xs) i ≡ get_elem? xs k
get_elem?-drop i zero k xs e = let e' : i ≡ k = omega arith in rw e'
get_elem?-drop i (suc n) k [] e = refl
get_elem?-drop i (suc n) zero (x ∷ xs) e = absurd (omega arith)
get_elem?-drop i (suc n) (suc k) (x ∷ xs) e = get_elem?-drop i n k xs (omega arith)

load-Left :
    (d : XdrDecoder) (i b : ℕ) (bs : List ℕ)
    → Left d bs
    → get_elem? bs i ≡ some b
    → load i d ≡ ok (b, d)
unfolding load
load-Left d i b bs l e =
    let e' : get_elem? d.buffer (d.offset + i) ≡ some b =
      sym (get_elem?-drop i d.offset (d.offset + i) d.buffer refl)
      ∙ ap (λ (t : List ℕ). get_elem? t i) l.1
      ∙ e in
    rw (e', load)

require-Left :
    (d : XdrDecoder) (n : ℕ) (xs ys : List ℕ)
    → length xs ≡ n
    → Left d (xs ++ ys)
    → require n d ≡ ok (tt, d)
unfolding require
require-Left d n xs ys h l =
    rw (le→leb (d.offset + n) (length d.buffer) (omega (arith, Left-length d xs ys l)))

copy_range-Left :
    (d : XdrDecoder) (n : ℕ) (xs ys : List ℕ)
    → length xs ≡ n
    → Left d (xs ++ ys)
    → copy_range n d ≡ ok (xs, d)
unfolding copy_range
copy_range-Left d n xs ys h l =
    let e : take n (drop d.offset d.buffer) ≡ xs =
      ap (take n) l.1 ∙ ap (λ (k : ℕ). take k (xs ++ ys)) (sym h) ∙ take-append xs ys in
    rw (le→leb (d.offset + n) (length d.buffer) (omega (arith, Left-length d xs ys l)), e)

-- The four bytes that `put_uint32` splits a word into are put together again.
pub join32-split :
    (v : ℕ) → IsU32 v → join32 (v / 2 ^ 24 % 256) (v / 2 ^ 16 % 256) (v / 2 ^ 8 % 256) (v % 256) ≡ v
unfolding join32
join32-split v h =
    let b0 : ℕ = v / 2 ^ 24 % 256 in
    let b1 : ℕ = v / 2 ^ 16 % 256 in
    let b2 : ℕ = v / 2 ^ 8 % 256 in
    let b3 : ℕ = v % 256 in
    let e0 : bit_or (b0 * 2 ^ 24) (b1 * 2 ^ 16) ≡ (b0 * 2 ^ 8 + b1) * 2 ^ 16 =
      bit_or_shifted 24 b0 (b1 * 2 ^ 16) (omega arith) ∙ omega arith in
    let e1 : bit_or ((b0 * 2 ^ 8 + b1) * 2 ^ 16) (b2 * 2 ^ 8)
        ≡ ((b0 * 2 ^ 8 + b1) * 2 ^ 8 + b2) * 2 ^ 8 =
      bit_or_shifted 16 (b0 * 2 ^ 8 + b1) (b2 * 2 ^ 8) (omega arith) ∙ omega arith in
    let e2 : bit_or (((b0 * 2 ^ 8 + b1) * 2 ^ 8 + b2) * 2 ^ 8) b3 ≡ v =
      bit_or_shifted 8 ((b0 * 2 ^ 8 + b1) * 2 ^ 8 + b2) b3 (omega arith) ∙ omega arith in
    ap (λ (t : ℕ). bit_or (bit_or t (b2 * 2 ^ 8)) b3) e0 ∙ ap (λ (t : ℕ). bit_or t b3) e1 ∙ e2

pub Reads-uint32 : (v : ℕ) → IsU32 v → Reads get_uint32 (uint32 v) v
unfolding uint32
Reads-uint32 v h = record {
  at = λ d rest l.
      (record d { offset = d.offset + 4 }, read d rest l, Left-drop d 4 (uint32 v) rest refl l);
}
  where
    read :
        (d : XdrDecoder) (rest : List ℕ)
        → Left d (uint32 v ++ rest)
        → get_uint32 d ≡ ok (v, record d { offset = d.offset + 4 })
    read d rest l =
        unfold get_uint32 ◌>>=◌ in
        rw (
          require-Left d 4 (uint32 v) rest refl l,
          load-Left d 0 _ _ l refl,
          load-Left d 1 _ _ l refl,
          load-Left d 2 _ _ l refl,
          load-Left d 3 _ _ l refl,
          join32-split v h,
        )

pub Reads-uint64 : (v : ℕ) → IsU64 v → Reads get_uint64 (uint64 v) v
unfolding get_uint64 uint64
Reads-uint64 v h =
    let e : bit_or (v / 2 ^ 32 * 2 ^ 32) (v % 2 ^ 32) ≡ v =
      bit_or_shifted 32 (v / 2 ^ 32) (v % 2 ^ 32) (omega arith) ∙ omega arith in
    subst (Reads get_uint64 (uint64 v)) e (
      Reads-bind _ (Reads-uint32 (v / 2 ^ 32) (omega arith))
        (Reads-last _ (Reads-uint32 (v % 2 ^ 32) (omega arith))))

-- Moving over bytes that are known to be there.
Reads-skip :
    {B : Type 0} (n : ℕ) (xs : List ℕ) (b : B)
    → length xs ≡ n
    → Reads (do require n; advance n; pure b) xs b
Reads-skip n xs b h = record {
  at = λ d rest l. (
    record d { offset = d.offset + n },
    unfold ◌>>=◌ advance in rw (require-Left d n xs rest h l),
    Left-drop d n xs rest h l,
  );
}

Reads-copy :
    {B : Type 0} (n : ℕ) (xs cs : List ℕ) (f : List ℕ → Decode B) {b : B}
    → length xs ≡ n
    → Reads (f xs) cs b
    → Reads (do require n; result ← copy_range n; advance n; f result) (xs ++ cs) b
Reads-copy n xs cs f h r = record {
  at = λ d rest l.
      let l' : Left d (xs ++ (cs ++ rest)) = subst (Left d) (append_assoc xs cs rest) l in
      let (d', e, l2) =
        r.at (record d { offset = d.offset + n }) rest (Left-drop d n xs (cs ++ rest) h l') in
      (
        d',
        unfold ◌>>=◌ advance in
            rw (require-Left d n xs (cs ++ rest) h l', copy_range-Left d n xs (cs ++ rest) h l') e,
        l2,
      );
}

Reads-padded :
    (n : ℕ) (xs : List ℕ)
    → length xs ≡ n
    → Reads
        (do
          require n
          result ← copy_range n
          advance n
          require (pad_size n)
          advance (pad_size n)
          pure result)
        (xs ++ padding n)
        xs
Reads-padded n xs h =
    Reads-copy n xs (padding n) _ h
      (Reads-skip (pad_size n) (padding n) xs (unfold padding in length-replicate (pad_size n) 0))

pub Reads-fixed_opaque :
    (n : ℕ) (xs : List ℕ) → length xs ≡ n → Reads (get_fixed_opaque n) (fixed_opaque xs) xs
unfolding get_fixed_opaque fixed_opaque
Reads-fixed_opaque n xs h =
    subst (λ (k : ℕ). Reads (get_fixed_opaque n) (xs ++ padding k) xs) (sym h) (Reads-padded n xs h)

pub Reads-opaque : (xs : List ℕ) → Fits32 xs → Reads get_opaque (opaque xs) xs
unfolding get_opaque opaque fixed_opaque
Reads-opaque xs h = Reads-bind _ (Reads-uint32 (length xs) h) (Reads-padded (length xs) xs refl)

pub Reads-string : (xs : List ℕ) → Fits32 xs → Reads get_string (opaque xs) xs
unfolding get_string
Reads-string xs h = Reads-opaque xs h

-- `get_remaining` takes whatever is left.
run-get_remaining :
    (d : XdrDecoder) (bs : List ℕ)
    → Left d bs
    → get_remaining d ≡ ok (bs, record d { offset = length d.buffer })
unfolding get_remaining ◌>>=◌
run-get_remaining d bs l =
    let l' : Left d (bs ++ []) = subst (Left d) (sym (append-nil bs)) l in
    let n : length d.buffer - d.offset ≡ length bs = omega (arith, l.0) in
    rw (n, copy_range-Left d (length bs) bs [] refl l')

pub Finishes-remaining : (bs : List ℕ) → Finishes get_remaining bs bs
Finishes-remaining bs = record {
  at = λ d l. (record d { offset = length d.buffer }, run-get_remaining d bs l);
}

-- A list whose items are each announced by a 1 and that a 0 ends.
Reads-linked_list_loop :
    {A : Type 0} (item : Decode A) (f : A → List ℕ) (P : A → Type 0)
    → ((a : A) → P a → Reads item (f a) a)
    → (xs : List A) (fuel : ℕ) → All P xs
    → length xs < fuel
    → Reads (linked_list_loop fuel item) (linked f xs) xs
unfolding linked_list_loop
Reads-linked_list_loop item f P r xs zero h lt = absurd (omega arith)
Reads-linked_list_loop item f P r [] (suc fuel) h lt =
    Reads-done _ (Reads-uint32 0 (omega arith)) (Reads-pure [])
Reads-linked_list_loop item f P r (x ∷ xs) (suc fuel) h lt =
    Reads-bind _ (Reads-uint32 1 (omega arith)) (
      Reads-bind _ (r x h.0)
        (Reads-last _ (Reads-linked_list_loop item f P r xs fuel h.1 (omega arith))))

length-linked : {A : Type 0} (f : A → List ℕ) (xs : List A) → length xs ≤ length (linked f xs)
unfolding uint32
length-linked f [] = omega arith
length-linked f (x ∷ xs) = omega (arith, length-linked f xs, length-append (f x) (linked f xs))

pub Reads-linked_list :
    {A : Type 0} {item : Decode A} (f : A → List ℕ) (P : A → Type 0)
    → ((a : A) → P a → Reads item (f a) a)
    → (xs : List A) → All P xs
    → Reads (linked_list item) (linked f xs) xs
unfolding linked_list
Reads-linked_list {item = item} f P r xs h = record {
  at = λ d rest l.
      let lt : length xs < suc (length d.buffer) =
        omega (arith, length-linked f xs, Left-length d (linked f xs) rest l) in
      (Reads-linked_list_loop item f P r xs (suc (length d.buffer)) h lt).at d rest l;
}

pub Reads-repeat :
    {A : Type 0} {item : Decode A} (f : A → List ℕ) (P : A → Type 0)
    → ((a : A) → P a → Reads item (f a) a)
    → (xs : List A) → All P xs
    → Reads (repeat (length xs) item) (each f xs) xs
unfolding repeat
Reads-repeat f P r [] h = Reads-pure []
Reads-repeat f P r (x ∷ xs) h = Reads-bind _ (r x h.0) (Reads-last _ (Reads-repeat f P r xs h.1))
