-- ===== src/Xdr/Safe.antt =====
-- Memory safety of the decoder: on any bytes at all a decoder returns or throws. It never loads
-- outside its buffer, never moves back, and its loops end.
use nfsclient.Base.{
  ℕ, zero, suc, ◌+◌, ◌-◌, ◌≤◌, ◌<◌, ◌≡◌, ◌≢◌, refl, ap, ◌∙◌, ◌⊎◌, inl, inr, Bool, true, false, List,
  [], ◌∷◌, some, take, drop, length, get_elem?, leb, leb→le, le→leb, ◌==◌, Bool-cases,
  if◌then◌else◌, arith,
}
use nfsclient.Errors.{Result, ok, err, fault, Reason, Exception, Fault}
use nfsclient.Xdr.Encoder.{pad_size}
use nfsclient.Xdr.Decoder.{
  XdrDecoder, Decode, pure, raise, continue, run, within, ◌>>=◌, ◌>>◌, require, load, copy_range,
  advance, join32, get_uint32, get_uint64, get_opaque, get_string, get_fixed_opaque, repeat,
  linked_list, linked_list_loop, get_remaining,
}

-- `offset_ <= size_`
abbrev pub Fits : XdrDecoder → Type 0
Fits d = d.offset ≤ length d.buffer

abbrev pub Ends : {A : Type 0} → XdrDecoder → Result (A × XdrDecoder) → Type 0
Ends d (ok (a, d')) = (d'.buffer ≡ d.buffer) × (d.offset ≤ d'.offset) × Fits d'
Ends d (err e) = Unit
Ends d (fault x) = ⊥

pub record Safe {A : Type 0} (m : Decode A) : Type 0 where
  pub at : (d : XdrDecoder) → Fits d → Ends d (m d)

module _ {A : Type 0} where
  Ends-trans :
      (d d' : XdrDecoder) (r : Result (A × XdrDecoder))
      → d'.buffer ≡ d.buffer
      → d.offset ≤ d'.offset
      → Ends d' r
      → Ends d r
  Ends-trans d d' (ok (a, d2)) e o (e2, o2, h2) = (e2 ∙ e, omega arith, h2)
  Ends-trans d d' (err x) e o h = tt
  Ends-trans d d' (fault x) e o h = h

  pub Safe-pure : (a : A) → Safe (pure a)
  Safe-pure a = record { at = λ d h. (refl, omega arith, h) }

  pub Safe-raise : (e : Exception) → Safe {A = A} (raise e)
  Safe-raise e = record { at = λ d h. tt }

  pub Safe-if : (b : Bool) {m n : Decode A} → Safe m → Safe n → Safe (if b then m else n)
  Safe-if true sm sn = sm
  Safe-if false sm sn = sn

module _ {A B : Type 0} where
  pub Ends-continue :
      (d : XdrDecoder) (r : Result (A × XdrDecoder)) (f : A → Decode B)
      → Ends d r
      → ((a : A) → Safe (f a))
      → Ends d (continue r f)
  Ends-continue d (ok (a, d')) f (e, o, h) sf = Ends-trans d d' (f a d') e o ((sf a).at d' h)
  Ends-continue d (err x) f h sf = tt
  Ends-continue d (fault x) f h sf = h

  pub Safe-bind :
      (m : Decode A) (f : A → Decode B) → Safe m → ((a : A) → Safe (f a)) → Safe (m >>= f)
  unfolding ◌>>=◌
  Safe-bind m f sm sf = record { at = λ d h. Ends-continue d (m d) f (sm.at d h) sf }

get_elem?-lt : (xs : List ℕ) (i : ℕ) → i < length xs → (b : ℕ) × (get_elem? xs i ≡ some b)
get_elem?-lt [] i h = elim h [ ]
get_elem?-lt (x ∷ xs) zero h = (x, refl)
get_elem?-lt (x ∷ xs) (suc i) h = get_elem?-lt xs i (omega arith)

-- `get_uint32` throws, or takes four bytes.
pub get_uint32-advances :
    (d : XdrDecoder)
    → (get_uint32 d ≡ err (Exception.runtime_error Reason.buffer_underflow))
      ⊎ ((v : ℕ) × (get_uint32 d ≡ ok (v, record d { offset = d.offset + 4 }))
          × (d.offset + 4 ≤ length d.buffer))
unfolding get_uint32 ◌>>=◌
get_uint32-advances d = elim (Bool-cases (leb (d.offset + 4) (length d.buffer))) [
  | inr short ↦ inl (rw short)
  | inl enough ↦
      let le : d.offset + 4 ≤ length d.buffer = leb→le _ _ enough in
      let (b0, e0) = get_elem?-lt d.buffer (d.offset + 0) (omega arith) in
      let (b1, e1) = get_elem?-lt d.buffer (d.offset + 1) (omega arith) in
      let (b2, e2) = get_elem?-lt d.buffer (d.offset + 2) (omega arith) in
      let (b3, e3) = get_elem?-lt d.buffer (d.offset + 3) (omega arith) in
      inr (join32 b0 b1 b2 b3, rw (enough, e0, e1, e2, e3, load), le)
]

pub Safe-uint32 : Safe get_uint32
Safe-uint32 = record {
  at = λ d h. elim (get_uint32-advances d) [
    | inl e ↦ rw e tt
    | inr (v, e, le) ↦ rw e (refl, omega arith, le)
  ];
}

pub Safe-uint64 : Safe get_uint64
unfolding get_uint64
Safe-uint64 = Safe-bind _ _ Safe-uint32 (λ hi. Safe-bind _ _ Safe-uint32 (λ lo. Safe-pure _))

copy_range-enough :
    (n : ℕ) (d : XdrDecoder)
    → leb (d.offset + n) (length d.buffer) ≡ true
    → copy_range n d ≡ ok (take n (drop d.offset d.buffer), d)
unfolding copy_range
copy_range-enough n d e = rw e

module _ {B : Type 0} where
  Safe-skip : (n : ℕ) (m : Decode B) → Safe m → Safe (do require n; advance n; m)
  unfolding ◌>>=◌ require advance
  Safe-skip n m sm = record {
    at = λ d h. elim (Bool-cases (leb (d.offset + n) (length d.buffer))) [
      | inr short ↦ rw short tt
      | inl enough ↦ rw enough (
          Ends-trans d (record d { offset = d.offset + n }) (m (record d { offset = d.offset + n }))
            refl (omega arith)
            (sm.at (record d { offset = d.offset + n })
              (leb→le (d.offset + n) (length d.buffer) enough)))
    ];
  }

  Safe-copy :
      (n : ℕ) (f : List ℕ → Decode B)
      → ((bs : List ℕ) → Safe (f bs))
      → Safe (do require n; bs ← copy_range n; advance n; f bs)
  unfolding ◌>>=◌ require advance
  Safe-copy n f sf = record {
    at = λ d h. elim (Bool-cases (leb (d.offset + n) (length d.buffer))) [
      | inr short ↦ rw short tt
      | inl enough ↦
          let bs = take n (drop d.offset d.buffer) in
          rw (enough, copy_range-enough n d enough)
            (Ends-trans d (record d { offset = d.offset + n })
              (f bs (record d { offset = d.offset + n })) refl (omega arith)
              ((sf bs).at (record d { offset = d.offset + n })
                (leb→le (d.offset + n) (length d.buffer) enough)))
    ];
  }

pub Safe-fixed_opaque : (n : ℕ) → Safe (get_fixed_opaque n)
unfolding get_fixed_opaque
Safe-fixed_opaque n = Safe-copy n _ (λ bs. Safe-skip (pad_size n) _ (Safe-pure bs))

pub Safe-opaque : Safe get_opaque
unfolding get_opaque
Safe-opaque =
    Safe-bind _ _ Safe-uint32
      (λ len. Safe-copy len _ (λ bs. Safe-skip (pad_size len) _ (Safe-pure bs)))

pub Safe-string : Safe get_string
unfolding get_string
Safe-string = Safe-opaque

pub Safe-remaining : Safe get_remaining
unfolding get_remaining ◌>>=◌ copy_range
Safe-remaining = record {
  at = λ d h.
      let le : leb (d.offset + (length d.buffer - d.offset)) (length d.buffer) ≡ true =
        le→leb _ _ (omega arith) in
      rw le (refl, h, omega arith);
}

pub Safe-repeat : {A : Type 0} (n : ℕ) {m : Decode A} → Safe m → Safe (repeat n m)
unfolding repeat
Safe-repeat zero sm = Safe-pure []
Safe-repeat (suc n) sm =
    Safe-bind _ _ sm (λ x. Safe-bind _ _ (Safe-repeat n sm) (λ xs. Safe-pure (x ∷ xs)))

module _ {A B : Type 0} where
  Ends-continue_from :
      (d : XdrDecoder) (r : Result (A × XdrDecoder)) (f : A → Decode B)
      → Ends d r
      → ((a : A) (d' : XdrDecoder)
          → d'.buffer ≡ d.buffer
          → d.offset ≤ d'.offset
          → Fits d'
          → Ends d' (f a d'))
      → Ends d (continue r f)
  Ends-continue_from d (ok (a, d')) f (e, o, h) sf = Ends-trans d d' (f a d') e o (sf a d' e o h)
  Ends-continue_from d (err x) f h sf = tt
  Ends-continue_from d (fault x) f h sf = h

-- The fuel of the list loop is never used up: every round takes four bytes.
module _ {A : Type 0} (item : Decode A) (si : Safe item) where
  linked_list_round :
      (fuel : ℕ) (d : XdrDecoder)
      → Fits d
      → length d.buffer < d.offset + fuel
      → ((d' : XdrDecoder)
          → Fits d'
          → length d'.buffer < d'.offset + fuel
          → Ends d' (linked_list_loop fuel item d'))
      → Ends d ((do x ← item; xs ← linked_list_loop fuel item; pure (x ∷ xs)) d)
  unfolding ◌>>=◌
  linked_list_round fuel d h lt ih = Ends-continue_from d (item d) _ (si.at d h) λ x d' e o h'.
      let e' : length d'.buffer ≡ length d.buffer = ap length e in
      Ends-continue d' (linked_list_loop fuel item d') _ (ih d' h' (omega arith))
        (λ xs. Safe-pure (x ∷ xs))

  Safe-linked_list_loop :
      (fuel : ℕ) (d : XdrDecoder)
      → Fits d
      → length d.buffer < d.offset + fuel
      → Ends d (linked_list_loop fuel item d)
  unfolding linked_list_loop ◌>>=◌
  Safe-linked_list_loop zero d h lt = absurd (omega arith)
  Safe-linked_list_loop (suc fuel) d h lt = elim (get_uint32-advances d) [
    | inl e ↦ rw e tt
    | inr (v, e, le) ↦ elim (Bool-cases (v == 0)) [
      | inl z ↦ rw (e, z) (refl, omega arith, le)
      | inr z ↦
          let d1 : XdrDecoder = record d { offset = d.offset + 4 } in
          rw (e, z)
            (Ends-trans d d1 _ refl (omega arith)
              (linked_list_round fuel d1 le (omega arith) (Safe-linked_list_loop fuel)))
    ]
  ]

  pub Safe-linked_list : Safe (linked_list item)
  unfolding linked_list
  Safe-linked_list = record {
    at = λ d h. Safe-linked_list_loop (suc (length d.buffer)) d h (omega arith);
  }

abbrev strip : {A : Type 0} → Result (A × XdrDecoder) → Result A
strip (ok (a, d)) = ok a
strip (err e) = err e
strip (fault x) = fault x

strip-Ends :
    {A : Type 0} (d : XdrDecoder) (r : Result (A × XdrDecoder)) (x : Fault)
    → Ends d r
    → strip r ≢ fault x
strip-Ends d (ok (a, d')) x h = λ e. cc
strip-Ends d (err y) x h = λ e. cc
strip-Ends d (fault y) x h = absurd h

-- Run on any bytes, a safe decoder returns or throws.
pub run-Safe :
    {A : Type 0} {m : Decode A} (bytes : List ℕ) (x : Fault) → Safe m → run m bytes ≢ fault x
run-Safe {m = m} bytes x sm =
    let d : XdrDecoder = record { buffer = bytes; offset = 0 } in
    strip-Ends d (m d) x (sm.at d (omega arith))

abbrev inside : {A : Type 0} → XdrDecoder → Result A → Result (A × XdrDecoder)
inside d (ok a) = ok (a, d)
inside d (err e) = err e
inside d (fault x) = fault x

Ends-within :
    {A : Type 0} (d : XdrDecoder) (r : Result A)
    → ((x : Fault) → r ≢ fault x)
    → Fits d
    → Ends d (inside d r)
Ends-within d (ok a) h fits = (refl, omega arith, fits)
Ends-within d (err e) h fits = tt
Ends-within d (fault x) h fits = h x refl

pub Safe-within : {A : Type 0} (m : Decode A) (bytes : List ℕ) → Safe m → Safe (within m bytes)
Safe-within m bytes sm = record {
  at = λ d h. Ends-within d (run m bytes) (λ x. run-Safe bytes x sm) h;
}
