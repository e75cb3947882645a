-- ===== src/Nfs4/Bitmap/Sets.antt =====
-- A bitmap is a set of ids.
use nfsclient.Base.{
  ℕ, zero, suc, ◌+◌, ◌-◌, ◌*◌, ◌/◌, ◌%◌, ◌^◌, ◌≤◌, ◌<◌, bit_and, bit_or, ◌≡◌, ◌≢◌, refl, sym, ap,
  ◌∙◌, Bool, true, false, not, ◌||◌, none, some, List, [], ◌∷◌, ◌++◌, length, replicate, get_elem?,
  leb, ◌==◌, if◌then◌else◌, length-append, length-replicate, Bool-cases, inl, inr, arith, leb→le,
  gt→leb, le→leb, ne→==, ==_iff, ==→ne,
}
use native.Mathlib.Nat.{pow-suc}
use nfsclient.Base.Bits.{
  bit, bit-zero, bit-bit_or, bit-power_self, bit-power_ne, bit-lt-two, bit_and_power,
}
use nfsclient.Nfs4.Bitmap.{grown, or_at, bitmap4_set, bitmap4_test, set_all, make_bitmap4}

-- The word at a place, 0 where the bitmap ends.
abbrev pub word_at : List ℕ → ℕ → ℕ
word_at [] i = 0
word_at (w ∷ ws) zero = w
word_at (w ∷ ws) (suc i) = word_at ws i

-- `bm[i] & b` where there is a word `i`.
abbrev test_at : List ℕ → ℕ → ℕ → Bool
test_at bm i b =
    if leb (length bm) i
    then false
    else elim (get_elem? bm i) [ none ↦ false | some w ↦ not (bit_and w b == 0) ]

pow_pos : (k : ℕ) → 0 < 2 ^ k
pow_pos zero = omega arith
pow_pos (suc k) = omega (arith, pow-suc 2 k, pow_pos k)

masked : (w k : ℕ) → (bit_and w (2 ^ k) == 0) ≡ (bit w k == 0)
masked w k = rw (bit_and_power w k) (by_bit (bit w k) (bit-lt-two w k))
  where
    by_bit : (b : ℕ) → b < 2 → (b * 2 ^ k == 0) ≡ (b == 0)
    by_bit zero lt = (let e : 0 * 2 ^ k ≡ 0 = omega arith in rw e)
    by_bit (suc zero) lt = ne→== (1 * 2 ^ k) 0 (omega (arith, pow_pos k))
    by_bit (suc (suc b)) lt = absurd (omega arith)

test_at-bit : (bm : List ℕ) (i k : ℕ) → test_at bm i (2 ^ k) ≡ not (bit (word_at bm i) k == 0)
test_at-bit [] i k = rw (le→leb 0 i (omega arith), bit-zero k)
test_at-bit (w ∷ ws) zero k = rw (gt→leb (length (w ∷ ws)) 0 (omega arith)) (ap not (masked w k))
test_at-bit (w ∷ ws) (suc i) k = rw (leb-suc (length ws) i) (test_at-bit ws i k)
  where
    leb-suc : (a b : ℕ) → leb (suc a) (suc b) ≡ leb a b
    leb-suc a b = ground arith

word_at-append : (bm : List ℕ) (m i : ℕ) → word_at (bm ++ replicate m 0) i ≡ word_at bm i
word_at-append [] zero i = refl
word_at-append [] (suc m) zero = refl
word_at-append [] (suc m) (suc i) = word_at-append [] m i
word_at-append (w ∷ ws) m zero = refl
word_at-append (w ∷ ws) m (suc i) = word_at-append ws m i

word_at-grown : (n : ℕ) (bm : List ℕ) (i : ℕ) → word_at (grown n bm) i ≡ word_at bm i
word_at-grown n bm i = elim (Bool-cases (leb n (length bm))) [
  | inl e ↦ rw e refl
  | inr e ↦ rw e (word_at-append bm (n - length bm) i)
]

length-grown : (n : ℕ) (bm : List ℕ) → n ≤ length (grown n bm)
length-grown n bm = elim (Bool-cases (leb n (length bm))) [
  | inl e ↦ rw e (leb→le n (length bm) e)
  | inr e ↦ rw e (
      omega (
        arith,
        length-append bm (replicate (n - length bm) 0),
        length-replicate {A = ℕ} (n - length bm) 0,
      ))
]

word_at-or_at-same :
    (i b : ℕ) (bm : List ℕ) → i < length bm → word_at (or_at i b bm) i ≡ bit_or (word_at bm i) b
unfolding or_at
word_at-or_at-same i b [] lt = absurd (omega arith)
word_at-or_at-same zero b (w ∷ ws) lt = refl
word_at-or_at-same (suc i) b (w ∷ ws) lt = word_at-or_at-same i b ws (omega arith)

word_at-or_at-other : (i b j : ℕ) (bm : List ℕ) → i ≢ j → word_at (or_at i b bm) j ≡ word_at bm j
unfolding or_at
word_at-or_at-other i b j [] ne = refl
word_at-or_at-other zero b zero (w ∷ ws) ne = absurd (ne refl)
word_at-or_at-other zero b (suc j) (w ∷ ws) ne = refl
word_at-or_at-other (suc i) b zero (w ∷ ws) ne = refl
word_at-or_at-other (suc i) b (suc j) (w ∷ ws) ne =
    word_at-or_at-other i b j ws (λ e. ne (ap suc e))

-- What `bm` holds of an id: the bit `id % 32` of its word `id / 32`, from the lowest bit.
abbrev pub holds : List ℕ → ℕ → ℕ
holds bm j = bit (word_at bm (j / 32)) (j % 32)

holds-set-same : (bm : List ℕ) (id : ℕ) → holds (bitmap4_set bm id) id ≡ 1
unfolding bitmap4_set
holds-set-same bm id =
    let i : ℕ = id / 32 in
    let k : ℕ = id % 32 in
    let bm' : List ℕ = grown (i + 1) bm in
    ap (λ (w : ℕ). bit w k)
      (word_at-or_at-same i (2 ^ k) bm' (omega (arith, length-grown (i + 1) bm)))
    ∙ bit-bit_or (word_at bm' i) (2 ^ k) k
    ∙ omega (arith, bit-power_self k, bit-lt-two (word_at bm' i) k)

holds-set-other : (bm : List ℕ) (id j : ℕ) → id ≢ j → holds (bitmap4_set bm id) j ≡ holds bm j
unfolding bitmap4_set
holds-set-other bm id j ne = elim (Bool-cases (id / 32 == j / 32)) [
  | inl e ↦
      let i : ℕ = id / 32 in
      let bm' : List ℕ = grown (i + 1) bm in
      let same : i ≡ j / 32 = (==_iff i (j / 32)).0 e in
      let differ : id % 32 ≢ j % 32 = λ r. ne (omega arith) in
      rw (← same) (
        ap (λ (w : ℕ). bit w (j % 32))
          (word_at-or_at-same i (2 ^ (id % 32)) bm' (omega (arith, length-grown (i + 1) bm)))
        ∙ bit-bit_or (word_at bm' i) (2 ^ (id % 32)) (j % 32)
        ∙ omega (arith, bit-power_ne (id % 32) (j % 32) differ)
        ∙ ap (λ (w : ℕ). bit w (j % 32)) (word_at-grown (i + 1) bm i))
  | inr e ↦
      let differ : id / 32 ≢ j / 32 = ==→ne (id / 32) (j / 32) e in
      ap (λ (w : ℕ). bit w (j % 32))
        (word_at-or_at-other (id / 32) (2 ^ (id % 32)) (j / 32) _ differ
          ∙ word_at-grown _ bm (j / 32))
]

-- `j` is one of the ids.
abbrev pub contains : List ℕ → ℕ → Bool
contains [] j = false
contains (id ∷ ids) j = (id == j) || contains ids j

-- A `bitmap4` of RFC 7530 names an id.
abbrev pub names : List ℕ → ℕ → Bool
names bm j = not (holds bm j == 0)

pub bitmap4_test-names : (bm : List ℕ) (j : ℕ) → bitmap4_test bm j ≡ names bm j
unfolding bitmap4_test
bitmap4_test-names bm j = test_at-bit bm (j / 32) (j % 32)

-- Setting an id changes what is said of this id alone: it is in the bitmap now, in words that are
-- added where there were too few, and every other id is in it as before.
pub bitmap4_test-bitmap4_set :
    (bm : List ℕ) (id j : ℕ) → bitmap4_test (bitmap4_set bm id) j ≡ ((id == j) || bitmap4_test bm j)
bitmap4_test-bitmap4_set bm id j = elim (Bool-cases (id == j)) [
  | inl e ↦
      let same : id ≡ j = (==_iff id j).0 e in
      rw (e, ← same)
        (bitmap4_test-names (bitmap4_set bm id) id
          ∙ ap (λ (n : ℕ). not (n == 0)) (holds-set-same bm id))
  | inr e ↦ rw e (
      bitmap4_test-names (bitmap4_set bm id) j
      ∙ ap (λ (n : ℕ). not (n == 0)) (holds-set-other bm id j (==→ne id j e))
      ∙ sym (bitmap4_test-names bm j))
]

or_swap : (a b c : Bool) → (a || (b || c)) ≡ ((b || a) || c)
or_swap true true c = refl
or_swap true false c = refl
or_swap false true c = refl
or_swap false false c = refl

or_false : (a : Bool) → (a || false) ≡ a
or_false true = refl
or_false false = refl

test-set_all :
    (ids bm : List ℕ) (j : ℕ)
    → bitmap4_test (set_all bm ids) j ≡ (contains ids j || bitmap4_test bm j)
unfolding set_all
test-set_all [] bm j = refl
test-set_all (id ∷ ids) bm j =
    test-set_all ids (bitmap4_set bm id) j
    ∙ rw (bitmap4_test-bitmap4_set bm id j) (or_swap (contains ids j) (id == j) (bitmap4_test bm j))

-- The bitmap that `make_bitmap4` builds is the set of the ids in its list, in whatever order and
-- however often they are named: testing it for an id says whether the id is in the list.
pub bitmap4_test-make_bitmap4 :
    (ids : List ℕ) (j : ℕ) → bitmap4_test (make_bitmap4 ids) j ≡ contains ids j
unfolding make_bitmap4
bitmap4_test-make_bitmap4 ids j =
    test-set_all ids [] j
    ∙ rw (bitmap4_test-names [] j, bit-zero (j % 32)) (or_false (contains ids j))
