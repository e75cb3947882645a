-- ===== src/Nfs4/Attr/Marks.antt =====
-- The bitmap that `encode_fattr4` builds names what is set.
use nfsclient.Base.{
  ltb, ltb→lt, ℕ, ◌^◌, ◌≡◌, refl, sym, ◌∙◌, Bool, true, false, ◌||◌, ◌&&◌, Option, none, some, List,
  [], ◌∷◌, All, length, ◌==◌,
}
use nfsclient.Xdr.Wire.{IsU32, Fits32}
use nfsclient.Nfs4.Bitmap.{bitmap4_set, bitmap4_test, or_at}
use nfsclient.Nfs4.Bitmap.Sets.{names, bitmap4_test-names, bitmap4_test-bitmap4_set}
use nfsclient.Nfs4.Attr.{mark}

abbrev pub is_some : {A : Type 0} → Option A → Bool
is_some none = false
is_some (some a) = true

abbrev pub number : Option ℕ → ℕ
number none = 0
number (some a) = a

abbrev pub string : Option (List ℕ) → List ℕ
string none = []
string (some a) = a

abbrev pub given : {A : Type 0} → (A → List ℕ) → Option A → List ℕ
given f none = []
given f (some a) = f a

-- The bitmap for a size, a mode, an owner and a group.
abbrev pub marks : Option ℕ → Option ℕ → Option (List ℕ) → Option (List ℕ) → List ℕ
marks size mode owner group = mark group 37 (mark owner 36 (mark mode 33 (mark size 4 [])))

test_mark :
    {A : Type 0} (o : Option A) (id : ℕ) (bm : List ℕ) (j : ℕ)
    → bitmap4_test (mark o id bm) j ≡ (((id == j) && is_some o) || bitmap4_test bm j)
test_mark none id bm j = rw (and_false (id == j)) refl
  where
    and_false : (b : Bool) → (b && false) ≡ false
    and_false true = refl
    and_false false = refl
test_mark (some a) id bm j = rw (and_true (id == j)) (bitmap4_test-bitmap4_set bm id j)
  where
    and_true : (b : Bool) → (b && true) ≡ b
    and_true true = refl
    and_true false = refl

or_false : (b : Bool) → (b || false) ≡ b
or_false true = refl
or_false false = refl

module _ (size mode : Option ℕ) (owner group : Option (List ℕ)) where
  unfoldable pub bm : List ℕ
  bm = marks size mode owner group

  test_marks :
      (j : ℕ)
      → bitmap4_test bm j ≡ (
          ((37 == j) && is_some group)
          || (((36 == j) && is_some owner)
              || (((33 == j) && is_some mode)
                  || (((4 == j) && is_some size) || bitmap4_test [] j))))
  unfolding bm
  test_marks j =
      test_mark group 37 (mark owner 36 (mark mode 33 (mark size 4 []))) j
      ∙ rw (
        test_mark owner 36 (mark mode 33 (mark size 4 [])) j,
        test_mark mode 33 (mark size 4 []) j,
        test_mark size 4 [] j,
      )

  pub marked :
      (names bm 4 ≡ is_some size)
      × (names bm 33 ≡ is_some mode)
      × (names bm 36 ≡ is_some owner)
      × (names bm 37 ≡ is_some group)
  unfolding bitmap4_test
  marked = (
    sym (bitmap4_test-names bm 4) ∙ test_marks 4 ∙ or_false (is_some size),
    sym (bitmap4_test-names bm 33) ∙ test_marks 33 ∙ or_false (is_some mode),
    sym (bitmap4_test-names bm 36) ∙ test_marks 36 ∙ or_false (is_some owner),
    sym (bitmap4_test-names bm 37) ∙ test_marks 37 ∙ or_false (is_some group),
  )

  pub unmarked :
      (j : ℕ)
      → (37 == j) ≡ false
      → (36 == j) ≡ false
      → (33 == j) ≡ false
      → (4 == j) ≡ false
      → bitmap4_test [] j ≡ false
      → names bm j ≡ false
  unmarked j e1 e2 e3 e4 e5 = sym (bitmap4_test-names bm j) ∙ test_marks j ∙ rw (e1, e2, e3, e4) e5

abbrev words : List ℕ → Bool
words [] = true
words (w ∷ ws) = ltb w (2 ^ 32) && words ws

and_left : (a b : Bool) → (a && b) ≡ true → a ≡ true
and_left true b h = refl
and_left false b h = h

and_right : (a b : Bool) → (a && b) ≡ true → b ≡ true
and_right true b h = h
and_right false true h = refl
and_right false false h = h

words-All : (ws : List ℕ) → words ws ≡ true → All IsU32 ws
words-All [] e = tt
words-All (w ∷ ws) e = (
  ltb→lt w (2 ^ 32) (and_left (ltb w (2 ^ 32)) (words ws) e),
  words-All ws (and_right (ltb w (2 ^ 32)) (words ws) e),
)

-- Computed for each of the sixteen sets.
words-bm :
    (size mode : Option ℕ) (owner group : Option (List ℕ))
    → (ltb (length (bm size mode owner group)) (2 ^ 32) && words (bm size mode owner group)) ≡ true
unfolding bm bitmap4_set or_at
words-bm none none none none = refl
words-bm none none none (some d) = refl
words-bm none none (some c) none = refl
words-bm none none (some c) (some d) = refl
words-bm none (some b) none none = refl
words-bm none (some b) none (some d) = refl
words-bm none (some b) (some c) none = refl
words-bm none (some b) (some c) (some d) = refl
words-bm (some a) none none none = refl
words-bm (some a) none none (some d) = refl
words-bm (some a) none (some c) none = refl
words-bm (some a) none (some c) (some d) = refl
words-bm (some a) (some b) none none = refl
words-bm (some a) (some b) none (some d) = refl
words-bm (some a) (some b) (some c) none = refl
words-bm (some a) (some b) (some c) (some d) = refl

module _ (size mode : Option ℕ) (owner group : Option (List ℕ)) where
  pub few_words : Fits32 (bm size mode owner group)
  few_words =
      ltb→lt (length (bm size mode owner group)) (2 ^ 32)
        (and_left _ _ (words-bm size mode owner group))

  pub bm-All : All IsU32 (bm size mode owner group)
  bm-All = words-All (bm size mode owner group) (and_right _ _ (words-bm size mode owner group))
