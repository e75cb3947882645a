-- ===== src/Nfs4/Attr/Bytes.antt =====
-- The bytes of the `fattr4` that a client sends, written without the encoder of
-- src/nfs4/nfs4_attr.cpp: the words of the bitmap are sums of the bits of RFC 7530, but for the two times,
-- whose ids are 64 and 65 in src/nfs4/nfs4_attr.hpp.
use nfsclient.Base.{
  ℕ, ◌+◌, ◌≤◌, ◌≡◌, refl, ◌∙◌, ap, Option, none, some, List, [], ◌∷◌, ◌++◌, length, ◌==◌,
  if◌then◌else◌, arith,
}
use nfsclient.Xdr.Encoder.{Enc}
use nfsclient.Xdr.Wire.{IsU64, Fits32, uint32, uint64, opaque}
use nfsclient.Xdr.Emits.{
  Emits, Emits-encoded, Emits-skip, Emits-seq, Emits-uint32, Emits-uint64, Emits-string,
  Emits-opaque,
}
use nfsclient.Nfs4.Types.{Nfstime4}
use nfsclient.Nfs4.Bitmap.{bitmap4_set, or_at}
use nfsclient.Nfs4.Attr.{Sattr4, mark, settable, put_present, put_settime, put_attrs, encode_fattr4}
use nfsclient.Nfs4.Attr.Sent.{Emits-bitmap4}
use nfsclient.Nfs4.Ops.Items.{bitmap_wire}

-- A number that counts where there is a value.
abbrev flag : {A : Type 0} → Option A → ℕ → ℕ
flag none n = 0
flag (some a) n = n

-- The bit 4 of the first word stands for a size.
abbrev first_word : Option ℕ → List ℕ
first_word none = []
first_word (some a) = 16 ∷ []

-- The bits 1, 4 and 5 of the second word stand for a mode, an owner and a group.
abbrev second_word : Option ℕ → Option (List ℕ) → Option (List ℕ) → ℕ
second_word mode owner group = flag mode 2 + (flag owner 16 + flag group 32)

abbrev two_words : Option ℕ → ℕ → List ℕ
two_words size second = if second == 0 then first_word size else flag size 16 ∷ second ∷ []

abbrev padded : List ℕ → List ℕ
padded [] = 0 ∷ 0 ∷ []
padded (a ∷ []) = a ∷ 0 ∷ []
padded (a ∷ b ∷ ws) = a ∷ b ∷ []

-- The bits 0 and 1 of a third word stand for the times.
abbrev with_times : List ℕ → Option Nfstime4 → Option Nfstime4 → List ℕ
with_times ws none none = ws
with_times ws (some a) none = padded ws ++ (1 ∷ [])
with_times ws none (some b) = padded ws ++ (2 ∷ [])
with_times ws (some a) (some b) = padded ws ++ (3 ∷ [])

abbrev sattr_bitmap : Sattr4 → List ℕ
sattr_bitmap s =
    with_times (two_words s.size (second_word s.mode s.owner s.owner_group)) s.time_access
      s.time_modify

-- The time of the client, and the time.
abbrev settime_wire : Nfstime4 → List ℕ
settime_wire t = uint32 1 ++ (uint64 t.seconds ++ uint32 t.nseconds)

abbrev present : {A : Type 0} → (A → List ℕ) → Option A → List ℕ
present f none = []
present f (some a) = f a

abbrev sattr_values : Sattr4 → List ℕ
sattr_values s =
    present uint64 s.size
    ++ (present uint32 s.mode
        ++ (present opaque s.owner
            ++ (present opaque s.owner_group
                ++ (present settime_wire s.time_access ++ present settime_wire s.time_modify))))

abbrev pub sattr_wire : Sattr4 → List ℕ
sattr_wire s = bitmap_wire (sattr_bitmap s) ++ opaque (sattr_values s)

abbrev When : {A : Type 0} → (A → Type 0) → Option A → Type 0
When P none = Unit
When P (some a) = P a

abbrev IsTime : Nfstime4 → Type 0
IsTime t = IsU64 t.seconds

pub record IsSattr (s : Sattr4) : Type 0 where
  pub size : When IsU64 s.size
  pub owner : When Fits32 s.owner
  pub owner_group : When Fits32 s.owner_group
  pub time_access : When IsTime s.time_access
  pub time_modify : When IsTime s.time_modify
  pub values : Fits32 (sattr_values s)

-- Computed for each of the sixteen sets.
mark-two_words :
    (size mode : Option ℕ) (owner group : Option (List ℕ))
    → mark group 37 (mark owner 36 (mark mode 33 (mark size 4 [])))
      ≡ two_words size (second_word mode owner group)
unfolding bitmap4_set or_at
mark-two_words none none none none = refl
mark-two_words none none none (some d) = refl
mark-two_words none none (some c) none = refl
mark-two_words none none (some c) (some d) = refl
mark-two_words none (some b) none none = refl
mark-two_words none (some b) none (some d) = refl
mark-two_words none (some b) (some c) none = refl
mark-two_words none (some b) (some c) (some d) = refl
mark-two_words (some a) none none none = refl
mark-two_words (some a) none none (some d) = refl
mark-two_words (some a) none (some c) none = refl
mark-two_words (some a) none (some c) (some d) = refl
mark-two_words (some a) (some b) none none = refl
mark-two_words (some a) (some b) none (some d) = refl
mark-two_words (some a) (some b) (some c) none = refl
mark-two_words (some a) (some b) (some c) (some d) = refl

length-two_words : (size : Option ℕ) (second : ℕ) → length (two_words size second) ≤ 2
length-two_words none second = ground arith
length-two_words (some a) second = ground arith

mark-with_times :
    (ws : List ℕ) (atime mtime : Option Nfstime4)
    → length ws ≤ 2
    → mark mtime 65 (mark atime 64 ws) ≡ with_times ws atime mtime
unfolding bitmap4_set or_at
mark-with_times ws none none le = refl
mark-with_times [] (some t) none le = refl
mark-with_times [] none (some t) le = refl
mark-with_times [] (some t) (some u) le = refl
mark-with_times (a ∷ []) (some t) none le = refl
mark-with_times (a ∷ []) none (some t) le = refl
mark-with_times (a ∷ []) (some t) (some u) le = refl
mark-with_times (a ∷ b ∷ []) (some t) none le = refl
mark-with_times (a ∷ b ∷ []) none (some t) le = refl
mark-with_times (a ∷ b ∷ []) (some t) (some u) le = refl
mark-with_times (a ∷ b ∷ c ∷ ws) (some t) mtime le = absurd (omega arith)
mark-with_times (a ∷ b ∷ c ∷ ws) none (some t) le = absurd (omega arith)

settable-sattr_bitmap : (s : Sattr4) → settable s ≡ sattr_bitmap s
unfolding settable
settable-sattr_bitmap s =
    ap (λ (ws : List ℕ). mark s.time_modify 65 (mark s.time_access 64 ws))
      (mark-two_words s.size s.mode s.owner s.owner_group)
    ∙ mark-with_times (two_words s.size (second_word s.mode s.owner s.owner_group)) s.time_access
        s.time_modify (length-two_words s.size _)

length-padded : (ws : List ℕ) (w : ℕ) → length (padded ws ++ (w ∷ [])) ≤ 3
length-padded [] w = omega arith
length-padded (a ∷ []) w = omega arith
length-padded (a ∷ b ∷ ws) w = omega arith

length-with_times :
    (ws : List ℕ) (atime mtime : Option Nfstime4)
    → length ws ≤ 2
    → length (with_times ws atime mtime) ≤ 3
length-with_times ws none none le = omega arith
length-with_times ws (some t) none le = length-padded ws 1
length-with_times ws none (some t) le = length-padded ws 2
length-with_times ws (some t) (some u) le = length-padded ws 3

Emits-present :
    {A : Type 0} {put : A → Enc} (f : A → List ℕ) (P : A → Type 0)
    → ((a : A) → P a → Emits (put a) (f a))
    → (o : Option A) → When P o
    → Emits (put_present put o) (present f o)
Emits-present f P r none h = Emits-skip
Emits-present f P r (some a) h = r a h

Emits-settime : (t : Nfstime4) → IsTime t → Emits (put_settime t) (settime_wire t)
unfolding put_settime
Emits-settime t h =
    Emits-seq (Emits-uint32 1) (Emits-seq (Emits-uint64 t.seconds h) (Emits-uint32 t.nseconds))

anything : {A : Type 0} (o : Option A) → When (λ a. Unit) o
anything none = tt
anything (some a) = tt

Emits-sattr_values : (s : Sattr4) → IsSattr s → Emits (put_attrs s) (sattr_values s)
unfolding put_attrs
Emits-sattr_values s h = Emits-seq (Emits-present uint64 IsU64 Emits-uint64 s.size h.size) (
    Emits-seq (Emits-present uint32 (λ a. Unit) (λ a u. Emits-uint32 a) s.mode (anything s.mode)) (
      Emits-seq (Emits-present opaque Fits32 Emits-string s.owner h.owner) (
        Emits-seq (Emits-present opaque Fits32 Emits-string s.owner_group h.owner_group) (
          Emits-seq (Emits-present settime_wire IsTime Emits-settime s.time_access h.time_access)
            (Emits-present settime_wire IsTime Emits-settime s.time_modify h.time_modify)))))

pub Emits-fattr4 : (s : Sattr4) → IsSattr s → Emits (encode_fattr4 s) (sattr_wire s)
unfolding encode_fattr4
Emits-fattr4 s h =
    let small : (length (sattr_bitmap s) ≤ 3) =
      length-with_times (two_words s.size (second_word s.mode s.owner s.owner_group)) s.time_access
        s.time_modify (length-two_words s.size _) in
    rw (settable-sattr_bitmap s, Emits-encoded (Emits-sattr_values s h))
      (Emits-seq (Emits-bitmap4 (sattr_bitmap s) (omega arith))
        (Emits-opaque (sattr_values s) h.values))
