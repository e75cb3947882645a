-- ===== src/Base/Bits.antt =====
-- `|` of disjoint fields, and single bits, in plain arithmetic.
use Prim.Native.Nat.{ℕ, zero, suc, ◌+◌, ◌*◌, ◌/◌, ◌%◌, ◌^◌, ◌≤◌, ◌<◌, bit_or, bit_and, max, min}
use Prim.Native.Nat.{digits, bitwise, bit_or-bitwise, bit_and-bitwise}
use mathlib.Core.Path.{◌≡◌, refl, ap}
use mathlib.Core.Logic.{◌≢◌}
use native.Mathlib.Nat.{pow-suc}
use native.Mathlib.Omega.{arith}

-- The native operations stand for a recursion over binary digits with fuel; enough fuel is enough.
module _ (z : ℕ → ℕ) (f : ℕ → ℕ → ℕ) where
  fuel_irrelevant : (n m a b : ℕ) → a ≤ n → a ≤ m → digits z f n a b ≡ digits z f m a b
  fuel_irrelevant zero zero a b hn hm = refl
  fuel_irrelevant zero (suc m) zero b hn hm = refl
  fuel_irrelevant zero (suc m) (suc a) b hn hm = absurd (omega arith)
  fuel_irrelevant (suc n) zero zero b hn hm = refl
  fuel_irrelevant (suc n) zero (suc a) b hn hm = absurd (omega arith)
  fuel_irrelevant (suc n) (suc m) zero b hn hm = refl
  fuel_irrelevant (suc n) (suc m) (suc a) b hn hm =
      rw (fuel_irrelevant n m (suc a / 2) (b / 2) (omega arith) (omega arith))

  lowest_digit :
      (a b : ℕ)
      → bitwise z f (suc a) b ≡ bitwise z f (suc a / 2) (b / 2) * 2 + f (suc a % 2) (b % 2)
  lowest_digit a b =
      omega (arith, fuel_irrelevant a (suc a / 2) (suc a / 2) (b / 2) (omega arith) (omega arith))

or_digit : (a b : ℕ) → bit_or a b ≡ bit_or (a / 2) (b / 2) * 2 + max (a % 2) (b % 2)
or_digit zero b = simp bit_or-bitwise (omega arith)
or_digit (suc a) b = simp bit_or-bitwise (lowest_digit (λ y. y) max a b)

and_digit : (a b : ℕ) → bit_and a b ≡ bit_and (a / 2) (b / 2) * 2 + min (a % 2) (b % 2)
and_digit zero b = simp bit_and-bitwise (omega arith)
and_digit (suc a) b = simp bit_and-bitwise (lowest_digit (λ y. 0) min a b)

bit_or-zero_below : (n a : ℕ) → a ≤ n → bit_or a 0 ≡ a
bit_or-zero_below n zero h = refl
bit_or-zero_below zero (suc a) h = absurd (omega arith)
bit_or-zero_below (suc n) (suc a) h =
    omega (arith, or_digit (suc a) 0, bit_or-zero_below n (suc a / 2) (omega arith))

bit_and-zero_below : (n a : ℕ) → a ≤ n → bit_and a 0 ≡ 0
bit_and-zero_below n zero h = refl
bit_and-zero_below zero (suc a) h = absurd (omega arith)
bit_and-zero_below (suc n) (suc a) h =
    omega (arith, and_digit (suc a) 0, bit_and-zero_below n (suc a / 2) (omega arith))

doubled : (q k : ℕ) → q * 2 ^ suc k ≡ 2 * (q * 2 ^ k)
doubled q k = omega (arith, ap (λ (t : ℕ). q * t) (pow-suc 2 k))

-- `(q << k) | r` is a sum when `r` has only the lowest `k` bits.
pub bit_or_shifted : (k q r : ℕ) → r < 2 ^ k → bit_or (q * 2 ^ k) r ≡ q * 2 ^ k + r
bit_or_shifted zero q r h = ground (arith, bit_or-zero_below (q * 1) (q * 1))
bit_or_shifted (suc k) q r h =
    ground (arith, doubled q k, pow-suc 2 k, or_digit (q * 2 ^ suc k) r, bit_or_shifted k q (r / 2))

-- Bit number `j` of `x`.
unfoldable pub bit : ℕ → ℕ → ℕ
bit x zero = x % 2
bit x (suc j) = bit (x / 2) j

pub bit-bit_or : (x y j : ℕ) → bit (bit_or x y) j ≡ max (bit x j) (bit y j)
unfolding bit
bit-bit_or x y zero = omega (arith, or_digit x y)
bit-bit_or x y (suc j) =
    let half : bit_or x y / 2 ≡ bit_or (x / 2) (y / 2) = omega (arith, or_digit x y) in
    rw half (bit-bit_or (x / 2) (y / 2) j)

pub bit-zero : (j : ℕ) → bit 0 j ≡ 0
unfolding bit
bit-zero zero = refl
bit-zero (suc j) = bit-zero j

pub bit-power_self : (k : ℕ) → bit (2 ^ k) k ≡ 1
unfolding bit
bit-power_self zero = refl
bit-power_self (suc k) =
    let half : 2 ^ suc k / 2 ≡ 2 ^ k = omega (arith, pow-suc 2 k) in rw half (bit-power_self k)

pub bit-power_ne : (k j : ℕ) → k ≢ j → bit (2 ^ k) j ≡ 0
unfolding bit
bit-power_ne zero zero h = absurd (h refl)
bit-power_ne zero (suc j) h = bit-zero j
bit-power_ne (suc k) zero h = omega (arith, pow-suc 2 k)
bit-power_ne (suc k) (suc j) h =
    let half : 2 ^ suc k / 2 ≡ 2 ^ k = omega (arith, pow-suc 2 k) in
    rw half (bit-power_ne k j (λ e. h (ap suc e)))

pub bit-lt-two : (x j : ℕ) → bit x j < 2
unfolding bit
bit-lt-two x zero = omega arith
bit-lt-two x (suc j) = bit-lt-two (x / 2) j

-- A mask with one bit picks out that bit.
pub bit_and_power : (x k : ℕ) → bit_and x (2 ^ k) ≡ bit x k * 2 ^ k
unfolding bit
bit_and_power x zero = omega (arith, and_digit x 1, bit_and-zero_below (x / 2) (x / 2))
bit_and_power x (suc k) =
    let half : 2 ^ suc k / 2 ≡ 2 ^ k = omega (arith, pow-suc 2 k) in
    omega (
      arith,
      and_digit x (2 ^ suc k),
      pow-suc 2 k,
      ap (bit_and (x / 2)) half,
      bit_and_power (x / 2) k,
      doubled (bit (x / 2) k) k,
    )

-- The bit above `k` lower ones.
pub bit_above : (k q r : ℕ) → r < 2 ^ k → bit (q * 2 ^ k + r) k ≡ q % 2
unfolding bit
bit_above zero q r h = omega arith
bit_above (suc k) q r h =
    let half : (q * 2 ^ suc k + r) / 2 ≡ q * 2 ^ k + r / 2 = omega (arith, doubled q k) in
    rw half (bit_above k q (r / 2) (omega (arith, pow-suc 2 k)))
