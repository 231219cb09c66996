-- ===== src/Prelude/Bits.antt =====
-- Masks: `x & (m << k)`, `x & (2^k - 1)`, `(x << k) | s` as arithmetic, and tables over a byte.
use Prim.Native.Nat.{
  ℕ, zero, suc, ◌+◌, ◌-◌, ◌*◌, ◌/◌, ◌%◌, ◌^◌, ◌≤◌, ◌<◌, min, max, bit_and, bit_or, digits, bitwise,
  bit_and-bitwise, bit_or-bitwise,
}
use mathlib.Core.Path.{◌≡◌, refl, ◌∙◌, ap}
use mathlib.Core.Bool.{Bool, true, ◌&&◌}
use native.Mathlib.Nat.{mul_comm, pow-suc, div-div-eq-div-mul}
use native.Mathlib.Omega.{arith}

-- A Boolean test at every number below `n`.
unfoldable pub all_below : ℕ → (ℕ → Bool) → Bool
all_below zero p = true
all_below (suc n) p = p n && all_below n p

pub all_below_sound : (n : ℕ) (p : ℕ → Bool) → all_below n p ≡ true → (x : ℕ) → x < n → p x ≡ true
unfolding all_below
all_below_sound zero p h x lt = absurd (omega arith)
all_below_sound (suc n) p h x lt = ground (arith, all_below_sound n p (ground arith) x)

module _ (rest : ℕ → ℕ) (op : ℕ → ℕ → ℕ) where
  -- Any fuel from the first number up gives the same digits.
  enough :
      (fuel more a b : ℕ) → a ≤ fuel → a ≤ more → digits rest op fuel a b ≡ digits rest op more a b
  enough zero zero a b h k = refl
  enough zero (suc more) zero b h k = refl
  enough zero (suc more) (suc a) b h k = absurd (omega arith)
  enough (suc fuel) zero zero b h k = refl
  enough (suc fuel) zero (suc a) b h k = absurd (omega arith)
  enough (suc fuel) (suc more) zero b h k = refl
  enough (suc fuel) (suc more) (suc a) b h k =
      ap (λ d. d * 2 + op (suc a % 2) (b % 2))
        (enough fuel more (suc a / 2) (b / 2) (omega arith) (omega arith))

  lowest :
      (a b : ℕ)
      → bitwise rest op (suc a) b ≡ bitwise rest op (suc a / 2) (b / 2) * 2 + op (suc a % 2) (b % 2)
  lowest a b =
      ap (λ d. d * 2 + op (suc a % 2) (b % 2))
        (enough a (suc a / 2) (suc a / 2) (b / 2) (omega arith) (omega arith))

pub bit_and-halves : (a b : ℕ) → bit_and a b ≡ bit_and (a / 2) (b / 2) * 2 + min (a % 2) (b % 2)
bit_and-halves zero b = omega (arith, bit_and-bitwise 0 b, bit_and-bitwise 0 (b / 2))
bit_and-halves (suc a) b =
    omega (
      arith,
      bit_and-bitwise (suc a) b,
      lowest (λ _. 0) min a b,
      bit_and-bitwise (suc a / 2) (b / 2),
    )

pub bit_or-halves : (a b : ℕ) → bit_or a b ≡ bit_or (a / 2) (b / 2) * 2 + max (a % 2) (b % 2)
bit_or-halves zero b = omega (arith, bit_or-bitwise 0 b, bit_or-bitwise 0 (b / 2))
bit_or-halves (suc a) b =
    omega
      (arith, bit_or-bitwise (suc a) b, lowest (λ y. y) max a b, bit_or-bitwise (suc a / 2) (b / 2))

zero-bit_or : (b : ℕ) → bit_or 0 b ≡ b
zero-bit_or b = bit_or-bitwise 0 b

bit_or-zero_fuel : (n a : ℕ) → a ≤ n → bit_or a 0 ≡ a
bit_or-zero_fuel n zero h = zero-bit_or 0
bit_or-zero_fuel zero (suc a) h = absurd (omega arith)
bit_or-zero_fuel (suc n) (suc a) h =
    omega (arith, bit_or-halves (suc a) 0, bit_or-zero_fuel n (suc a / 2) (omega arith))

pub bit_or-zero : (a : ℕ) → bit_or a 0 ≡ a
bit_or-zero a = bit_or-zero_fuel a a (omega arith)

pub bit_or-three : (a : ℕ) → bit_or a 3 ≡ a / 4 * 4 + 3
bit_or-three a = omega (arith, bit_or-halves a 3, bit_or-halves (a / 2) 1, bit_or-zero (a / 2 / 2))

bit_and-zero_fuel : (n a : ℕ) → a ≤ n → bit_and a 0 ≡ 0
bit_and-zero_fuel n zero h = bit_and-bitwise 0 0
bit_and-zero_fuel zero (suc a) h = absurd (omega arith)
bit_and-zero_fuel (suc n) (suc a) h =
    omega (arith, bit_and-halves (suc a) 0, bit_and-zero_fuel n (suc a / 2) (omega arith))

pow-pos : (k : ℕ) → 0 < 2 ^ k
pow-pos zero = omega arith
pow-pos (suc k) = omega (arith, pow-suc 2 k, pow-pos k)

halved-mod : (a m : ℕ) → a / 2 % m * 2 + a % 2 ≡ a % (m * 2)
halved-mod a m = grind arith

-- A mask of `k` ones.
pub bit_and-ones : (k a : ℕ) → bit_and a (2 ^ k - 1) ≡ a % 2 ^ k
bit_and-ones zero a = bit_and-zero_fuel a a (omega arith) ∙ omega arith
bit_and-ones (suc k) a = rw (pow-suc 2 k) (
    bit_and-halves a (2 ^ k * 2 - 1)
    ∙ (let half : (2 ^ k * 2 - 1) / 2 ≡ 2 ^ k - 1 = omega (arith, pow-pos k) in
        let odd : (2 ^ k * 2 - 1) % 2 ≡ 1 = omega (arith, pow-pos k) in
        rw (half, odd, bit_and-ones k (a / 2)) (omega (arith, halved-mod a (2 ^ k)))))

-- A mask with `k` zeros below.
pub bit_and-high : (k m a : ℕ) → bit_and a (m * 2 ^ k) ≡ bit_and (a / 2 ^ k) m * 2 ^ k
bit_and-high zero m a =
    let e : m * 2 ^ 0 ≡ m = omega arith in
    let f : a / 2 ^ 0 ≡ a = omega arith in rw (e, f) (omega arith)
bit_and-high (suc k) m a = rw (pow-suc 2 k) (
    bit_and-halves a (m * (2 ^ k * 2))
    ∙ (let half : m * (2 ^ k * 2) / 2 ≡ m * 2 ^ k = omega arith in
        let even : m * (2 ^ k * 2) % 2 ≡ 0 = omega arith in
        let twice : a / 2 / 2 ^ k ≡ a / (2 ^ k * 2) =
          div-div-eq-div-mul a 2 (2 ^ k) ∙ ap (λ d. a / d) (mul_comm 2 (2 ^ k)) in
        rw (half, even, bit_and-high k m (a / 2), twice) (omega arith)))

-- Bits set below a number that has `k` zeros there.
pub bit_or-low : (k a s : ℕ) → s < 2 ^ k → bit_or (a * 2 ^ k) s ≡ a * 2 ^ k + s
bit_or-low zero a s h =
    let z : s ≡ 0 = omega arith in
    rw z (bit_or-zero_fuel (a * 2 ^ 0) (a * 2 ^ 0) (omega arith) ∙ omega arith)
bit_or-low (suc k) a s h = rw (pow-suc 2 k) (
    bit_or-halves (a * (2 ^ k * 2)) s
    ∙ (let half : a * (2 ^ k * 2) / 2 ≡ a * 2 ^ k = omega arith in
        let even : a * (2 ^ k * 2) % 2 ≡ 0 = omega arith in
        rw (half, even, bit_or-low k a (s / 2) (omega (arith, pow-suc 2 k))) (omega arith)))
