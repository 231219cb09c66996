-- ===== src/Clib/Itoa.antt =====
-- `itoa` of student-distrib/lib.c writes a numeral for its value.
use ece_391_linux_kernel_cla.Prelude.{
  ℕ, zero, suc, ◌+◌, ◌-◌, ◌*◌, ◌/◌, ◌%◌, ◌≤◌, ◌<◌, ◌≡◌, ◌≢◌, refl, ap, ap₂, sym, ◌∙◌, Bool, true,
  ◌&&◌, some, Bytes, store, IsString, u32_mod, ◌==◌, ◌!=◌, ltb, if◌then◌else◌, arith, all_below,
  all_below_sound, ℕ_discrete,
}
use ece_391_linux_kernel_cla.Clib.{digit_chars, itoa_loop, itoa}
use ece_391_linux_kernel_cla.Clib.Reverse.{strrev-flipped}
use native.Mathlib.Nat.{div-add-mod', div-lt_self, mod-lt, zero-mul}

-- The value of a digit: `0` to `9`, then `A` to `Z`.
abbrev pub digit_value : ℕ → ℕ
digit_value c = if ltb c 58 then c - 48 else c - 55

-- The value of the first `n` characters as a numeral, the highest place first.
abbrev pub numeral : Bytes → ℕ → ℕ → ℕ
numeral s zero radix = 0
numeral s (suc n) radix = numeral s n radix * radix + digit_value (s n)

-- The same for the `k` characters from `at` on, the lowest place first.
abbrev reversed : Bytes → ℕ → ℕ → ℕ → ℕ
reversed s at zero radix = 0
reversed s at (suc k) radix = reversed s (at + 1) k radix * radix + digit_value (s at)

abbrev digit_ok : ℕ → Bool
digit_ok d = (digit_value (digit_chars d) == d) && (digit_chars d != 0)

digits_ok : all_below 36 digit_ok ≡ true
unfolding all_below
digits_ok = refl

digit_chars-digit : (d : ℕ) → d < 36 → (digit_value (digit_chars d) ≡ d) × (digit_chars d ≢ 0)
digit_chars-digit d h =
    let e : digit_ok d ≡ true = all_below_sound 36 digit_ok digits_ok d h in
    (ground arith, ground arith)

-- What the loop leaves for `newval` from `at` on.
record IsWritten (newval at radix : ℕ) (buf b : Bytes) (k : ℕ) : Type 0 where
  digits : (i : ℕ) → at ≤ i → i < at + k → b i ≢ 0
  stop : b (at + k) ≡ 0
  before : (j : ℕ) → j < at → b j ≡ buf j
  value : reversed b at k radix ≡ newval
  short : k ≤ newval
  some_digit : 0 < newval → 0 < k

itoa_loop-IsWritten :
    (fuel newval : ℕ) (buf : Bytes) (at radix : ℕ)
    → 2 ≤ radix
    → radix ≤ 36
    → newval < fuel
    → (b : Bytes) × (k : ℕ) × (itoa_loop fuel newval buf at radix ≡ some b)
      × IsWritten newval at radix buf b k
unfolding itoa_loop
itoa_loop-IsWritten zero newval buf at radix lo hi h = absurd (omega arith)
itoa_loop-IsWritten (suc fuel) newval buf at radix lo hi h = elim (ℕ_discrete newval 0) [
  | yes e ↦ (
    store buf at 0,
    0,
    ground arith,
    record {
      digits = λ i l u. absurd (omega arith);
      stop = ground arith;
      before = λ j lt. ground arith;
      value = omega (arith, e);
      short = omega arith;
      some_digit = λ p. absurd (omega (arith, e));
    },
  )
  | no ne ↦
      let less : newval / radix < newval = div-lt_self (omega (arith, ne)) (omega arith) in
      let small : newval % radix < radix = mod-lt newval (omega arith) in
      let digit = digit_chars-digit (newval % radix) (omega (arith, small)) in
      let stored = store buf at (digit_chars (newval % radix)) in
      let (b, k, e, w) =
        itoa_loop-IsWritten fuel (newval / radix) stored (at + 1) radix lo hi
          (omega (arith, less)) in
      let here : b at ≡ digit_chars (newval % radix) = w.before at (omega arith) ∙ ground arith in
      let shifted : at + 1 + k ≡ at + suc k = omega arith in
      (
        b,
        suc k,
        ground (arith, e),
        record {
          digits = λ i l u. elim (ℕ_discrete i at) [
            | yes q ↦ rw (q, here) digit.1
            | no q ↦ w.digits i (omega arith) (omega arith)
          ];
          stop = rw shifted at w.stop;
          before = λ j lt. w.before j (omega arith) ∙ ground arith;
          value =
              ap₂ (λ a c. a * radix + digit_value c) w.value here
              ∙ ap (λ x. newval / radix * radix + x) digit.0
              ∙ div-add-mod' newval radix;
          short = omega (arith, w.short, less);
          some_digit = λ p. omega arith;
        },
      )
]

-- Turning the characters round turns the places round.
numeral-reversed :
    (s b : Bytes) (n radix m : ℕ)
    → ((j : ℕ) → j < n → s j ≡ b (n - 1 - j))
    → m ≤ n
    → numeral s m radix ≡ reversed b (n - m) m radix
numeral-reversed s b n radix zero h le = refl
numeral-reversed s b n radix (suc m) h le =
    let e : n - suc m + 1 ≡ n - m = omega arith in
    let f : n - 1 - m ≡ n - suc m = omega arith in
    ap₂ (λ a c. a * radix + digit_value c)
      (numeral-reversed s b n radix m h (omega arith) ∙ ap (λ x. reversed b x m radix) (sym e))
      (h m (omega arith) ∙ ap b f)

-- For a radix from 2 to 36 and a 32-bit value `itoa` returns, and leaves in the buffer a C string of
-- at least one digit that, read as a numeral in that radix, has the value.
pub itoa-numeral :
    (value : ℕ) (buf : Bytes) (radix : ℕ)
    → 2 ≤ radix
    → radix ≤ 36
    → value < u32_mod
    → (out : Bytes) × (n : ℕ) × (itoa value buf radix ≡ some out)
      × IsString out n
      × (0 < n)
      × (numeral out n radix ≡ value)
unfolding itoa
itoa-numeral value buf radix lo hi lt = elim (ℕ_discrete value 0) [
  | yes e ↦ (
    store (store buf 0 (digit_chars 0)) 1 0,
    1,
    ground arith,
    record { body = λ i h. ground arith; stop = ground arith },
    omega arith,
    omega (arith, zero-mul radix, e),
  )
  | no ne ↦
      let (b, n, e, w) = itoa_loop-IsWritten (value + 1) value buf 0 radix lo hi (omega arith) in
      let whole : 0 + n ≡ n = omega arith in
      let ends : b n ≡ 0 = rw whole at w.stop in
      let string : IsString b n = record {
        body = λ i h. w.digits i (omega arith) (omega arith);
        stop = ends;
      } in
      let (out, r, turned) = strrev-flipped b n string (omega (arith, w.short)) in
      let none_left : n - n ≡ 0 = omega arith in
      (
        out,
        n,
        ground (arith, e, r),
        record {
          body = λ i h. ground (arith, turned i, string.body (n - 1 - i));
          stop = turned n ∙ ground arith;
        },
        w.some_digit (omega (arith, ne)),
        numeral-reversed out b n radix n (λ j h. turned j ∙ ground arith) (omega arith)
            ∙ ap (λ x. reversed b x n radix) none_left
            ∙ w.value,
      )
]
