-- ===== src/Rtc/Rate.antt =====
-- The frequencies of student-distrib/rtc.c, and the wait for an interrupt.
use ece_391_linux_kernel_cla.Prelude.{
  ℕ, zero, suc, ◌+◌, ◌-◌, ◌*◌, ◌/◌, ◌^◌, ◌≤◌, ◌<◌, ◌≡◌, refl, ap, ◌∙◌, Bool, true, false, ◌==◌,
  ==_iff, some, pos, ◌∷◌, bit_and, bit_or, arith, all_below, all_below_sound,
}
use ece_391_linux_kernel_cla.Io.{Io, Device, out, outb, cli, sti, inb}
use ece_391_linux_kernel_cla.Rtc.{
  rate_for, rate_byte, rtc_write, rtc_read, spin, rtc_data, rtc_reg_num, status_reg_a,
}

valid : ℕ → Bool
valid k = 2 ^ 15 / 2 ^ (rate_for (2 ^ (k + 1)) - 1) == 2 ^ (k + 1)

valid_table : all_below 10 valid ≡ true
unfolding all_below valid rate_for
valid_table = refl

-- The clock runs at `2^15 >> (rate - 1)`. For each power of two from 2 to 1024 the rate that
-- `rtc_write` picks is the one at which the clock runs at just that frequency.
pub rate_for-frequency : (k : ℕ) → k < 10 → 2 ^ 15 / 2 ^ (rate_for (2 ^ (k + 1)) - 1) ≡ 2 ^ (k + 1)
unfolding valid
rate_for-frequency k h = (==_iff _ _).0 (all_below_sound 10 valid valid_table k h)

-- Whatever frequency is asked for, the rate lies in the range from 6 to 15: the clock never runs
-- faster than 1024 Hz nor slower than 2 Hz.
pub rate_for_bounds : (hz : ℕ) → (6 ≤ rate_for hz) × (rate_for hz ≤ 15)
unfolding rate_for
rate_for_bounds hz = ground arith

nibbles : ℕ → ℕ → Bool
nibbles prev rate = bit_or (bit_and prev 0xF0) (bit_and rate 0x0F) == prev / 16 * 16 + rate

nibbles_table : all_below 256 (λ prev. all_below 16 (λ rate. nibbles prev rate)) ≡ true
unfolding all_below nibbles
nibbles_table = refl

-- The byte for register A keeps the upper four bits that were read, and has the rate in the lower
-- four.
pub rate_byte-nibbles :
    (prev hz : ℕ) → prev < 256 → rate_byte prev hz ≡ prev / 16 * 16 + rate_for hz
unfolding rate_byte nibbles
rate_byte-nibbles prev hz h = (==_iff _ _).0 (
    all_below_sound 16 (λ rate. nibbles prev rate)
      (all_below_sound 256 (λ p. all_below 16 (λ rate. nibbles p rate)) nibbles_table prev h)
      (rate_for hz) (omega (arith, rate_for_bounds hz)))

-- `rtc_write` returns 0 with interrupts enabled. It selects register A, reads it, selects it again
-- and writes one byte: the upper four bits that the device answered, and the rate in the lower four.
pub rtc_write-log :
    (device : Device) (hz : ℕ) (io : Io)
    → let prev = inb device rtc_data (outb status_reg_a rtc_reg_num (cli io)) in
      ((rtc_write device hz io).0 ≡ pos 0)
      × ((rtc_write device hz io).1.interrupts ≡ true)
      × ((rtc_write device hz io).1.log
          ≡ out (prev / 16 * 16 + rate_for hz) rtc_data
            ∷ out status_reg_a rtc_reg_num
            ∷ out status_reg_a rtc_reg_num
            ∷ io.log)
unfolding rtc_write
rtc_write-log device hz io =
    let prev = inb device rtc_data (outb status_reg_a rtc_reg_num (cli io)) in
    (refl, refl, ground (arith, rate_byte-nibbles prev hz (omega arith), rate_for_bounds hz))

spin-first :
    (fuel : ℕ) (fires : ℕ → Bool) (k n : ℕ)
    → fires (k + n) ≡ true
    → ((i : ℕ) → i < n → fires (k + i) ≡ false)
    → n < fuel
    → spin fuel fires k 0 ≡ some (k + n)
unfolding spin
spin-first zero fires k n now before lt = absurd (omega arith)
spin-first (suc fuel) fires k zero now before lt =
    let e : k + 0 ≡ k = omega arith in rw (e, (rw e at now), spin)
spin-first (suc fuel) fires k (suc n) now before lt =
    let e : k + suc n ≡ k + 1 + n = omega arith in
    let z : k + 0 ≡ k = omega arith in
    rw e (
      ground (
        arith,
        rw z at (before 0 (omega arith)),
        spin-first fuel fires (k + 1) n (rw e at now)
            (λ i h.
              let f : k + 1 + i ≡ k + suc i = omega arith in rw f (before (suc i) (omega arith)))
            (omega arith),
      ))

-- `rtc_read` returns at the first interrupt after the call, and not before: what the flag held
-- when it was called does not count. Fuel above the number of tests is enough.
pub rtc_read-first :
    (fuel : ℕ) (fires : ℕ → Bool) (n flag : ℕ) (io : Io)
    → fires n ≡ true
    → ((i : ℕ) → i < n → fires i ≡ false)
    → n < fuel
    → rtc_read fuel fires flag io ≡ some (n, sti io)
unfolding rtc_read
rtc_read-first fuel fires n flag io now before lt =
    let e : 0 + n ≡ n = omega arith in
    let s : spin fuel fires 0 0 ≡ some n =
      spin-first fuel fires 0 n (rw e now)
        (λ i h. let f : 0 + i ≡ i = omega arith in rw f (before i h)) lt
      ∙ ap some e in
    rw (s, rtc_read) refl
