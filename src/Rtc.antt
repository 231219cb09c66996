-- ===== src/Rtc.antt =====
-- The real-time clock driver of student-distrib/rtc.c, with the interrupt handler `rtc_test` of
-- student-distrib/unit_tests.c. Registers are read and written through two ports.
pub mod Rate
pub mod Increment
mod Tests
use ece_391_linux_kernel_cla.Prelude.{
  ℕ, zero, suc, ◌+◌, ◌≡◌, Bool, true, false, Option, none, some, ℤ, pos, ◌==◌, if◌then◌else◌,
  bit_and, bit_or,
}
use ece_391_linux_kernel_cla.Io.{Io, Device, outb, inb, cli, sti}
use ece_391_linux_kernel_cla.Pic.{send_eoi}

abbrev pub rtc_reg_num : ℕ
rtc_reg_num = 0x70

abbrev pub rtc_data : ℕ
rtc_data = 0x71

abbrev pub status_reg_a : ℕ
status_reg_a = 0x8A

abbrev pub status_reg_b : ℕ
status_reg_b = 0x8B

-- The ladder of tests in `rtc_write`, with the base rate for any other frequency.
unfoldable pub rate_for : ℕ → ℕ
rate_for hz =
    if hz == 2
    then 15
    else if hz == 4
    then 14
    else if hz == 8
    then 13
    else if hz == 16
    then 12
    else if hz == 32
    then 11
    else if hz == 64
    then 10
    else if hz == 128
    then 9
    else if hz == 256
    then 8
    else if hz == 512
    then 7
    else if hz == 1024
    then 6
    else 15

-- The byte written back to register A.
unfoldable pub rate_byte : ℕ → ℕ → ℕ
rate_byte prev hz = bit_or (bit_and prev 0xF0) (bit_and (rate_for hz) 0x0F)

unfoldable pub rtc_write : Device → ℕ → Io → ℤ × Io
unfolding rate_byte rate_for
rtc_write device hz io =
    let selected = outb status_reg_a rtc_reg_num (cli io) in
    let prev = inb device rtc_data selected in
    (pos 0, sti (outb (rate_byte prev hz) rtc_data (outb status_reg_a rtc_reg_num selected)))

unfoldable pub rtc_open : Device → Io → ℤ × Io
unfolding rtc_write
rtc_open device io =
    let selected = outb status_reg_b rtc_reg_num (cli io) in
    let cur_val = inb device rtc_data selected in
    let enabled = outb (bit_or cur_val 0x40) rtc_data (outb status_reg_b rtc_reg_num selected) in
    (pos 0, sti (rtc_write device 2 enabled).1)

-- `rtc_test`, the handler of the clock's interrupt: the flag it leaves in `rtc_interrupt_happened`,
-- and its writes.
unfoldable pub rtc_test : Io → ℕ × Io
unfolding send_eoi
rtc_test io = (1, outb 0x0C 0x70 (send_eoi 8 io))

-- `while(rtc_interrupt_happened == 0)`. `fires k` says whether the handler runs before test `k` of
-- the loop; the result is the number of tests that found the flag unset.
spin : ℕ → (ℕ → Bool) → ℕ → ℕ → Option ℕ
spin zero fires k flag = none
spin (suc fuel) fires k flag =
    let seen = if fires k then 1 else flag in
    elim (seen == 0) [ true ↦ spin fuel fires (k + 1) seen | false ↦ some k ]

-- `rtc_read` enables interrupts and clears the flag before it waits, whatever stood there. The result
-- is the number of tests that found the flag unset (the source returns 0), and the ports.
unfoldable pub rtc_read : ℕ → (ℕ → Bool) → ℕ → Io → Option (ℕ × Io)
unfolding spin
rtc_read fuel fires rtc_interrupt_happened io = elim (spin fuel fires 0 0) [
  | none ↦ none
  | some n ↦ some (n, sti io)
]

unfoldable pub rtc_close : ℤ
rtc_close = pos 0
