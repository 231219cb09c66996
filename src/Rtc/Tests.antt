-- ===== src/Rtc/Tests.antt =====
-- Uses of the theorems on the clock's driver.
use ece_391_linux_kernel_cla.Prelude.{ℕ, ◌+◌, ◌-◌, ◌/◌, ◌^◌, ◌≡◌, refl, Bool, some, ◌==◌, arith}
use ece_391_linux_kernel_cla.Io.{sti}
use ece_391_linux_kernel_cla.Rtc.{rtc_read, rate_for}
use ece_391_linux_kernel_cla.Rtc.Rate.{rate_for-frequency, rtc_read-first}
use ece_391_linux_kernel_cla.Samples.{quiet}

test_frequency : 2 ^ 15 / 2 ^ (rate_for (2 ^ (9 + 1)) - 1) ≡ 2 ^ (9 + 1)
test_frequency = rate_for-frequency 9 (omega arith)

-- The clock's interrupt comes before the fourth test.
abbrev fires : ℕ → Bool
fires k = k == 3

rtc_read-first_example : rtc_read 5 fires 1 quiet ≡ some (3, sti quiet)
rtc_read-first_example = rtc_read-first 5 fires 3 1 quiet refl (λ i h. ground arith) (omega arith)
