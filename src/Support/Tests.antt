-- ===== src/Support/Tests.antt =====
-- Two strings, compared as a user program does.
use ece_391_linux_kernel_cla.Prelude.{ℕ, ◌≤◌, ◌<◌, ◌≡◌, ◌↔◌, true, some, ℤ, is_zero, arith}
use ece_391_linux_kernel_cla.Samples.{hello, frame0, hello-IsString, frame0-IsString}
use ece_391_linux_kernel_cla.Support.{ece391_strcmp}
use ece_391_linux_kernel_cla.Support.Compare.{ece391_strcmp-IsString}

ece391_strcmp-IsString_example :
    (r : ℤ) × (ece391_strcmp hello frame0 ≡ some r)
    × ((is_zero r ≡ true) ↔ ((◌≡◌ {A = ℕ} 5 10) × ((j : ℕ) → 0 ≤ j → j < 5 → hello j ≡ frame0 j)))
ece391_strcmp-IsString_example =
    ece391_strcmp-IsString hello frame0 5 10 hello-IsString frame0-IsString (omega arith)
