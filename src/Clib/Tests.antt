-- ===== src/Clib/Tests.antt =====
-- Uses of the theorems on the C library routines.
use ece_391_linux_kernel_cla.Prelude.{IsString, ◌<◌, ℕ, ◌+◌, ◌≡◌, inr, some, Bytes, ltb, arith}
use ece_391_linux_kernel_cla.Clib.{itoa}
use ece_391_linux_kernel_cla.Clib.Memory.{memcpy, memmove, copy}
use ece_391_linux_kernel_cla.Clib.Memory.Move.{memmove-copy}
use ece_391_linux_kernel_cla.Clib.Memory.Copy.{memcpy-copy}
use ece_391_linux_kernel_cla.Clib.Itoa.{numeral, itoa-numeral}
use ece_391_linux_kernel_cla.Samples.{hello, zeros}

memcpy-copy_example : memcpy hello 7 1 5 9 ≡ copy hello 7 (λ i. hello (1 + i)) 5 9
memcpy-copy_example =
    memcpy-copy hello 7 1 5 9
      record { dest_fits = omega arith; src_fits = omega arith; apart = inr (omega arith) }

-- Five bytes up by two.
memmove-copy_example :
    ((memmove hello 2 0 5).0 4 ≡ copy hello 2 (λ i. hello (0 + i)) 5 4)
    × ((memmove hello 2 0 5).1 ≡ ltb 0 2)
memmove-copy_example = memmove-copy hello 2 0 5 4 (omega arith) (omega arith)

itoa-numeral_example :
    (out : Bytes) × (n : ℕ) × (itoa 3054 zeros 16 ≡ some out)
    × IsString out n
    × (0 < n)
    × (numeral out n 16 ≡ 3054)
itoa-numeral_example = itoa-numeral 3054 zeros 16 (omega arith) (omega arith) (omega arith)
