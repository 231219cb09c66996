-- ===== src/Printf/Plain.antt =====
-- `printf` of student-distrib/lib.c on a format without conversions.
use ece_391_linux_kernel_cla.Prelude.{
  ℕ, zero, suc, ◌+◌, ◌≤◌, ◌<◌, ◌≡◌, ◌≢◌, refl, false, some, Bytes, IsString, u32_mod, ◌==◌,
  ℕ_discrete, arith,
}
use ece_391_linux_kernel_cla.Console.{Console, putc, puts, puts_loop}
use ece_391_linux_kernel_cla.Printf.{Printing, percent, print_char, printf_loop, printf}

module _ (stack : ℕ → ℕ) (memory conv_buf : Bytes) (format : Bytes) (n : ℕ) where
  module _ (string : IsString format n) (plain : (i : ℕ) → i < n → format i ≢ percent) where
    print_char-plain :
        (p : Printing)
        → format p.at ≢ percent
        → print_char stack memory conv_buf format p
          ≡ some (record p { console = putc (format p.at) (p.console) })
    unfolding print_char
    print_char-plain p ne =
        let e : (format p.at == percent) ≡ false = ground arith in rw (e, print_char) refl

    printf_loop-puts_loop :
        (fuel : ℕ) (p : Printing)
        → p.at ≤ n
        → n < p.at + fuel
        → printf_loop stack memory conv_buf fuel format p ≡ puts_loop fuel format p.at p.console
    unfolding printf_loop puts_loop
    printf_loop-puts_loop zero p le lt = absurd (omega arith)
    printf_loop-puts_loop (suc fuel) p le lt = elim (ℕ_discrete p.at n) [
      | yes e ↦ ground (arith, string.stop)
      | no ne ↦
          let q : Printing = record p { at = p.at + 1; console = putc (format p.at) (p.console) } in
          ground (
            arith,
            string.body p.at (omega (arith, ne)),
            print_char-plain p (plain p.at (omega (arith, ne))),
            printf_loop-puts_loop fuel q (omega (arith, ne)) (omega (arith, ne)),
          )
    ]

  -- A format of fewer than 2^32 characters, none of them `%`, is printed as `puts` prints it, with
  -- the same count, whatever lies on the stack.
  pub printf-puts :
      IsString format n
      → ((i : ℕ) → i < n → format i ≢ percent)
      → n < u32_mod
      → (c : Console) → printf stack memory conv_buf format c ≡ puts format c
  unfolding printf puts
  printf-puts string plain h c =
      printf_loop-puts_loop string plain u32_mod (record { at = 0; arg = 0; console = c })
        (omega arith) (omega arith)
