-- ===== src/Printf.antt =====
-- `printf` of student-distrib/lib.c. `stack` is the words behind the format on the caller's stack,
-- `memory` what a `%s` points into, and `conv_buf` the local buffer as it is found. Scans run on
-- fuel, one round for each address.
pub mod Plain
pub mod Kept
mod Tests
use ece_391_linux_kernel_cla.Prelude.{
  ℕ, zero, suc, ◌+◌, ◌-◌, Bool, true, false, Option, none, some, Bytes, store, shift, u8, u32,
  u32_mod, ◌==◌, ltb, if◌then◌else◌,
}
use ece_391_linux_kernel_cla.Clib.{itoa, strlen}
use ece_391_linux_kernel_cla.Clib.Memory.{fill}
use ece_391_linux_kernel_cla.Console.{Console, putc, puts}

abbrev pub percent : ℕ
percent = 37

-- `puts`, without its count.
abbrev pub put_all : Bytes → Console → Option Console
put_all s c = elim (puts s c) [ none ↦ none | some (n, d) ↦ some d ]

-- `%x`
unfoldable pub print_hex : Bytes → ℕ → Console → Option Console
print_hex conv_buf value c = elim (itoa value conv_buf 16) [ none ↦ none | some b ↦ put_all b c ]

-- The buffer after `itoa` has written `out` at `conv_buf + 8` and the loop has put zeros before the
-- digits, which are `n` long.
unfoldable pub pad : Bytes → Bytes → ℕ → Bytes
pad conv_buf out n = fill (λ j. if ltb j 8 then conv_buf j else out (j - 8)) n 48 (8 - n)

-- `%#x`
unfoldable pub print_hex8 : Bytes → ℕ → Console → Option Console
print_hex8 conv_buf value c = elim (itoa value (shift conv_buf 8) 16) [
  | none ↦ none
  | some out ↦ elim (strlen out) [ none ↦ none | some n ↦ put_all (shift (pad conv_buf out n) n) c ]
]

-- `%u`
unfoldable pub print_unsigned : Bytes → ℕ → Console → Option Console
print_unsigned conv_buf value c = elim (itoa value conv_buf 10) [
  | none ↦ none
  | some b ↦ put_all b c
]

-- `%d`: a word from 2^31 on is negative.
unfoldable pub print_signed : Bytes → ℕ → Console → Option Console
print_signed conv_buf value c =
    if ltb value 2147483648
    then print_unsigned conv_buf value c
    else elim (itoa (u32 (u32_mod - value)) (shift (store conv_buf 0 45) 1) 10) [
      | none ↦ none
      | some b ↦ put_all (λ j. if j == 0 then 45 else b (j - 1)) c
    ]

-- Where the scan of the format stands: the position, the next argument, the console.
pub record Printing : Type 0 where
  pub at : ℕ
  pub arg : ℕ
  pub console : Console

module _ (stack : ℕ → ℕ) (memory conv_buf : Bytes) where
  -- A conversion that takes an argument.
  abbrev pub with_argument : Option Console → Printing → Option Printing
  with_argument none p = none
  with_argument (some c) p = some (record p { arg = p.arg + 1; console = c })

  -- `format_char_switch`, for a character other than `#`.
  unfoldable pub convert_char : Bool → ℕ → Printing → Option Printing
  convert_char alternate ch p =
      if ch == percent
      then some (record p { console = putc percent (p.console) })
      else if ch == 120
      then with_argument
          (if alternate
            then print_hex8 conv_buf (stack p.arg) (p.console)
            else print_hex conv_buf (stack p.arg) (p.console))
          p
      else if ch == 117
      then with_argument (print_unsigned conv_buf (stack p.arg) (p.console)) p
      else if ch == 100
      then with_argument (print_signed conv_buf (stack p.arg) (p.console)) p
      else if ch == 99
      then with_argument (some (putc (u8 (stack p.arg)) (p.console))) p
      else if ch == 115
      then with_argument (put_all (shift memory (stack p.arg)) (p.console)) p
      else some p

  -- `format_char_switch`: each `#` sets the flag and goes on to the next character.
  unfoldable pub convert : ℕ → Bytes → Bool → Printing → Option Printing
  convert zero format alternate p = none
  convert (suc fuel) format alternate p = elim (format p.at == 35) [
    | true ↦ convert fuel format true (record p { at = p.at + 1 })
    | false ↦ convert_char alternate (format p.at) p
  ]

  -- One round of the outer loop, without the step to the next character.
  unfoldable pub print_char : Bytes → Printing → Option Printing
  print_char format p = elim (format p.at == percent) [
    | true ↦ convert u32_mod format false (record p { at = p.at + 1 })
    | false ↦ some (record p { console = putc (format p.at) (p.console) })
  ]

  unfoldable pub printf_loop : ℕ → Bytes → Printing → Option (ℕ × Console)
  printf_loop zero format p = none
  printf_loop (suc fuel) format p = elim (format p.at == 0) [
    | true ↦ some (p.at, p.console)
    | false ↦ elim (print_char format p) [
      | none ↦ none
      | some q ↦ printf_loop fuel format (record q { at = q.at + 1 })
    ]
  ]

  -- The count of characters of the format, and the console.
  unfoldable pub printf : Bytes → Console → Option (ℕ × Console)
  printf format c = printf_loop u32_mod format (record { at = 0; arg = 0; console = c })
