-- ===== src/Clib.antt =====
-- The C library routines of student-distrib/lib.c that the kernel works with: strings (`strlen`,
-- `strncmp`, `strcpy`, `strncpy`) and the numbers and text of `itoa` and `strrev`. A pointer is the
-- bytes from it on; a routine that scans for NUL runs on fuel, one round for each address of a
-- 32-bit machine, and returns `none` where the source's loop would go round memory for ever.
pub mod Memory
pub mod Strings
pub mod Copies
pub mod Reverse
pub mod Itoa
mod Tests
use ece_391_linux_kernel_cla.Prelude.{
  ℕ, zero, suc, ◌+◌, ◌-◌, ◌/◌, ◌%◌, Bool, true, false, ◌&&◌, ◌||◌, not, Option, none, some, ℤ, pos,
  Bytes, store, literal, u32_mod, ◌==◌, ◌!=◌, ltb, if◌then◌else◌, sub_s8,
}

-- `while(s[len] != '\0') len++`
unfoldable pub strlen_loop : ℕ → Bytes → ℕ → Option ℕ
strlen_loop zero s len = none
strlen_loop (suc fuel) s len = elim (s len == 0) [
  | true ↦ some len
  | false ↦ strlen_loop fuel s (len + 1)
]

unfoldable pub strlen : Bytes → Option ℕ
unfolding strlen_loop
strlen s = strlen_loop u32_mod s 0

-- `for(i = 0; i < n; i++)` with `k` rounds left.
unfoldable pub strncmp_loop : ℕ → ℕ → Bytes → Bytes → ℤ
strncmp_loop zero i s1 s2 = pos 0
strncmp_loop (suc k) i s1 s2 = elim ((s1 i != s2 i) || (s1 i == 0)) [
  | true ↦ sub_s8 (s1 i) (s2 i)
  | false ↦ strncmp_loop k (i + 1) s1 s2
]

unfoldable pub strncmp : Bytes → Bytes → ℕ → ℤ
unfolding strncmp_loop sub_s8
strncmp s1 s2 n = strncmp_loop n 0 s1 s2

-- The copy loop, then the terminator behind what was copied.
strcpy_loop : ℕ → Bytes → Bytes → ℕ → Option Bytes
strcpy_loop zero dest src i = none
strcpy_loop (suc fuel) dest src i = elim (src i == 0) [
  | true ↦ some (store dest i 0)
  | false ↦ strcpy_loop fuel (store dest i (src i)) src (i + 1)
]

unfoldable pub strcpy : Bytes → Bytes → Option Bytes
unfolding strcpy_loop
strcpy dest src = strcpy_loop u32_mod dest src 0

-- `while(i < n) dest[i++] = '\0'` with `k` rounds left.
unfoldable pub strncpy_pad : ℕ → ℕ → Bytes → Bytes
strncpy_pad zero i dest = dest
strncpy_pad (suc k) i dest = strncpy_pad k (i + 1) (store dest i 0)

-- `while(src[i] != '\0' && i < n)` with `k = n - i`, then the padding.
unfoldable pub strncpy_loop : ℕ → ℕ → Bytes → Bytes → Bytes
strncpy_loop zero i dest src = dest
strncpy_loop (suc k) i dest src = elim (src i == 0) [
  | true ↦ strncpy_pad (suc k) i dest
  | false ↦ strncpy_loop k (i + 1) (store dest i (src i)) src
]

unfoldable pub strncpy : Bytes → Bytes → ℕ → Bytes
unfolding strncpy_loop strncpy_pad
strncpy dest src n = strncpy_loop n 0 dest src

-- `while(beg < end)`: swap, and move both ends in.
unfoldable pub strrev_loop : ℕ → Bytes → ℕ → ℕ → Bytes
strrev_loop zero s beg end = s
strrev_loop (suc fuel) s beg end = elim (ltb beg end) [
  | true ↦ strrev_loop fuel (store (store s end (s beg)) beg (s end)) (beg + 1) (end - 1)
  | false ↦ s
]

-- `end = strlen(s) - 1` is -1 for the empty string, and the loop does not run; here it is 0, and
-- the loop does not run either. Half of `end` rounds are enough; `end + 1` are given.
unfoldable pub strrev : Bytes → Option Bytes
unfolding strrev_loop
strrev s = elim (strlen s) [ none ↦ none | some n ↦ some (strrev_loop n s 0 (n - 1)) ]

-- The digits of `itoa`.
abbrev pub digit_chars : Bytes
digit_chars = literal "0123456789ABCDEFGHIJKLMNOPQRSTUVWXYZ"

-- `while(newval > 0)`: the digits from the lowest place up, then the terminator. A radix of at least
-- 2 halves the value each round, so `value + 1` rounds are enough.
unfoldable pub itoa_loop : ℕ → ℕ → Bytes → ℕ → ℕ → Option Bytes
itoa_loop zero newval buf at radix = none
itoa_loop (suc fuel) newval buf at radix = elim (ltb 0 newval) [
  | true ↦
      itoa_loop fuel (newval / radix) (store buf at (digit_chars (newval % radix))) (at + 1) radix
  | false ↦ some (store buf at 0)
]

unfoldable pub itoa : ℕ → Bytes → ℕ → Option Bytes
unfolding itoa_loop strrev
itoa value buf radix =
    if value == 0
    then some (store (store buf 0 (digit_chars 0)) 1 0)
    else elim (itoa_loop (value + 1) value buf 0 radix) [ none ↦ none | some b ↦ strrev b ]
