-- ===== src/Support.antt =====
-- The library of the user programs, syscalls/ece391support.c. Scans run on fuel, one round for each
-- address.
pub mod Compare
pub mod Numbers
mod Tests
use ece_391_linux_kernel_cla.Prelude.{
  ℕ, zero, suc, ◌+◌, ◌-◌, ◌/◌, ◌%◌, Bool, true, false, Option, none, some, ℤ, pos, sub_ℕ, Bytes,
  store, literal, u32_mod, ◌==◌, ltb, leb, if◌then◌else◌,
}

-- `for (len = 0; '\0' != *s; s++, len++)`
pub scan : ℕ → Bytes → ℕ → Option ℕ
scan zero s len = none
scan (suc fuel) s len = elim (s len == 0) [ true ↦ some len | false ↦ scan fuel s (len + 1) ]

unfoldable pub ece391_strlen : Bytes → Option ℕ
unfolding scan
ece391_strlen s = scan u32_mod s 0

-- The copy stops behind the NUL.
pub copy_loop : ℕ → Bytes → Bytes → ℕ → Option Bytes
copy_loop zero dst src i = none
copy_loop (suc fuel) dst src i = elim (src i == 0) [
  | true ↦ some (store dst i (src i))
  | false ↦ copy_loop fuel (store dst i (src i)) src (i + 1)
]

unfoldable pub ece391_strcpy : Bytes → Bytes → Option Bytes
unfolding copy_loop
ece391_strcpy dst src = copy_loop u32_mod dst src 0

-- The difference of two bytes is one of unsigned numbers here.
pub strcmp_loop : ℕ → Bytes → Bytes → ℕ → Option ℤ
strcmp_loop zero s1 s2 i = none
strcmp_loop (suc fuel) s1 s2 i = elim (s1 i == s2 i) [
  | false ↦ some (sub_ℕ (s1 i) (s2 i))
  | true ↦ elim (s1 i == 0) [ true ↦ some (pos 0) | false ↦ strcmp_loop fuel s1 s2 (i + 1) ]
]

unfoldable pub ece391_strcmp : Bytes → Bytes → Option ℤ
unfolding strcmp_loop
ece391_strcmp s1 s2 = strcmp_loop u32_mod s1 s2 0

-- The loop with `n + 1` bytes left to compare.
unfoldable pub compare_loop : ℕ → ℕ → Bytes → Bytes → ℤ
compare_loop zero i s1 s2 = if s1 i == s2 i then pos 0 else sub_ℕ (s1 i) (s2 i)
compare_loop (suc n) i s1 s2 = elim (s1 i == s2 i) [
  | false ↦ sub_ℕ (s1 i) (s2 i)
  | true ↦ elim (s1 i == 0) [ true ↦ pos 0 | false ↦ compare_loop n (i + 1) s1 s2 ]
]

unfoldable pub ece391_strncmp : Bytes → Bytes → ℕ → ℤ
unfolding compare_loop
ece391_strncmp s1 s2 zero = pos 0
ece391_strncmp s1 s2 (suc n) = compare_loop n 0 s1 s2

abbrev pub lookup : Bytes
lookup = literal "0123456789ABCDEFGHIJKLMNOPQRSTUVWXYZ"

-- `while (beg < end)`
pub swap_loop : ℕ → Bytes → ℕ → ℕ → Bytes
swap_loop zero s beg end = s
swap_loop (suc fuel) s beg end = elim (ltb beg end) [
  | true ↦ swap_loop fuel (store (store s end (s beg)) beg (s end)) (beg + 1) (end - 1)
  | false ↦ s
]

-- A string of at most one byte is left alone. As many rounds as there are bytes are enough.
unfoldable pub ece391_strrev : Bytes → Option Bytes
unfolding swap_loop
ece391_strrev s = elim (ece391_strlen s) [
  | none ↦ none
  | some n ↦ some (if leb n 1 then s else swap_loop n s 0 (n - 1))
]

-- `while (newval > 0)`, then the terminator.
pub digits_loop : ℕ → ℕ → Bytes → ℕ → ℕ → Option Bytes
digits_loop zero newval buf at radix = none
digits_loop (suc fuel) newval buf at radix = elim (ltb 0 newval) [
  | true ↦ digits_loop fuel (newval / radix) (store buf at (lookup (newval % radix))) (at + 1) radix
  | false ↦ some (store buf at 0)
]

unfoldable pub ece391_itoa : ℕ → Bytes → ℕ → Option Bytes
unfolding digits_loop
ece391_itoa value buf radix =
    if value == 0
    then some (store (store buf 0 48) 1 0)
    else elim (digits_loop (value + 1) value buf 0 radix) [ none ↦ none | some b ↦ ece391_strrev b ]
