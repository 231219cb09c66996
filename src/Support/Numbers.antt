-- ===== src/Support/Numbers.antt =====
-- `ece391_itoa` and `ece391_strrev` of syscalls/ece391support.c are the kernel's `itoa` and `strrev`.
use ece_391_linux_kernel_cla.Prelude.{
  ℕ, zero, suc, ◌+◌, ◌-◌, ◌/◌, ◌%◌, ◌≤◌, ◌≡◌, refl, sym, ap, ◌∙◌, Option, none, some, Bytes, store,
  u32_mod, ◌==◌, ltb, leb, if◌then◌else◌, Bool-cases, inl, inr, arith,
}
use ece_391_linux_kernel_cla.Clib.{strlen_loop, strlen, strrev_loop, strrev, itoa_loop, itoa}
use ece_391_linux_kernel_cla.Support.{
  scan, ece391_strlen, swap_loop, ece391_strrev, lookup, digits_loop, ece391_itoa,
}

scan-strlen_loop : (fuel : ℕ) (s : Bytes) (len : ℕ) → scan fuel s len ≡ strlen_loop fuel s len
unfolding scan strlen_loop
scan-strlen_loop zero s len = refl
scan-strlen_loop (suc fuel) s len = ground (arith, scan-strlen_loop fuel s (len + 1))

-- The two find the same length, or neither an end.
ece391_strlen-strlen : (s : Bytes) → ece391_strlen s ≡ strlen s
unfolding ece391_strlen strlen
ece391_strlen-strlen s = scan-strlen_loop u32_mod s 0

swap_loop-strrev_loop :
    (fuel : ℕ) (s : Bytes) (beg end : ℕ) → swap_loop fuel s beg end ≡ strrev_loop fuel s beg end
unfolding swap_loop strrev_loop
swap_loop-strrev_loop zero s beg end = refl
swap_loop-strrev_loop (suc fuel) s beg end = ground (
  arith,
  swap_loop-strrev_loop fuel (store (store s end (s beg)) beg (s end)) (beg + 1) (end - 1),
)

-- A string of at most one byte is its own reverse.
strrev_loop-short : (n : ℕ) (s : Bytes) → n ≤ 1 → strrev_loop n s 0 (n - 1) ≡ s
unfolding strrev_loop
strrev_loop-short zero s le = refl
strrev_loop-short (suc n) s le = let e : n ≡ 0 = omega (arith, le) in rw e refl

reverse_same :
    (n : ℕ) (s : Bytes)
    → (if leb n 1 then s else swap_loop n s 0 (n - 1)) ≡ strrev_loop n s 0 (n - 1)
reverse_same n s = elim (Bool-cases (leb n 1)) [
  | inl h ↦ rw h (sym (strrev_loop-short n s (ground (arith, h))))
  | inr h ↦ rw h (swap_loop-strrev_loop n s 0 (n - 1))
]

-- The two functions of the length.
abbrev user_reverse : Bytes → Option ℕ → Option Bytes
user_reverse s none = none
user_reverse s (some n) = some (if leb n 1 then s else swap_loop n s 0 (n - 1))

abbrev kernel_reverse : Bytes → Option ℕ → Option Bytes
kernel_reverse s none = none
kernel_reverse s (some n) = some (strrev_loop n s 0 (n - 1))

reverse_same_all : (s : Bytes) (o : Option ℕ) → user_reverse s o ≡ kernel_reverse s o
reverse_same_all s none = refl
reverse_same_all s (some n) = ap some (reverse_same n s)

ece391_strrev-strrev : (s : Bytes) → ece391_strrev s ≡ strrev s
unfolding ece391_strrev strrev
ece391_strrev-strrev s =
    ap (user_reverse s) (ece391_strlen-strlen s) ∙ reverse_same_all s (strlen s)

digits_loop-itoa_loop :
    (fuel newval : ℕ) (buf : Bytes) (at radix : ℕ)
    → digits_loop fuel newval buf at radix ≡ itoa_loop fuel newval buf at radix
unfolding digits_loop itoa_loop
digits_loop-itoa_loop zero newval buf at radix = refl
digits_loop-itoa_loop (suc fuel) newval buf at radix = elim (Bool-cases (ltb 0 newval)) [
  | inl p ↦
      rw (p, digits_loop, itoa_loop)
        (digits_loop-itoa_loop fuel (newval / radix) (store buf at (lookup (newval % radix)))
          (at + 1) radix)
  | inr p ↦ rw (p, digits_loop, itoa_loop) refl
]

-- The end of both conversions.
abbrev user_end : Option Bytes → Option Bytes
user_end none = none
user_end (some b) = ece391_strrev b

abbrev kernel_end : Option Bytes → Option Bytes
kernel_end none = none
kernel_end (some b) = strrev b

end_same : (o : Option Bytes) → user_end o ≡ kernel_end o
end_same none = refl
end_same (some b) = ece391_strrev-strrev b

-- A user program's conversion of a number gives what the kernel's gives, for every value, buffer
-- and radix.
pub ece391_itoa-itoa :
    (value radix : ℕ) (buf : Bytes) → ece391_itoa value buf radix ≡ itoa value buf radix
unfolding ece391_itoa itoa
ece391_itoa-itoa value radix buf =
    let e = ap user_end (digits_loop-itoa_loop (value + 1) value buf 0 radix) in
    let f = end_same (itoa_loop (value + 1) value buf 0 radix) in
    elim (Bool-cases (value == 0)) [ inl p ↦ rw p refl | inr p ↦ rw p (e ∙ f) ]
