-- ===== src/Support/Compare.antt =====
-- The comparisons of syscalls/ece391support.c, and that of student-distrib/lib.c.
use ece_391_linux_kernel_cla.Prelude.{
  ℕ, zero, suc, ◌+◌, ◌≤◌, ◌<◌, ◌≡◌, ◌≢◌, ◌↔◌, refl, sym, ◌∙◌, ap, true, some, ℤ, pos, is_zero,
  Bytes, AreBytes, IsString, u32_mod, sub_ℕ, sub_s8, ◌==◌, ℕ_discrete, arith,
}
use ece_391_linux_kernel_cla.Clib.{strncmp_loop, strncmp}
use ece_391_linux_kernel_cla.Support.{strcmp_loop, ece391_strcmp, compare_loop, ece391_strncmp}

is_zero-sub_ℕ : (a b : ℕ) → is_zero (sub_ℕ a b) ≡ (a == b)
is_zero-sub_ℕ a b = ground arith

is_zero-sub_s8 : (a b : ℕ) → a < 256 → b < 256 → is_zero (sub_s8 a b) ≡ (a == b)
unfolding sub_s8
is_zero-sub_s8 a b h k = ground arith

compare_loop-strncmp_loop :
    (n i : ℕ) (s t : Bytes)
    → AreBytes s
    → AreBytes t
    → is_zero (compare_loop n i s t) ≡ is_zero (strncmp_loop (suc n) i s t)
unfolding compare_loop strncmp_loop
compare_loop-strncmp_loop zero i s t h k =
    ground (arith, is_zero-sub_ℕ (s i) (t i), is_zero-sub_s8 (s i) (t i) (h i) (k i))
compare_loop-strncmp_loop (suc n) i s t h k = ground (
  arith,
  is_zero-sub_ℕ (s i) (t i),
  is_zero-sub_s8 (s i) (t i) (h i) (k i),
  compare_loop-strncmp_loop n (i + 1) s t h k,
)

-- For bytes, the comparison that a user program makes finds the first `n` bytes of two strings the
-- same exactly if the kernel's does, though the one takes bytes as unsigned and the other as signed.
pub ece391_strncmp-strncmp :
    (s t : Bytes) (n : ℕ)
    → AreBytes s
    → AreBytes t
    → is_zero (ece391_strncmp s t n) ≡ is_zero (strncmp s t n)
unfolding ece391_strncmp strncmp
ece391_strncmp-strncmp s t zero h k = refl
ece391_strncmp-strncmp s t (suc n) h k = compare_loop-strncmp_loop n 0 s t h k

-- A string ends at its NUL, and not before.
at_end : (s : Bytes) (n i : ℕ) → IsString s n → i ≤ n → s i ≡ 0 → i ≡ n
at_end s n i h le z = elim (ℕ_discrete i n) [
  | yes e ↦ e
  | no ne ↦ absurd (h.body i (omega (arith, le, ne)) z)
]

before_end : (s : Bytes) (n i : ℕ) → IsString s n → i ≤ n → s i ≢ 0 → i < n
before_end s n i h le nz = elim (ℕ_discrete i n) [
  | yes e ↦ absurd (nz (ap s e ∙ h.stop))
  | no ne ↦ omega (arith, le, ne)
]

-- The strings agree from `i` on.
abbrev Same : ℕ → ℕ → ℕ → Bytes → Bytes → Type 0
Same i n m s t = (n ≡ m) × ((j : ℕ) → i ≤ j → j < n → s j ≡ t j)

Same-first :
    (i n m : ℕ) (s t : Bytes) → IsString s n → IsString t m → i ≤ n → Same i n m s t → s i ≡ t i
Same-first i n m s t h k a (q, same) = elim (ℕ_discrete i n) [
  | yes e ↦ ap s e ∙ h.stop ∙ sym (ap t (e ∙ q) ∙ k.stop)
  | no ne ↦ same i (omega arith) (omega (arith, a, ne))
]

strcmp_loop-IsString :
    (fuel i n m : ℕ) (s t : Bytes)
    → IsString s n
    → IsString t m
    → i ≤ n
    → i ≤ m
    → n < i + fuel
    → (r : ℤ) × (strcmp_loop fuel s t i ≡ some r) × ((is_zero r ≡ true) ↔ Same i n m s t)
unfolding strcmp_loop
strcmp_loop-IsString zero i n m s t h k a b lt = absurd (omega (arith, a, lt))
strcmp_loop-IsString (suc fuel) i n m s t h k a b lt = elim (ℕ_discrete (s i) (t i)) [
  | no ne ↦ (
    sub_ℕ (s i) (t i),
    ground (arith, ne),
    (
      λ z. absurd (ne (let e = is_zero-sub_ℕ (s i) (t i) in ground (arith, z, e))),
      λ same. absurd (ne (Same-first i n m s t h k a same)),
    ),
  )
  | yes e ↦ elim (ℕ_discrete (s i) 0) [
    | yes z ↦
        let p = at_end s n i h a z in
        let q = at_end t m i k b (sym e ∙ z) in
        (
          pos 0,
          ground (arith, e, z),
          (λ u. (sym p ∙ q, λ j l r. absurd (omega (arith, p, l, r))), λ u. refl),
        )
    | no nz ↦
        let a' = before_end s n i h a nz in
        let b' = before_end t m i k b (λ x. nz (e ∙ x)) in
        let (r, f, iff) =
          strcmp_loop-IsString fuel (i + 1) n m s t h k (omega (arith, a')) (omega (arith, b'))
            (omega (arith, lt)) in
        (
          r,
          ground (arith, e, nz, f),
          (
            λ z. (
              (iff.0 z).0,
              λ j l u. elim (ℕ_discrete i j) [
                | yes d ↦ sym (ap s d) ∙ e ∙ ap t d
                | no d ↦ (iff.0 z).1 j (omega (arith, l, d)) u
              ],
            ),
            λ same. iff.1 (same.0, λ j l u. same.1 j (omega (arith, l)) u),
          ),
        )
  ]
]

-- The comparison of two C strings, the first of fewer than 2^32 bytes, returns, and the result is 0
-- exactly if they have the same length and the same bytes.
pub ece391_strcmp-IsString :
    (s t : Bytes) (n m : ℕ)
    → IsString s n
    → IsString t m
    → n < u32_mod
    → (r : ℤ) × (ece391_strcmp s t ≡ some r)
      × ((is_zero r ≡ true) ↔ ((n ≡ m) × ((j : ℕ) → 0 ≤ j → j < n → s j ≡ t j)))
unfolding ece391_strcmp
ece391_strcmp-IsString s t n m h k lt =
    strcmp_loop-IsString u32_mod 0 n m s t h k (omega arith) (omega arith) (omega (arith, lt))
