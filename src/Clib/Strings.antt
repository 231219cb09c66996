-- ===== src/Clib/Strings.antt =====
-- What the string routines of student-distrib/lib.c compute: `strlen` finds the first NUL, and
-- `strncmp` decides whether two strings agree in their first bytes.
use ece_391_linux_kernel_cla.Prelude.{
  ℕ, zero, suc, ◌+◌, ◌≤◌, ◌<◌, ◌≡◌, ◌≢◌, ◌↔◌, refl, some, pos, Bytes, AreBytes, IsString, u32_mod,
  sub_s8-eq_zero, arith, dec_lt, ℕ_discrete,
}
use ece_391_linux_kernel_cla.Clib.{strlen_loop, strlen, strncmp_loop, strncmp}

strlen_loop-stop :
    (fuel : ℕ) (s : Bytes) (len n : ℕ)
    → IsString s n
    → len ≤ n
    → n < len + fuel
    → strlen_loop fuel s len ≡ some n
unfolding strlen_loop
strlen_loop-stop zero s len n h le lt = absurd (omega arith)
strlen_loop-stop (suc fuel) s len n h le lt =
    ground (arith, h.body len, h.stop, strlen_loop-stop fuel s (len + 1) n h)

-- `strlen` of a C string of fewer than 2^32 bytes returns, with the number of bytes before its
-- NUL.
pub strlen-IsString : (s : Bytes) (n : ℕ) → IsString s n → n < u32_mod → strlen s ≡ some n
unfolding strlen
strlen-IsString s n h lt = strlen_loop-stop u32_mod s 0 n h (omega arith) (omega arith)

-- The first `n` bytes of both are equal, up to a NUL that both share.
abbrev pub Agree : ℕ → Bytes → Bytes → Type 0
Agree n s t = (j : ℕ) → j < n → ((l : ℕ) → l < j → s l ≢ 0) → s j ≡ t j

-- The same for the bytes from `i` on.
abbrev AgreeFrom : ℕ → ℕ → Bytes → Bytes → Type 0
AgreeFrom i k s t = (j : ℕ) → i ≤ j → j < i + k → ((l : ℕ) → i ≤ l → l < j → s l ≢ 0) → s j ≡ t j

strncmp_loop-AgreeFrom :
    (k i : ℕ) (s t : Bytes)
    → AreBytes s
    → AreBytes t
    → strncmp_loop k i s t ≡ pos 0
    → AgreeFrom i k s t
unfolding strncmp_loop
strncmp_loop-AgreeFrom zero i s t bs bt e j le lt live = absurd (omega arith)
strncmp_loop-AgreeFrom (suc k) i s t bs bt e j le lt live = elim (dec_lt i j) [
  | yes p ↦
      strncmp_loop-AgreeFrom k (i + 1) s t bs bt
        (ground (arith, bs i, bt i, sub_s8-eq_zero (s i) (t i), live i (omega arith) p)) j
        (omega arith) (omega arith) (λ l a b. live l (omega arith) b)
  | no p ↦
      let here : j ≡ i = omega arith in
      rw here (ground (arith, bs i, bt i, sub_s8-eq_zero (s i) (t i)))
]

AgreeFrom-strncmp_loop :
    (k i : ℕ) (s t : Bytes)
    → AreBytes s
    → AreBytes t
    → AgreeFrom i k s t
    → strncmp_loop k i s t ≡ pos 0
unfolding strncmp_loop
AgreeFrom-strncmp_loop zero i s t bs bt same = refl
AgreeFrom-strncmp_loop (suc k) i s t bs bt same = elim (ℕ_discrete (s i) 0) [
  | yes p ↦ ground (arith, here, bs i, bt i, sub_s8-eq_zero (s i) (t i))
  | no p ↦ ground (
    arith,
    here,
    AgreeFrom-strncmp_loop k (i + 1) s t bs bt (λ j a b live.
        same j (omega arith) (omega arith)
          (λ l c d. elim (ℕ_discrete i l) [ yes q ↦ rw (← q) p | no q ↦ live l (omega arith) d ])),
  )
]
  where
    here : s i ≡ t i
    here = same i (omega arith) (omega arith) (λ l a b. absurd (omega arith))

-- For bytes, `strncmp(s, t, n)` is 0 exactly if the first `n` bytes of the two agree, up to a NUL
-- that they share.
pub strncmp-zero_iff :
    (n : ℕ) (s t : Bytes) → AreBytes s → AreBytes t → (strncmp s t n ≡ pos 0) ↔ Agree n s t
unfolding strncmp
strncmp-zero_iff n s t bs bt = (
  λ e j lt live.
      strncmp_loop-AgreeFrom n 0 s t bs bt e j (omega arith) (omega arith) (λ l a b. live l b),
  λ same.
      AgreeFrom-strncmp_loop n 0 s t bs bt
        (λ j a b live. same j (omega arith) (λ l c. live l (omega arith) c)),
)
