-- ===== src/FileSystem/Renamed.antt =====
-- The lookups by name of student-distrib/filesysobjs.c depend on the name as a C string only, not
-- on what lies behind its NUL.
use ece_391_linux_kernel_cla.Prelude.{
  ℕ, zero, suc, ◌+◌, ◌≤◌, ◌<◌, ◌≡◌, ◌≢◌, refl, inl, inr, ◌||◌, some, Bytes, IsString, u32_mod, ◌==◌,
  ◌!=◌, Bool-cases, dec_lt, ℕ_discrete, sym, ◌∙◌, arith,
}
use ece_391_linux_kernel_cla.Clib.{strncmp, strncmp_loop}
use ece_391_linux_kernel_cla.Clib.Strings.{strlen-IsString}
use ece_391_linux_kernel_cla.FileSystem.{entry, name_loop, read_dentry_by_name}

-- Up to the first NUL.
strncmp_loop-left :
    (k i : ℕ) (s s' t : Bytes)
    → ((j : ℕ) → i ≤ j → j < i + k → ((l : ℕ) → i ≤ l → l < j → s l ≢ 0) → s j ≡ s' j)
    → strncmp_loop k i s t ≡ strncmp_loop k i s' t
unfolding strncmp_loop
strncmp_loop-left zero i s s' t h = refl
strncmp_loop-left (suc k) i s s' t h =
    let e : s i ≡ s' i = h i (omega arith) (omega arith) (λ l a b. absurd (omega arith)) in
    elim (Bool-cases ((s i != t i) || (s i == 0))) [
      | inl stop ↦ ground (arith, stop, e)
      | inr more ↦
          let live : s i ≢ 0 = ground (arith, more) in
          let ih =
            strncmp_loop-left k (i + 1) s s' t
              (λ j a b c. h j (omega arith) (omega arith) (λ l d f. ground (arith, live, c l))) in
          ground (arith, more, e, ih)
    ]

strncmp_loop-right :
    (k i : ℕ) (s t t' : Bytes)
    → ((j : ℕ) → i ≤ j → j < i + k → t j ≡ t' j)
    → strncmp_loop k i s t ≡ strncmp_loop k i s t'
unfolding strncmp_loop
strncmp_loop-right zero i s t t' h = refl
strncmp_loop-right (suc k) i s t t' h =
    let e : t i ≡ t' i = h i (omega arith) (omega arith) in
    let ih = strncmp_loop-right k (i + 1) s t t' (λ j a b. h j (omega arith) (omega arith)) in
    ground (arith, e, ih)

-- Two places that hold the same C string.
pub record AreSame (s s' : Bytes) (n : ℕ) : Type 0 where
  pub first : IsString s n
  pub second : IsString s' n
  pub cells : (j : ℕ) → j < n → s j ≡ s' j

module _ (s s' : Bytes) (n : ℕ) (same : AreSame s s' n) where
  pub strncmp-AreSame : (t : Bytes) (k : ℕ) → strncmp s t k ≡ strncmp s' t k
  unfolding strncmp
  strncmp-AreSame t k = strncmp_loop-left k 0 s s' t (λ j a b live. elim (dec_lt j n) [
    | yes lt ↦ same.cells j lt
    | no le ↦ elim (ℕ_discrete j n) [
      | yes e ↦ rw e (same.first.stop ∙ sym (same.second.stop))
      | no ne ↦ absurd (live n (omega arith) (omega (arith, le, ne)) same.first.stop)
    ]
  ])

  module _ (fits : n < u32_mod) where
    name_loop-AreSame : (fs : Bytes) (k m : ℕ) → name_loop k m fs s ≡ name_loop k m fs s'
    unfolding name_loop strncmp
    name_loop-AreSame fs zero m = refl
    name_loop-AreSame fs (suc k) m =
        let e : strncmp (entry fs m) s n ≡ strncmp (entry fs m) s' n =
          strncmp_loop-right n 0 (entry fs m) s s' (λ j a b. same.cells j (omega arith)) in
        rw
          (
            name_loop,
            strlen-IsString s n same.first fits,
            strlen-IsString s' n same.second fits,
            e,
            name_loop-AreSame fs k (m + 1),
          )
          refl

    pub read_dentry_by_name-AreSame :
        0 < n → (fs : Bytes) → read_dentry_by_name fs (some s) ≡ read_dentry_by_name fs (some s')
    unfolding read_dentry_by_name
    read_dentry_by_name-AreSame h fs = ground (arith, same.cells 0 h, name_loop-AreSame fs (fs 0) 0)
