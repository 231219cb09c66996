-- ===== src/FileSystem/Names.antt =====
-- Which entry `read_dentry_by_name` of student-distrib/filesysobjs.c finds.
use ece_391_linux_kernel_cla.Prelude.{
  ℕ, zero, suc, ◌+◌, ◌≤◌, ◌<◌, ◌≡◌, inl, inr, refl, Bool, true, Option, some, ℤ, pos, is_zero,
  Bytes, AreBytes, IsString, u32_mod, arith, Bool-cases, ℕ_discrete, sym, ◌∙◌,
}
use ece_391_linux_kernel_cla.Clib.{strncmp}
use ece_391_linux_kernel_cla.Clib.Strings.{strlen-IsString, Agree, strncmp-zero_iff}
use ece_391_linux_kernel_cla.FileSystem.{
  Lookup, missing, found, memcpy_dentry, entry, name_loop, read_dentry_by_name,
}

-- The first `len` bytes of the entry's name are those of `fname`.
abbrev pub Begins : Bytes → Bytes → ℕ → ℕ → Type 0
Begins fs fname len n = (j : ℕ) → j < len → entry fs n j ≡ fname j

-- What a search of the entries from `n` on and before `num` may return.
abbrev pub FoundFrom : Bytes → Bytes → ℕ → ℕ → ℕ → Lookup → Type 0
FoundFrom fs fname len n num missing = (m : ℕ) → n ≤ m → m < num → ¬ Begins fs fname len m
FoundFrom fs fname len n num (found d) =
    (m : ℕ) × (n ≤ m)
    × (m < num)
    × Begins fs fname len m
    × ((l : ℕ) → n ≤ l → l < m → ¬ Begins fs fname len l)
    × (d ≡ memcpy_dentry (entry fs m))

is_zero-eq : (z : ℤ) → is_zero z ≡ true → z ≡ pos 0
is_zero-eq z h = ground arith

module _ (fs fname : Bytes) (len : ℕ) (bs : AreBytes fs) (bn : AreBytes fname)
    (name : IsString fname len) (fits : len < u32_mod) where
  abbrev same : ℕ → Bool
  same n = is_zero (strncmp (entry fs n) fname len)

  agreed :
      (n : ℕ) → Agree len (entry fs n) fname → (k j : ℕ) → j < k → j < len → entry fs n j ≡ fname j
  agreed n a zero j lt le = absurd (omega arith)
  agreed n a (suc k) j lt le =
      a j le
        (λ l h e. name.body l (omega arith) (sym (agreed n a k l (omega arith) (omega arith)) ∙ e))

  same→Begins : (n : ℕ) → same n ≡ true → Begins fs fname len n
  same→Begins n h j lt =
      agreed n ((strncmp-zero_iff len (entry fs n) fname (λ i. bs _) bn).0 (is_zero-eq _ h)) (suc j)
        j (omega arith) lt

  Begins→same : (n : ℕ) → Begins fs fname len n → same n ≡ true
  Begins→same n h =
      rw ((strncmp-zero_iff len (entry fs n) fname (λ i. bs _) bn).1 (λ j lt live. h j lt))

  Result : ℕ → ℕ → Option Lookup → Type 0
  Result n num r = (f : Lookup) × (r ≡ some f) × FoundFrom fs fname len n num f

  later :
      (n num : ℕ) (f : Lookup)
      → ¬ Begins fs fname len n
      → FoundFrom fs fname len (n + 1) num f
      → FoundFrom fs fname len n num f
  later n num missing no_match h =
      λ m le lt. elim (ℕ_discrete m n) [ yes e ↦ rw e no_match | no p ↦ h m (omega arith) lt ]
  later n num (found d) no_match h = (
    h.0,
    omega (arith, h.1),
    h.2,
    h.3,
    λ l le lt. elim (ℕ_discrete l n) [ yes e ↦ rw e no_match | no p ↦ h.4 l (omega arith) lt ],
    h.5,
  )

  name_loop-FoundFrom : (k n num : ℕ) → n + k ≡ num → Result n num (name_loop k n fs fname)
  unfolding name_loop Result
  name_loop-FoundFrom zero n num e = (missing, refl, λ m le lt. absurd (omega arith))
  name_loop-FoundFrom (suc k) n num e = elim (Bool-cases (same n)) [
    | inl h ↦ (
      found (memcpy_dentry (entry fs n)),
      rw (strlen-IsString fname len name fits, h, name_loop),
      (n, omega arith, omega arith, same→Begins n h, λ l a b. absurd (omega arith), refl),
    )
    | inr h ↦
        let ih = name_loop-FoundFrom k (n + 1) num (omega arith) in
        (
          ih.0,
          rw (strlen-IsString fname len name fits, h, name_loop) ih.1,
          later n num ih.0 (λ b. cc (Begins→same n b)) ih.2,
        )
  ]

  -- A search for a C string that is not empty returns. It finds the first of the entries whose
  -- name begins with the bytes of the string, and reports a missing file exactly if no entry
  -- begins so. The entries searched are as many as the low byte of the boot block's count says.
  pub read_dentry_by_name-FoundFrom :
      0 < len
      → (f : Lookup) × (read_dentry_by_name fs (some fname) ≡ some f)
        × FoundFrom fs fname len 0 (fs 0) f
  unfolding read_dentry_by_name Result
  read_dentry_by_name-FoundFrom h =
      let r = name_loop-FoundFrom (fs 0) 0 (fs 0) (omega arith) in
      (r.0, ground (arith, name.body 0, r.1), r.2)
