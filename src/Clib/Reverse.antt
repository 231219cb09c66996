-- ===== src/Clib/Reverse.antt =====
-- `strrev` of student-distrib/lib.c reverses in place.
use ece_391_linux_kernel_cla.Prelude.{
  ℕ, zero, suc, ◌+◌, ◌-◌, ◌<◌, ◌≡◌, ◌∙◌, ◌&&◌, some, Bytes, store, IsString, u32_mod, ltb, leb,
  if◌then◌else◌, arith, ◌≢◌, inl, inr, Bool-cases, ℕ_discrete, ltb→lt,
}
use ece_391_linux_kernel_cla.Clib.{strrev_loop, strrev}
use ece_391_linux_kernel_cla.Clib.Strings.{strlen-IsString}

-- The bytes from `beg` to `end` in the opposite order.
abbrev flipped : Bytes → ℕ → ℕ → ℕ → ℕ
flipped s beg end j = if leb beg j && leb j end then s (beg + end - j) else s j

-- One round of the loop: swap the ends, and what lies between is left to flip.
swapped : Bytes → ℕ → ℕ → Bytes
swapped s beg end = store (store s end (s beg)) beg (s end)

swapped-beg : (s : Bytes) (beg end : ℕ) → swapped s beg end beg ≡ s end
unfolding swapped
swapped-beg s beg end = ground arith

swapped-end : (s : Bytes) (beg end : ℕ) → swapped s beg end end ≡ s beg
unfolding swapped
swapped-end s beg end = ground arith

swapped-ne : (s : Bytes) (beg end j : ℕ) → j ≢ beg → j ≢ end → swapped s beg end j ≡ s j
unfolding swapped
swapped-ne s beg end j p q = ground arith

flipped-swapped :
    (s : Bytes) (beg end j : ℕ)
    → beg < end
    → flipped (swapped s beg end) (beg + 1) (end - 1) j ≡ flipped s beg end j
flipped-swapped s beg end j h = elim (ℕ_discrete j beg) [
  | yes p ↦ rw p (ground (arith, swapped-beg s beg end))
  | no p ↦ elim (ℕ_discrete j end) [
    | yes q ↦ rw q (ground (arith, swapped-end s beg end))
    | no q ↦ ground (arith, swapped-ne s beg end j, swapped-ne s beg end (beg + 1 + (end - 1) - j))
  ]
]

strrev_loop-flipped :
    (fuel : ℕ) (s : Bytes) (beg end j : ℕ)
    → end < beg + fuel
    → strrev_loop fuel s beg end j ≡ flipped s beg end j
unfolding strrev_loop swapped
strrev_loop-flipped zero s beg end j h = ground arith
strrev_loop-flipped (suc fuel) s beg end j h = elim (Bool-cases (ltb beg end)) [
  | inl p ↦
      rw (p, strrev_loop)
        (strrev_loop-flipped fuel (swapped s beg end) (beg + 1) (end - 1) j (ground arith)
          ∙ flipped-swapped s beg end j (ltb→lt beg end p))
  | inr p ↦ rw (p, strrev_loop) (ground arith)
]

strrev_loop-all :
    (n : ℕ) (s : Bytes) (j : ℕ)
    → strrev_loop n s 0 (n - 1) j ≡ (if ltb j n then s (n - 1 - j) else s j)
unfolding strrev_loop
strrev_loop-all zero s j = ground arith
strrev_loop-all (suc n) s j =
    strrev_loop-flipped (suc n) s 0 (suc n - 1) j (omega arith) ∙ ground arith

-- `strrev` of a C string of `n` bytes, fewer than 2^32, returns, with the byte at `j < n` the one
-- that was at `n - 1 - j`, and every other cell, the NUL too, as it was.
pub strrev-flipped :
    (s : Bytes) (n : ℕ)
    → IsString s n
    → n < u32_mod
    → (out : Bytes) × (strrev s ≡ some out)
      × ((j : ℕ) → out j ≡ (if ltb j n then s (n - 1 - j) else s j))
unfolding strrev
strrev-flipped s n h lt =
    (strrev_loop n s 0 (n - 1), rw (strlen-IsString s n h lt, strrev), strrev_loop-all n s)
