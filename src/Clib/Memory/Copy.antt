-- ===== src/Clib/Memory/Copy.antt =====
-- What `memcpy` of student-distrib/lib.c writes.
use ece_391_linux_kernel_cla.Prelude.{
  ℕ, zero, suc, ◌+◌, ◌-◌, ◌*◌, ◌/◌, ◌%◌, ◌≤◌, ◌<◌, ◌≡◌, ◌∙◌, ◌⊎◌, Bytes, store, u32, u32_mod, arith,
}
use ece_391_linux_kernel_cla.Clib.Memory.{
  copy, movsl, memcpy_bottom, memcpy_aligned, memcpy_top, memcpy,
}

-- The two ranges of `n` bytes share no address and lie below the end of the address space.
pub record IsApart (d s n : ℕ) : Type 0 where
  pub dest_fits : d + n < u32_mod
  pub src_fits : s + n < u32_mod
  pub apart : (d + n ≤ s) ⊎ (s + n ≤ d)

-- What the byte at `j` is, once `n` bytes from `s` have been copied to `d`.
abbrev moved : Bytes → ℕ → ℕ → ℕ → ℕ → ℕ
moved m d s n j = copy m d (λ i. m (s + i)) n j

memcpy_bottom-copy :
    (n : ℕ) (m : Bytes) (d s j : ℕ) → IsApart d s n → memcpy_bottom n m d s j ≡ moved m d s n j
unfolding memcpy_bottom
memcpy_bottom-copy zero m d s j h = ground arith
memcpy_bottom-copy (suc n) m d s j h =
    ground (arith, memcpy_bottom-copy n (store m d (m s)) (u32 (d + 1)) (u32 (s + 1)) j)

movsl-copy :
    (n : ℕ) (m : Bytes) (d s j : ℕ)
    → IsApart d s (4 * n)
    → ((movsl n m d s).0 j ≡ moved m d s (4 * n) j)
      × ((movsl n m d s).1 ≡ d + 4 * n)
      × ((movsl n m d s).2 ≡ s + 4 * n)
unfolding movsl
movsl-copy zero m d s j h = (ground arith, omega arith, omega arith)
movsl-copy (suc n) m d s j h =
    let ih =
      movsl-copy n
        (store
          (store (store (store m d (m s)) (u32 (d + 1)) (m (u32 (s + 1)))) (u32 (d + 2))
            (m (u32 (s + 2))))
          (u32 (d + 3)) (m (u32 (s + 3))))
        (u32 (d + 4)) (u32 (s + 4)) j (omega arith) in
    (ih.0 ∙ ground arith, ih.1 ∙ omega arith, ih.2 ∙ omega arith)

memcpy_aligned-copy :
    (n : ℕ) (m : Bytes) (d s j : ℕ) → IsApart d s n → memcpy_aligned n m d s j ≡ moved m d s n j
unfolding memcpy_aligned
memcpy_aligned-copy n m d s j h =
    memcpy_bottom-copy (n % 4) words.0 words.1 words.2 j (
      omega (
        arith,
        h.apart,
        (movsl-copy (n / 4) m d s j (omega arith)).1,
        (movsl-copy (n / 4) m d s j (omega arith)).2,
      ))
    ∙ ground (
      arith,
      movsl-copy (n / 4) m d s j,
      movsl-copy (n / 4) m d s (s + 4 * (n / 4) + (j - (d + 4 * (n / 4)))),
    )
  where
    words : Bytes × ℕ × ℕ
    words = movsl (n / 4) m d s

memcpy_top-copy :
    (n : ℕ) (m : Bytes) (d s j : ℕ) → IsApart d s n → memcpy_top n m d s j ≡ moved m d s n j
unfolding memcpy_top
memcpy_top-copy zero m d s j h = ground arith
memcpy_top-copy (suc n) m d s j h = ground (
  arith,
  memcpy_aligned-copy (suc n) m d s j,
  memcpy_top-copy n (store m d (m s)) (u32 (d + 1)) (u32 (s + 1)) j,
)

-- `memcpy(d, s, n)` between ranges that share no address and end below 2^32 leaves the `n` bytes
-- from `s` in the `n` cells from `d`, whatever the alignment, and every other cell as it was.
pub memcpy-copy :
    (m : Bytes) (d s n j : ℕ) → IsApart d s n → memcpy m d s n j ≡ copy m d (λ i. m (s + i)) n j
unfolding memcpy
memcpy-copy m d s n j h = memcpy_top-copy n m d s j h
