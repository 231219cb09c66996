-- ===== src/Clib/Memory/Fill.antt =====
-- What `memset` and `memcpy` of student-distrib/lib.c write.
use ece_391_linux_kernel_cla.Prelude.{
  ℕ, zero, suc, ◌+◌, ◌*◌, ◌/◌, ◌%◌, ◌<◌, ◌≡◌, ◌∙◌, Bytes, store, u8, u32, u32_mod, arith,
}
use ece_391_linux_kernel_cla.Clib.Memory.{
  fill, stosl, memset_bottom, memset_aligned, memset_top, memset,
}

memset_bottom-fill :
    (n : ℕ) (m : Bytes) (d c j : ℕ) → d + n < u32_mod → memset_bottom n m d c j ≡ fill m d c n j
unfolding memset_bottom
memset_bottom-fill zero m d c j h = ground arith
memset_bottom-fill (suc n) m d c j h =
    ground (arith, memset_bottom-fill n (store m d c) (u32 (d + 1)) c j)

stosl-fill :
    (n : ℕ) (m : Bytes) (d c j : ℕ)
    → d + 4 * n < u32_mod
    → ((stosl n m d c).0 j ≡ fill m d c (4 * n) j) × ((stosl n m d c).1 ≡ d + 4 * n)
unfolding stosl
stosl-fill zero m d c j h = (ground arith, omega arith)
stosl-fill (suc n) m d c j h =
    let ih =
      stosl-fill n
        (store (store (store (store m d c) (u32 (d + 1)) c) (u32 (d + 2)) c) (u32 (d + 3)) c)
        (u32 (d + 4)) c j (omega arith) in
    (ih.0 ∙ ground arith, ih.1 ∙ omega arith)

memset_aligned-fill :
    (n : ℕ) (m : Bytes) (d c j : ℕ) → d + n < u32_mod → memset_aligned n m d c j ≡ fill m d c n j
unfolding memset_aligned
memset_aligned-fill n m d c j h =
    memset_bottom-fill (n % 4) (stosl (n / 4) m d c).0 (stosl (n / 4) m d c).1 c j
      (omega (arith, (stosl-fill (n / 4) m d c j (omega arith)).1))
    ∙ ground (arith, stosl-fill (n / 4) m d c j)

memset_top-fill :
    (n : ℕ) (m : Bytes) (d c j : ℕ) → d + n < u32_mod → memset_top n m d c j ≡ fill m d c n j
unfolding memset_top
memset_top-fill zero m d c j h = ground arith
memset_top-fill (suc n) m d c j h =
    ground (
      arith,
      memset_aligned-fill (suc n) m d c j,
      memset_top-fill n (store m d c) (u32 (d + 1)) c j,
    )

-- Below the end of the address space, `memset(s, c, n)` leaves memory as the byte by byte definition
-- has it: the low byte of `c` in the `n` cells from `s` on, whatever the alignment of `s` and `n`,
-- and every other cell as it was.
pub memset-fill :
    (m : Bytes) (s c n j : ℕ) → s + n < u32_mod → memset m s c n j ≡ fill m s (u8 c) n j
unfolding memset
memset-fill m s c n j h = memset_top-fill n m s (u8 c) j h
