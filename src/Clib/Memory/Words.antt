-- ===== src/Clib/Memory/Words.antt =====
-- What `memset_word` and `memset_dword` of student-distrib/lib.c write.
use ece_391_linux_kernel_cla.Prelude.{
  ℕ, zero, suc, ◌+◌, ◌-◌, ◌*◌, ◌/◌, ◌%◌, ◌<◌, ◌≡◌, ◌∙◌, ◌&&◌, ◌==◌, Bytes, store, u8, u32, u32_mod,
  ltb, leb, if◌then◌else◌, arith,
}
use ece_391_linux_kernel_cla.Clib.Memory.{stosw, memset_word, stosd, memset_dword}

-- `n` words of two bytes from `d` on.
abbrev pub words : Bytes → ℕ → ℕ → ℕ → ℕ → ℕ
words m d c n j =
    if leb d j && ltb j (d + 2 * n) then (if (j - d) % 2 == 0 then u8 c else u8 (c / 256)) else m j

stosw-words :
    (n : ℕ) (m : Bytes) (d c j : ℕ) → d + 2 * n < u32_mod → stosw n m d c j ≡ words m d c n j
unfolding stosw
stosw-words zero m d c j h = ground arith
stosw-words (suc n) m d c j h =
    let e : u32 (d + 1) ≡ d + 1 = omega (arith, h) in
    let f : u32 (d + 2) ≡ d + 2 = omega (arith, h) in
    rw (e, f)
      (stosw-words n (store (store m d (u8 c)) (d + 1) (u8 (c / 256))) (d + 2) c j
          (omega (arith, h))
        ∙ ground arith)

-- `memset_word(s, c, n)` of a range that ends below 2^32 writes `n` words, so `2 * n` bytes, with the
-- low and the high byte of `c` in turn, and no other cell.
pub memset_word-words :
    (m : Bytes) (s c n j : ℕ) → s + 2 * n < u32_mod → memset_word m s c n j ≡ words m s c n j
unfolding memset_word
memset_word-words m s c n j h = stosw-words n m s c j h

-- `n` words of four bytes from `d` on.
abbrev pub dwords : Bytes → ℕ → ℕ → ℕ → ℕ → ℕ
dwords m d c n j =
    if leb d j && ltb j (d + 4 * n)
    then (if (j - d) % 4 == 0
        then u8 c
        else if (j - d) % 4 == 1
        then u8 (c / 256)
        else if (j - d) % 4 == 2
        then u8 (c / 65536)
        else u8 (c / 16777216))
    else m j

stosd-dwords :
    (n : ℕ) (m : Bytes) (d c j : ℕ) → d + 4 * n < u32_mod → stosd n m d c j ≡ dwords m d c n j
unfolding stosd
stosd-dwords zero m d c j h = ground arith
stosd-dwords (suc n) m d c j h =
    let e : u32 (d + 1) ≡ d + 1 = omega (arith, h) in
    let f : u32 (d + 2) ≡ d + 2 = omega (arith, h) in
    let g : u32 (d + 3) ≡ d + 3 = omega (arith, h) in
    let i : u32 (d + 4) ≡ d + 4 = omega (arith, h) in
    rw (e, f, g, i)
      (stosd-dwords n
          (store (store (store (store m d (u8 c)) (d + 1) (u8 (c / 256))) (d + 2) (u8 (c / 65536)))
            (d + 3) (u8 (c / 16777216)))
          (d + 4) c j (omega (arith, h))
        ∙ ground arith)

-- `memset_dword(s, c, n)` of a range that ends below 2^32 writes `n` words of four bytes, the lowest
-- byte of `c` first, and no other cell.
pub memset_dword-dwords :
    (m : Bytes) (s c n j : ℕ) → s + 4 * n < u32_mod → memset_dword m s c n j ≡ dwords m s c n j
unfolding memset_dword
memset_dword-dwords m s c n j h = stosd-dwords n m s c j h
