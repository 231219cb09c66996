-- ===== src/Clib/Memory.antt =====
-- `memset` and `memcpy` of student-distrib/lib.c, instruction by instruction: byte stores up to an
-- address that is a multiple of four, four-byte stores, byte stores for the rest. Memory is the
-- bytes from address 0 on; the index registers wrap at 2^32.
pub mod Fill
pub mod Copy
pub mod Move
pub mod Words
use ece_391_linux_kernel_cla.Prelude.{
  ℕ, zero, suc, ◌+◌, ◌-◌, ◌*◌, ◌/◌, ◌%◌, Bool, true, false, ◌&&◌, Bytes, store, u8, u32, u32_mod,
  ◌==◌, leb, ltb, if◌then◌else◌,
}

-- The reference: `n` cells from `d` on hold `c`.
abbrev pub fill : Bytes → ℕ → ℕ → ℕ → Bytes
fill m d c n j = if leb d j && ltb j (d + n) then c else m j

-- The reference: `n` cells from `d` on hold the first `n` bytes of `q`.
abbrev pub copy : Bytes → ℕ → Bytes → ℕ → Bytes
copy m d q n j = if leb d j && ltb j (d + n) then q (j - d) else m j

-- `testl $0x3, %edi`
abbrev aligned : ℕ → Bool
aligned edi = edi % 4 == 0

-- `rep stosl` with `ecx` rounds left: four bytes of `%eax`, each of them `al`.
pub stosl : ℕ → Bytes → ℕ → ℕ → Bytes × ℕ
stosl zero m edi al = (m, edi)
stosl (suc ecx) m edi al =
    stosl ecx
      (store (store (store (store m edi al) (u32 (edi + 1)) al) (u32 (edi + 2)) al) (u32 (edi + 3))
        al)
      (u32 (edi + 4)) al

-- `.memset_bottom` with `edx` rounds left.
pub memset_bottom : ℕ → Bytes → ℕ → ℕ → Bytes
memset_bottom zero m edi al = m
memset_bottom (suc edx) m edi al = memset_bottom edx (store m edi al) (u32 (edi + 1)) al

-- `.memset_aligned`
pub memset_aligned : ℕ → Bytes → ℕ → ℕ → Bytes
memset_aligned ecx m edi al =
    let (m', edi') = stosl (ecx / 4) m edi al in memset_bottom (ecx % 4) m' edi' al

-- `.memset_top` with `ecx` bytes left.
pub memset_top : ℕ → Bytes → ℕ → ℕ → Bytes
memset_top zero m edi al = m
memset_top (suc ecx) m edi al = elim (aligned edi) [
  | true ↦ memset_aligned (suc ecx) m edi al
  | false ↦ memset_top ecx (store m edi al) (u32 (edi + 1)) al
]

-- `c &= 0xFF` first.
unfoldable pub memset : Bytes → ℕ → ℕ → ℕ → Bytes
unfolding memset_top memset_aligned memset_bottom stosl
memset m s c n = memset_top n m s (u8 c)

-- `rep movsl` with `ecx` rounds left. The four bytes are read before they are written.
pub movsl : ℕ → Bytes → ℕ → ℕ → Bytes × ℕ × ℕ
movsl zero m edi esi = (m, edi, esi)
movsl (suc ecx) m edi esi =
    movsl ecx
      (store
        (store (store (store m edi (m esi)) (u32 (edi + 1)) (m (u32 (esi + 1)))) (u32 (edi + 2))
          (m (u32 (esi + 2))))
        (u32 (edi + 3)) (m (u32 (esi + 3))))
      (u32 (edi + 4)) (u32 (esi + 4))

-- `.memcpy_bottom` with `edx` rounds left.
pub memcpy_bottom : ℕ → Bytes → ℕ → ℕ → Bytes
memcpy_bottom zero m edi esi = m
memcpy_bottom (suc edx) m edi esi =
    memcpy_bottom edx (store m edi (m esi)) (u32 (edi + 1)) (u32 (esi + 1))

-- `.memcpy_aligned`
pub memcpy_aligned : ℕ → Bytes → ℕ → ℕ → Bytes
memcpy_aligned ecx m edi esi =
    let (m', edi', esi') = movsl (ecx / 4) m edi esi in memcpy_bottom (ecx % 4) m' edi' esi'

-- `.memcpy_top` with `ecx` bytes left.
pub memcpy_top : ℕ → Bytes → ℕ → ℕ → Bytes
memcpy_top zero m edi esi = m
memcpy_top (suc ecx) m edi esi = elim (aligned edi) [
  | true ↦ memcpy_aligned (suc ecx) m edi esi
  | false ↦ memcpy_top ecx (store m edi (m esi)) (u32 (edi + 1)) (u32 (esi + 1))
]

unfoldable pub memcpy : Bytes → ℕ → ℕ → ℕ → Bytes
unfolding memcpy_top memcpy_aligned memcpy_bottom movsl
memcpy m dest src n = memcpy_top n m dest src

-- `copy_to_user`
unfoldable pub copy_to_user : Bytes → ℕ → ℕ → ℕ → Bytes
copy_to_user m dest src n = memcpy m dest src n

-- `rep stosw` with `ecx` rounds left: the low two bytes of `%eax`.
pub stosw : ℕ → Bytes → ℕ → ℕ → Bytes
stosw zero m edi eax = m
stosw (suc ecx) m edi eax =
    stosw ecx (store (store m edi (u8 eax)) (u32 (edi + 1)) (u8 (eax / 256))) (u32 (edi + 2)) eax

-- `memset_word`
unfoldable pub memset_word : Bytes → ℕ → ℕ → ℕ → Bytes
unfolding stosw
memset_word m s c n = stosw n m s c

-- `rep stosl` with `ecx` rounds left: the four bytes of `%eax`.
pub stosd : ℕ → Bytes → ℕ → ℕ → Bytes
stosd zero m edi eax = m
stosd (suc ecx) m edi eax =
    stosd ecx
      (store
        (store (store (store m edi (u8 eax)) (u32 (edi + 1)) (u8 (eax / 256))) (u32 (edi + 2))
          (u8 (eax / 65536)))
        (u32 (edi + 3)) (u8 (eax / 16777216)))
      (u32 (edi + 4)) eax

-- `memset_dword`
unfoldable pub memset_dword : Bytes → ℕ → ℕ → ℕ → Bytes
unfolding stosd
memset_dword m s c n = stosd n m s c

-- `rep movsb` with `ecx` rounds left, upwards.
pub movsb_up : ℕ → Bytes → ℕ → ℕ → Bytes
movsb_up zero m edi esi = m
movsb_up (suc ecx) m edi esi = movsb_up ecx (store m edi (m esi)) (u32 (edi + 1)) (u32 (esi + 1))

-- The same downwards, as behind `std`.
pub movsb_down : ℕ → Bytes → ℕ → ℕ → Bytes
movsb_down zero m edi esi = m
movsb_down (suc ecx) m edi esi =
    movsb_down ecx (store m edi (m esi)) (u32 (edi + (u32_mod - 1))) (u32 (esi + (u32_mod - 1)))

-- `memmove`: the memory, and whether the direction flag is left set.
unfoldable pub memmove : Bytes → ℕ → ℕ → ℕ → Bytes × Bool
memmove m dest src n =
    if leb dest src
    then (movsb_up n m dest src, false)
    else (movsb_down n m (u32 (dest + n + (u32_mod - 1))) (u32 (src + n + (u32_mod - 1))), true)
