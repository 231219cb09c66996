-- ===== src/Clib/Copies.antt =====
-- What the string copies of student-distrib/lib.c write.
use ece_391_linux_kernel_cla.Prelude.{
  ℕ, zero, suc, ◌+◌, ◌≤◌, ◌<◌, ◌≡◌, ◌&&◌, some, Bytes, store, IsString, u32_mod, ltb, leb,
  if◌then◌else◌, arith, ◌∙◌, ℕ_discrete,
}
use ece_391_linux_kernel_cla.Clib.{strcpy_loop, strcpy, strncpy_pad, strncpy_loop, strncpy}
use ece_391_linux_kernel_cla.Clib.Memory.{fill}

strncpy_pad-fill : (k i : ℕ) (dest : Bytes) (j : ℕ) → strncpy_pad k i dest j ≡ fill dest i 0 k j
unfolding strncpy_pad
strncpy_pad-fill zero i dest j = ground arith
strncpy_pad-fill (suc k) i dest j = ground (arith, strncpy_pad-fill k (i + 1) (store dest i 0) j)

-- What `strncpy` leaves at `j`: the bytes before the NUL at `len`, then zeros up to `n`.
abbrev pub padded : Bytes → Bytes → ℕ → ℕ → ℕ → ℕ
padded dest src len n j = if ltb j n then (if ltb j len then src j else 0) else dest j

strncpy_loop-padded :
    (k i : ℕ) (dest src : Bytes) (len j : ℕ)
    → IsString src len
    → i ≤ len
    → strncpy_loop k i dest src j ≡ (if leb i j then padded dest src len (i + k) j else dest j)
unfolding strncpy_loop
strncpy_loop-padded zero i dest src len j h le = ground arith
strncpy_loop-padded (suc k) i dest src len j h le = ground (
  arith,
  h.body i,
  h.stop,
  strncpy_pad-fill (suc k) i dest j,
  strncpy_loop-padded k (i + 1) (store dest i (src i)) src len j h,
)

-- `strncpy(dest, src, n)` of a C string of `len` bytes writes exactly the first `n` cells of `dest`:
-- the bytes of the string as far as they fit, and zeros behind them.
pub strncpy-padded :
    (dest src : Bytes) (len n j : ℕ)
    → IsString src len
    → strncpy dest src n j ≡ padded dest src len n j
unfolding strncpy
strncpy-padded dest src len n j h =
    strncpy_loop-padded n 0 dest src len j h (omega arith) ∙ ground arith

strcpy_loop-copy :
    (fuel : ℕ) (dest src : Bytes) (i len : ℕ)
    → IsString src len
    → i ≤ len
    → len < i + fuel
    → (out : Bytes) × (strcpy_loop fuel dest src i ≡ some out)
      × ((j : ℕ) → out j ≡ (if leb i j && leb j len then src j else dest j))
unfolding strcpy_loop
strcpy_loop-copy zero dest src i len h le lt = absurd (omega arith)
strcpy_loop-copy (suc fuel) dest src i len h le lt = elim (ℕ_discrete i len) [
  | yes p ↦ (store dest i 0, ground (arith, h.stop), λ j. ground (arith, h.stop))
  | no p ↦
      let ih =
        strcpy_loop-copy fuel (store dest i (src i)) src (i + 1) len h (omega arith)
          (omega arith) in
      (ih.0, ground (arith, h.body i, ih.1), λ j. ground (arith, ih.2 j))
]

-- `strcpy(dest, src)` of a C string of `len` bytes, fewer than 2^32, returns, and writes exactly
-- `len + 1` cells: the string and its NUL.
pub strcpy-copy :
    (dest src : Bytes) (len : ℕ)
    → IsString src len
    → len < u32_mod
    → (out : Bytes) × (strcpy dest src ≡ some out)
      × ((j : ℕ) → out j ≡ (if leb j len then src j else dest j))
unfolding strcpy
strcpy-copy dest src len h lt =
    let r = strcpy_loop-copy u32_mod dest src 0 len h (omega arith) (omega arith) in
    (r.0, r.1, λ j. r.2 j ∙ ground arith)
