-- ===== src/Boot/Descriptor.antt =====
-- What the processor reads from a descriptor of student-distrib/x86_desc.h.
use ece_391_linux_kernel_cla.Prelude.{
  ℕ, ◌+◌, ◌*◌, ◌/◌, ◌%◌, ◌^◌, ◌<◌, ◌≡◌, u32_mod, bit_and-ones, bit_and-high, arith,
}
use ece_391_linux_kernel_cla.Boot.{SegDesc, set_params}

-- The base and the limit that a descriptor stands for.
abbrev pub base_of : SegDesc → ℕ
base_of d = d.base_31_24 * 16777216 + d.base_23_16 * 65536 + d.base_15_00

abbrev pub limit_of : SegDesc → ℕ
limit_of d = d.seg_lim_19_16 * 65536 + d.seg_lim_15_00

-- The macros split an address and a limit so that a descriptor stands for exactly that address, and
-- for the limit's low 20 bits.
pub set_params-base :
    (addr lim : ℕ) (d : SegDesc)
    → addr < u32_mod
    → (base_of (set_params addr lim d) ≡ addr) × (limit_of (set_params addr lim d) ≡ lim % 1048576)
unfolding set_params
set_params-base addr lim d lt =
    let top = bit_and-high 24 255 addr in
    let top' = bit_and-ones 8 (addr / 2 ^ 24) in
    let mid = bit_and-high 16 255 addr in
    let mid' = bit_and-ones 8 (addr / 2 ^ 16) in
    let low = bit_and-ones 16 addr in
    let lim_top = bit_and-high 16 15 lim in
    let lim_top' = bit_and-ones 4 (lim / 2 ^ 16) in
    let lim_low = bit_and-ones 16 lim in
    (omega (arith, lt, top, top', mid, mid', low), omega (arith, lim_top, lim_top', lim_low))
