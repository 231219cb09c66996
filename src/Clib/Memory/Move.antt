-- ===== src/Clib/Memory/Move.antt =====
-- What `memmove` of student-distrib/lib.c writes.
use ece_391_linux_kernel_cla.Prelude.{
  ℕ, zero, suc, ◌+◌, ◌-◌, ◌≤◌, ◌<◌, ◌≡◌, ◌∙◌, refl, true, false, Bytes, store, u32, u32_mod, ltb,
  leb, dec_lt, arith,
}
use ece_391_linux_kernel_cla.Clib.Memory.{copy, movsb_up, movsb_down, memmove}

abbrev moved : Bytes → ℕ → ℕ → ℕ → ℕ → ℕ
moved m d s n j = copy m d (λ i. m (s + i)) n j

movsb_up-copy :
    (n : ℕ) (m : Bytes) (d s j : ℕ) → d ≤ s → s + n < u32_mod → movsb_up n m d s j ≡ moved m d s n j
unfolding movsb_up
movsb_up-copy zero m d s j le h = ground arith
movsb_up-copy (suc n) m d s j le h =
    let e : u32 (d + 1) ≡ d + 1 = omega (arith, le, h) in
    let f : u32 (s + 1) ≡ s + 1 = omega (arith, h) in
    rw (e, f)
      (movsb_up-copy n (store m d (m s)) (d + 1) (s + 1) j (omega (arith, le)) (omega (arith, h))
        ∙ ground (arith, le))

movsb_down-copy :
    (n : ℕ) (m : Bytes) (d s j : ℕ)
    → s < d
    → d + n < u32_mod
    → movsb_down (suc n) m (d + n) (s + n) j ≡ moved m d s (suc n) j
unfolding movsb_down
movsb_down-copy zero m d s j lt h = ground (arith, lt)
movsb_down-copy (suc n) m d s j lt h =
    let e : u32 (d + suc n + (u32_mod - 1)) ≡ d + n = omega (arith, lt, h) in
    let f : u32 (s + suc n + (u32_mod - 1)) ≡ s + n = omega (arith, lt, h) in
    rw (e, f)
      (movsb_down-copy n (store m (d + suc n) (m (s + suc n))) d s j lt (omega (arith, h))
        ∙ ground (arith, lt))

-- `memmove(d, s, n)` of ranges that end below 2^32 leaves the `n` bytes that were at `s` in the
-- `n` cells from `d`, however the ranges overlap, and every other cell as it was. Where `d` is above
-- `s` it leaves the processor's direction flag set.
pub memmove-copy :
    (m : Bytes) (d s n j : ℕ)
    → d + n < u32_mod
    → s + n < u32_mod
    → ((memmove m d s n).0 j ≡ copy m d (λ i. m (s + i)) n j) × ((memmove m d s n).1 ≡ ltb s d)
unfolding memmove movsb_up movsb_down
memmove-copy m d s zero j h k = elim (dec_lt s d) [
  | yes lt ↦
      let g : leb d s ≡ false = ground (arith, lt) in
      let i : ltb s d ≡ true = ground (arith, lt) in rw (g, i) (ground arith, refl)
  | no ge ↦
      let g : leb d s ≡ true = ground (arith, ge) in
      let i : ltb s d ≡ false = ground (arith, ge) in rw (g, i) (ground arith, refl)
]
memmove-copy m d s (suc n) j h k = elim (dec_lt s d) [
  | yes lt ↦
      let e : u32 (d + suc n + (u32_mod - 1)) ≡ d + n = omega (arith, lt, h) in
      let f : u32 (s + suc n + (u32_mod - 1)) ≡ s + n = omega (arith, lt, h) in
      let g : leb d s ≡ false = ground (arith, lt) in
      let i : ltb s d ≡ true = ground (arith, lt) in
      rw (g, i, e, f) (movsb_down-copy n m d s j lt (omega (arith, h)), refl)
  | no ge ↦
      let g : leb d s ≡ true = ground (arith, ge) in
      let i : ltb s d ≡ false = ground (arith, ge) in
      rw (g, i) (movsb_up-copy (suc n) m d s j (omega (arith, ge)) k, refl)
]
