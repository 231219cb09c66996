-- ===== src/Programs/Fish/Blinking.antt =====
-- The array of blinking cells in fish/fish.c as a store of elements.
use ece_391_linux_kernel_cla.Prelude.{
  ℕ, zero, suc, ◌+◌, ◌-◌, ◌*◌, ◌≤◌, ◌<◌, ◌≡◌, ◌≢◌, refl, ◌&&◌, none, some, Bytes, store, shift,
  ◌==◌, ltb, leb, if◌then◌else◌, ℕ_discrete, arith,
}
use ece_391_linux_kernel_cla.Programs.Fish.{
  memset_loop, ece391_memset, malloc_loop, mp1_malloc, mp1_free, location_at, blink_size,
}

memset_loop-cells :
    (k i c : ℕ) (mem : Bytes) (j : ℕ)
    → memset_loop k i c mem j ≡ (if leb i j && ltb j (i + k) then c else mem j)
unfolding memset_loop
memset_loop-cells zero i c mem j = ground arith
memset_loop-cells (suc k) i c mem j =
    ground (arith, memset_loop-cells k (i + 1) c (store mem i c) j)

pub ece391_memset-cells :
    (mem : Bytes) (c n j : ℕ) → ece391_memset mem c n j ≡ (if ltb j n then c else mem j)
unfolding ece391_memset
ece391_memset-cells mem c n j = ground (arith, memset_loop-cells n 0 c mem j)

-- The element at index `i` is free, and none before it from `low` on.
pub record IsFirst (a : Bytes) (low i : ℕ) : Type 0 where
  pub lower : low ≤ i
  pub free : location_at a i ≡ 0
  pub first : (l : ℕ) → low ≤ l → l < i → location_at a l ≢ 0

malloc_loop-first :
    (k low i : ℕ) (a : Bytes) → IsFirst a low i → i < low + k → malloc_loop k low a ≡ some i
unfolding malloc_loop
malloc_loop-first zero low i a f lt = absurd (omega (arith, f.lower))
malloc_loop-first (suc k) low i a f lt = elim (ℕ_discrete low i) [
  | yes e ↦ rw e (ground (arith, f.free))
  | no ne ↦
      let rest : IsFirst a (low + 1) i = record {
        lower = omega (arith, f.lower, ne);
        free = f.free;
        first = λ l b c. f.first l (omega arith) c;
      } in
      ground (
        arith,
        f.first low (omega arith) (omega (arith, f.lower, ne)),
        malloc_loop-first k (low + 1) i a rest (omega arith),
      )
]

malloc_loop-none :
    (k low : ℕ) (a : Bytes)
    → ((l : ℕ) → low ≤ l → l < low + k → location_at a l ≢ 0)
    → malloc_loop k low a ≡ none
unfolding malloc_loop
malloc_loop-none zero low a h = refl
malloc_loop-none (suc k) low a h = ground (
  arith,
  h low (omega arith) (omega arith),
  malloc_loop-none k (low + 1) a (λ l b c. h l (omega arith) (omega arith)),
)

-- `mp1_free` of an element clears its sixteen bytes and no other cell.
pub mp1_free-cells :
    (a : Bytes) (i j : ℕ)
    → mp1_free a i j
      ≡ (if leb (blink_size * i) j && ltb j (blink_size * i + blink_size) then 0 else a j)
unfolding mp1_free
mp1_free-cells a i j =
    ground (arith, ece391_memset-cells (shift a (blink_size * i)) 0 blink_size (j - blink_size * i))

free-location :
    (a : Bytes) (i l : ℕ) → location_at (mp1_free a i) l ≡ (if l == i then 0 else location_at a l)
free-location a i l =
    ground (arith, mp1_free-cells a i (blink_size * l), mp1_free-cells a i (blink_size * l + 1))

-- With all 2000 elements taken `mp1_malloc` finds none. Then an element that `mp1_free` gives back is
-- the one that `mp1_malloc` finds, and all other elements keep their bytes.
pub mp1_malloc-mp1_free :
    (a : Bytes) (i : ℕ)
    → ((l : ℕ) → l < 2000 → location_at a l ≢ 0)
    → i < 2000
    → (mp1_malloc a ≡ none)
      × (mp1_malloc (mp1_free a i) ≡ some i)
      × ((l o : ℕ) → l ≢ i → o < 16 → mp1_free a i (blink_size * l + o) ≡ a (blink_size * l + o))
unfolding mp1_malloc
mp1_malloc-mp1_free a i taken lt = (
  malloc_loop-none 2000 0 a (λ l b c. taken l (omega arith)),
  malloc_loop-first 2000 0 i (mp1_free a i)
      (record {
        lower = omega arith;
        free = ground (arith, free-location a i i);
        first = λ l b c. ground (arith, free-location a i l, taken l (omega arith));
      })
      (omega arith),
  λ l o ne h. ground (arith, mp1_free-cells a i (blink_size * l + o)),
)
