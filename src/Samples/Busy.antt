-- ===== src/Samples/Busy.antt =====
-- Data for the tests: in terminal 0 slot 0 has started slot 2, in terminal 1 slot 1 runs.
use ece_391_linux_kernel_cla.Prelude.{
  ℕ, ◌<◌, ◌≡◌, refl, true, false, ◌==◌, [], ◌∷◌, if◌then◌else◌, ℕ_discrete, arith,
}
use ece_391_linux_kernel_cla.Samples.Shell.{busy_kernel, busy_pcbs}
use ece_391_linux_kernel_cla.Syscalls.Slots.{taken}
use ece_391_linux_kernel_cla.Syscalls.Stacks.{Stacks, elem, IsStack, Implements}

abbrev pub busy : Stacks
busy = record {
  stacks = λ a. if a == 0 then 2 ∷ 0 ∷ [] else if a == 1 then 1 ∷ [] else [];
  current = 0;
}

busy_chain : (a : ℕ) → IsStack busy_pcbs (busy.stacks a)
busy_chain a = elim (ℕ_discrete a 0) [
  | yes e ↦ rw e (
    record { number = refl; once = refl },
    record { parent = refl; not_first = omega arith; not_start = omega arith },
    (record { number = refl; once = refl }, record { term_start = refl }),
  )
  | no ne ↦ elim (ℕ_discrete a 1) [
    | yes e ↦ rw e (record { number = refl; once = refl }, record { term_start = refl })
    | no ne' ↦
        let p : (a == 0) ≡ false = ground arith in
        let q : (a == 1) ≡ false = ground arith in rw (p, q) (record {})
  ]
]

-- The processes on the stacks, by number.
busy_elem : (a p : ℕ) → elem p (busy.stacks a) ≡ true → (p < 3) × (a ≡ (if p == 1 then 1 else 0))
busy_elem a p h = (ground (arith, h), ground (arith, h))

busy_taken : (p : ℕ) → p < 3 → taken p busy_kernel.processes ≡ true
busy_taken p lt = elim (ℕ_discrete p 0) [
  | yes e ↦ rw e refl
  | no ne ↦ elim (ℕ_discrete p 1) [
    | yes e ↦ rw e refl
    | no ne' ↦ let e : p ≡ 2 = omega (arith, lt, ne, ne') in rw e refl
  ]
]

pub busy-Implements : Implements busy busy_kernel
busy-Implements = record {
  current = refl;
  running = λ a. ground arith;
  been_here = λ a. ground arith;
  chain = busy_chain;
  bound = λ a p h. let b = busy_elem a p h in omega (arith, b.0);
  taken_slot = λ a p h. busy_taken p (busy_elem a p h).0;
  apart =
      λ a b p h g. let x = busy_elem a p h in let y = busy_elem b p g in omega (arith, x.1, y.1);
  free = λ p lt h e. ground (arith, busy_taken p, h, e);
  booted = λ a p h. refl;
  small = omega arith;
}
