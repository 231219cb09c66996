-- ===== src/Syscalls/Halt/Closing.antt =====
-- What the loop of `halt` in student-distrib/syscalls.c closes.
use ece_391_linux_kernel_cla.Prelude.{
  ℕ, zero, suc, ◌+◌, ◌≤◌, ◌<◌, ◌≡◌, refl, ◌∙◌, ◌&&◌, some, ℤ, pos, minus_one, dec_lt, ◌==◌, ltb,
  leb, if◌then◌else◌, ℕ_discrete, arith,
}
use ece_391_linux_kernel_cla.Syscalls.{FileData, Kernel, running_pcb, fd_of, put_fd, close}
use ece_391_linux_kernel_cla.Syscalls.Descriptors.{
  IsFdChange, IsFdChange_refl, IsFdChange_trans, put_fd-IsFdChange, IsFdChange-running,
  put_fd-in_use,
}
use ece_391_linux_kernel_cla.Syscalls.Open.{close-used}
use ece_391_linux_kernel_cla.Syscalls.Halt.{close_loop}

-- The flag of descriptor `j` once those from `i` on and below `e` have been closed; 0 and 1 cannot be.
abbrev pub closed : ℕ → ℕ → ℕ → ℕ → ℕ
closed i e j flag =
    if leb i j && (ltb j e && (leb 2 j && (ltb j 8 && (flag == 1)))) then 0 else flag

pub record IsClosed (p i e : ℕ) (k k' : Kernel) : Type 0 where
  pub change : IsFdChange p k k'
  pub flags : (j : ℕ) → (fd_of p j k').in_use ≡ closed i e j (fd_of p j k).in_use

-- `close` of a descriptor in use, whatever its number.
pub close-IsClosed :
    (p i : ℕ) (k : Kernel)
    → running_pcb k ≡ some p
    → (fd_of p i k).in_use ≡ 1
    → i < 8
    → (r : ℤ) × (k' : Kernel) × (close i k ≡ some (r, k')) × IsClosed p i (i + 1) k k'
unfolding close
close-IsClosed p i k run used lt = elim (dec_lt i 2) [
  | yes low ↦ (
    minus_one,
    k,
    ground arith,
    record { change = IsFdChange_refl p k; flags = λ j. ground arith },
  )
  | no high ↦
      let f : FileData = record (fd_of p i k) { in_use = 0 } in
      (
        pos 0,
        put_fd p i f k,
        close-used p i k run (omega (arith, high)) lt (omega (arith, used)),
        record {
          change = put_fd-IsFdChange p i f k;
          flags = λ j. elim (ℕ_discrete j i) [
            | yes e ↦ rw e (ground (arith, put_fd-in_use p i f k p i, used, high))
            | no ne ↦ ground (arith, put_fd-in_use p i f k p j)
          ];
        },
      )
]

close_loop-IsClosed :
    (n i p : ℕ) (k : Kernel)
    → running_pcb k ≡ some p
    → i + n ≤ 8
    → (k' : Kernel) × (close_loop n i p k ≡ some k') × IsClosed p i (i + n) k k'
unfolding close_loop
close_loop-IsClosed zero i p k run le =
    (k, refl, record { change = IsFdChange_refl p k; flags = λ j. ground arith })
close_loop-IsClosed (suc n) i p k run le = elim (ℕ_discrete (fd_of p i k).in_use 1) [
  | yes used ↦
      let (r, k₁, e, one) = close-IsClosed p i k run used (omega arith) in
      let (k₂, e₂, more) =
        close_loop-IsClosed n (i + 1) p k₁ (IsFdChange-running p k k₁ one.change ∙ run)
          (omega arith) in
      (
        k₂,
        ground (arith, used, e, e₂),
        record {
          change = IsFdChange_trans p k k₁ k₂ one.change more.change;
          flags = λ j. ground (arith, one.flags j, more.flags j);
        },
      )
  | no unused ↦
      let (k₂, e₂, more) = close_loop-IsClosed n (i + 1) p k run (omega arith) in
      (
        k₂,
        ground (arith, unused, e₂),
        record {
          change = more.change;
          flags = λ j. elim (ℕ_discrete j i) [
            | yes e ↦ rw e (ground (arith, unused, more.flags i))
            | no ne ↦ ground (arith, more.flags j)
          ];
        },
      )
]

-- The loop of `halt` closes every descriptor from 2 on that is in use, and leaves 0 and 1 as they
-- are, since `close` refuses them.
pub close_loop-all :
    (p : ℕ) (k : Kernel)
    → running_pcb k ≡ some p
    → (k' : Kernel) × (close_loop 8 0 p k ≡ some k') × IsClosed p 0 8 k k'
close_loop-all p k run = close_loop-IsClosed 8 0 p k run (omega arith)
