-- ===== src/Syscalls/Execute/Started/Entered.antt =====
-- How `execute` of student-distrib/syscalls.c opens the terminal's two descriptors.
use ece_391_linux_kernel_cla.Prelude.{
  ℕ, ◌≤◌, ◌≡◌, ◌≢◌, inr, refl, ◌∙◌, ap, some, ℤ, literal, word, minus_one, ℕ_discrete, arith,
}
use ece_391_linux_kernel_cla.Clib.{strncmp}
use ece_391_linux_kernel_cla.Io.{Device}
use ece_391_linux_kernel_cla.Terminal.{terminal_open}
use ece_391_linux_kernel_cla.Syscalls.{
  Kernel, running_pcb, fd_of, put_fd, opened, terminal_fops, table_open, open_std, syscall_open,
}
use ece_391_linux_kernel_cla.Syscalls.Descriptors.{
  IsFdChange, IsFdChange_refl, IsFdChange_trans, put_fd-IsFdChange, IsFdChange-running, put_fd_self,
  put_fd-other,
}
use ece_391_linux_kernel_cla.Syscalls.Execute.{Outcome, entered, enter, kernel_stack, kernel_ds}

-- Descriptor `fd` is in use, and no other is changed.
record IsStd (p fd : ℕ) (k k' : Kernel) : Type 0 where
  change : IsFdChange p k k'
  used : (fd_of p fd k').in_use ≡ 1
  others : (i : ℕ) → i ≢ fd → fd_of p i k' ≡ fd_of p i k

-- Opening a descriptor that is in use fails, and that is as good.
open_std-IsStd :
    (device : Device) (p fd : ℕ) (k : Kernel)
    → running_pcb k ≡ some p
    → (r : ℤ) × (k' : Kernel) × (open_std device fd k ≡ some (r, k')) × IsStd p fd k k'
unfolding open_std table_open
open_std-IsStd device p fd k run = elim (ℕ_discrete (fd_of p fd k).in_use 1) [
  | yes used ↦ (
    minus_one,
    k,
    ground (arith, run, used),
    record { change = IsFdChange_refl p k; used = used; others = λ i ne. refl },
  )
  | no unused ↦
      let f = opened terminal_fops 0 in
      (
        terminal_open,
        put_fd p fd f k,
        ground (arith, run, unused),
        record {
          change = put_fd-IsFdChange p fd f k;
          used = ap (λ x. x.in_use) (put_fd_self p fd f k);
          others = λ i ne. put_fd-other p fd f k p i (inr ne);
        },
      )
]

syscall_open-stdin :
    (device : Device) (k : Kernel) → syscall_open device (literal "stdin") k ≡ open_std device 0 k
unfolding syscall_open strncmp
syscall_open-stdin device k = refl

syscall_open-stdout :
    (device : Device) (k : Kernel) → syscall_open device (literal "stdout") k ≡ open_std device 1 k
unfolding syscall_open strncmp
syscall_open-stdout device k = refl

-- What the last part of `execute` changes.
pub record IsEntered (p : ℕ) (k k' : Kernel) : Type 0 where
  pub change : IsFdChange p k (record k' { esp0 = k.esp0; ss0 = k.ss0 })
  pub used : (fd : ℕ) → fd ≤ 1 → (fd_of p fd k').in_use ≡ 1
  pub others : (fd : ℕ) → 2 ≤ fd → fd_of p fd k' ≡ fd_of p fd k
  pub stack : k'.esp0 ≡ kernel_stack p
  pub segment : k'.ss0 ≡ kernel_ds

pub enter-IsEntered :
    (device : Device) (p : ℕ) (k : Kernel)
    → running_pcb k ≡ some p
    → (k' : Kernel) × (enter device p k ≡ entered (word k.entry_point) k') × IsEntered p k k'
unfolding enter
enter-IsEntered device p k run =
    let (r, k₁, e, one) = open_std-IsStd device p 0 k run in
    let (s, k₂, f, two) =
      open_std-IsStd device p 1 k₁ (IsFdChange-running p k k₁ one.change ∙ run) in
    let both = IsFdChange_trans p k k₁ k₂ one.change two.change in
    let last : (x : Kernel) → Outcome =
      λ x. entered (word x.entry_point) (record k₂ { esp0 = kernel_stack p; ss0 = kernel_ds }) in
    let call : enter device p k ≡ last k₂ =
      ground (arith, syscall_open-stdin device k, syscall_open-stdout device k₁, e, f) in
    (
      record k₂ { esp0 = kernel_stack p; ss0 = kernel_ds },
      call ∙ ap (λ x. last x) both.rest,
      record {
        change = record {
          rest =
              ap {A = Kernel} {B = Kernel} (λ x. record x { esp0 = k.esp0; ss0 = k.ss0 }) both.rest;
          block = both.block;
          others = both.others;
        };
        used = λ fd le. elim (ℕ_discrete fd 1) [
          | yes q ↦ rw q two.used
          | no q ↦
              let z : fd ≡ 0 = omega (arith, q) in
              rw z (ap (λ x. x.in_use) (two.others 0 (omega arith)) ∙ one.used)
        ];
        others = λ fd le. two.others fd (omega arith) ∙ one.others fd (omega arith);
        stack = refl;
        segment = refl;
      },
    )
