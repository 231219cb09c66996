-- ===== src/Syscalls/Descriptors.antt =====
-- What a write to a descriptor changes, and what it leaves alone, in student-distrib/syscalls.c.
use ece_391_linux_kernel_cla.Prelude.{
  ℕ, ◌≡◌, ◌≢◌, ◌⊎◌, inl, inr, refl, ◌∙◌, ap, true, false, ◌&&◌, is_zero, ◌==◌, if◌then◌else◌, arith,
}
use ece_391_linux_kernel_cla.FileSystem.{dir_close, file_close}
use ece_391_linux_kernel_cla.Rtc.{rtc_close}
use ece_391_linux_kernel_cla.Terminal.{terminal_close}
use ece_391_linux_kernel_cla.Syscalls.{
  Fops, terminal_fops, rtc_fops, dir_fops, file_fops, FileData, Pcb, Kernel, running_pcb, fd_of,
  put_fd, table_close,
}

pub table_close-zero : (table : Fops) → is_zero (table_close table) ≡ true
unfolding table_close terminal_close rtc_close dir_close file_close
table_close-zero terminal_fops = refl
table_close-zero rtc_fops = refl
table_close-zero dir_fops = refl
table_close-zero file_fops = refl

pub put_fd_self : (p fd : ℕ) (f : FileData) (k : Kernel) → fd_of p fd (put_fd p fd f k) ≡ f
unfolding put_fd
put_fd_self p fd f k = ground arith

pub put_fd-other :
    (p fd : ℕ) (f : FileData) (k : Kernel) (q i : ℕ)
    → (q ≢ p) ⊎ (i ≢ fd)
    → fd_of q i (put_fd p fd f k) ≡ fd_of q i k
unfolding put_fd
put_fd-other p fd f k q i (inl ne) = ground arith
put_fd-other p fd f k q i (inr ne) = ground arith

pub put_fd-in_use :
    (p fd : ℕ) (f : FileData) (k : Kernel) (q i : ℕ)
    → (fd_of q i (put_fd p fd f k)).in_use
      ≡ (if (q == p) && (i == fd) then f.in_use else (fd_of q i k).in_use)
unfolding put_fd
put_fd-in_use p fd f k q i = ground arith

pub put_fd-running :
    (p fd : ℕ) (f : FileData) (k : Kernel) → running_pcb (put_fd p fd f k) ≡ running_pcb k
unfolding put_fd
put_fd-running p fd f k = refl

-- Nothing but descriptors of the process in slot `p` has changed.
pub record IsFdChange (p : ℕ) (k k' : Kernel) : Type 0 where
  pub rest : k' ≡ record k { pcbs = k'.pcbs }
  pub block : k'.pcbs p ≡ record (k.pcbs p) { fd_array = (k'.pcbs p).fd_array }
  pub others : (q : ℕ) → q ≢ p → k'.pcbs q ≡ k.pcbs q

pub IsFdChange_refl : (p : ℕ) (k : Kernel) → IsFdChange p k k
IsFdChange_refl p k = record { rest = refl; block = refl; others = λ q ne. refl }

pub IsFdChange_trans :
    (p : ℕ) (k k' k'' : Kernel) → IsFdChange p k k' → IsFdChange p k' k'' → IsFdChange p k k''
IsFdChange_trans p k k' k'' c d = record {
  rest = d.rest ∙ ap {A = Kernel} (λ x. record x { pcbs = k''.pcbs }) c.rest;
  block = d.block ∙ ap {A = Pcb} (λ x. record x { fd_array = (k''.pcbs p).fd_array }) c.block;
  others = λ q ne. d.others q ne ∙ c.others q ne;
}

pub put_fd-IsFdChange : (p fd : ℕ) (f : FileData) (k : Kernel) → IsFdChange p k (put_fd p fd f k)
unfolding put_fd
put_fd-IsFdChange p fd f k =
    let e : (p == p) ≡ true = ground arith in
    record {
      rest = refl;
      block = rw e refl;
      others = λ q ne. let e' : (q == p) ≡ false = ground arith in rw e' refl;
    }

pub IsFdChange-running :
    (p : ℕ) (k k' : Kernel) → IsFdChange p k k' → running_pcb k' ≡ running_pcb k
IsFdChange-running p k k' c = ap running_pcb c.rest
