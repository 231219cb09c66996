-- ===== src/Syscalls/Halt/Tests.antt =====
-- A shell that the process in slot 2 starts, and that halts.
use ece_391_linux_kernel_cla.Prelude.{ℕ, ◌≡◌, ◌≢◌, refl, some, literal, arith}
use ece_391_linux_kernel_cla.Io.{Device}
use ece_391_linux_kernel_cla.Samples.Shell.{
  frame, shell_disk, shell_file, word_of, shell-IsLoadable, busy_kernel,
}
use ece_391_linux_kernel_cla.Syscalls.{Kernel, running_pcb}
use ece_391_linux_kernel_cla.Syscalls.Execute.{entered, resumed, execute}
use ece_391_linux_kernel_cla.Syscalls.Execute.Started.{entry_of}
use ece_391_linux_kernel_cla.Syscalls.Halt.{halt}
use ece_391_linux_kernel_cla.Syscalls.Halt.Roundtrip.{IsCaller, halt-execute}
use ece_391_linux_kernel_cla.Syscalls.Slots.{slot_loop}

abbrev silent : Device
silent log port = 0

fourth : (slot_loop 6 0 1 7).0 ≡ 3
unfolding slot_loop
fourth = refl

not_first : (slot_loop 6 0 1 7).0 ≢ 0
not_first e = omega (arith, fourth, e)

not_start : (busy_kernel.pcbs (slot_loop 6 0 1 7).0).term_start ≢ 1
not_start = rw fourth (omega arith)

caller : IsCaller (slot_loop 6 0 1 7).0 2 busy_kernel
caller = record {
  running = refl;
  been_here = refl;
  taken_slot = refl;
  not_first = not_first;
  not_start = not_start;
}

halt-execute_example :
    (k' : Kernel) × (k'' : Kernel) × (execute silent frame (some (literal "shell")) busy_kernel
      ≡ entered (entry_of shell_disk shell_file.inode_num) k')
    × (halt silent frame 0 k' ≡ resumed 0x7FFF00 0x7FFF20 k'')
    × (running_pcb k'' ≡ some 2)
    × (k''.processes ≡ 7)
    × ((r : ℕ) → r ≢ (slot_loop 6 0 1 7).0 → k''.pcbs r ≡ busy_kernel.pcbs r)
halt-execute_example =
    halt-execute silent frame (literal "shell") word_of.0 word_of.1 shell_file 0 0 2 busy_kernel
      (shell-IsLoadable busy_kernel refl (omega arith)) caller
