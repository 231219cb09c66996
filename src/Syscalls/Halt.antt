-- ===== src/Syscalls/Halt.antt =====
-- `halt` of student-distrib/syscalls.c.
pub mod Closing
pub mod Resumed
pub mod Roundtrip
mod Tests
use ece_391_linux_kernel_cla.Prelude.{
  ℕ, zero, suc, ◌+◌, ◌||◌, true, false, Option, none, some, minus_one, Bytes, literal, ◌==◌,
  if◌then◌else◌,
}
use ece_391_linux_kernel_cla.Clib.{strncpy}
use ece_391_linux_kernel_cla.Console.{Console, term_of, put_term}
use ece_391_linux_kernel_cla.Io.{Device, sti}
use ece_391_linux_kernel_cla.Paging.{load_new_process}
use ece_391_linux_kernel_cla.Syscalls.{Kernel, Pcb, running_pcb, fd_of, process_count, close}
use ece_391_linux_kernel_cla.Syscalls.Command.{filename_size, max_arg_buf_size}
use ece_391_linux_kernel_cla.Syscalls.Slots.{clear_slot}
use ece_391_linux_kernel_cla.Syscalls.Execute.{
  Outcome, fault, returned, entered, resumed, Frame, execute, kernel_stack, quieted,
}

-- The loop that closes what is in use, with `n` descriptors left, for the process in slot `p`.
unfoldable pub close_loop : ℕ → ℕ → ℕ → Kernel → Option Kernel
close_loop zero i p k = some k
close_loop (suc n) i p k = elim ((fd_of p i k).in_use == 1) [
  | true ↦ elim (close i k) [ none ↦ none | some (r, k') ↦ close_loop n (i + 1) p k' ]
  | false ↦ close_loop n (i + 1) p k
]

-- The arguments and the file name are cleared.
unfoldable pub clear_names : ℕ → Kernel → Kernel
clear_names p k = record k {
  pcbs = λ q.
      if q == p
      then record (k.pcbs q) {
        args = strncpy (k.pcbs q).args (literal "") max_arg_buf_size;
        filename = strncpy (k.pcbs q).filename (literal "") filename_size;
      }
      else k.pcbs q;
}

-- `tss.esp0` for the process that runs now, and the stack that `old_esp` and `old_ebp` name; there
-- `execute` returns 0 with interrupts enabled.
unfoldable pub resume : Kernel → Outcome
resume k = elim (running_pcb k) [
  | none ↦ fault
  | some q ↦ resumed k.old_esp k.old_ebp (record k {
    esp0 = kernel_stack (k.pcbs q).process_num;
    console = record (k.console) { io = sti (k.console.io) };
  })
]

-- The parent of the process in slot `p` runs again.
unfoldable pub restore_parent : ℕ → Kernel → Outcome
unfolding resume
restore_parent p k = elim ((k.pcbs p).parent_pcb) [
  | none ↦ fault
  | some q ↦ resume (record k {
    old_ebp = (k.pcbs p).parent_bp;
    old_esp = (k.pcbs p).parent_sp;
    console = put_term (record (term_of k.console) { running_pcb = some q }) (k.console);
    tables = load_new_process (k.pcbs q).process_num (k.tables);
  })
]

-- The first process of a terminal makes way for a new shell. If that cannot be executed, the last
-- stack that was restored is used again.
unfoldable pub new_shell : Device → Frame → Kernel → Outcome
new_shell device fr k = elim (execute device fr (some (literal "shell")) k) [
  | fault ↦ fault
  | returned r k' ↦ resume k'
  | entered eip k' ↦ entered eip k'
  | resumed esp ebp k' ↦ resumed esp ebp k'
]

-- The status that the process gives is not looked at.
unfoldable pub halt : Device → Frame → ℕ → Kernel → Outcome
halt device fr status k = elim (running_pcb k) [
  | none ↦ returned minus_one (quieted k)
  | some p ↦
      elim (close_loop process_count 0 p
        (record (quieted k) { processes = clear_slot (k.pcbs p).process_num (k.processes) })) [
          | none ↦ fault
          | some k₁ ↦
              let k₂ = clear_names p k₁ in
              if ((k₂.pcbs p).process_num == 0) || ((k₂.pcbs p).term_start == 1)
              then new_shell device fr k₂
              else restore_parent p k₂
        ]
]
