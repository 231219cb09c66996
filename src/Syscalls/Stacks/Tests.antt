-- ===== src/Syscalls/Stacks/Tests.antt =====
-- Uses of the theorems on stacks of processes: in terminal 0 slot 0 has started slot 2, in terminal 1
-- slot 1 runs.
use ece_391_linux_kernel_cla.Prelude.{◌≡◌, refl, [], some, literal, arith}
use ece_391_linux_kernel_cla.Io.{Device}
use ece_391_linux_kernel_cla.Samples.Busy.{busy, busy-Implements}
use ece_391_linux_kernel_cla.Samples.Shell.{
  frame, shell_disk, shell_file, word_of, shell-IsLoadable, busy_kernel, fresh_kernel,
}
use ece_391_linux_kernel_cla.Syscalls.{Kernel}
use ece_391_linux_kernel_cla.Syscalls.Execute.{entered, resumed, execute}
use ece_391_linux_kernel_cla.Syscalls.Execute.Started.{entry_of}
use ece_391_linux_kernel_cla.Syscalls.Halt.{halt}
use ece_391_linux_kernel_cla.Syscalls.Slots.{slot_loop}
use ece_391_linux_kernel_cla.Syscalls.Stacks.{push, pop, select, Implements}
use ece_391_linux_kernel_cla.Syscalls.Stacks.Pop.{halt-pop}
use ece_391_linux_kernel_cla.Syscalls.Stacks.Push.{execute-push}
use ece_391_linux_kernel_cla.Syscalls.Stacks.Reached.{
  started, stay, step, empty, IsFresh, fresh-Implements, IsAlone, Reach-IsAlone,
}
use ece_391_linux_kernel_cla.Syscalls.Stacks.Select.{switch_to_other_term-select}
use ece_391_linux_kernel_cla.Syscalls.Switch.{switch_to_other_term}

abbrev silent : Device
silent log port = 0

execute-push_example :
    (k' : Kernel) × (execute silent frame (some (literal "shell")) busy_kernel
      ≡ entered (entry_of shell_disk shell_file.inode_num) k')
    × Implements (push (slot_loop 6 0 1 7).0 busy) k'
execute-push_example =
    execute-push silent frame (literal "shell") word_of.0 word_of.1 shell_file 0 busy busy_kernel
      busy-Implements (shell-IsLoadable busy_kernel refl (omega arith))

halt-pop_example :
    (k' : Kernel) × (halt silent frame 0 busy_kernel ≡ resumed 7000 7004 k')
    × Implements (pop busy) k'
halt-pop_example = halt-pop silent frame 0 2 0 [] busy busy_kernel busy-Implements refl

switch_to_other_term-select_example :
    (k' : Kernel) × (switch_to_other_term silent frame 1 8000 8004 busy_kernel ≡ resumed 6000 0 k')
    × Implements (select 1 busy) k'
switch_to_other_term-select_example =
    switch_to_other_term-select silent frame 1 8000 8004 1 [] busy busy_kernel busy-Implements
      (omega arith) refl

fresh : IsFresh fresh_kernel
fresh = record {
  closed = λ a. omega arith;
  idle = λ a. refl;
  unused = refl;
  no_start = λ p. omega arith;
}

-- The first shell, once started.
first_shell :
    (k' : Kernel) × (execute silent frame (some (literal "shell")) fresh_kernel
      ≡ entered (entry_of shell_disk shell_file.inode_num) k')
    × Implements (push (slot_loop 6 0 1 0).0 (empty 0)) k'
first_shell =
    execute-push silent frame (literal "shell") word_of.0 word_of.1 shell_file 0 (empty 0)
      fresh_kernel (fresh-Implements fresh_kernel fresh)
      (shell-IsLoadable fresh_kernel refl (omega arith))

first_runs : (first_shell.0.console.terms 0).running_pcb ≡ some 0
unfolding slot_loop
first_runs = first_shell.2.running 0

Reach-IsAlone_example : IsAlone 0 0 first_shell.0
Reach-IsAlone_example =
    Reach-IsAlone fresh_kernel first_shell.0 0 0 fresh
      (step stay (
        started silent frame (literal "shell") word_of.0 word_of.1 shell_file 0
          (entry_of shell_disk shell_file.inode_num)
          (shell-IsLoadable fresh_kernel refl (omega arith)) first_shell.1))
      first_runs
