-- ===== src/Syscalls/Execute/Tests.antt =====
-- Uses of the theorems on `execute`: the shell, and a name that no file has.
use ece_391_linux_kernel_cla.Prelude.{◌≡◌, ap, refl, some, negsuc, minus_one, literal, arith}
use ece_391_linux_kernel_cla.Console.Puts.{put_chars}
use ece_391_linux_kernel_cla.FileSystem.{entry}
use ece_391_linux_kernel_cla.Io.{Device}
use ece_391_linux_kernel_cla.Samples.{disk, disk-AreBytes}
use ece_391_linux_kernel_cla.Syscalls.Tests.{command, command-IsCommand, command-AreBytes}
use ece_391_linux_kernel_cla.Samples.Shell.{
  frame, shell_disk, shell_file, word_of, test_parsed, test_entry, test_program, shell-IsLoadable,
  busy_kernel,
}
use ece_391_linux_kernel_cla.Syscalls.{Kernel}
use ece_391_linux_kernel_cla.Syscalls.Execute.{entered, returned, execute, quieted, full_message}
use ece_391_linux_kernel_cla.Syscalls.Execute.Refused.{execute-full}
use ece_391_linux_kernel_cla.Syscalls.Execute.Absent.{execute-IsCommand}
use ece_391_linux_kernel_cla.Syscalls.Execute.Started.{
  IsRunning, IsBlock, IsImage, entry_of, execute-IsRunning,
}
use ece_391_linux_kernel_cla.Syscalls.Slots.{IsTaking, slot_loop}

abbrev silent : Device
silent log port = 0

execute-IsRunning_example :
    (k' : Kernel) × (execute silent frame (some (literal "shell")) busy_kernel
      ≡ entered (entry_of shell_disk shell_file.inode_num) k')
    × IsTaking 7 (slot_loop 6 0 1 7).0 k'.processes
    × IsRunning (slot_loop 6 0 1 7).0 busy_kernel k'
    × IsBlock frame word_of.1 (slot_loop 6 0 1 7).0 0 busy_kernel k'
    × IsImage (slot_loop 6 0 1 7).0 shell_file busy_kernel k'
execute-IsRunning_example =
    execute-IsRunning silent frame (literal "shell") word_of.0 word_of.1 shell_file 0 busy_kernel
      (shell-IsLoadable busy_kernel refl (omega arith))

-- A disk without the shell.
abbrev bare : Kernel
bare = record busy_kernel { fs = disk }

test_first : entry disk 0 0 ≡ 102
test_first = refl

execute-IsCommand_example :
    execute silent frame (some command) bare ≡ returned minus_one (quieted bare)
execute-IsCommand_example =
    execute-IsCommand silent frame command 2 3 2 10 bare disk-AreBytes (λ i. omega arith)
      command-AreBytes command-IsCommand (omega arith)
      (λ n lt h.
        let zero : n ≡ 0 = omega (arith, lt) in
        omega (arith, test_first, h 0 (omega arith), ap (λ x. entry disk x 0) zero))

abbrev full : Kernel
full = record busy_kernel { processes = 63 }

execute-full_example :
    execute silent frame (some (literal "shell")) full
    ≡ returned
        (negsuc 9)
        (record full { console = put_chars 32 0 full_message ((quieted full).console) })
execute-full_example =
    execute-full silent frame (literal "shell") word_of.0 word_of.1 shell_file full test_parsed
      test_entry test_program refl
