-- ===== src/Syscalls/Tests.antt =====
-- Uses of the theorems on the system calls: one process in slot 0, with the terminal's two
-- descriptors in use.
use ece_391_linux_kernel_cla.Prelude.{
  ℕ, ◌+◌, ◌≡◌, ◌≢◌, refl, Bool, true, none, some, [], pos, word, ◌==◌, ==_iff, all_below,
  all_below_sound, Bytes, AreBytes, codes, literal, ltb, ◌!=◌, if◌then◌else◌, arith,
}
use ece_391_linux_kernel_cla.Clib.{strlen, strncmp}
use ece_391_linux_kernel_cla.FileSystem.{Dentry, memcpy_dentry, entry, read_dentry_by_name}
use ece_391_linux_kernel_cla.Io.{Device}
use ece_391_linux_kernel_cla.Paging.{Tables}
use ece_391_linux_kernel_cla.Syscalls.{
  Kernel, Outside, FileData, Pcb, terminal_fops, file_fops, fops_for, fd_of, syscall_open, close,
}
use ece_391_linux_kernel_cla.Syscalls.Open.{
  IsFile, IsFirstFree, IsOpened, syscall_open-first, close-syscall_open,
}
use ece_391_linux_kernel_cla.Syscalls.Command.{parse_command}
use ece_391_linux_kernel_cla.Syscalls.Command.Parsed.{IsCommand, IsWord, parse_command-IsCommand}
use ece_391_linux_kernel_cla.Samples.{get_or-byte, disk, frame0, zeros, blank}

abbrev silent : Device
silent log port = 0

-- Descriptors below `n` are in use.
abbrev used_below : ℕ → ℕ → FileData
used_below n i = record {
  table = terminal_fops;
  in_use = if ltb i n then 1 else 0;
  file_pos = 0;
  info = 0;
}

abbrev shell : ℕ → Pcb
shell n = record {
  process_num = 0;
  parent_sp = 0;
  parent_bp = 0;
  parent_pcb = none;
  filename = literal "shell";
  args = zeros;
  fd_array = used_below n;
  term_start = 1;
}

abbrev no_tables : Tables
no_tables = record { directory = zeros; table = zeros; video_table = zeros; loads = 0 }

abbrev kernel : ℕ → Kernel
kernel n = record {
  fs = disk;
  directory_index = 0;
  pcbs = λ q. shell n;
  console = blank;
  processes = 1;
  tables = no_tables;
  esp0 = 0;
  ss0 = 0;
  old_esp = 0;
  old_ebp = 0;
  entry_point = zeros;
  images = λ q. zeros;
}

abbrev file : Dentry
file = memcpy_dentry (entry disk 0)

-- Stated for an arbitrary kernel over the disk.
file-IsFile : (n : ℕ) → IsFile frame0 file (kernel n)
unfolding strncmp read_dentry_by_name strlen
file-IsFile n = record { not_stdin = refl; not_stdout = refl; entry = refl }

third_free : IsFirstFree (used_below 3) 2 3
third_free = record { lower = omega arith; free = refl; first = λ i l u. ground arith }

standard : fops_for file.file_type ≡ some file_fops
unfolding fops_for memcpy_dentry word
standard = refl

syscall_open-first_example :
    (k' : Kernel) × (syscall_open silent frame0 (kernel 3) ≡ some (pos 3, k'))
    × IsOpened file_fops file 0 3 (kernel 3) k'
syscall_open-first_example =
    syscall_open-first silent frame0 file (kernel 3) 0 (file-IsFile 3) refl file_fops 3 standard
      third_free (omega arith)

syscall_open-IsOpened :
    (k' : Kernel) × (syscall_open silent frame0 (kernel 3) ≡ some (pos 3, k'))
    × IsOpened file_fops file 0 3 (kernel 3) k'
syscall_open-IsOpened =
    syscall_open-first silent frame0 file (kernel 3) 0 (file-IsFile 3) refl file_fops 3 standard
      third_free (omega arith)

abbrev after : Kernel
after = syscall_open-IsOpened.0

close-syscall_open_example :
    (k'' : Kernel) × (close 3 after ≡ some (pos 0, k''))
    × ((q i : ℕ) → (fd_of q i k'').in_use ≡ (fd_of q i (kernel 3)).in_use)
close-syscall_open_example =
    close-syscall_open file_fops file 0 3 (kernel 3) after syscall_open-IsOpened.2 (omega arith)
      (omega arith) refl

abbrev outside : Outside
outside = record { device = silent; events = []; fuel = 1; fires = λ k. true; stack = zeros }

abbrev pub command : Bytes
command = literal "  cat  frame0.txt"

pub command-AreBytes : AreBytes command
command-AreBytes i = get_or-byte (codes "  cat  frame0.txt") i refl

abbrev space_at : ℕ → ℕ → Bool
space_at from i = command (from + i) == 32

abbrev char_at : ℕ → ℕ → Bool
char_at from i = command (from + i) != 32

abbrev live_at : ℕ → Bool
live_at i = command i != 0

differs : (a b : ℕ) → (a != b) ≡ true → a ≢ b
differs a b h = ground arith

pub command-IsCommand : IsCommand command 2 3 2 10
unfolding all_below
command-IsCommand = record {
  leading = λ i lt. (==_iff (command i) 32).0 (all_below_sound 2 (λ j. command j == 32) refl i lt);
  name_pos = omega arith;
  name = λ i lt. differs (command (2 + i)) 32 (all_below_sound 3 (char_at 2) refl i lt);
  between = λ i lt. (==_iff (command (5 + i)) 32).0 (all_below_sound 2 (space_at 5) refl i lt);
  apart = λ h. omega arith;
  arguments = λ h. differs (command 7) 32 refl;
  string = record {
    body = λ i lt. differs (command i) 0 (all_below_sound 17 live_at refl i lt);
    stop = refl;
  };
}

parse_command-IsCommand_example :
    (name : Bytes) × (args : Bytes) × (parse_command zeros zeros command ≡ some (name, args))
    × IsWord name command 2 3
    × IsWord args command (2 + 3 + 2) 10
parse_command-IsCommand_example =
    parse_command-IsCommand zeros zeros command 2 3 2 10 command-IsCommand (omega arith)
