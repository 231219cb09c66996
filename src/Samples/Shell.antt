-- ===== src/Samples/Shell.antt =====
-- Data for the tests: a disk with an executable file, "shell", of 40 bytes.
use ece_391_linux_kernel_cla.Prelude.{
  ℕ, ◌-◌, ◌<◌, ◌≡◌, refl, true, ◌&&◌, List, [], ◌∷◌, Option, none, some, Bytes, literal, ◌==◌, ltb,
  leb, if◌then◌else◌, get_or, word, s32, arith,
}
use ece_391_linux_kernel_cla.Clib.{strlen, strncmp, strncpy}
use ece_391_linux_kernel_cla.FileSystem.{
  Dentry, memcpy_dentry, entry, found, read_dentry_by_name, read_data, length_in_bytes,
}
use ece_391_linux_kernel_cla.Syscalls.Command.{parse_command, parse_char, handle_lz, name_char}
use ece_391_linux_kernel_cla.Syscalls.Execute.{Frame, is_program}
use ece_391_linux_kernel_cla.Syscalls.Execute.Started.{IsLoadable}
use ece_391_linux_kernel_cla.Syscalls.Slots.{max_processes}
use ece_391_linux_kernel_cla.Syscalls.{Kernel, Pcb, FileData, terminal_fops}
use ece_391_linux_kernel_cla.Console.{Term}
use ece_391_linux_kernel_cla.Paging.{Tables}
use ece_391_linux_kernel_cla.Samples.{zeros, blank}

-- The file's bytes: the magic number, and the entry point at 24.
abbrev program : List ℕ
program =
    0x7F ∷ 0x45 ∷ 0x4C ∷ 0x46 ∷ 0 ∷ 0 ∷ 0 ∷ 0 ∷ 0 ∷ 0 ∷ 0 ∷ 0 ∷ 0 ∷ 0 ∷ 0 ∷ 0 ∷ 0 ∷ 0 ∷ 0 ∷ 0 ∷ 0
    ∷ 0 ∷ 0 ∷ 0 ∷ 0x18 ∷ 0x80 ∷ 0x04 ∷ 0x08 ∷ []

abbrev shell_name : Bytes
shell_name = literal "shell"

-- One entry, of type 2 with inode 1, in data block 0.
abbrev pub shell_disk : Bytes
shell_disk i =
    if i == 0
    then 1
    else if i == 4
    then 2
    else if leb 64 i && ltb i 96
    then shell_name (i - 64)
    else if i == 96
    then 2
    else if i == 100
    then 1
    else if i == 8192
    then 40
    else if leb 12288 i && ltb i 12328
    then get_or program (i - 12288) 0
    else 0

abbrev pub frame : Frame
frame = record {
  file_name = zeros;
  arg_buffer = zeros;
  is_executable = zeros;
  esp = 0x7FFF00;
  ebp = 0x7FFF20;
  words = λ i. 0;
  memory = zeros;
  conv_buf = zeros;
}

abbrev parts : Option (Bytes × Bytes) → Bytes × Bytes
parts none = (zeros, zeros)
parts (some p) = p

abbrev pub word_of : Bytes × Bytes
word_of = parts (parse_command zeros zeros (literal "shell"))

pub test_parsed : parse_command zeros zeros (literal "shell") ≡ some (word_of.0, word_of.1)
unfolding parse_command strlen
test_parsed = refl

abbrev pub shell_file : Dentry
shell_file = memcpy_dentry (entry shell_disk 0)

pub test_program : is_program frame shell_disk shell_file.inode_num ≡ true
unfolding is_program read_data strncmp word memcpy_dentry s32
test_program = refl

pub test_entry : read_dentry_by_name shell_disk (some word_of.0) ≡ some (found shell_file)
unfolding parse_command read_dentry_by_name strncmp strlen parse_char handle_lz name_char
test_entry = refl

test_length : length_in_bytes shell_disk shell_file.inode_num ≡ 40
unfolding word memcpy_dentry
test_length = refl

test_arguments : word_of.1 0 ≡ 0
unfolding parse_command strlen parse_char handle_lz name_char strncpy
test_arguments = refl

-- Any kernel with this disk and a free slot can execute the shell.
pub shell-IsLoadable :
    (k : Kernel)
    → k.fs ≡ shell_disk
    → k.processes < max_processes
    → IsLoadable frame (literal "shell") word_of.0 word_of.1 shell_file 0 k
shell-IsLoadable k e lt = record {
  parsed = test_parsed;
  entry = rw e test_entry;
  program = rw e test_program;
  header = rw e (omega (arith, test_length));
  small = rw e (omega (arith, test_length));
  arguments = record { body = λ i l. absurd (omega (arith, l)); stop = test_arguments };
  fits = omega arith;
  room = lt;
}

abbrev no_tables : Tables
no_tables = record { directory = zeros; table = zeros; video_table = zeros; loads = 0 }

abbrev unused : FileData
unused = record { table = terminal_fops; in_use = 0; file_pos = 0; info = 0 }

abbrev no_process : Pcb
no_process = record {
  process_num = 0;
  parent_sp = 0;
  parent_bp = 0;
  parent_pcb = none;
  filename = zeros;
  args = zeros;
  fd_array = λ i. unused;
  term_start = 0;
}

abbrev no_term : Term
no_term = record {
  been_here = 0;
  cursor_x = 0;
  cursor_y = 0;
  keyboard_buffer = zeros;
  vid_mem = zeros;
  running_pcb = none;
  current_esp = 0;
  current_ebp = 0;
  esp0 = 0;
}

-- A kernel in which nothing has run, with terminals that have these contents.
abbrev pub kernel_with : (ℕ → Term) → (ℕ → Pcb) → ℕ → Kernel
kernel_with terms pcbs processes = record {
  fs = shell_disk;
  directory_index = 0;
  pcbs = pcbs;
  console = record blank { terms = terms };
  processes = processes;
  tables = no_tables;
  esp0 = 0;
  ss0 = 0;
  old_esp = 0;
  old_ebp = 0;
  entry_point = zeros;
  images = λ q. zeros;
}

abbrev pub fresh_kernel : Kernel
fresh_kernel = kernel_with (λ a. no_term) (λ p. no_process) 0

-- Terminals 0 and 1 are open, with the processes in slots 0 and 1, and slot 0 has started slot 2,
-- which runs.
abbrev at_stack : ℕ → ℕ → Term
at_stack p esp = record no_term { been_here = 1; running_pcb = some p; current_esp = esp }

abbrev pub busy_terms : ℕ → Term
busy_terms a = if a == 0 then at_stack 2 5000 else if a == 1 then at_stack 1 6000 else no_term

abbrev pub busy_pcbs : ℕ → Pcb
busy_pcbs p =
    if p == 2
    then record no_process {
      process_num = 2;
      parent_pcb = some 0;
      parent_sp = 7000;
      parent_bp = 7004;
    }
    else record no_process { process_num = p; term_start = if leb p 1 then 1 else 0 }

abbrev pub busy_kernel : Kernel
busy_kernel = kernel_with busy_terms busy_pcbs 7
