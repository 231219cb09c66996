-- ===== src/Programs/Tests.antt =====
-- Uses of the theorems on the user programs: a process in slot 0 with the terminal's two descriptors
-- in use, on a disk with one file, on one with a directory, and on one with a shell.
mod Sessions
use ece_391_linux_kernel_cla.Prelude.{
  ℕ, ◌+◌, ◌-◌, ◌*◌, ◌≤◌, ◌<◌, ◌≡◌, ◌≢◌, ◌↔◌, refl, true, ◌&&◌, Option, none, some, [], ℤ, pos,
  minus_one, word, ◌==◌, ◌!=◌, ==_iff, all_below, all_below_sound, Bytes, AreBytes, IsString,
  literal, ltb, leb, if◌then◌else◌, ℕ_discrete, arith,
}
use ece_391_linux_kernel_cla.Clib.{strlen, strncmp}
use ece_391_linux_kernel_cla.FileSystem.{
  Dentry, memcpy_dentry, entry, found, missing, read_dentry_by_name, length_in_bytes,
}
use ece_391_linux_kernel_cla.FileSystem.Blocks.{content}
use ece_391_linux_kernel_cla.Io.{Device}
use ece_391_linux_kernel_cla.Terminal.{write_loop}
use ece_391_linux_kernel_cla.Terminal.Shown.{Shows}
use ece_391_linux_kernel_cla.Syscalls.{
  Kernel, Outside, FileData, Pcb, terminal_fops, dir_fops, file_fops, fops_for, fd_of, running_pcb,
}
use ece_391_linux_kernel_cla.Syscalls.Execute.Started.{entry_of}
use ece_391_linux_kernel_cla.Syscalls.Halt.Roundtrip.{IsCaller}
use ece_391_linux_kernel_cla.Syscalls.Open.{IsFile, IsFirstFree}
use ece_391_linux_kernel_cla.Syscalls.Slots.{slot_loop}
use ece_391_linux_kernel_cla.Samples.{
  disk, frame0, hello, hello-IsString, frame0-IsString, frame0-AreBytes, zeros, fresh_term,
}
use ece_391_linux_kernel_cla.Samples.Shell.{
  frame, shell_disk, shell_file, word_of, shell-IsLoadable, kernel_with, busy_kernel,
}
use ece_391_linux_kernel_cla.Support.{ece391_strlen}
use ece_391_linux_kernel_cla.Programs.{Calls, ece391_fdputs}
use ece_391_linux_kernel_cla.Programs.Cat.{cat_main}
use ece_391_linux_kernel_cla.Programs.Cat.Whole.{IsRequest, cat_main-content}
use ece_391_linux_kernel_cla.Programs.Fish.{mp1_malloc, mp1_free, location_at}
use ece_391_linux_kernel_cla.Programs.Fish.Blinking.{mp1_malloc-mp1_free}
use ece_391_linux_kernel_cla.Programs.Grep.{occurs}
use ece_391_linux_kernel_cla.Programs.Grep.Search.{StandsAt}
use ece_391_linux_kernel_cla.Programs.Kernel.{System, Surroundings, kernel_calls, kernel_execute}
use ece_391_linux_kernel_cla.Programs.Kernel.Executed.{IsTame, Halts, kernel_execute-returns}
use ece_391_linux_kernel_cla.Programs.Kernel.Files.{file_at}
use ece_391_linux_kernel_cla.Programs.Kernel.Refusals.{IsUser}
use ece_391_linux_kernel_cla.Programs.Ls.{ls_main}
use ece_391_linux_kernel_cla.Programs.Ls.Listed.{IsNamed, ListsNames, ls_main-ListsNames}
use ece_391_linux_kernel_cla.Programs.Shell.{report, shell_loop}
use ece_391_linux_kernel_cla.Programs.Shell.Session.{
  IsLine, IsTyped, Session, leave, command, shell_loop-Session,
}
use ece_391_linux_kernel_cla.Programs.Syserr.{
  err_neg_fd, err_big_fd, err_unopened, err_vidmap, err_stdin_out, err_syscall_num, err_open,
}
use ece_391_linux_kernel_cla.Programs.Syserr.Passed.{Passes}
use ece_391_linux_kernel_cla.Programs.Syserr.Prefix.{err_open-shel}
use ece_391_linux_kernel_cla.Programs.Syserr.Verdict.{IsTyping, tests-Passes}

abbrev pub silent : Device
silent log port = 0

abbrev pub outside : Outside
outside = record { device = silent; events = []; fuel = 1; fires = λ k. true; stack = zeros }

-- Programs that halt at once.
abbrev pub world : Surroundings
world = record {
  outside = λ i. outside;
  frame = λ i. frame;
  rodata = zeros;
  v_m_page_table = 0;
  child = λ eip m. some (0, m);
  other = λ e m. some (minus_one, m);
}

abbrev pub two_in_use : ℕ → FileData
two_in_use i = record {
  table = terminal_fops;
  in_use = if ltb i 2 then 1 else 0;
  file_pos = 0;
  info = 0;
}

abbrev pub block : Pcb
block = record {
  process_num = 0;
  parent_sp = 0;
  parent_bp = 0;
  parent_pcb = none;
  filename = literal "cat";
  args = frame0;
  fd_array = two_in_use;
  term_start = 1;
}

abbrev pub system : Bytes → System
system fs = record {
  kernel = record (kernel_with (λ a. fresh_term) (λ p. block) 1) { fs = fs };
  count = 0;
}

pub user : (fs : Bytes) → IsUser 0 ((system fs).kernel)
user fs = record { run = refl; screen = refl; screen_in_use = omega arith }

pub typing : (fs : Bytes) → IsTyping 0 ((system fs).kernel)
typing fs = record { user = user fs; keyboard = refl; keyboard_in_use = omega arith }

pub free : IsFirstFree two_in_use 2 2
free = record { lower = omega arith; free = refl; first = λ i l u. absurd (omega arith) }

abbrev file : Dentry
file = memcpy_dentry (entry disk 0)

test_file : IsFile frame0 file ((system disk).kernel)
unfolding strncmp read_dentry_by_name strlen
test_file = record { not_stdin = refl; not_stdout = refl; entry = refl }

test_typed : fops_for file.file_type ≡ some file_fops
unfolding fops_for memcpy_dentry word
test_typed = refl

test_length : length_in_bytes disk file.inode_num ≡ 5
unfolding word memcpy_dentry
test_length = refl

zeros-IsString : IsString zeros 0
zeros-IsString = record { body = λ i lt. absurd (omega arith); stop = refl }

request : IsRequest 0 10 2 file ((system disk).kernel)
request = record {
  run = refl;
  screen = refl;
  screen_in_use = omega arith;
  args = frame0-IsString;
  named = omega arith;
  short = omega arith;
  file = test_file;
  typed = test_typed;
  free = free;
  room = omega arith;
  small = omega (arith, test_length);
}

cat_main-content_example :
    (m' : System) × (cat_main (kernel_calls world) 2 zeros (system disk) ≡ some (pos 0, m'))
    × Shows
        (write_loop
          (length_in_bytes disk file.inode_num)
          0
          (content disk file.inode_num)
          ((system disk).kernel.console))
        (m'.kernel.console)
cat_main-content_example =
    cat_main-content world 0 10 2 0 2 file zeros (system disk) request zeros-IsString (omega arith)
      (omega (arith, test_length))

-- A disk with a directory, ".", and "frame0.txt".
abbrev pub dir_disk : Bytes
dir_disk i =
    if i == 0
    then 2
    else if i == 4
    then 2
    else if i == 64
    then 46
    else if i == 96
    then 1
    else if leb 128 i && ltb i 160
    then frame0 (i - 128)
    else if i == 160
    then 2
    else if i == 164
    then 1
    else 0

test_count : word dir_disk ≡ 2
unfolding word
test_count = refl

test_first : entry dir_disk 0 0 ≡ 46
test_first = refl

test_second : entry dir_disk 1 0 ≡ 102
test_second = refl

dir_disk-IsNamed : IsNamed dir_disk
dir_disk-IsNamed = record {
  bytes = λ i. ground (arith, frame0-AreBytes (i - 128));
  names = λ i lt e. elim (ℕ_discrete i 0) [
    | yes z ↦ omega (arith, test_first, rw z at e)
    | no ne ↦
        let second : i ≡ 1 = omega (arith, lt, test_count, ne) in
        omega (arith, test_second, rw second at e)
  ];
}

abbrev pub dot : Dentry
dot = memcpy_dentry (entry dir_disk 0)

test_dot : IsFile (literal ".") dot ((system dir_disk).kernel)
unfolding strncmp read_dentry_by_name strlen
test_dot = record { not_stdin = refl; not_stdout = refl; entry = refl }

pub test_directory : fops_for dot.file_type ≡ some dir_fops
unfolding fops_for memcpy_dentry word
test_directory = refl

ls_main-ListsNames_example :
    (m' : System) × (ls_main (kernel_calls world) 3 zeros (system dir_disk) ≡ some (pos 0, m'))
    × ListsNames dir_disk (word dir_disk) 0 ((system dir_disk).kernel.console) (m'.kernel.console)
    × (m'.kernel.directory_index ≡ 0)
ls_main-ListsNames_example =
    ls_main-ListsNames world 0 2 3 dot zeros (system dir_disk) dir_disk-IsNamed (user dir_disk)
      test_dot test_directory free (omega arith) refl (omega (arith, test_count))

abbrev busy : System
busy = record { kernel = busy_kernel; count = 0 }

fourth : (slot_loop 6 0 1 7).0 ≡ 3
unfolding slot_loop
fourth = refl

caller : IsCaller (slot_loop 6 0 1 7).0 2 busy_kernel
caller = record {
  running = refl;
  been_here = refl;
  taken_slot = refl;
  not_first = λ e. omega (arith, fourth, e);
  not_start = rw fourth (omega arith);
}

halts : (p eip : ℕ) → Halts world p eip
halts p eip m run =
    (0, m, refl, record { running = refl; processes = refl; block = refl; others = λ q ne. refl })

kernel_execute-returns_example :
    (m' : System) × (kernel_execute world (literal "shell") busy ≡ some (pos 0, m'))
    × (running_pcb (m'.kernel) ≡ some 2)
    × (m'.kernel.console.io.interrupts ≡ true)
    × (m'.kernel.processes ≡ 7)
    × ((r : ℕ) → r ≢ (slot_loop 6 0 1 7).0 → m'.kernel.pcbs r ≡ busy_kernel.pcbs r)
kernel_execute-returns_example =
    kernel_execute-returns world (literal "shell") word_of.0 word_of.1 shell_file 0 2 busy
      (shell-IsLoadable busy_kernel refl (omega arith)) caller
      (halts (slot_loop 6 0 1 7).0 (entry_of shell_disk shell_file.inode_num))
