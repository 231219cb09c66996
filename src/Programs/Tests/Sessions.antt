-- ===== src/Programs/Tests/Sessions.antt =====
-- Uses of the theorems on the shell, on the tests of the system calls, on the search of a line,
-- on the array of blinking cells.
use ece_391_linux_kernel_cla.Prelude.{
  ltb, ℕ, ◌+◌, ◌*◌, ◌≤◌, ◌<◌, ◌≡◌, ◌≢◌, refl, true, none, some, pos, minus_one, word, ◌==◌, ◌!=◌,
  ==_iff, all_below, all_below_sound, Bytes, literal, if◌then◌else◌, arith,
}
use ece_391_linux_kernel_cla.Clib.{strlen, strncmp}
use ece_391_linux_kernel_cla.FileSystem.{memcpy_dentry, found, missing, read_dentry_by_name}
use ece_391_linux_kernel_cla.Syscalls.{Kernel, file_fops, fops_for, fd_of}
use ece_391_linux_kernel_cla.Syscalls.Open.{IsFile}
use ece_391_linux_kernel_cla.Terminal.{write_loop}
use ece_391_linux_kernel_cla.Terminal.Shown.{Shows}
use ece_391_linux_kernel_cla.Samples.{frame0-IsString, frame0, disk, zeros}
use ece_391_linux_kernel_cla.Samples.Shell.{shell_disk, shell_file}
use ece_391_linux_kernel_cla.Support.{ece391_strlen}
use ece_391_linux_kernel_cla.Programs.{Calls, ece391_fdputs}
use ece_391_linux_kernel_cla.Programs.Emulate.{read_name}
use ece_391_linux_kernel_cla.Programs.Emulate.Entries.{read_name-cells}
use ece_391_linux_kernel_cla.Programs.Fish.{mp1_malloc, mp1_free}
use ece_391_linux_kernel_cla.Programs.Fish.Blinking.{mp1_malloc-mp1_free}
use ece_391_linux_kernel_cla.Programs.Kernel.{System, kernel_calls}
use ece_391_linux_kernel_cla.Programs.Kernel.Files.{file_at}
use ece_391_linux_kernel_cla.Programs.Shell.{report, shell_loop}
use ece_391_linux_kernel_cla.Programs.Shell.Session.{
  IsLine, IsTyped, Session, leave, command, shell_loop-Session,
}
use ece_391_linux_kernel_cla.Programs.Syserr.{
  err_neg_fd, err_big_fd, err_unopened, err_vidmap, err_stdin_out, err_syscall_num, err_open,
  err_open_lots,
}
use ece_391_linux_kernel_cla.Programs.Syserr.Lots.{err_open_lots-closed}
use ece_391_linux_kernel_cla.Programs.Syserr.Passed.{Passes}
use ece_391_linux_kernel_cla.Programs.Syserr.Prefix.{err_open-shel}
use ece_391_linux_kernel_cla.Programs.Syserr.Verdict.{tests-Passes}
use ece_391_linux_kernel_cla.Programs.Tests.{
  world, system, user, typing, free, dir_disk, dot, test_directory,
}

differs : (a : ℕ) → (a != 0) ≡ true → a ≢ 0
differs a h = ground arith

-- A keyboard on which "ls" and "exit" are typed; the state counts the lines.
abbrev typed_line : ℕ → Bytes
typed_line i = if i == 0 then literal "ls\n" else literal "exit\n"

abbrev typed_calls : Calls ℕ
typed_calls = record {
  ece391_execute = λ c i. some (pos 0, i);
  ece391_read = λ fd buf n i. some ((if i == 0 then pos 3 else pos 5, typed_line i), i + 1);
  ece391_write = λ fd buf n i. some (n, i);
  ece391_open = λ name i. some (minus_one, i);
  ece391_close = λ fd i. some (minus_one, i);
  ece391_getargs = λ buf n i. some ((minus_one, buf), i);
  ece391_vidmap = λ at i. some ((minus_one, none), i);
  ece391_set_handler = λ signum handler i. some (minus_one, i);
  int80 = λ num i. some (minus_one, i);
}

ls_line : IsLine (literal "ls\n") 2
unfolding all_below
ls_line = record {
  body =
      λ i lt. differs (literal "ls\n" i) (all_below_sound 2 (λ j. literal "ls\n" j != 0) refl i lt);
  stop = refl;
  short = omega arith;
}

exit_line : IsLine (literal "exit\n") 4
unfolding all_below
exit_line = record {
  body = λ i lt.
      differs (literal "exit\n" i) (all_below_sound 4 (λ j. literal "exit\n" j != 0) refl i lt);
  stop = refl;
  short = omega arith;
}

test_exit : (j : ℕ) → 0 ≤ j → j < 4 → literal "exit\n" j ≡ literal "exit" j
unfolding all_below
test_exit j a b =
    (==_iff (literal "exit\n" j) (literal "exit" j)).0
      (all_below_sound 4 (λ l. literal "exit\n" l == literal "exit" l) refl j b)

second-IsTyped : (buf : Bytes) → IsTyped typed_calls buf (literal "exit\n") 4 1 2
unfolding ece391_fdputs ece391_strlen
second-IsTyped buf = record { between = 1; prompt = refl; got = refl; line = exit_line }

first-IsTyped : (buf : Bytes) → IsTyped typed_calls buf (literal "ls\n") 2 0 1
unfolding ece391_fdputs ece391_strlen
first-IsTyped buf = record { between = 0; prompt = refl; got = refl; line = ls_line }

session : Session typed_calls 2 zeros 0 2
unfolding report
session =
    command {rval = pos 0} {s₃ = 1} {s₄ = 1} (first-IsTyped zeros) (omega arith)
      (λ h. omega (arith, h.0)) refl refl (leave (second-IsTyped _) (refl, test_exit))

shell_loop-Session_example : shell_loop typed_calls 2 zeros 0 ≡ some (pos 0, 2)
shell_loop-Session_example = shell_loop-Session typed_calls 2 zeros 0 2 session

tests-Passes_example :
    Passes 0 (literal "err_neg_fd: PASS\n") 17 (err_neg_fd (kernel_calls world) zeros) (system disk)
    × Passes 0
        (literal "err_big_fd: PASS\n")
        17
        (err_big_fd (kernel_calls world) zeros)
        (system disk)
    × Passes 0
        (literal "err_unopened: PASS\n")
        19
        (err_unopened (kernel_calls world) zeros)
        (system disk)
    × Passes 0 (literal "err_vidmap: PASS\n") 17 (err_vidmap (kernel_calls world)) (system disk)
    × Passes 0
        (literal "err_stdin_out: PASS\n")
        20
        (err_stdin_out (kernel_calls world) zeros)
        (system disk)
    × Passes 0
        (literal "err_syscall_num: PASS\n")
        22
        (err_syscall_num (kernel_calls world))
        (system disk)
tests-Passes_example =
    tests-Passes world 0 zeros (system disk) (typing disk) (λ i l u. ground arith)

test_helloo : read_dentry_by_name shell_disk (some (literal "helloo")) ≡ some missing
unfolding strncmp read_dentry_by_name strlen
test_helloo = refl

test_shel : read_dentry_by_name shell_disk (some (literal "shel")) ≡ some (found shell_file)
unfolding strncmp read_dentry_by_name strlen
test_shel = refl

test_shell_typed : fops_for shell_file.file_type ≡ some file_fops
unfolding fops_for memcpy_dentry word
test_shell_typed = refl

err_open-shel_example :
    (m' : System) × (err_open (kernel_calls world) (system shell_disk) ≡ some (2, m'))
    × (fd_of 0 2 (m'.kernel) ≡ file_at shell_file.inode_num 0)
err_open-shel_example =
    err_open-shel world 0 2 shell_file (system shell_disk) (user shell_disk) test_helloo test_shel
      test_shell_typed free (omega arith)

-- On this disk "." is found whatever else the kernel holds.
dot_of : (k : Kernel) → k.fs ≡ dir_disk → IsFile (literal ".") dot k
unfolding strncmp read_dentry_by_name strlen
dot_of k e = record { not_stdin = refl; not_stdout = refl; entry = rw e refl }

err_open_lots-closed_example :
    (m' : System) × (err_open_lots (kernel_calls world) (system dir_disk) ≡ some (0, m'))
    × Shows
        (write_loop 20 0 (literal "err_open_lots: PASS\n") ((system dir_disk).kernel.console))
        (m'.kernel.console)
    × ((i : ℕ) → 2 ≤ i → i < 8 → (fd_of 0 i (m'.kernel)).in_use ≡ 0)
err_open_lots-closed_example =
    err_open_lots-closed world 0 dot (system dir_disk) (user dir_disk) dot_of test_directory
      (λ i l lt. ground arith)

abbrev ones : Bytes
ones i = 1

mp1_malloc-mp1_free_example :
    (mp1_malloc ones ≡ none)
    × (mp1_malloc (mp1_free ones 7) ≡ some 7)
    × ((l o : ℕ) → l ≢ 7 → o < 16 → mp1_free ones 7 (16 * l + o) ≡ 1)
mp1_malloc-mp1_free_example = mp1_malloc-mp1_free ones 7 (λ l lt. omega arith) (omega arith)

read_name-cells_example :
    (out : Bytes) × (read_name frame0 zeros 64 ≡ some (32, out))
    × ((j : ℕ) → out j ≡ (if ltb j 10 then frame0 j else if ltb j 32 then 0 else 0))
read_name-cells_example = read_name-cells 64 10 frame0 zeros frame0-IsString (omega arith)
