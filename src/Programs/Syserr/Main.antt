-- ===== src/Programs/Syserr/Main.antt =====
-- `main` of syscalls/ece391syserr.c.
use ece_391_linux_kernel_cla.Prelude.{ℕ, ◌+◌, true, false, pos, Bytes, literal, ◌==◌, if◌then◌else◌}
use ece_391_linux_kernel_cla.Programs.{Program, Calls, pure, ◌>>=◌, ◌>>◌, failed, ece391_fdputs}
use ece_391_linux_kernel_cla.Programs.Syserr.{
  err_neg_fd, err_big_fd, err_open_lots, err_open, err_unopened, err_vidmap, err_stdin_out,
  err_syscall_num,
}

-- `garbage` is what lies in the buffers of the tests.
module _ {S : Type 0} (calls : Calls S) (garbage : Bytes) where
  unfoldable pub run_all : Program S ℕ
  run_all = do
    a ← err_neg_fd calls garbage
    b ← err_big_fd calls garbage
    c ← err_open_lots calls
    d ← err_open calls
    e ← err_unopened calls garbage
    f ← err_vidmap calls
    g ← err_stdin_out calls garbage
    h ← err_syscall_num calls
    let fail = a + b + c + d + e + f + g + h
    ece391_fdputs calls (pos 1)
        (if fail == 0 then literal "\nOverall Tests: PASS\n" else literal "\nOverall Tests: FAIL\n")
    pure fail

  -- The test for a digit, given as the code of its character.
  unfoldable pub select_test : ℕ → Program S ℕ
  unfolding run_all
  select_test c =
      if c == 48
      then run_all
      else if c == 49
      then err_neg_fd calls garbage
      else if c == 50
      then err_big_fd calls garbage
      else if c == 51
      then err_open_lots calls
      else if c == 52
      then err_open calls
      else if c == 53
      then err_unopened calls garbage
      else if c == 54
      then err_vidmap calls
      else if c == 55
      then err_stdin_out calls garbage
      else if c == 56
      then err_syscall_num calls
      else (do
        ece391_fdputs calls (pos 1) (literal "Invalid test number. Choose from tests 1-8 or 0")
        pure 0)

  unfoldable pub syserr_main : Bytes → Program S ℕ
  unfolding select_test
  syserr_main buf = do
    ece391_fdputs calls (pos 1) (literal "Choose from tests 1-8. 0 to run all: ")
    (cnt, out) ← calls.ece391_read (pos 0) buf (pos 127)
    elim (failed cnt) [
      | true ↦ do ece391_fdputs calls (pos 1) (literal "Can't read test #\n"); pure 2
      | false ↦ select_test (out 0)
    ]
