-- ===== src/Programs/Syserr.antt =====
-- syscalls/ece391syserr.c: eight tests of calls that are to be refused, and the choice between them.
-- What lies in the local buffers is a parameter.
pub mod Main
pub mod Passed
pub mod Verdict
pub mod Prefix
pub mod Lots
use ece_391_linux_kernel_cla.Prelude.{
  ℕ, zero, suc, ◌+◌, ◌-◌, true, false, ℤ, pos, negsuc, sub_ℕ, Bytes, literal, ◌==◌, if◌then◌else◌,
}
use ece_391_linux_kernel_cla.Programs.{Program, Calls, pure, ◌>>=◌, ◌>>◌, failed, ece391_fdputs}

abbrev pub big_num : ℤ
big_num = pos 1073741823

abbrev pub neg_num : ℤ
neg_num = negsuc 1073741822

module _ {S : Type 0} (calls : Calls S) where
  unfoldable pub call_sys : ℤ → Program S ℤ
  call_sys num = calls.int80 num

  -- `if (-1 != r) { fail = 2; fdputs(1, message); }`
  unfoldable pub expect_failure : Bytes → ℕ → ℤ → Program S ℕ
  expect_failure message fail r = elim (failed r) [
    | true ↦ pure fail
    | false ↦ do ece391_fdputs calls (pos 1) message; pure 2
  ]

  -- The line that a test ends with.
  unfoldable pub conclude : Bytes → Bytes → ℕ → Program S ℕ
  conclude bad good fail = do
    ece391_fdputs calls (pos 1) (if fail == 0 then good else bad)
    pure fail

  -- The three calls on a descriptor that is out of bounds.
  unfoldable pub bad_fd : ℤ → Bytes → Program S ℕ
  unfolding expect_failure
  bad_fd fd buf = do
    (r, out) ← calls.ece391_read fd buf (pos 31)
    fail ← expect_failure (literal "read fail\n") 0 r
    r₂ ← calls.ece391_write fd out (pos 31)
    fail₂ ← expect_failure (literal "write fail\n") fail r₂
    r₃ ← calls.ece391_close fd
    expect_failure (literal "close fail\n") fail₂ r₃

  unfoldable pub err_neg_fd : Bytes → Program S ℕ
  unfolding bad_fd conclude
  err_neg_fd buf = do
    fail ← bad_fd neg_num buf
    conclude (literal "err_neg_fd: FAIL\n") (literal "err_neg_fd: PASS\n") fail

  unfoldable pub err_big_fd : Bytes → Program S ℕ
  unfolding bad_fd conclude
  err_big_fd buf = do
    fail ← bad_fd big_num buf
    conclude (literal "err_big_fd: FAIL\n") (literal "err_big_fd: PASS\n") fail

  -- `for (i = 0; i < 7; i++)` with `k` rounds left: the opens that fail are counted.
  unfoldable pub open_loop : ℕ → ℕ → Program S ℕ
  open_loop zero cnt = pure cnt
  open_loop (suc k) cnt = do
    r ← calls.ece391_open (literal ".")
    open_loop k (if failed r then cnt + 1 else cnt)

  -- `for(i = 2; i < 8; i++)` with `k` rounds left.
  unfoldable pub close_all : ℕ → ℕ → Program S (Unit {0})
  close_all zero i = pure tt
  close_all (suc k) i = do _ ← calls.ece391_close (pos i); close_all k (i + 1)

  unfoldable pub err_open_lots : Program S ℕ
  unfolding open_loop close_all
  err_open_lots = do
    cnt ← open_loop 7 0
    close_all 6 2
    elim (cnt == 1) [
      | true ↦ do ece391_fdputs calls (pos 1) (literal "err_open_lots: PASS\n"); pure 0
      | false ↦ do ece391_fdputs calls (pos 1) (literal "err_open_lots: FAIL\n"); pure 2
    ]

  unfoldable pub err_open : Program S ℕ
  unfolding expect_failure conclude
  err_open = do
    r ← calls.ece391_open (literal "helloo")
    fail ← expect_failure (literal "'helloo' fail\n") 0 r
    r₂ ← calls.ece391_open (literal "shel")
    fail₂ ← expect_failure (literal "'shel' fail\n") fail r₂
    r₃ ← calls.ece391_open (literal "")
    fail₃ ← expect_failure (literal "empty string fail\n") fail₂ r₃
    conclude (literal "err_open: FAIL\n") (literal "err_open: PASS\n") fail₃

  -- The three loops of `err_unopened`, with `k` rounds left.
  unfoldable pub close_unopened : ℕ → ℕ → ℕ → Program S ℕ
  unfolding expect_failure
  close_unopened zero i fail = pure fail
  close_unopened (suc k) i fail = do
    r ← calls.ece391_close (pos i)
    fail' ← expect_failure (literal "close unopened or invalid fd fail\n") fail r
    close_unopened k (i + 1) fail'

  unfoldable pub read_unopened : ℕ → ℕ → Bytes → ℕ → Program S (ℕ × Bytes)
  unfolding expect_failure
  read_unopened zero i buf fail = pure (fail, buf)
  read_unopened (suc k) i buf fail = do
    (r, out) ← calls.ece391_read (pos i) buf (pos 31)
    fail' ← expect_failure (literal "read from unopened fd fail\n") fail r
    read_unopened k (i + 1) out fail'

  unfoldable pub write_unopened : ℕ → ℕ → Bytes → ℕ → Program S ℕ
  unfolding expect_failure
  write_unopened zero i buf fail = pure fail
  write_unopened (suc k) i buf fail = do
    r ← calls.ece391_write (pos i) buf (pos 31)
    fail' ← expect_failure (literal "write to unopened fd fail\n") fail r
    write_unopened k (i + 1) buf fail'

  unfoldable pub err_unopened : Bytes → Program S ℕ
  unfolding close_unopened read_unopened write_unopened conclude
  err_unopened buf = do
    fail ← close_unopened 8 0 0
    (fail₂, out) ← read_unopened 6 2 buf fail
    fail₃ ← write_unopened 6 2 out fail₂
    conclude (literal "err_unopened: FAIL\n") (literal "err_unopened: PASS\n") fail₃

  unfoldable pub err_vidmap : Program S ℕ
  unfolding expect_failure conclude
  err_vidmap = do
    (r, _) ← calls.ece391_vidmap 0
    fail ← expect_failure (literal "Null pointer fail\n") 0 r
    (r₂, _) ← calls.ece391_vidmap 0x400000
    fail₂ ← expect_failure (literal "Kernel pointer fail fail\n") fail r₂
    conclude (literal "err_vidmap: FAIL\n") (literal "err_vidmap: PASS\n") fail₂

  unfoldable pub err_stdin_out : Bytes → Program S ℕ
  unfolding expect_failure conclude
  err_stdin_out buf = do
    r ← calls.ece391_write (pos 0) buf (pos 31)
    fail ← expect_failure (literal "write to stdin fail\n") 0 r
    (r₂, out) ← calls.ece391_read (pos 1) buf (pos 31)
    fail₂ ← expect_failure (literal "read from stdout fail\n") fail r₂
    conclude (literal "err_stdin_out: FAIL\n") (literal "err_stdin_out: PASS\n") fail₂

  unfoldable pub err_syscall_num : Program S ℕ
  unfolding call_sys expect_failure conclude
  err_syscall_num = do
    r ← call_sys big_num
    fail ← expect_failure (literal "syscall 0 fail\n") 0 r
    r₂ ← call_sys neg_num
    fail₂ ← expect_failure (literal "big num syscall fail\n") fail r₂
    r₃ ← call_sys (pos 0)
    fail₃ ← expect_failure (literal "neg num syscall fail\n") fail₂ r₃
    conclude (literal "err_syscall_num: FAIL\n") (literal "err_syscall_num: PASS\n") fail₃
