-- ===== src/Programs/Syserr/Verdict.antt =====
-- What the tests of syscalls/ece391syserr.c say of the kernel of student-distrib/.
use ece_391_linux_kernel_cla.Prelude.{
  ℕ, ◌+◌, ◌<◌, ◌≡◌, ◌≢◌, refl, none, some, pos, minus_one, Bytes, literal, to_u32, arith,
}
use ece_391_linux_kernel_cla.Support.{ece391_strlen}
use ece_391_linux_kernel_cla.Terminal.{terminal_write, terminal_read}
use ece_391_linux_kernel_cla.Syscalls.{Kernel, Outside, terminal_fops, fd_of, write, read}
use ece_391_linux_kernel_cla.Io.{Device}
use ece_391_linux_kernel_cla.Syscalls.Execute.{quieted}
use ece_391_linux_kernel_cla.Syscalls.Switch.{vidmap}
use ece_391_linux_kernel_cla.Programs.{◌>>=◌}
use ece_391_linux_kernel_cla.Programs.Kernel.{
  System, Surroundings, system_call, call_read, find_call, kernel_calls, kernel_read, kernel_write,
  kernel_vidmap, kernel_int80,
}
use ece_391_linux_kernel_cla.Programs.Kernel.Files.{check-passed}
use ece_391_linux_kernel_cla.Programs.Kernel.Refusals.{IsUser, tick, system_call-tick}
use ece_391_linux_kernel_cla.Programs.Syserr.{
  expect_failure, err_neg_fd, err_big_fd, err_unopened, err_vidmap, err_stdin_out, call_sys,
  err_syscall_num,
}
use ece_391_linux_kernel_cla.Programs.Syserr.Passed.{
  Passes, AllClosed, conclude-Passes, err_big_fd-Passes, err_neg_fd-Passes, err_unopened-Passes,
}

-- The terminal's descriptor 0 is in use too.
pub record IsTyping (p : ℕ) (k : Kernel) : Type 0 where
  pub user : IsUser p k
  pub keyboard : (fd_of p 0 k).table ≡ terminal_fops
  pub keyboard_in_use : (fd_of p 0 k).in_use ≢ 0

write-keyboard :
    (device : Device) (p n : ℕ) (buf : Bytes) (k : Kernel)
    → IsTyping p k
    → write device 0 (some buf) n k ≡ some (minus_one, k)
unfolding write terminal_write
write-keyboard device p n buf k t =
    let c = check-passed 0 p buf k t.user.run (omega arith) t.keyboard_in_use in
    rw (write, c, t.keyboard) refl

read-screen :
    (o : Outside) (p n : ℕ) (buf : Bytes) (k : Kernel)
    → IsUser p k
    → read o 1 (some buf) n k ≡ some (minus_one, some buf, k)
unfolding read terminal_read
read-screen o p n buf k u =
    let c = check-passed 1 p buf k u.run (omega arith) u.screen_in_use in
    rw (read, c, u.screen) refl

quieted-IsTyping : (p : ℕ) (k : Kernel) → IsTyping p k → IsTyping p (quieted k)
quieted-IsTyping p k t = record {
  user = record { run = t.user.run; screen = t.user.screen; screen_in_use = t.user.screen_in_use };
  keyboard = t.keyboard;
  keyboard_in_use = t.keyboard_in_use;
}

module _ (w : Surroundings) (p : ℕ) where
  kernel_vidmap-refused :
      (at : ℕ) (m : System)
      → at < 134217728
      → kernel_vidmap w at m ≡ some ((minus_one, none), tick m)
  unfolding kernel_vidmap vidmap system_call
  kernel_vidmap-refused at m lt = ground arith

  err_vidmap-Passes :
      (m : System)
      → IsUser p (m.kernel)
      → Passes p (literal "err_vidmap: PASS\n") 17 (err_vidmap (kernel_calls w)) m
  unfolding err_vidmap expect_failure ece391_strlen
  err_vidmap-Passes m u =
      let c =
        conclude-Passes w p (literal "err_vidmap: FAIL\n") (literal "err_vidmap: PASS\n") 17
          (m.count + 1 + 1) m u refl (omega arith) in
      (
        c.0,
        rw
            (
              ◌>>=◌,
              kernel_vidmap-refused 0 m (omega arith),
              kernel_vidmap-refused 0x400000 (tick m) (omega arith),
            )
            c.1,
        c.2,
      )

  err_stdin_out-Passes :
      (buf : Bytes) (m : System)
      → IsTyping p (m.kernel)
      → Passes p (literal "err_stdin_out: PASS\n") 20 (err_stdin_out (kernel_calls w) buf) m
  unfolding err_stdin_out expect_failure ece391_strlen kernel_read kernel_write call_read to_u32
  err_stdin_out-Passes buf m t =
      let k = quieted m.kernel in
      let q = quieted-IsTyping p (m.kernel) t in
      let a : kernel_write w (pos 0) buf (pos 31) m ≡ some (minus_one, tick m) =
        system_call-tick (write ((w.outside m.count).device) 0 (some buf) 31) m minus_one
          (write-keyboard ((w.outside m.count).device) p 31 buf k q) in
      let b : kernel_read w (pos 1) buf (pos 31) (tick m) ≡ some ((minus_one, buf), tick (tick m)) =
        system_call-tick (call_read (w.outside (m.count + 1)) 1 buf 31) (tick m) (minus_one, buf)
          (rw (call_read, read-screen (w.outside (m.count + 1)) p 31 buf k q.user) refl) in
      let c =
        conclude-Passes w p (literal "err_stdin_out: FAIL\n") (literal "err_stdin_out: PASS\n") 20
          (m.count + 1 + 1) m t.user refl (omega arith) in
      (c.0, rw (◌>>=◌, a, b) c.1, c.2)

  err_syscall_num-Passes :
      (m : System)
      → IsUser p (m.kernel)
      → Passes p (literal "err_syscall_num: PASS\n") 22 (err_syscall_num (kernel_calls w)) m
  unfolding err_syscall_num expect_failure ece391_strlen kernel_int80 find_call call_sys system_call
  err_syscall_num-Passes m u =
      let c =
        conclude-Passes w p (literal "err_syscall_num: FAIL\n") (literal "err_syscall_num: PASS\n")
          22 (m.count + 1 + 1 + 1) m u refl (omega arith) in
      (c.0, c.1, c.2)

  -- In a process with nothing open but the terminal's two descriptors, six of the tests pass, each on
  -- its own: descriptors that are negative, too large or not open, a NULL pointer and one into the
  -- kernel for `vidmap`, reading from the screen and writing to the keyboard, and numbers of no system
  -- call. Each returns 0, shows its one line on the screen and nothing else, and leaves the disk and
  -- the blocks of all processes as they were.
  pub tests-Passes :
      (buf : Bytes) (m : System)
      → IsTyping p (m.kernel)
      → AllClosed p (m.kernel)
      → Passes p (literal "err_neg_fd: PASS\n") 17 (err_neg_fd (kernel_calls w) buf) m
        × Passes p (literal "err_big_fd: PASS\n") 17 (err_big_fd (kernel_calls w) buf) m
        × Passes p (literal "err_unopened: PASS\n") 19 (err_unopened (kernel_calls w) buf) m
        × Passes p (literal "err_vidmap: PASS\n") 17 (err_vidmap (kernel_calls w)) m
        × Passes p (literal "err_stdin_out: PASS\n") 20 (err_stdin_out (kernel_calls w) buf) m
        × Passes p (literal "err_syscall_num: PASS\n") 22 (err_syscall_num (kernel_calls w)) m
  tests-Passes buf m t closed = (
    err_neg_fd-Passes w p buf m t.user,
    err_big_fd-Passes w p buf m t.user,
    err_unopened-Passes w p buf m t.user closed,
    err_vidmap-Passes m t.user,
    err_stdin_out-Passes buf m t,
    err_syscall_num-Passes m t.user,
  )
