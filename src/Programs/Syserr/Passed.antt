-- ===== src/Programs/Syserr/Passed.antt =====
-- The tests of syscalls/ece391syserr.c that the kernel of student-distrib/ passes.
use ece_391_linux_kernel_cla.Prelude.{
  ℕ, zero, suc, ◌+◌, ◌≤◌, ◌<◌, ◌≡◌, ◌⊎◌, inl, inr, refl, some, ℤ, pos, Bytes, literal, to_u32,
  dec_lt, arith,
}
use ece_391_linux_kernel_cla.Support.{ece391_strlen}
use ece_391_linux_kernel_cla.Syscalls.{Kernel, fd_of, running_pcb}
use ece_391_linux_kernel_cla.Programs.{◌>>=◌}
use ece_391_linux_kernel_cla.Programs.Kernel.{System, Surroundings, kernel_calls}
use ece_391_linux_kernel_cla.Programs.Kernel.Files.{IsShown, to_u32-pos}
use ece_391_linux_kernel_cla.Programs.Kernel.Refusals.{
  IsUser, IsClosed, tick, kernel_read-IsClosed, kernel_write-IsClosed, kernel_close-refused,
  kernel_fdputs,
}
use ece_391_linux_kernel_cla.Programs.Syserr.{
  big_num, neg_num, expect_failure, conclude, bad_fd, err_neg_fd, err_big_fd, close_unopened,
  read_unopened, write_unopened, err_unopened,
}
use ece_391_linux_kernel_cla.Programs.{Program}

-- A program returns 0 and shows one message, and nothing else.
abbrev pub Passes : ℕ → Bytes → ℕ → Program System ℕ → System → Type 0
Passes p s n test m = (m' : System) × (test m ≡ some (0, m')) × IsShown p s n (m.kernel) (m'.kernel)

-- Nothing is open but the terminal's two descriptors.
abbrev pub AllClosed : ℕ → Kernel → Type 0
AllClosed p k = (i : ℕ) → 2 ≤ i → i < 8 → (fd_of p i k).in_use ≡ 0

-- After a number of calls that changed nothing.
abbrev pub counted : ℕ → System → System
counted c m = record m { count = c }

module _ (w : Surroundings) (p : ℕ) where
  pub conclude-Passes :
      (bad good : Bytes) (n c : ℕ) (m : System)
      → IsUser p (m.kernel)
      → ece391_strlen good ≡ some n
      → n < 4294967296
      → Passes p good n (conclude (kernel_calls w) bad good 0) (counted c m)
  unfolding conclude
  conclude-Passes bad good n c m u e lt =
      let put = kernel_fdputs w p n good (counted c m) u e lt in
      (put.0, rw (◌>>=◌, put.1) refl, put.2)

  bad_fd-refused :
      (fd : ℤ) (buf : Bytes) (m : System)
      → running_pcb (m.kernel) ≡ some p
      → 7 < to_u32 fd
      → bad_fd (kernel_calls w) fd buf m ≡ some (0, counted (m.count + 1 + 1 + 1) m)
  unfolding bad_fd expect_failure
  bad_fd-refused fd buf m run h =
      rw
        (
          ◌>>=◌,
          kernel_read-IsClosed w p m run fd (inl h) buf (pos 31),
          kernel_write-IsClosed w p (tick m) run fd (inl h) buf (pos 31),
          kernel_close-refused w p (tick (tick m)) run fd (inr (inl h)),
        )
        refl

  pub err_big_fd-Passes :
      (buf : Bytes) (m : System)
      → IsUser p (m.kernel)
      → Passes p (literal "err_big_fd: PASS\n") 17 (err_big_fd (kernel_calls w) buf) m
  unfolding err_big_fd to_u32 ece391_strlen
  err_big_fd-Passes buf m u =
      let c =
        conclude-Passes (literal "err_big_fd: FAIL\n") (literal "err_big_fd: PASS\n") 17
          (m.count + 1 + 1 + 1) m u refl (omega arith) in
      (c.0, rw (◌>>=◌, bad_fd-refused big_num buf m u.run (omega arith)) c.1, c.2)

  pub err_neg_fd-Passes :
      (buf : Bytes) (m : System)
      → IsUser p (m.kernel)
      → Passes p (literal "err_neg_fd: PASS\n") 17 (err_neg_fd (kernel_calls w) buf) m
  unfolding err_neg_fd to_u32 ece391_strlen
  err_neg_fd-Passes buf m u =
      let c =
        conclude-Passes (literal "err_neg_fd: FAIL\n") (literal "err_neg_fd: PASS\n") 17
          (m.count + 1 + 1 + 1) m u refl (omega arith) in
      (c.0, rw (◌>>=◌, bad_fd-refused neg_num buf m u.run (omega arith)) c.1, c.2)

  module _ (m : System) (run : running_pcb (m.kernel) ≡ some p)
      (closed : AllClosed p (m.kernel)) where
    at-IsClosed : (i c : ℕ) → 2 ≤ i → i < 8 → IsClosed p (pos i) (counted c m)
    at-IsClosed i c l h = rw (to_u32-pos i (omega arith)) (inr (closed i l h))

    close_unopened-refused :
        (k i c : ℕ)
        → i + k ≤ 8
        → (c' : ℕ) × (close_unopened (kernel_calls w) k i 0 (counted c m) ≡ some (0, counted c' m))
    unfolding close_unopened expect_failure
    close_unopened-refused zero i c h = (c, refl)
    close_unopened-refused (suc k) i c h =
        let bad : (to_u32 (pos i) ≤ 1) ⊎ IsClosed p (pos i) (counted c m) = elim (dec_lt i 2) [
          | yes lt ↦ inl (rw (to_u32-pos i (omega arith)) (omega arith))
          | no le ↦ inr (at-IsClosed i c (omega (arith, le)) (omega arith))
        ] in
        let ih = close_unopened-refused k (i + 1) (c + 1) (omega arith) in
        (ih.0, rw (◌>>=◌, kernel_close-refused w p (counted c m) run (pos i) bad) ih.1)

    read_unopened-refused :
        (k i c : ℕ) (buf : Bytes)
        → 2 ≤ i
        → i + k ≤ 8
        → (c' : ℕ) × (read_unopened (kernel_calls w) k i buf 0 (counted c m)
            ≡ some ((0, buf), counted c' m))
    unfolding read_unopened expect_failure
    read_unopened-refused zero i c buf l h = (c, refl)
    read_unopened-refused (suc k) i c buf l h =
        let ih = read_unopened-refused k (i + 1) (c + 1) buf (omega arith) (omega arith) in
        let e =
          kernel_read-IsClosed w p (counted c m) run (pos i) (at-IsClosed i c l (omega arith)) buf
            (pos 31) in
        (ih.0, rw (◌>>=◌, e) ih.1)

    write_unopened-refused :
        (k i c : ℕ) (buf : Bytes)
        → 2 ≤ i
        → i + k ≤ 8
        → (c' : ℕ) × (write_unopened (kernel_calls w) k i buf 0 (counted c m)
            ≡ some (0, counted c' m))
    unfolding write_unopened expect_failure
    write_unopened-refused zero i c buf l h = (c, refl)
    write_unopened-refused (suc k) i c buf l h =
        let ih = write_unopened-refused k (i + 1) (c + 1) buf (omega arith) (omega arith) in
        let e =
          kernel_write-IsClosed w p (counted c m) run (pos i) (at-IsClosed i c l (omega arith)) buf
            (pos 31) in
        (ih.0, rw (◌>>=◌, e) ih.1)

  pub err_unopened-Passes :
      (buf : Bytes) (m : System)
      → IsUser p (m.kernel)
      → AllClosed p (m.kernel)
      → Passes p (literal "err_unopened: PASS\n") 19 (err_unopened (kernel_calls w) buf) m
  unfolding err_unopened ece391_strlen
  err_unopened-Passes buf m u closed =
      let a = close_unopened-refused m u.run closed 8 0 m.count (omega arith) in
      let b = read_unopened-refused m u.run closed 6 2 a.0 buf (omega arith) (omega arith) in
      let c = write_unopened-refused m u.run closed 6 2 b.0 buf (omega arith) (omega arith) in
      let d =
        conclude-Passes (literal "err_unopened: FAIL\n") (literal "err_unopened: PASS\n") 19 c.0 m u
          refl (omega arith) in
      (d.0, rw (◌>>=◌, a.1, b.1, c.1) d.1, d.2)
