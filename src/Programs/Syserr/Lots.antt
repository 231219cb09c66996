-- ===== src/Programs/Syserr/Lots.antt =====
-- The test of syscalls/ece391syserr.c that opens more files than there are descriptors.
use ece_391_linux_kernel_cla.Prelude.{
  ℕ, zero, suc, ◌+◌, ◌≤◌, ◌<◌, ◌≡◌, ◌≢◌, inr, refl, sym, ◌∙◌, ap, subst, some, pos, minus_one,
  literal, ℕ_discrete, arith,
}
use ece_391_linux_kernel_cla.FileSystem.{Dentry}
use ece_391_linux_kernel_cla.Support.{ece391_strlen}
use ece_391_linux_kernel_cla.Terminal.{write_loop}
use ece_391_linux_kernel_cla.Terminal.Shown.{Shows}
use ece_391_linux_kernel_cla.Syscalls.{
  dir_fops, terminal_fops, FileData, Kernel, fd_of, put_fd, opened, fops_for, running_pcb,
  syscall_open, close,
}
use ece_391_linux_kernel_cla.Syscalls.Execute.{quieted}
use ece_391_linux_kernel_cla.Syscalls.Descriptors.{put_fd_self, put_fd-other}
use ece_391_linux_kernel_cla.Syscalls.Open.{IsFile, IsFirstFree, syscall_open-full, close-used}
use ece_391_linux_kernel_cla.Programs.{◌>>=◌, ece391_fdputs}
use ece_391_linux_kernel_cla.Programs.Kernel.{
  System, Surroundings, kernel_calls, kernel_open, kernel_close,
}
use ece_391_linux_kernel_cla.Programs.Kernel.Directory.{kernel_open-directory}
use ece_391_linux_kernel_cla.Programs.Kernel.Files.{to_u32-pos, system_call-some}
use ece_391_linux_kernel_cla.Programs.Kernel.Refusals.{
  IsUser, tick, system_call-tick, kernel_fdputs,
}
use ece_391_linux_kernel_cla.Programs.Syserr.{open_loop, close_all, err_open_lots}

-- The process in slot `p` runs, with the descriptors from 2 up to `n` in use and the others of the
-- eight not; its first two and the disk are those of `k`.
record IsOpenTo (p low n : ℕ) (k k' : Kernel) : Type 0 where
  run : running_pcb k' ≡ some p
  disk : k'.fs ≡ k.fs
  console : k'.console ≡ k.console
  first : (i : ℕ) → i < 2 → fd_of p i k' ≡ fd_of p i k
  held : (i : ℕ) → low ≤ i → i < n → (fd_of p i k').in_use ≡ 1
  below : (i : ℕ) → 2 ≤ i → i < low → (fd_of p i k').in_use ≡ 0
  free : (i : ℕ) → 2 ≤ i → n ≤ i → i < 8 → (fd_of p i k').in_use ≡ 0

open_next :
    (p inode n : ℕ) (k k' : Kernel)
    → IsOpenTo p 2 n k k'
    → 2 ≤ n
    → IsOpenTo p 2 (n + 1) k (put_fd p n (opened dir_fops inode) k')
unfolding put_fd
open_next p inode n k k' h l = record {
  run = h.run;
  disk = h.disk;
  console = h.console;
  first =
      λ i lt. put_fd-other p n (opened dir_fops inode) k' p i (inr (omega arith)) ∙ h.first i lt;
  held = λ i a b. elim (ℕ_discrete i n) [
    | yes e ↦ rw e (ap (λ f. f.in_use) (put_fd_self p n (opened dir_fops inode) k'))
    | no ne ↦
        ap (λ f. f.in_use) (put_fd-other p n (opened dir_fops inode) k' p i (inr ne))
        ∙ h.held i a (omega (arith, ne))
  ];
  below = λ i a b. absurd (omega arith);
  free = λ i a b c.
      ap (λ f. f.in_use) (put_fd-other p n (opened dir_fops inode) k' p i (inr (omega arith)))
      ∙ h.free i a (omega arith) c;
}

close_next :
    (p n : ℕ) (k k' : Kernel)
    → IsOpenTo p n 8 k k'
    → 2 ≤ n
    → n < 8
    → IsOpenTo p (n + 1) 8 k (put_fd p n (record (fd_of p n k') { in_use = 0 }) k')
unfolding put_fd
close_next p n k k' h l lt =
    let f : FileData = record (fd_of p n k') { in_use = 0 } in
    record {
      run = h.run;
      disk = h.disk;
      console = h.console;
      first = λ i a. put_fd-other p n f k' p i (inr (omega arith)) ∙ h.first i a;
      held = λ i a b.
          ap (λ g. g.in_use) (put_fd-other p n f k' p i (inr (omega arith)))
          ∙ h.held i (omega arith) b;
      below = λ i a b. elim (ℕ_discrete i n) [
        | yes e ↦ rw e (ap (λ g. g.in_use) (put_fd_self p n f k'))
        | no ne ↦
            ap (λ g. g.in_use) (put_fd-other p n f k' p i (inr ne))
            ∙ h.below i a (omega (arith, ne))
      ];
      free = λ i a b c. absurd (omega arith);
    }

module _ (w : Surroundings) (p : ℕ) (d : Dentry) (k : Kernel)
    (file : (k' : Kernel) → k'.fs ≡ k.fs → IsFile (literal ".") d k')
    (typed : fops_for d.file_type ≡ some dir_fops) where
  open_loop-next :
      (r n : ℕ) (m : System)
      → IsOpenTo p 2 n k (m.kernel)
      → 2 ≤ n
      → n + r ≡ 8
      → (m' : System) × (open_loop (kernel_calls w) (suc r) 0 m ≡ open_loop (kernel_calls w) 1 0 m')
        × IsOpenTo p 2 8 k (m'.kernel)
  unfolding open_loop
  open_loop-next zero n m h l e = let e' : n ≡ 8 = omega (arith, e) in (m, refl, rw e' at h)
  open_loop-next (suc r) n m h l e =
      let free : IsFirstFree ((m.kernel.pcbs p).fd_array) 2 n = record {
        lower = l;
        free = h.free n l (omega arith) (omega (arith, e));
        first = λ i a b z. omega (arith, h.held i a b, z);
      } in
      let o =
        kernel_open-directory w (literal ".") d m p n (file (m.kernel) h.disk) h.run typed free
          (omega (arith, e)) in
      let k₁ = put_fd p n (opened dir_fops d.inode_num) (m.kernel) in
      let ih =
        open_loop-next r (n + 1) (record { kernel = k₁; count = m.count + 1 })
          (open_next p d.inode_num n k (m.kernel) h l) (omega arith) (omega (arith, e)) in
      (ih.0, rw (◌>>=◌, o) ih.1, ih.2)

  kernel_open-full :
      (m : System)
      → IsOpenTo p 2 8 k (m.kernel)
      → kernel_open w (literal ".") m ≡ some (minus_one, tick m)
  unfolding kernel_open
  kernel_open-full m h =
      let device = (w.outside m.count).device in
      let q = quieted (m.kernel) in
      system_call-tick (syscall_open device (literal ".")) m minus_one (
        syscall_open-full device (literal ".") d q p (file q h.disk) h.run
          (λ i a b z. omega (arith, h.held i a b, z)))

  open_loop-full :
      (m : System)
      → IsOpenTo p 2 8 k (m.kernel)
      → open_loop (kernel_calls w) 1 0 m ≡ some (1, tick m)
  unfolding open_loop
  open_loop-full m h = rw (◌>>=◌, kernel_open-full m h) refl

kernel_close-used :
    (w : Surroundings) (p n : ℕ) (m : System)
    → running_pcb (m.kernel) ≡ some p
    → 2 ≤ n
    → n < 8
    → (fd_of p n (m.kernel)).in_use ≢ 0
    → kernel_close w (pos n) m
      ≡ some (
        pos 0,
        record {
          kernel = put_fd p n (record (fd_of p n (m.kernel)) { in_use = 0 }) (m.kernel);
          count = m.count + 1;
        },
      )
unfolding kernel_close put_fd
kernel_close-used w p n m run l lt used =
    let q = quieted (m.kernel) in
    rw (to_u32-pos n (omega arith)) (
      system_call-some (close n) m (pos 0) (put_fd p n (record (fd_of p n q) { in_use = 0 }) q)
        (close-used p n q run l lt used))

close_all-next :
    (w : Surroundings) (p r n : ℕ) (k : Kernel) (m : System)
    → IsOpenTo p n 8 k (m.kernel)
    → 2 ≤ n
    → n + r ≡ 8
    → (m' : System) × (close_all (kernel_calls w) r n m ≡ some (tt, m'))
      × IsOpenTo p 8 8 k (m'.kernel)
unfolding close_all
close_all-next w p zero n k m h l e = let e' : n ≡ 8 = omega (arith, e) in (m, refl, rw e' at h)
close_all-next w p (suc r) n k m h l e =
    let lt : n < 8 = omega (arith, e) in
    let c =
      kernel_close-used w p n m h.run l lt (λ z. omega (arith, h.held n (omega arith) lt, z)) in
    let k₁ = put_fd p n (record (fd_of p n (m.kernel)) { in_use = 0 }) (m.kernel) in
    let ih =
      close_all-next w p r (n + 1) k (record { kernel = k₁; count = m.count + 1 })
        (close_next p n k (m.kernel) h l lt) (omega arith) (omega (arith, e)) in
    (ih.0, rw (◌>>=◌, c) ih.1, ih.2)

-- What the test says once all is closed, and where that leaves the kernel.
closed_said :
    (w : Surroundings) (p : ℕ) (k : Kernel) (m : System)
    → IsUser p k
    → IsOpenTo p 8 8 k (m.kernel)
    → (m' : System) × (ece391_fdputs (kernel_calls w) (pos 1) (literal "err_open_lots: PASS\n") m
        ≡ some (tt, m'))
      × Shows (write_loop 20 0 (literal "err_open_lots: PASS\n") (k.console)) (m'.kernel.console)
      × ((i : ℕ) → 2 ≤ i → i < 8 → (fd_of p i (m'.kernel)).in_use ≡ 0)
unfolding ece391_strlen
closed_said w p k m u h =
    let first = sym (h.first 1 (omega arith)) in
    let user : IsUser p (m.kernel) = record {
      run = h.run;
      screen = subst (λ f. f.table ≡ terminal_fops) first u.screen;
      screen_in_use = subst (λ f. f.in_use ≢ 0) first u.screen_in_use;
    } in
    let said = kernel_fdputs w p 20 (literal "err_open_lots: PASS\n") m user refl (omega arith) in
    (
      said.0,
      said.1,
      subst
          (λ c. Shows (write_loop 20 0 (literal "err_open_lots: PASS\n") c) (said.0.kernel.console))
          h.console (said.2.shows),
      λ i a b. ap (λ x. ((x p).fd_array i).in_use) (said.2.blocks) ∙ h.below i a b,
    )

-- With nothing open but the terminal's two descriptors, and a directory found under ".", the test
-- passes: six calls of `open` succeed and the seventh fails, all are closed again, one line says so
-- on the screen, and the result is 0.
pub err_open_lots-closed :
    (w : Surroundings) (p : ℕ) (d : Dentry) (m : System)
    → IsUser p (m.kernel)
    → ((k : Kernel) → k.fs ≡ m.kernel.fs → IsFile (literal ".") d k)
    → fops_for d.file_type ≡ some dir_fops
    → ((i : ℕ) → 2 ≤ i → i < 8 → (fd_of p i (m.kernel)).in_use ≡ 0)
    → (m' : System) × (err_open_lots (kernel_calls w) m ≡ some (0, m'))
      × Shows
          (write_loop 20 0 (literal "err_open_lots: PASS\n") (m.kernel.console))
          (m'.kernel.console)
      × ((i : ℕ) → 2 ≤ i → i < 8 → (fd_of p i (m'.kernel)).in_use ≡ 0)
unfolding err_open_lots
err_open_lots-closed w p d m u file typed closed =
    let start : IsOpenTo p 2 2 (m.kernel) (m.kernel) = record {
      run = u.run;
      disk = refl;
      console = refl;
      first = λ i lt. refl;
      held = λ i a b. absurd (omega arith);
      below = λ i a b. absurd (omega arith);
      free = λ i a b c. closed i a c;
    } in
    let (m₁, opens, all) =
      open_loop-next w p d (m.kernel) file typed 6 2 m start (omega arith) (omega arith) in
    let full = open_loop-full w p d (m.kernel) file typed m₁ all in
    let (m₂, closes, none_left) =
      close_all-next w p 6 2 (m.kernel) (tick m₁) all (omega arith) (omega arith) in
    let said = closed_said w p (m.kernel) m₂ u none_left in
    (said.0, rw (◌>>=◌, opens, full, closes, said.1) refl, said.2, said.3)
