-- ===== src/Programs/Syserr/Prefix.antt =====
-- The test of syscalls/ece391syserr.c that the kernel of student-distrib/ does not pass.
use ece_391_linux_kernel_cla.Prelude.{
  ℕ, ◌+◌, ◌<◌, ◌≡◌, inr, refl, ◌∙◌, ap, some, Bytes, literal, arith,
}
use ece_391_linux_kernel_cla.Clib.{strncmp}
use ece_391_linux_kernel_cla.FileSystem.{Dentry, found, missing, read_dentry_by_name}
use ece_391_linux_kernel_cla.Support.{ece391_strlen}
use ece_391_linux_kernel_cla.Syscalls.{file_fops, Kernel, fd_of, put_fd, fops_for}
use ece_391_linux_kernel_cla.Syscalls.Descriptors.{put_fd_self, put_fd-other}
use ece_391_linux_kernel_cla.Syscalls.Open.{IsFile, IsFirstFree}
use ece_391_linux_kernel_cla.Programs.{◌>>=◌}
use ece_391_linux_kernel_cla.Programs.Kernel.{System, Surroundings, kernel_calls}
use ece_391_linux_kernel_cla.Programs.Kernel.Files.{file_at, IsShown}
use ece_391_linux_kernel_cla.Programs.Kernel.Opening.{
  IsMissing, kernel_open-IsMissing, kernel_open-file,
}
use ece_391_linux_kernel_cla.Programs.Kernel.Refusals.{IsUser, tick, kernel_fdputs}
use ece_391_linux_kernel_cla.Programs.Syserr.{expect_failure, conclude, err_open}

shel-IsFile :
    (d : Dentry) (k : Kernel)
    → read_dentry_by_name k.fs (some (literal "shel")) ≡ some (found d)
    → IsFile (literal "shel") d k
unfolding strncmp
shel-IsFile d k e = record { not_stdin = refl; not_stdout = refl; entry = e }

helloo-IsMissing :
    (k : Kernel)
    → read_dentry_by_name k.fs (some (literal "helloo")) ≡ some missing
    → IsMissing (literal "helloo") k
unfolding strncmp
helloo-IsMissing k e = record { not_stdin = refl; not_stdout = refl; entry = e }

empty-IsMissing : (k : Kernel) → IsMissing (literal "") k
unfolding strncmp read_dentry_by_name
empty-IsMissing k = record { not_stdin = refl; not_stdout = refl; entry = refl }

put_fd-IsUser :
    (p fd inode : ℕ) (k : Kernel) → IsUser p k → 1 < fd → IsUser p (put_fd p fd (file_at inode 0) k)
unfolding put_fd
put_fd-IsUser p fd inode k u low =
    let o = put_fd-other p fd (file_at inode 0) k p 1 (inr (omega arith)) in
    record { run = u.run; screen = rw o u.screen; screen_in_use = rw o u.screen_in_use }

IsShown-IsUser :
    (p n : ℕ) (s : Bytes) (k k' : Kernel) → IsShown p s n k k' → IsUser p k → IsUser p k'
IsShown-IsUser p n s k k' h u = record {
  run = h.run;
  screen = rw (h.blocks) u.screen;
  screen_in_use = rw (h.blocks) u.screen_in_use;
}

-- On a disk where a file is found under "shel", as the shell is, and none under "helloo", `err_open`
-- does not pass: it returns 2, and the file that it should not have found stays open, in the first
-- descriptor that was free.
pub err_open-shel :
    (w : Surroundings) (p fd : ℕ) (d : Dentry) (m : System)
    → IsUser p (m.kernel)
    → read_dentry_by_name (m.kernel.fs) (some (literal "helloo")) ≡ some missing
    → read_dentry_by_name (m.kernel.fs) (some (literal "shel")) ≡ some (found d)
    → fops_for d.file_type ≡ some file_fops
    → IsFirstFree ((m.kernel.pcbs p).fd_array) 2 fd
    → fd < 8
    → (m' : System) × (err_open (kernel_calls w) m ≡ some (2, m'))
      × (fd_of p fd (m'.kernel) ≡ file_at d.inode_num 0)
unfolding err_open expect_failure conclude ece391_strlen
err_open-shel w p fd d m u gone here typed f lt =
    let a = kernel_open-IsMissing w (literal "helloo") m (helloo-IsMissing (m.kernel) gone) in
    let b =
      kernel_open-file w (literal "shel") d (tick m) p fd (shel-IsFile d (m.kernel) here) u.run
        typed f lt in
    let k₂ = put_fd p fd (file_at d.inode_num 0) (m.kernel) in
    let m₂ : System = record { kernel = k₂; count = m.count + 1 + 1 } in
    let u₂ = put_fd-IsUser p fd d.inode_num (m.kernel) u (omega (arith, f.lower)) in
    let c = kernel_fdputs w p 12 (literal "'shel' fail\n") m₂ u₂ refl (omega arith) in
    let u₃ = IsShown-IsUser p 12 (literal "'shel' fail\n") k₂ (c.0.kernel) c.2 u₂ in
    let e = kernel_open-IsMissing w (literal "") c.0 (empty-IsMissing (c.0.kernel)) in
    let g = kernel_fdputs w p 15 (literal "err_open: FAIL\n") (tick c.0) u₃ refl (omega arith) in
    let blocks : g.0.kernel.pcbs ≡ k₂.pcbs = g.2.blocks ∙ c.2.blocks in
    (
      g.0,
      rw (◌>>=◌, a, b, c.1, e, g.1) refl,
      ap (λ x. (x p).fd_array fd) blocks ∙ put_fd_self p fd (file_at d.inode_num 0) (m.kernel),
    )
