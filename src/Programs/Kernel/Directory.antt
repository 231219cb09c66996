-- ===== src/Programs/Kernel/Directory.antt =====
-- Opening and reading the directory by the system calls of this kernel.
use ece_391_linux_kernel_cla.Prelude.{
  ℕ, ◌+◌, ◌<◌, ◌≡◌, ◌≢◌, inr, refl, ◌∙◌, some, pos, Bytes, arith,
}
use ece_391_linux_kernel_cla.FileSystem.{Dentry, dir_read}
use ece_391_linux_kernel_cla.Syscalls.{
  dir_fops, Kernel, Outside, running_pcb, fd_of, put_fd, opened, fops_for, syscall_open, table_open,
  read,
}
use ece_391_linux_kernel_cla.Syscalls.Execute.{quieted}
use ece_391_linux_kernel_cla.Syscalls.Descriptors.{put_fd_self, put_fd-other}
use ece_391_linux_kernel_cla.Syscalls.Open.{
  IsFile, IsFirstFree, find_free-first, syscall_open-file, open_file-some,
}
use ece_391_linux_kernel_cla.Programs.Kernel.{
  System, Surroundings, call_read, kernel_open, kernel_read,
}
use ece_391_linux_kernel_cla.Programs.Kernel.Files.{check-passed, to_u32-pos, system_call-some}
use ece_391_linux_kernel_cla.Programs.Kernel.Refusals.{IsUser}

-- The process in slot `p` has `fd` open for the directory.
pub record IsListing (p fd : ℕ) (k : Kernel) : Type 0 where
  pub user : IsUser p k
  pub table : (fd_of p fd k).table ≡ dir_fops
  pub in_use : (fd_of p fd k).in_use ≢ 0
  pub fd_high : fd < 8

quieted-IsListing : (p fd : ℕ) (k : Kernel) → IsListing p fd k → IsListing p fd (quieted k)
quieted-IsListing p fd k l = record {
  user = record { run = l.user.run; screen = l.user.screen; screen_in_use = l.user.screen_in_use };
  table = l.table;
  in_use = l.in_use;
  fd_high = l.fd_high;
}

read-directory :
    (o : Outside) (p fd n next nbytes : ℕ) (buf out : Bytes) (k : Kernel)
    → IsListing p fd k
    → dir_read k.fs o.stack k.directory_index buf ≡ some (pos n, out, next)
    → read o fd (some buf) nbytes k ≡ some (pos n, some out, record k { directory_index = next })
unfolding read
read-directory o p fd n next nbytes buf out k l e =
    let c = check-passed fd p buf k l.user.run l.fd_high l.in_use in rw (read, c, l.table, e) refl

module _ (w : Surroundings) (p fd : ℕ) (m : System) (l : IsListing p fd (m.kernel)) where
  -- A read goes on to the next entry, and changes nothing else.
  pub kernel_read-directory :
      (n next : ℕ) (buf out : Bytes)
      → dir_read (m.kernel.fs) ((w.outside m.count).stack) (m.kernel.directory_index) buf
        ≡ some (pos n, out, next)
      → kernel_read w (pos fd) buf (pos 32) m
        ≡ some (
          (pos n, out),
          record { kernel = record (m.kernel) { directory_index = next }; count = m.count + 1 },
        )
  unfolding kernel_read call_read
  kernel_read-directory n next buf out e =
      let k = quieted (m.kernel) in
      let r =
        read-directory (w.outside m.count) p fd n next 32 buf out k
          (quieted-IsListing p fd (m.kernel) l) e in
      rw (to_u32-pos fd (omega (arith, l.fd_high)), to_u32-pos 32 (omega arith))
        (system_call-some (call_read (w.outside m.count) fd buf 32) m (pos n, out)
          (record k { directory_index = next }) (rw (call_read, r) refl))

pub kernel_open-directory :
    (w : Surroundings) (name : Bytes) (d : Dentry) (m : System) (p fd : ℕ)
    → IsFile name d (m.kernel)
    → running_pcb (m.kernel) ≡ some p
    → fops_for d.file_type ≡ some dir_fops
    → IsFirstFree ((m.kernel.pcbs p).fd_array) 2 fd
    → fd < 8
    → kernel_open w name m
      ≡ some (
        pos fd,
        record {
          kernel = put_fd p fd (opened dir_fops d.inode_num) (m.kernel);
          count = m.count + 1;
        },
      )
unfolding kernel_open put_fd table_open
kernel_open-directory w name d m p fd file run typed f lt =
    let k = quieted m.kernel in
    let device = (w.outside m.count).device in
    let file' : IsFile name d k = record {
      not_stdin = file.not_stdin;
      not_stdout = file.not_stdout;
      entry = file.entry;
    } in
    let e : syscall_open device name k
        ≡ some (pos fd, put_fd p fd (opened dir_fops d.inode_num) k) =
      syscall_open-file device name d k file'
      ∙ open_file-some device d k p dir_fops fd run typed
          (find_free-first 6 2 ((k.pcbs p).fd_array) fd f lt) in
    system_call-some (syscall_open device name) m (pos fd)
      (put_fd p fd (opened dir_fops d.inode_num) k) e

pub opened-IsListing :
    (p fd inode : ℕ) (k : Kernel)
    → IsUser p k
    → 1 < fd
    → fd < 8
    → IsListing p fd (put_fd p fd (opened dir_fops inode) k)
unfolding put_fd
opened-IsListing p fd inode k u low high =
    let o = put_fd-other p fd (opened dir_fops inode) k p 1 (inr (omega arith)) in
    let s = put_fd_self p fd (opened dir_fops inode) k in
    record {
      user = record { run = u.run; screen = rw o u.screen; screen_in_use = rw o u.screen_in_use };
      table = rw s refl;
      in_use = rw s (omega arith);
      fd_high = high;
    }
