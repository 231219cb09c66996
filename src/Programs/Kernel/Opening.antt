-- ===== src/Programs/Kernel/Opening.antt =====
-- Opening a file by the system call of this kernel.
use ece_391_linux_kernel_cla.Prelude.{
  ℕ, ◌+◌, ◌<◌, ◌≡◌, refl, ◌∙◌, false, some, pos, minus_one, Bytes, literal, is_zero,
}
use ece_391_linux_kernel_cla.Clib.{strncmp}
use ece_391_linux_kernel_cla.FileSystem.{Dentry, missing, read_dentry_by_name}
use ece_391_linux_kernel_cla.Io.{Device}
use ece_391_linux_kernel_cla.Syscalls.{
  file_fops, Kernel, running_pcb, put_fd, fops_for, syscall_open, table_open,
}
use ece_391_linux_kernel_cla.Syscalls.Execute.{quieted}
use ece_391_linux_kernel_cla.Syscalls.Open.{
  IsFile, IsFirstFree, find_free-first, syscall_open-file, open_file-some,
}
use ece_391_linux_kernel_cla.Programs.Kernel.{System, Surroundings, kernel_open}
use ece_391_linux_kernel_cla.Programs.Kernel.Files.{file_at, system_call-some}
use ece_391_linux_kernel_cla.Programs.Kernel.Refusals.{tick, system_call-tick}

-- The descriptor of a file just opened.
pub syscall_open-put_fd :
    (device : Device) (name : Bytes) (d : Dentry) (k : Kernel) (p fd : ℕ)
    → IsFile name d k
    → running_pcb k ≡ some p
    → fops_for d.file_type ≡ some file_fops
    → IsFirstFree ((k.pcbs p).fd_array) 2 fd
    → fd < 8
    → syscall_open device name k ≡ some (pos fd, put_fd p fd (file_at d.inode_num 0) k)
unfolding table_open
syscall_open-put_fd device name d k p fd file run typed f lt =
    syscall_open-file device name d k file
    ∙ open_file-some device d k p file_fops fd run typed
        (find_free-first 6 2 ((k.pcbs p).fd_array) fd f lt)

-- The name of no file.
pub record IsMissing (name : Bytes) (k : Kernel) : Type 0 where
  pub not_stdin : is_zero (strncmp name (literal "stdin") 5) ≡ false
  pub not_stdout : is_zero (strncmp name (literal "stdout") 6) ≡ false
  pub entry : read_dentry_by_name k.fs (some name) ≡ some missing

pub kernel_open-IsMissing :
    (w : Surroundings) (name : Bytes) (m : System)
    → IsMissing name (m.kernel)
    → kernel_open w name m ≡ some (minus_one, tick m)
unfolding kernel_open syscall_open
kernel_open-IsMissing w name m h =
    system_call-tick (syscall_open ((w.outside m.count).device) name) m minus_one
      (rw (h.not_stdin, h.not_stdout, h.entry) refl)

pub kernel_open-file :
    (w : Surroundings) (name : Bytes) (d : Dentry) (m : System) (p fd : ℕ)
    → IsFile name d (m.kernel)
    → running_pcb (m.kernel) ≡ some p
    → fops_for d.file_type ≡ some file_fops
    → IsFirstFree ((m.kernel.pcbs p).fd_array) 2 fd
    → fd < 8
    → kernel_open w name m
      ≡ some (
        pos fd,
        record { kernel = put_fd p fd (file_at d.inode_num 0) (m.kernel); count = m.count + 1 },
      )
unfolding kernel_open put_fd
kernel_open-file w name d m p fd file run typed f lt =
    let k = quieted m.kernel in
    let file' : IsFile name d k = record {
      not_stdin = file.not_stdin;
      not_stdout = file.not_stdout;
      entry = file.entry;
    } in
    let e = syscall_open-put_fd ((w.outside m.count).device) name d k p fd file' run typed f lt in
    system_call-some (syscall_open ((w.outside m.count).device) name) m (pos fd)
      (put_fd p fd (file_at d.inode_num 0) k) e
