-- ===== src/Syscalls/Open.antt =====
-- What `open`, `close`, `read` and `write` of student-distrib/syscalls.c promise a process about its
-- descriptors.
use ece_391_linux_kernel_cla.Prelude.{
  ℕ, zero, suc, ◌+◌, ◌≤◌, ◌<◌, ◌≡◌, ◌≢◌, ◌⊎◌, inl, inr, refl, ◌∙◌, ap, true, false, Option, none,
  some, pos, minus_one, is_zero, Bytes, literal, ℕ_discrete, Option-cases, arith,
}
use ece_391_linux_kernel_cla.Clib.{strncmp}
use ece_391_linux_kernel_cla.FileSystem.{Dentry, found, read_dentry_by_name}
use ece_391_linux_kernel_cla.Io.{Device}
use ece_391_linux_kernel_cla.Syscalls.Descriptors.{
  table_close-zero, put_fd_self, put_fd-other, put_fd-in_use, put_fd-running,
}
use ece_391_linux_kernel_cla.Syscalls.{
  running_pcb, Fops, terminal_fops, rtc_fops, dir_fops, file_fops, FileData, Kernel, Outside, fd_of,
  put_fd, opened, table_open, fops_for, find_free, open_file, syscall_open, close, table_close,
  check, refused, read, write,
}

-- `fd` is the first descriptor from `low` on that is not in use.
pub record IsFirstFree (fds : ℕ → FileData) (low fd : ℕ) : Type 0 where
  pub lower : low ≤ fd
  pub free : (fds fd).in_use ≡ 0
  pub first : (i : ℕ) → low ≤ i → i < fd → (fds i).in_use ≢ 0

pub find_free-first :
    (n low : ℕ) (fds : ℕ → FileData) (fd : ℕ)
    → IsFirstFree fds low fd
    → fd < low + n
    → find_free n low fds ≡ some fd
unfolding find_free
find_free-first zero low fds fd f h = absurd (omega (arith, f.lower))
find_free-first (suc n) low fds fd f h = elim (ℕ_discrete low fd) [
  | yes e ↦ rw e (ground (arith, f.free))
  | no ne ↦
      let lower : low + 1 ≤ fd = omega (arith, f.lower, ne) in
      let above : low < fd = omega (arith, f.lower, ne) in
      let rest : IsFirstFree fds (low + 1) fd = record {
        lower = lower;
        free = f.free;
        first = λ i l u. f.first i (omega arith) u;
      } in
      ground (
        arith,
        f.first low (omega arith) above,
        find_free-first n (low + 1) fds fd rest (omega arith),
      )
]

find_free-none :
    (n low : ℕ) (fds : ℕ → FileData)
    → ((i : ℕ) → low ≤ i → i < low + n → (fds i).in_use ≢ 0)
    → find_free n low fds ≡ none
unfolding find_free
find_free-none zero low fds h = refl
find_free-none (suc n) low fds h = ground (
  arith,
  h low (omega arith) (omega arith),
  find_free-none n (low + 1) fds (λ i l u. h i (omega arith) (omega arith)),
)

-- The name is that of a file, and neither of the terminal's two.
pub record IsFile (filename : Bytes) (d : Dentry) (k : Kernel) : Type 0 where
  pub not_stdin : is_zero (strncmp filename (literal "stdin") 5) ≡ false
  pub not_stdout : is_zero (strncmp filename (literal "stdout") 6) ≡ false
  pub entry : read_dentry_by_name k.fs (some filename) ≡ some (found d)

pub syscall_open-file :
    (device : Device) (filename : Bytes) (d : Dentry) (k : Kernel)
    → IsFile filename d k
    → syscall_open device filename k ≡ open_file device d k
unfolding syscall_open
syscall_open-file device filename d k f = rw (f.not_stdin, f.not_stdout, f.entry) refl

-- Opening a file runs the driver's `open`, which leaves the descriptors alone.
table_open-fds :
    (device : Device) (table : Fops) (k : Kernel) (q i : ℕ)
    → fd_of q i (table_open device table k).1 ≡ fd_of q i k
unfolding table_open
table_open-fds device terminal_fops k q i = refl
table_open-fds device rtc_fops k q i = refl
table_open-fds device dir_fops k q i = refl
table_open-fds device file_fops k q i = refl

table_open-running :
    (device : Device) (table : Fops) (k : Kernel)
    → running_pcb (table_open device table k).1 ≡ running_pcb k
unfolding table_open
table_open-running device terminal_fops k = refl
table_open-running device rtc_fops k = refl
table_open-running device dir_fops k = refl
table_open-running device file_fops k = refl

pub open_file-some :
    (device : Device) (d : Dentry) (k : Kernel) (p : ℕ) (table : Fops) (fd : ℕ)
    → running_pcb k ≡ some p
    → fops_for d.file_type ≡ some table
    → find_free 6 2 ((k.pcbs p).fd_array) ≡ some fd
    → open_file device d k
      ≡ some (pos fd, (table_open device table (put_fd p fd (opened table d.inode_num) k)).1)
unfolding open_file
open_file-some device d k p table fd run typed free = ground (arith, run, typed, free)

-- What a process sees after a successful `open`.
pub record IsOpened (table : Fops) (d : Dentry) (p fd : ℕ) (k k' : Kernel) : Type 0 where
  pub descriptor : fd_of p fd k' ≡ opened table d.inode_num
  pub others : (q i : ℕ) → (q ≢ p) ⊎ (i ≢ fd) → fd_of q i k' ≡ fd_of q i k
  pub running : running_pcb k' ≡ some p

module _ (device : Device) (filename : Bytes) (d : Dentry) (k : Kernel) (p : ℕ)
    (file : IsFile filename d k) (run : running_pcb k ≡ some p) where
  -- For a running process, `open` of a file of one of the three types returns the first descriptor
  -- from 2 to 7 that is not in use, if there is one, sets it up for the file's inode at position 0
  -- with the table of its type, and leaves every other descriptor of every process as it was.
  pub syscall_open-first :
      (table : Fops) (fd : ℕ)
      → fops_for d.file_type ≡ some table
      → IsFirstFree ((k.pcbs p).fd_array) 2 fd
      → fd < 8
      → (k' : Kernel) × (syscall_open device filename k ≡ some (pos fd, k'))
        × IsOpened table d p fd k k'
  syscall_open-first table fd typed f lt =
      let k₁ = put_fd p fd (opened table d.inode_num) k in
      (
        (table_open device table k₁).1,
        syscall_open-file device filename d k file
            ∙ open_file-some device d k p table fd run typed
                (find_free-first 6 2 ((k.pcbs p).fd_array) fd f lt),
        record {
          descriptor =
              table_open-fds device table k₁ p fd ∙ put_fd_self p fd (opened table d.inode_num) k;
          others = λ q i ne.
              table_open-fds device table k₁ q i
              ∙ put_fd-other p fd (opened table d.inode_num) k q i ne;
          running =
              table_open-running device table k₁
              ∙ put_fd-running p fd (opened table d.inode_num) k
              ∙ run;
        },
      )

  -- For a running process with the six descriptors from 2 to 7 in use, `open` of a file fails and
  -- changes nothing, whatever the type of the file.
  pub syscall_open-full :
      ((i : ℕ) → 2 ≤ i → i < 8 → (fd_of p i k).in_use ≢ 0)
      → syscall_open device filename k ≡ some (minus_one, k)
  unfolding open_file
  syscall_open-full h =
      let e : find_free 6 2 ((k.pcbs p).fd_array) ≡ none =
        find_free-none 6 2 ((k.pcbs p).fd_array) h in
      syscall_open-file device filename d k file ∙ elim (Option-cases (fops_for d.file_type)) [
        | inl n ↦ ground (arith, run, n)
        | inr (t, s) ↦ ground (arith, run, s, e)
      ]

pub close-used :
    (p fd : ℕ) (k : Kernel)
    → running_pcb k ≡ some p
    → 2 ≤ fd
    → fd < 8
    → (fd_of p fd k).in_use ≢ 0
    → close fd k ≡ some (pos 0, put_fd p fd (record (fd_of p fd k) { in_use = 0 }) k)
unfolding close
close-used p fd k run l u used =
    let z : is_zero (table_close (fd_of p fd k).table) ≡ true = table_close-zero _ in
    ground (arith, run, z)

-- A process that closes a descriptor from 2 to 7, which `open` has set up where none was in use,
-- gets 0, and the descriptors of all processes are in use or not as they were before the `open`.
pub close-syscall_open :
    (table : Fops) (d : Dentry) (p fd : ℕ) (k k' : Kernel)
    → IsOpened table d p fd k k'
    → 2 ≤ fd
    → fd < 8
    → (fd_of p fd k).in_use ≡ 0
    → (k'' : Kernel) × (close fd k' ≡ some (pos 0, k''))
      × ((q i : ℕ) → (fd_of q i k'').in_use ≡ (fd_of q i k).in_use)
close-syscall_open table d p fd k k' o l u free =
    let f : FileData = record (fd_of p fd k') { in_use = 0 } in
    let used : (fd_of p fd k').in_use ≢ 0 = ground (arith, ap (λ x. x.in_use) o.descriptor) in
    (
      put_fd p fd f k',
      close-used p fd k' o.running l u used,
      λ q i. elim (ℕ_discrete q p) [
        | yes e ↦ elim (ℕ_discrete i fd) [
          | yes e' ↦ rw (e, e') (ground (arith, put_fd-in_use p fd f k' p fd, free))
          | no ne ↦
              ground
                (arith, put_fd-in_use p fd f k' q i, ap (λ x. x.in_use) (o.others q i (inr ne)))
        ]
        | no ne ↦
            ground (arith, put_fd-in_use p fd f k' q i, ap (λ x. x.in_use) (o.others q i (inl ne)))
      ],
    )

-- A descriptor above 7 or not in use, or a NULL buffer.
pub data IsBad (fd p : ℕ) (k : Kernel) : Option Bytes → Type 0 where
  null : IsBad fd p k none
  above : (buf : Bytes) → 7 < fd → IsBad fd p k (some buf)
  unused : (buf : Bytes) → (fd_of p fd k).in_use ≡ 0 → IsBad fd p k (some buf)

check-IsBad :
    (fd p : ℕ) (k : Kernel) (buf : Option Bytes)
    → running_pcb k ≡ some p
    → IsBad fd p k buf
    → check fd buf k ≡ refused
unfolding check
check-IsBad fd p k none run null = refl
check-IsBad fd p k (some buf) run (above b h) = ground (arith, run)
check-IsBad fd p k (some buf) run (unused b h) = ground (arith, run)

-- For a running process, `read` and `write` on a descriptor above 7 or not in use, or with a NULL
-- buffer, return -1 and change neither the kernel nor the buffer.
pub read-IsBad :
    (w : Outside) (fd p nbytes : ℕ) (k : Kernel) (buf : Option Bytes)
    → running_pcb k ≡ some p
    → IsBad fd p k buf
    → (read w fd buf nbytes k ≡ some (minus_one, buf, k))
      × (write w.device fd buf nbytes k ≡ some (minus_one, k))
unfolding read write
read-IsBad w fd p nbytes k buf run bad = (
  rw (check-IsBad fd p k buf run bad, read) refl,
  rw (check-IsBad fd p k buf run bad, write) refl,
)
