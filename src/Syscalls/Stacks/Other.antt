-- ===== src/Syscalls/Stacks/Other.antt =====
-- Calls of student-distrib/syscalls.c that leave the stacks of processes alone.
use ece_391_linux_kernel_cla.Prelude.{
  ℕ, ◌-◌, refl, inl, inr, ◌||◌, Option, none, some, ℤ, pos, minus_one, is_zero, Bytes, literal,
  ◌==◌, leb, ltb, Bool-cases, arith,
}
use ece_391_linux_kernel_cla.Clib.{strncmp}
use ece_391_linux_kernel_cla.FileSystem.{Dentry, Lookup, missing, found, read_dentry_by_name}
use ece_391_linux_kernel_cla.Io.{Device}
use ece_391_linux_kernel_cla.Syscalls.{
  Fops, terminal_fops, rtc_fops, dir_fops, file_fops, Kernel, FileData, fd_of, put_fd, opened,
  process_count, running_pcb, table_open, fops_for, find_free, open_std, open_file, syscall_open,
  close,
}
use ece_391_linux_kernel_cla.Syscalls.Stacks.Select.{IsSelect}

-- The kernel that a call leaves, if it returns.
abbrev pub Leaves : Kernel → Option (ℤ × Kernel) → Type 0
Leaves k none = Unit
Leaves k (some (r, k')) = IsSelect k.console.current_terminal k k'

same : (k : Kernel) → IsSelect k.console.current_terminal k k
same k = record {
  current = refl;
  running = λ a. refl;
  been_here = λ a. refl;
  blocks = λ p. record { process_num = refl; parent_pcb = refl; term_start = refl };
  processes = refl;
}

put_fd-IsSelect :
    (p fd : ℕ) (f : FileData) (k : Kernel) → IsSelect k.console.current_terminal k (put_fd p fd f k)
unfolding put_fd
put_fd-IsSelect p fd f k = record {
  current = refl;
  running = λ a. refl;
  been_here = λ a. refl;
  blocks = λ q. record {
    process_num = ground arith;
    parent_pcb = ground arith;
    term_start = ground arith;
  };
  processes = refl;
}

with_value :
    {A : Type 0} (k : Kernel) (o : Option A) (f : A → Option (ℤ × Kernel))
    → ((a : A) → Leaves k (f a))
    → Leaves k (elim o [ none ↦ none | some a ↦ f a ])
with_value k none f h = record {}
with_value k (some a) f h = h a

-- `close` of any descriptor.
pub close-Leaves : (fd : ℕ) (k : Kernel) → Leaves k (close fd k)
unfolding close
close-Leaves fd k = elim (Bool-cases (leb fd 1 || ltb (process_count - 1) fd)) [
  | inl h ↦ rw (h, Leaves) (same k)
  | inr h ↦
      rw (h, Leaves)
        (with_value k (running_pcb k) _ (λ p. elim (Bool-cases ((fd_of p fd k).in_use == 0)) [
          | inl g ↦ rw (g, Leaves) (same k)
          | inr g ↦ rw (g, Leaves) (put_fd-IsSelect p fd _ k)
        ]))
]

table_open-IsSelect :
    (device : Device) (table : Fops) (p fd : ℕ) (f : FileData) (k : Kernel)
    → IsSelect k.console.current_terminal k (table_open device table (put_fd p fd f k)).1
unfolding table_open
table_open-IsSelect device terminal_fops p fd f k = put_fd-IsSelect p fd f k
table_open-IsSelect device rtc_fops p fd f k =
    let s = put_fd-IsSelect p fd f k in
    record {
      current = s.current;
      running = s.running;
      been_here = s.been_here;
      blocks = s.blocks;
      processes = s.processes;
    }
table_open-IsSelect device dir_fops p fd f k = put_fd-IsSelect p fd f k
table_open-IsSelect device file_fops p fd f k = put_fd-IsSelect p fd f k

open_std-Leaves : (device : Device) (fd : ℕ) (k : Kernel) → Leaves k (open_std device fd k)
unfolding open_std
open_std-Leaves device fd k = with_value k (running_pcb k) _ (λ p.
    elim (Bool-cases ((fd_of p fd k).in_use == 1)) [
      | inl g ↦ rw (g, Leaves) (same k)
      | inr g ↦
          rw (g, Leaves) (table_open-IsSelect device terminal_fops p fd (opened terminal_fops 0) k)
    ])

open_file-Leaves : (device : Device) (d : Dentry) (k : Kernel) → Leaves k (open_file device d k)
unfolding open_file
open_file-Leaves device d k = with_value k (running_pcb k) _ (λ p. typed p (fops_for d.file_type))
  where
    slot :
        (p : ℕ) (table : Fops) (o : Option ℕ)
        → Leaves k (elim o [
          | none ↦ some (minus_one, k)
          | some fd ↦
              some (pos fd, (table_open device table (put_fd p fd (opened table d.inode_num) k)).1)
        ])
    slot p table none = same k
    slot p table (some fd) = table_open-IsSelect device table p fd (opened table d.inode_num) k

    typed :
        (p : ℕ) (o : Option Fops)
        → Leaves k (elim o [
          | none ↦ some (minus_one, k)
          | some table ↦ elim (find_free 6 2 ((k.pcbs p).fd_array)) [
            | none ↦ some (minus_one, k)
            | some fd ↦
                some
                  (pos fd, (table_open device table (put_fd p fd (opened table d.inode_num) k)).1)
          ]
        ])
    typed p none = same k
    typed p (some table) = slot p table (find_free 6 2 ((k.pcbs p).fd_array))

-- `open` of any name.
pub syscall_open-Leaves :
    (device : Device) (filename : Bytes) (k : Kernel) → Leaves k (syscall_open device filename k)
unfolding syscall_open
syscall_open-Leaves device filename k =
    elim (Bool-cases (is_zero (strncmp filename (literal "stdin") 5))) [
      | inl h ↦ rw (h, Leaves) (open_std-Leaves device 0 k)
      | inr h ↦ elim (Bool-cases (is_zero (strncmp filename (literal "stdout") 6))) [
        | inl g ↦ rw (h, g, Leaves) (open_std-Leaves device 1 k)
        | inr g ↦
            rw (h, g, Leaves)
              (with_value k (read_dentry_by_name k.fs (some filename)) _ (λ l. looked l))
      ]
    ]
  where
    looked :
        (l : Lookup)
        → Leaves k (elim l [ missing ↦ some (minus_one, k) | found d ↦ open_file device d k ])
    looked missing = same k
    looked (found d) = open_file-Leaves device d k
