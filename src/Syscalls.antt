-- ===== src/Syscalls.antt =====
-- The system calls of student-distrib/syscalls.c, here those on file descriptors. A process control block is
-- known by its slot, a pointer to one by that number or by `none` for NULL. A result `none` is a
-- call that does not return: NULL is read as a block, or a loop over memory finds no end.
pub mod Descriptors
pub mod Open
pub mod Command
pub mod Slots
pub mod Execute
pub mod Halt
pub mod Switch
pub mod Stacks
pub mod Args
mod Tests
use ece_391_linux_kernel_cla.Prelude.{
  ℕ, zero, suc, ◌+◌, ◌-◌, Bool, true, false, ◌||◌, Option, none, some, List, ℤ, pos, minus_one,
  is_zero, Bytes, literal, word, ◌==◌, ltb, leb, if◌then◌else◌,
}
use ece_391_linux_kernel_cla.Clib.{strncmp}
use ece_391_linux_kernel_cla.Console.{Console, term_of}
use ece_391_linux_kernel_cla.FileSystem.{
  Dentry, Lookup, missing, found, read_dentry_by_name, dir_open, dir_close, dir_write, dir_read,
  file_open, file_close, file_write, file_read,
}
use ece_391_linux_kernel_cla.Io.{Device}
use ece_391_linux_kernel_cla.Paging.{Tables}
use ece_391_linux_kernel_cla.Rtc.{rtc_open, rtc_close, rtc_read, rtc_write}
use ece_391_linux_kernel_cla.Terminal.{terminal_open, terminal_close, terminal_read, terminal_write}

-- The tables of operations a descriptor may point to.
pub data Fops : Type 0 where
  terminal_fops : Fops
  rtc_fops : Fops
  dir_fops : Fops
  file_fops : Fops

-- `FILE_DATA`
pub record FileData : Type 0 where
  pub table : Fops
  pub in_use : ℕ
  pub file_pos : ℕ
  pub info : ℕ

-- `pcb_t`
pub record Pcb : Type 0 where
  pub process_num : ℕ
  pub parent_sp : ℕ
  pub parent_bp : ℕ
  pub parent_pcb : Option ℕ
  pub filename : Bytes
  pub args : Bytes
  pub fd_array : ℕ → FileData
  pub term_start : ℕ

-- The globals that the calls read and write.
pub record Kernel : Type 0 where
  pub fs : Bytes
  pub directory_index : ℕ
  pub pcbs : ℕ → Pcb
  pub console : Console
  -- A bit for each slot that is taken.
  pub processes : ℕ
  pub tables : Tables
  -- `tss`
  pub esp0 : ℕ
  pub ss0 : ℕ
  pub old_esp : ℕ
  pub old_ebp : ℕ
  pub entry_point : Bytes
  -- What a process sees from 128 MB on, for each slot.
  pub images : ℕ → Bytes

-- `terms[current_terminal].running_pcb`
abbrev pub running_pcb : Kernel → Option ℕ
running_pcb k = (term_of k.console).running_pcb

-- What the calls meet outside the kernel: the devices, the interrupts while a call waits, and what
-- lies on the stack behind a directory entry.
pub record Outside : Type 0 where
  pub device : Device
  pub events : List (Console → Console)
  pub fuel : ℕ
  pub fires : ℕ → Bool
  pub stack : Bytes

abbrev pub process_count : ℕ
process_count = 8

-- `fd_array[fd]` of the block in slot `p`.
abbrev pub fd_of : ℕ → ℕ → Kernel → FileData
fd_of p fd k = (k.pcbs p).fd_array fd

-- `fd_array[fd] = f`
unfoldable pub put_fd : ℕ → ℕ → FileData → Kernel → Kernel
put_fd p fd f k = record k {
  pcbs = λ q.
      if q == p
      then record (k.pcbs q) { fd_array = λ i. if i == fd then f else (k.pcbs q).fd_array i }
      else k.pcbs q;
}

-- A descriptor in use at the start of its file.
abbrev pub opened : Fops → ℕ → FileData
opened table info = record { table = table; in_use = 1; file_pos = 0; info = info }

-- `table->open(filename)`
unfoldable pub table_open : Device → Fops → Kernel → ℤ × Kernel
table_open device terminal_fops k = (terminal_open, k)
table_open device rtc_fops k =
    let (r, io) = rtc_open device k.console.io in
    (r, record k { console = record (k.console) { io = io } })
table_open device dir_fops k = (dir_open, k)
table_open device file_fops k = (file_open, k)

-- Which table serves a file type; other types have none.
unfoldable pub fops_for : ℕ → Option Fops
fops_for t =
    if t == 0
    then some rtc_fops
    else if t == 1
    then some dir_fops
    else if t == 2
    then some file_fops
    else none

-- The loop over the descriptors, with `n` left: the first that is not in use.
unfoldable pub find_free : ℕ → ℕ → (ℕ → FileData) → Option ℕ
find_free zero index fds = none
find_free (suc n) index fds =
    let rest = find_free n (index + 1) fds in if (fds index).in_use == 0 then some index else rest

-- `open` of "stdin" and of "stdout": the descriptor of that number. The result is the driver's.
unfoldable pub open_std : Device → ℕ → Kernel → Option (ℤ × Kernel)
unfolding table_open put_fd
open_std device fd k = elim (running_pcb k) [
  | none ↦ none
  | some p ↦
      if (fd_of p fd k).in_use == 1
      then some (minus_one, k)
      else some (table_open device terminal_fops (put_fd p fd (opened terminal_fops 0) k))
]

-- `open` of a file of the file system. The type of a file does not change in the loop: a type
-- without a table leaves every descriptor as it is.
unfoldable pub open_file : Device → Dentry → Kernel → Option (ℤ × Kernel)
unfolding fops_for find_free
open_file device d k = elim (running_pcb k) [
  | none ↦ none
  | some p ↦ elim (fops_for d.file_type) [
    | none ↦ some (minus_one, k)
    | some table ↦ elim (find_free 6 2 ((k.pcbs p).fd_array)) [
      | none ↦ some (minus_one, k)
      | some fd ↦
          some (pos fd, (table_open device table (put_fd p fd (opened table d.inode_num) k)).1)
    ]
  ]
]

unfoldable pub syscall_open : Device → Bytes → Kernel → Option (ℤ × Kernel)
unfolding open_file
syscall_open device filename k =
    if is_zero (strncmp filename (literal "stdin") 5)
    then open_std device 0 k
    else if is_zero (strncmp filename (literal "stdout") 6)
    then open_std device 1 k
    else elim (read_dentry_by_name (k.fs) (some filename)) [
      | none ↦ none
      | some l ↦ elim l [ missing ↦ some (minus_one, k) | found d ↦ open_file device d k ]
    ]

-- `table->close(fd)`
unfoldable pub table_close : Fops → ℤ
table_close terminal_fops = terminal_close
table_close rtc_fops = rtc_close
table_close dir_fops = dir_close
table_close file_fops = file_close

unfoldable pub close : ℕ → Kernel → Option (ℤ × Kernel)
unfolding put_fd
close fd k =
    if leb fd 1 || ltb (process_count - 1) fd then some (minus_one, k) else elim (running_pcb k) [
      | none ↦ none
      | some p ↦
          if (fd_of p fd k).in_use == 0
          then some (minus_one, k)
          else (let k' = put_fd p fd (record (fd_of p fd k) { in_use = 0 }) k in
              some (if is_zero (table_close (fd_of p fd k).table) then pos 0 else minus_one, k'))
    ]

-- `table->write(fd, buf, nbytes)`
unfoldable pub table_write : Device → Fops → ℕ → Bytes → ℕ → Kernel → ℤ × Kernel
table_write device terminal_fops fd buf nbytes k =
    let (r, c) = terminal_write fd buf nbytes k.console in (r, record k { console = c })
table_write device rtc_fops fd buf nbytes k =
    let (r, io) = rtc_write device (word buf) k.console.io in
    (r, record k { console = record (k.console) { io = io } })
table_write device dir_fops fd buf nbytes k = (dir_write, k)
table_write device file_fops fd buf nbytes k = (file_write, k)

-- The checks that `read` and `write` begin with: the slot and the buffer if the call goes on.
pub data Check : Type 0 where
  fault : Check
  refused : Check
  passed : ℕ → Bytes → Check

unfoldable pub check : ℕ → Option Bytes → Kernel → Check
check fd none k = refused
check fd (some buf) k = if ltb (process_count - 1) fd then refused else elim (running_pcb k) [
  | none ↦ fault
  | some p ↦ if (fd_of p fd k).in_use == 0 then refused else passed p buf
]

unfoldable pub write : Device → ℕ → Option Bytes → ℕ → Kernel → Option (ℤ × Kernel)
unfolding check table_write
write device fd buf nbytes k = elim (check fd buf k) [
  | fault ↦ none
  | refused ↦ some (minus_one, k)
  | passed p b ↦ some (table_write device (fd_of p fd k).table fd b nbytes k)
]

-- `table->read(fd, buf, nbytes)` for the process in slot `p`.
unfoldable pub table_read :
    Outside → Fops → ℕ → ℕ → Bytes → ℕ → Kernel → Option (ℤ × Bytes × Kernel)
unfolding put_fd
table_read w terminal_fops p fd buf nbytes k =
    elim (terminal_read w.events fd buf nbytes k.console) [
      | none ↦ none
      | some (r, b, c) ↦ some (r, b, record k { console = c })
    ]
table_read w rtc_fops p fd buf nbytes k = elim (rtc_read w.fuel w.fires 0 k.console.io) [
  | none ↦ none
  | some (n, io) ↦ some (pos 0, buf, record k { console = record (k.console) { io = io } })
]
table_read w dir_fops p fd buf nbytes k = elim (dir_read k.fs w.stack k.directory_index buf) [
  | none ↦ none
  | some (r, b, next) ↦ some (r, b, record k { directory_index = next })
]
table_read w file_fops p fd buf nbytes k =
    let f = fd_of p fd k in
    let (r, b, at) = file_read k.fs f.info f.file_pos (some buf) nbytes in
    some (r, elim b [ none ↦ buf | some x ↦ x ], put_fd p fd (record f { file_pos = at }) k)

-- The count, the buffer and the kernel.
unfoldable pub read : Outside → ℕ → Option Bytes → ℕ → Kernel → Option (ℤ × Option Bytes × Kernel)
unfolding check table_read
read w fd buf nbytes k = elim (check fd buf k) [
  | fault ↦ none
  | refused ↦ some (minus_one, buf, k)
  | passed p b ↦ elim (table_read w (fd_of p fd k).table p fd b nbytes k) [
    | none ↦ none
    | some (r, out, k') ↦ some (r, some out, k')
  ]
]
