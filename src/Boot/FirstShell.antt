-- ===== src/Boot/FirstShell.antt =====
-- What `entry` of student-distrib/kernel.c ends with.
use ece_391_linux_kernel_cla.Prelude.{◌≡◌, ◌+◌, some, Bytes, u32}
use ece_391_linux_kernel_cla.Boot.{Layout, Machine}
use ece_391_linux_kernel_cla.Boot.Report.{Report}
use ece_391_linux_kernel_cla.Idt.{initialize_idt}
use ece_391_linux_kernel_cla.Paging.{enable_paging, load_new_process}
use ece_391_linux_kernel_cla.Pic.{Pic}
use ece_391_linux_kernel_cla.Syscalls.{Kernel, running_pcb}
use ece_391_linux_kernel_cla.Syscalls.Stacks.{push, Implements}
use ece_391_linux_kernel_cla.Syscalls.Stacks.Reached.{empty}

-- The lines of the keyboard, of the second chip and of the clock are enabled, and no other.
pub record IsMasked (m : Machine) : Type 0 where
  pub master : m.master_mask ≡ 0xF9
  pub slave : m.slave_mask ≡ 0xFE

-- What `execute` finds.
record IsReady (l : Layout) (m m' : Machine) : Type 0 where
  terms : m'.kernel.console.terms ≡ m.kernel.console.terms
  shown : m'.kernel.console.current_terminal ≡ 0
  pcbs : m'.kernel.pcbs ≡ m.kernel.pcbs
  processes : m'.kernel.processes ≡ m.kernel.processes
  fs : m'.kernel.fs ≡ m.kernel.fs
  tables : m'.kernel.tables ≡ enable_paging l.page_table m.kernel.tables
  idt : m'.idt ≡ initialize_idt l.handler m.idt

-- The state in which the machine goes to user level for the first time.
pub record IsBooted (l : Layout) (m m' : Machine) (k' : Kernel) : Type 0 where
  pub masks : IsMasked m'
  pub idt : m'.idt ≡ initialize_idt l.handler m.idt
  pub stacks : Implements (push 0 (empty 0)) k'
  pub tables : k'.tables ≡ load_new_process 0 (enable_paging l.page_table m.kernel.tables)
  pub running : running_pcb k' ≡ some 0
  pub shown : k'.console.current_terminal ≡ 0

-- The machine with the disk that the report has found.
abbrev pub with_disk : Bytes → Report → Machine → Machine
with_disk memory r m = record m {
  kernel = record (m.kernel) { console = r.console; fs = λ i. memory (u32 (r.start_fs + i)) };
}
