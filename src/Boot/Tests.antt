-- ===== src/Boot/Tests.antt =====
-- A machine with the disk that holds a shell.
use ece_391_linux_kernel_cla.Prelude.{
  ◌-◌, Bool, Option, none, some, Bytes, ◌+◌, u32, leb, ◌==◌, if◌then◌else◌,
}
use ece_391_linux_kernel_cla.Boot.{SegDesc, Layout, Machine}
use ece_391_linux_kernel_cla.Boot.Report.{Report, print_report, bootloader_magic, entry}
use ece_391_linux_kernel_cla.FileSystem.{Dentry, memcpy_dentry}
use ece_391_linux_kernel_cla.FileSystem.{entry as entry_at}
use ece_391_linux_kernel_cla.Samples.{zeros}
use ece_391_linux_kernel_cla.Idt.{Gate}
use ece_391_linux_kernel_cla.Io.{Device}
use ece_391_linux_kernel_cla.Samples.Shell.{shell_disk, fresh_kernel}

abbrev silent : Device
silent log port = 0

abbrev layout : Layout
layout = record {
  handler = λ h. 0x400000;
  page_table = 0x500000;
  ldt = 0x502000;
  ldt_size = 32;
  tss = 0x503000;
  tss_size = 104;
}

abbrev no_desc : SegDesc
no_desc = record {
  seg_lim_15_00 = 0;
  base_15_00 = 0;
  base_23_16 = 0;
  kind = 0;
  sys = 0;
  dpl = 0;
  present = 0;
  seg_lim_19_16 = 0;
  avail = 0;
  reserved = 0;
  opsize = 0;
  granularity = 0;
  base_31_24 = 0;
}

abbrev no_gate : Gate
no_gate = record {
  offset_15_00 = 0;
  seg_selector = 0;
  reserved4 = 0;
  reserved3 = 0;
  reserved2 = 0;
  reserved1 = 0;
  size = 0;
  reserved0 = 0;
  dpl = 0;
  present = 0;
  offset_31_16 = 0;
}

abbrev machine : Machine
machine = record {
  ldt_desc = no_desc;
  tss_desc = no_desc;
  ldt_segment_selector = 0;
  idt = λ i. no_gate;
  master_mask = 0;
  slave_mask = 0;
  kernel = fresh_kernel;
}

-- The boot loader's structure at 0x9000, with the bit for modules set and one module at 0xA000: the
-- disk with the shell, from 0x100000 on.
abbrev memory : Bytes
memory a =
    if leb 0x100000 a
    then shell_disk (a - 0x100000)
    else if a == 0x9000
    then 8
    else if a == 0x9014
    then 1
    else if a == 0x9019
    then 0xA0
    else if a == 0xA002
    then 0x10
    else 0

abbrev blank_report : Report
blank_report = record { start_fs = 0; end_fs = 0; console = machine.kernel.console }

abbrev report_or : Option (Bool × Report) → Report
report_or none = blank_report
report_or (some (b, r)) = r

abbrev shell_report : Report
shell_report = report_or (print_report memory zeros zeros 1 bootloader_magic 0x9000 blank_report)

-- The disk at that address.
abbrev image : Bytes
image i = memory (u32 (0x100000 + i))

abbrev file : Dentry
file = memcpy_dentry (entry_at image 0)
