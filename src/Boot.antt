-- ===== src/Boot.antt =====
-- The second half of `entry` of student-distrib/kernel.c, from the descriptors on, with the macros of
-- student-distrib/x86_desc.h that fill them in. What precedes, the report of what the boot loader
-- has found, and `entry` as a whole are in Boot/Report. `terms[i].vid_mem` are addresses; a
-- terminal here holds the bytes at that address.
pub mod Descriptor
pub mod FirstShell
pub mod Report
mod Tests
use ece_391_linux_kernel_cla.Prelude.{ℕ, ◌/◌, ◌^◌, Option, none, some, Bytes, literal, bit_and}
use ece_391_linux_kernel_cla.Console.{Console, clear}
use ece_391_linux_kernel_cla.Idt.{Gate, Handler, initialize_idt}
use ece_391_linux_kernel_cla.Io.{Io, Device, sti}
use ece_391_linux_kernel_cla.Paging.{enable_paging}
use ece_391_linux_kernel_cla.Pic.{Pic, i8259_init, enable_irq}
use ece_391_linux_kernel_cla.Syscalls.{Kernel}
use ece_391_linux_kernel_cla.Syscalls.Execute.{Outcome, fault, Frame, execute, kernel_ds}
use ece_391_linux_kernel_cla.Terminal.{initialize_terminal}

-- `seg_desc_t`
pub record SegDesc : Type 0 where
  pub seg_lim_15_00 : ℕ
  pub base_15_00 : ℕ
  pub base_23_16 : ℕ
  pub kind : ℕ
  pub sys : ℕ
  pub dpl : ℕ
  pub present : ℕ
  pub seg_lim_19_16 : ℕ
  pub avail : ℕ
  pub reserved : ℕ
  pub opsize : ℕ
  pub granularity : ℕ
  pub base_31_24 : ℕ

-- `SET_LDT_PARAMS` and `SET_TSS_PARAMS`, which are the same.
unfoldable pub set_params : ℕ → ℕ → SegDesc → SegDesc
set_params addr lim d = record d {
  base_31_24 = bit_and addr 0xFF000000 / 2 ^ 24;
  base_23_16 = bit_and addr 0x00FF0000 / 2 ^ 16;
  base_15_00 = bit_and addr 0x0000FFFF;
  seg_lim_19_16 = bit_and lim 0x000F0000 / 2 ^ 16;
  seg_lim_15_00 = bit_and lim 0x0000FFFF;
}

-- `the_ldt_desc`, whose uninitialised fields are those of `d`.
unfoldable pub the_ldt_desc : SegDesc → SegDesc
the_ldt_desc d = record d {
  granularity = 0;
  opsize = 1;
  reserved = 0;
  avail = 0;
  present = 1;
  dpl = 0;
  sys = 0;
  kind = 2;
}

-- `the_tss_desc`
unfoldable pub the_tss_desc : SegDesc → SegDesc
the_tss_desc d = record d {
  granularity = 0;
  opsize = 0;
  reserved = 0;
  avail = 0;
  present = 1;
  dpl = 0;
  sys = 0;
  kind = 9;
}

-- Where the assembler and the linker put things, and how large they are.
pub record Layout : Type 0 where
  pub handler : Handler → ℕ
  pub page_table : ℕ
  pub ldt : ℕ
  pub ldt_size : ℕ
  pub tss : ℕ
  pub tss_size : ℕ

pub record Machine : Type 0 where
  pub ldt_desc : SegDesc
  pub tss_desc : SegDesc
  pub ldt_segment_selector : ℕ
  pub idt : ℕ → Gate
  pub master_mask : ℕ
  pub slave_mask : ℕ
  pub kernel : Kernel

abbrev pub kernel_ldt : ℕ
kernel_ldt = 0x38

-- The two descriptors, and the fields of the task state segment.
unfoldable pub set_descriptors : Layout → SegDesc → SegDesc → Machine → Machine
set_descriptors l d e m = record m {
  ldt_desc = set_params l.ldt l.ldt_size (the_ldt_desc d);
  tss_desc = set_params l.tss l.tss_size (the_tss_desc e);
  ldt_segment_selector = kernel_ldt;
  kernel = record (m.kernel) { ss0 = kernel_ds; esp0 = 0x800000 };
}

-- The three calls on the interrupt controllers, with what `printf` finds.
unfoldable pub set_pic : (ℕ → ℕ) → Bytes → Bytes → Machine → Option (Pic × Console)
set_pic stack memory conv_buf m =
    let s : Pic = record {
      master_mask = m.master_mask;
      slave_mask = m.slave_mask;
      io = m.kernel.console.io;
    } in
    elim (i8259_init stack memory conv_buf s (m.kernel.console)) [
      | none ↦ none
      | some (pic, c) ↦ some (enable_irq 8 (enable_irq 1 pic), c)
    ]

-- The console before the first shell: cleared, with interrupts enabled, and terminal 0 shown.
unfoldable pub first_console : Io → Console → Console
first_console io c =
    let cleared = clear (record c { io = io }) in
    let ready = initialize_terminal (record cleared { io = sti (cleared.io) }) in
    record ready { current_terminal = 0 }

-- Everything from the descriptors up to `execute`.
unfoldable pub set_up :
    (ℕ → ℕ) → Bytes → Bytes → Layout → SegDesc → SegDesc → Machine → Option Machine
set_up stack memory conv_buf l d e m =
    let m₁ = set_descriptors l d e m in
    elim (set_pic stack memory conv_buf m₁) [
      | none ↦ none
      | some (pic, c) ↦ some (record m₁ {
        idt = initialize_idt l.handler m₁.idt;
        master_mask = pic.master_mask;
        slave_mask = pic.slave_mask;
        kernel = record (m₁.kernel) {
          console = first_console pic.io c;
          tables = enable_paging l.page_table (m₁.kernel.tables);
        };
      })
    ]

-- The second half of `entry`: the machine but for its kernel, and the first shell.
unfoldable pub start_system :
    Device
    → Frame
    → (ℕ → ℕ)
    → Bytes
    → Bytes
    → Layout
    → SegDesc
    → SegDesc
    → Machine
    → Machine × Outcome
start_system device fr stack memory conv_buf l d e m = elim (set_up stack memory conv_buf l d e m) [
  | none ↦ (m, fault)
  | some m₁ ↦ (m₁, execute device fr (some (literal "shell")) (m₁.kernel))
]
