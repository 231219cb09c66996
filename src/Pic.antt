-- ===== src/Pic.antt =====
-- The interrupt controllers of student-distrib/i8259.c: the mask of each of the two chips, and what
-- is written to their ports.
pub mod Initialized
pub mod Masks
mod Tests
use ece_391_linux_kernel_cla.Prelude.{
  ℕ, ◌+◌, ◌-◌, ◌^◌, Bool, ltb, leb, if◌then◌else◌, u8, bit_xor, bit_or, Option, none, some, Bytes,
  literal,
}
use ece_391_linux_kernel_cla.Console.{Console}
use ece_391_linux_kernel_cla.Io.{Io, outb}
use ece_391_linux_kernel_cla.Printf.{printf}

pub record Pic : Type 0 where
  pub master_mask : ℕ
  pub slave_mask : ℕ
  pub io : Io

abbrev pub master_8259_port : ℕ
master_8259_port = 0x20

abbrev pub slave_8259_port : ℕ
slave_8259_port = 0xA0

abbrev pub slave_irq_num : ℕ
slave_irq_num = 2

-- The eight initialization words, in order, and all lines masked.
unfoldable pub send_words : Pic → Pic
send_words s = record s {
  master_mask = 0xFF;
  slave_mask = 0xFF;
  io = outb 0x01 (slave_8259_port + 1) (
      outb 0x01 (master_8259_port + 1) (
        outb 0x02 (slave_8259_port + 1) (
          outb 0x04 (master_8259_port + 1) (
            outb 0x28 (slave_8259_port + 1) (
              outb 0x20 (master_8259_port + 1)
                (outb 0x11 slave_8259_port (outb 0x11 master_8259_port s.io)))))));
}

abbrev pub initialized : Bytes
initialized = literal "8259 INITIALIZED\n"

-- The words, and a message on the screen: `printf` with these words behind the format.
unfoldable pub i8259_init : (ℕ → ℕ) → Bytes → Bytes → Pic → Console → Option (Pic × Console)
unfolding send_words
i8259_init stack memory conv_buf s c =
    let t = send_words s in
    elim (printf stack memory conv_buf initialized (record c { io = t.io })) [
      | none ↦ none
      | some (n, d) ↦ some (record t { io = d.io }, d)
    ]

-- Both masks, written to the chips.
write_masks : Pic → Pic
write_masks s = record s {
  io = outb s.slave_mask (slave_8259_port + 1) (outb s.master_mask (master_8259_port + 1) s.io);
}

-- `enable_irq` of a line of the master chip.
enable_master : ℕ → Pic → Pic
enable_master irq s = write_masks (record s { master_mask = u8 (bit_xor (2 ^ irq) s.master_mask) })

-- A line of the slave chip calls `enable_irq(SLAVE_IRQ_NUM)`, a line of the master chip.
unfoldable pub enable_irq : ℕ → Pic → Pic
unfolding enable_master write_masks
enable_irq irq s =
    if ltb 15 irq
    then s
    else if leb irq 7
    then enable_master irq s
    else write_masks (
        enable_master slave_irq_num
          (record s { slave_mask = u8 (bit_xor (2 ^ (irq - 8)) s.slave_mask) }))

-- `disable_irq` has an empty body.
unfoldable pub disable_irq : ℕ → Pic → Pic
disable_irq irq s = s

unfoldable pub send_eoi : ℕ → Io → Io
send_eoi irq io =
    if leb 8 irq
    then outb (bit_or 0x60 2) master_8259_port (outb (bit_or 0x60 (irq - 8)) slave_8259_port io)
    else outb (bit_or 0x60 irq) master_8259_port io
