-- ===== src/Idt/Tests.antt =====
-- Uses of the theorems on the interrupt descriptor table, with all handlers at one address.
use ece_391_linux_kernel_cla.Prelude.{ℕ, arith}
use ece_391_linux_kernel_cla.Idt.{Handler, Gate, initialize_idt}
use ece_391_linux_kernel_cla.Idt.Gates.{IsGate, initialize_idt-IsGate}

abbrev address : Handler → ℕ
address h = 0x400100

abbrev empty : ℕ → Gate
empty i = record {
  offset_15_00 = 0;
  seg_selector = 0;
  reserved4 = 0;
  reserved3 = 0;
  reserved2 = 0;
  reserved1 = 0;
  size = 0;
  reserved0 = 0;
  dpl = 0;
  present = 0;
  offset_31_16 = 0;
}

initialize_idt-IsGate_example : IsGate address 0x80 (initialize_idt address empty 0x80)
initialize_idt-IsGate_example = initialize_idt-IsGate address empty 0x80 (omega arith)
