-- ===== src/Idt.antt =====
-- The interrupt descriptor table of student-distrib/idt.c. The handlers are code; where the linker
-- puts each of them is a parameter.
pub mod Gates
mod Tests
use ece_391_linux_kernel_cla.Prelude.{
  ℕ, zero, suc, ◌+◌, ◌*◌, ◌/◌, ◌^◌, Bool, ◌||◌, ltb, ◌==◌, ◌!=◌, if◌then◌else◌, List, [], ◌∷◌,
  bit_and,
}

pub data Handler : Type 0 where
  undefined_interrupt divide_by_zero debug_exception non_maskable_interrupt breakpoint : Handler
  overflow bound_range_exceeded invalid_opcode device_not_available double_fault : Handler
  coprocessor_segment_overrun invalid_tss stack_segment_fault segment_not_present : Handler
  general_protection_fault page_fault floating_point alignment_check machine_check : Handler
  simd_floating_point keyboard_handler rtc_test_handler syscall_handler : Handler

-- `idt_desc_t`
pub record Gate : Type 0 where
  pub offset_15_00 : ℕ
  pub seg_selector : ℕ
  pub reserved4 : ℕ
  pub reserved3 : ℕ
  pub reserved2 : ℕ
  pub reserved1 : ℕ
  pub size : ℕ
  pub reserved0 : ℕ
  pub dpl : ℕ
  pub present : ℕ
  pub offset_31_16 : ℕ

abbrev pub kernel_cs : ℕ
kernel_cs = 0x10

abbrev pub system_call_index : ℕ
system_call_index = 0x80

abbrev pub total_exceptions : ℕ
total_exceptions = 32

-- `SET_IDT_ENTRY`
pub set_idt_entry : ℕ → Gate → Gate
set_idt_entry address g = record g {
  offset_31_16 = bit_and address 0xFFFF0000 / 2 ^ 16;
  offset_15_00 = bit_and address 0xFFFF;
}

module _ (address : Handler → ℕ) where
  -- The body of the loop at `idt_i`.
  pub init_gate : ℕ → Gate → Gate
  init_gate idt_i g =
      let common = record g {
        present = 1;
        dpl = if idt_i != system_call_index then 0 else 3;
        reserved0 = 0;
        reserved1 = 1;
        reserved2 = 1;
        reserved3 = 1;
        reserved4 = 0;
        size = 1;
        seg_selector = kernel_cs;
      } in
      if ltb idt_i total_exceptions || (idt_i == 0x28)
      then record common { reserved0 = 0 }
      else set_idt_entry (address undefined_interrupt) (record common { reserved3 = 0 })

  -- The loop, with `k` entries left.
  pub init_loop : ℕ → ℕ → (ℕ → Gate) → ℕ → Gate
  init_loop zero idt_i idt = idt
  init_loop (suc k) idt_i idt =
      init_loop k (idt_i + 1) (λ j. if j == idt_i then init_gate idt_i (idt idt_i) else idt j)

  -- The entries set behind the loop, in order.
  pub set_entries : List (ℕ × Handler) → (ℕ → Gate) → ℕ → Gate
  set_entries [] idt = idt
  set_entries ((n, h) ∷ rest) idt =
      set_entries rest (λ j. if j == n then set_idt_entry (address h) (idt n) else idt j)

abbrev pub handlers : List (ℕ × Handler)
handlers =
    (0x00, divide_by_zero)
    ∷ (0x01, debug_exception)
    ∷ (0x02, non_maskable_interrupt)
    ∷ (0x03, breakpoint)
    ∷ (0x04, overflow)
    ∷ (0x05, bound_range_exceeded)
    ∷ (0x06, invalid_opcode)
    ∷ (0x07, device_not_available)
    ∷ (0x08, double_fault)
    ∷ (0x09, coprocessor_segment_overrun)
    ∷ (0x0A, invalid_tss)
    ∷ (0x0B, stack_segment_fault)
    ∷ (0x0C, segment_not_present)
    ∷ (0x0D, general_protection_fault)
    ∷ (0x0E, page_fault)
    ∷ (0x0F, floating_point)
    ∷ (0x10, alignment_check)
    ∷ (0x11, machine_check)
    ∷ (0x12, simd_floating_point)
    ∷ (0x21, keyboard_handler)
    ∷ (0x28, rtc_test_handler)
    ∷ (0x80, syscall_handler)
    ∷ []

unfoldable pub initialize_idt : (Handler → ℕ) → (ℕ → Gate) → ℕ → Gate
initialize_idt address idt = set_entries address handlers (init_loop address 256 0 idt)
