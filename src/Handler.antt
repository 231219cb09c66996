-- ===== src/Handler.antt =====
-- `update_buffer_and_cursor` of student-distrib/keyboard_driver.c, the whole handler of the keyboard's
-- interrupt. Its static variable `term_count` is counted and never read.
pub mod Typing
pub mod Controls
mod Tests
use ece_391_linux_kernel_cla.Prelude.{
  ℕ, zero, suc, ◌+◌, Bool, true, false, ◌&&◌, ◌||◌, ◌==◌, ◌!=◌, leb, if◌then◌else◌, Option, none,
  some, List, [], ◌∷◌, Bytes, literal, bit_and,
}
use ece_391_linux_kernel_cla.Clib.{strlen}
use ece_391_linux_kernel_cla.Console.{Console, putc, scroll_if_needed, flush, clear_screen}
use ece_391_linux_kernel_cla.Io.{Device, inb}
use ece_391_linux_kernel_cla.Keyboard.{press}
use ece_391_linux_kernel_cla.Pic.{send_eoi}
use ece_391_linux_kernel_cla.Syscalls.{Kernel}
use ece_391_linux_kernel_cla.Syscalls.Execute.{Outcome, fault, returned, entered, resumed, Frame}
use ece_391_linux_kernel_cla.Syscalls.Slots.{max_processes, max_processes_dec}
use ece_391_linux_kernel_cla.Syscalls.Switch.{calc_processes, switch_to_other_term}

-- How the handler ends: it returns, or a switch of the terminal takes the processor elsewhere.
pub data Handled : Type 0 where
  done : Kernel → Handled
  gone : Outcome → Handled

-- What the handler meets: the device, the stack of a call of `execute`, the registers of its own
-- stack, what the two calls of `calc_processes` find in their counters, and the memory behind the
-- tables of characters.
pub record Interrupt : Type 0 where
  pub device : Device
  pub frame : Frame
  pub esp : ℕ
  pub ebp : ℕ
  pub first_count : ℕ
  pub second_count : ℕ
  pub beyond : Bytes

abbrev pub keyboard_data_port : ℕ
keyboard_data_port = 0x60

abbrev pub release : ℕ
release = 0x80

abbrev pub l_shift_p : ℕ
l_shift_p = 0xAA

abbrev pub r_shift_p : ℕ
r_shift_p = 0xB6

abbrev pub release_l : ℕ
release_l = 0xA6

abbrev pub release_1 : ℕ
release_1 = 0x82

abbrev pub release_2 : ℕ
release_2 = 0x83

abbrev pub release_3 : ℕ
release_3 = 0x84

abbrev pub f3 : ℕ
f3 = 0x3D

abbrev pub on_console : (Console → Console) → Kernel → Kernel
on_console f k = record k { console = f (k.console) }

-- `label1`: the end of the interrupt.
abbrev pub end_interrupt : Console → Console
end_interrupt c = record c { io = send_eoi 1 c.io }

-- The end of the branch for a key that is released.
abbrev pub end_release : Console → Console
end_release c = end_interrupt (record c { ctrl_pressed = 0 })

-- Control and a digit. The two jumps to `label1` pass over `ctrl_pressed = 0`.
unfoldable pub switch_key : Interrupt → ℕ → Kernel → Handled
switch_key w term k =
    if k.console.current_terminal == term
    then done (on_console end_interrupt k)
    else if (calc_processes w.first_count (k.processes) == max_processes_dec)
        || (calc_processes w.second_count (k.processes) == 5)
    then done (on_console end_interrupt k)
    else elim (switch_to_other_term w.device w.frame term w.esp w.ebp k) [
      | fault ↦ gone fault
      | returned r k' ↦ done (on_console end_release k')
      | entered eip k' ↦ gone (entered eip k')
      | resumed esp ebp k' ↦ gone (resumed esp ebp k')
    ]

unfoldable pub release_key : Interrupt → ℕ → Kernel → Handled
release_key w scancode k =
    let c = k.console in
    if (c.shift_flag != 0) && ((scancode == l_shift_p) || (scancode == r_shift_p))
    then done (on_console end_release (record k { console = record c { shift_flag = 0 } }))
    else if (scancode == release_l) && (c.ctrl_pressed == 1)
    then done (on_console end_release (record k { console = clear_screen (flush c) }))
    else if (c.ctrl_pressed == 1) && (scancode == release_1)
    then switch_key w 0 k
    else if (c.ctrl_pressed == 1) && (scancode == release_2)
    then switch_key w 1 k
    else if (c.ctrl_pressed == 1) && (scancode == release_3)
    then switch_key w 2 k
    else done (on_console end_release k)

abbrev pub warning_msg : Bytes
warning_msg =
    literal
      "Max number of processes reached OR Five processes are currently running which means the\n second terminal cannot running another process\n "

-- The loop over the message, with `n` characters left.
unfoldable pub warn_loop : ℕ → ℕ → Bytes → Console → Console
warn_loop zero char_idx msg c = c
warn_loop (suc n) char_idx msg c =
    warn_loop n (char_idx + 1) msg
      (scroll_if_needed (if leb 32 (msg char_idx) then putc (msg char_idx) c else c))

-- Control and F3. Two of the branches return before the end of the interrupt is signalled.
unfoldable pub f3_key : Kernel → Handled
f3_key k =
    if k.console.current_terminal == 3
    then done k
    else if (max_processes == k.processes) || (31 == k.processes)
    then elim (strlen warning_msg) [
      | none ↦ gone fault
      | some n ↦ done (on_console (warn_loop n 0 warning_msg) k)
    ]
    else done (on_console end_interrupt k)

unfoldable pub update_buffer_and_cursor : Interrupt → Kernel → Handled
update_buffer_and_cursor w k =
    let scancode = inb w.device keyboard_data_port (k.console.io) in
    if bit_and scancode release != 0
    then release_key w scancode k
    else if (scancode == f3) && (k.console.ctrl_pressed == 1)
    then f3_key k
    else if k.console.ctrl_pressed == 0
    then done (on_console (λ c. end_interrupt (press w.beyond scancode c)) k)
    else done (on_console end_interrupt k)

-- A key that gives `scancode`.
abbrev pub key : ℕ → Interrupt → Interrupt
key scancode w = record w { device = λ log port. scancode }

-- One interrupt after the other, with nothing in between.
unfoldable pub press_all : Interrupt → List ℕ → Kernel → Handled
press_all w [] k = done k
press_all w (s ∷ ss) k = elim (update_buffer_and_cursor (key s w) k) [
  | gone o ↦ gone o
  | done k' ↦ press_all w ss k'
]
