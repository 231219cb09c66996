-- ===== src/Syscalls/Switch.antt =====
-- `vidmap`, the calls that are not supported, `calc_processes` and `switch_to_other_term` of
-- student-distrib/syscalls.c. A terminal is known by its index in `terms`. `esp_store` and
-- `ebp_store`, which each switch writes before it reads them, are values in passing.
pub mod Saved
pub mod Limits
mod Tests
use ece_391_linux_kernel_cla.Prelude.{
  ℕ, zero, suc, ◌+◌, ◌*◌, Bool, true, false, ◌&&◌, Option, none, some, ℤ, pos, minus_one, Bytes,
  store, literal, u8, u32, ◌==◌, ◌!=◌, ltb, leb, if◌then◌else◌, bit_and,
}
use ece_391_linux_kernel_cla.Clib.Memory.{copy}
use ece_391_linux_kernel_cla.Console.{
  Console, Term, line_size, term_of, put_term, clear_screen, move_cursor_to,
}
use ece_391_linux_kernel_cla.Io.{Device}
use ece_391_linux_kernel_cla.Paging.{load_new_process, load_video_mem}
use ece_391_linux_kernel_cla.Pic.{send_eoi}
use ece_391_linux_kernel_cla.Syscalls.{Kernel, Pcb, running_pcb}
use ece_391_linux_kernel_cla.Syscalls.Execute.{Outcome, fault, resumed, Frame, execute}

abbrev pub one_twenty_eight_mb : ℕ
one_twenty_eight_mb = 134217728

abbrev pub one_thirty_two_mb : ℕ
one_thirty_two_mb = 138412032

-- The result, what goes to the place `screen_start` if anything does, and the kernel.
unfoldable pub vidmap : ℕ → ℕ → Kernel → ℤ × Option ℕ × Kernel
vidmap v_m_page_table screen_start k =
    if leb one_twenty_eight_mb screen_start && ltb screen_start one_thirty_two_mb
    then (
      pos one_thirty_two_mb,
      some one_thirty_two_mb,
      record k { tables = load_video_mem v_m_page_table 0 (k.tables) },
    )
    else (minus_one, none, k)

unfoldable pub set_handler : ℕ → ℕ → ℤ
set_handler signum handler_address = minus_one

unfoldable pub sigreturn : ℤ
sigreturn = minus_one

unfoldable pub closed_open : Bytes → ℤ
closed_open filename = minus_one

unfoldable pub closed_close : ℕ → ℤ
closed_close fd = minus_one

unfoldable pub closed_read : ℕ → Bytes → ℕ → ℤ
closed_read fd buf nbytes = minus_one

unfoldable pub closed_write : ℕ → Bytes → ℕ → ℤ
closed_write fd buf nbytes = minus_one

-- The loop of `calc_processes` with `n` rounds left. The mask is not shifted.
unfoldable pub calc_loop : ℕ → ℕ → ℕ → ℕ
calc_loop zero processes process_count = process_count
calc_loop (suc n) processes process_count =
    calc_loop n processes
      (if u8 (bit_and processes 1) != 0 then u32 (process_count + 1) else process_count)

-- `process_count` starts with what lies on the stack.
unfoldable pub calc_processes : ℕ → ℕ → ℕ
calc_processes garbage processes = calc_loop 6 processes garbage

abbrev pub screen_bytes : ℕ
screen_bytes = 4000

-- The terminal that is left, with the registers of the stack in use.
unfoldable pub save_term : ℕ → ℕ → Kernel → Term
save_term esp ebp k =
    let t = term_of k.console in
    record t {
      vid_mem = copy t.vid_mem 0 (k.console.video) screen_bytes;
      keyboard_buffer = copy t.keyboard_buffer 0 (k.console.input_buffer) line_size;
      cursor_x = k.console.cursor_x;
      cursor_y = k.console.cursor_y;
      current_esp = esp;
      current_ebp = ebp;
      esp0 = k.esp0;
    }

-- The screen, the line and the cursor of the current terminal come back.
unfoldable pub restore_screen : Console → Console
restore_screen c =
    let t = term_of c in
    move_cursor_to t.cursor_x t.cursor_y (record c {
      video = copy c.video 0 t.vid_mem screen_bytes;
      input_buffer = copy c.input_buffer 0 t.keyboard_buffer line_size;
      cursor_x = t.cursor_x;
      cursor_y = t.cursor_y;
    })

-- The state is saved, the end of the interrupt signalled, and `current_terminal` set.
unfoldable pub leave_term : ℕ → ℕ → ℕ → Kernel → Kernel
leave_term term esp ebp k =
    let c = put_term (save_term esp ebp k) (k.console) in
    record k { console = record c { io = send_eoi 1 c.io; current_terminal = term } }

-- The state of the current terminal comes back, with the image and the stack of its process.
unfoldable pub enter_term : Kernel → Outcome
enter_term k = elim (running_pcb k) [
  | none ↦ fault
  | some q ↦
      let t = term_of k.console in
      resumed t.current_esp t.current_ebp (record k {
        console = restore_screen (k.console);
        tables = load_new_process (k.pcbs q).process_num (k.tables);
        esp0 = t.esp0;
      })
]

-- A terminal that is seen for the first time gets a clear screen and a shell.
unfoldable pub open_term : Device → Frame → ℕ → ℕ → ℕ → Kernel → Outcome
open_term device fr term esp ebp k =
    let c = clear_screen (put_term (save_term esp ebp k) (k.console)) in
    execute device fr (some (literal "shell"))
      (record k { console = record c { io = send_eoi 1 c.io; current_terminal = term } })

unfoldable pub switch_to_other_term : Device → Frame → ℕ → ℕ → ℕ → Kernel → Outcome
switch_to_other_term device fr term esp ebp k =
    if (k.console.terms term).been_here != 1
    then open_term device fr term esp ebp k
    else enter_term (leave_term term esp ebp k)
