-- ===== src/Terminal.antt =====
-- The terminal driver, student-distrib/terminal_driver.c, over the console. The interrupts that come
-- while `terminal_read` spins are a list of events, each of them a change of the console.
pub mod Output
pub mod Input
pub mod Shown
mod Tests
use ece_391_linux_kernel_cla.Prelude.{
  ℕ, zero, suc, ◌+◌, Bool, true, false, ◌||◌, Option, none, some, List, [], ◌∷◌, ℤ, pos, minus_one,
  Bytes, store, ◌==◌, ◌!=◌, ltb, leb, if◌then◌else◌,
}
use ece_391_linux_kernel_cla.Clib.{strlen}
use ece_391_linux_kernel_cla.Clib.Memory.{fill, copy}
use ece_391_linux_kernel_cla.Io.{sti}
use ece_391_linux_kernel_cla.Console.{
  Console, term_of, put_term, newline, putc, scroll_if_needed, move_cursor_to, clear, flush,
}

abbrev pub stdin : ℕ
stdin = 0

abbrev pub stdout : ℕ
stdout = 1

unfoldable pub initialize_terminal : Console → Console
unfolding clear move_cursor_to
initialize_terminal c =
    clear (move_cursor_to 0 0 (record c { cursor_x = 0; cursor_y = 0; length_typed = 0 }))

unfoldable pub terminal_open : ℤ
terminal_open = pos 0

unfoldable pub terminal_close : ℤ
terminal_close = pos 0

-- One round of the loop of `terminal_write`. NUL is skipped, other control characters are not shown.
pub write_byte : ℕ → Console → Console
write_byte ch c =
    if ch == 0 then c else scroll_if_needed (if leb 32 ch || (ch == newline) then putc ch c else c)

-- The loop, with `k` bytes left.
unfoldable pub write_loop : ℕ → ℕ → Bytes → Console → Console
write_loop zero i buf c = c
write_loop (suc k) i buf c = write_loop k (i + 1) buf (write_byte (buf i) c)

unfoldable pub terminal_write : ℕ → Bytes → ℕ → Console → ℤ × Console
unfolding write_loop write_byte
terminal_write fd buf nbytes c =
    if fd != stdout
    then (minus_one, c)
    else (let d = flush (write_loop nbytes 0 buf c) in
        (pos 0, put_term (record (term_of d) { cursor_x = d.cursor_x; cursor_y = d.cursor_y }) d))

-- `while(can_read != 1)`: interrupts are taken until the flag is seen. `none` if they run out.
unfoldable pub wait : List (Console → Console) → Console → Option Console
wait [] c = if c.can_read == 1 then some c else none
wait (e ∷ rest) c = if c.can_read == 1 then some c else wait rest (e c)

-- What follows the wait: the line goes to the buffer, cut by a test of `length_typed`.
-- With 128 characters the newline is stored behind the 128 bytes of `temp_buffer`, in a cell that only
-- this copy reads.
unfoldable pub deliver : Bytes → ℕ → Console → Bytes × Console
deliver buf nbytes c =
    let temp = store c.temp_buffer c.old_length_typed newline in
    let n = if ltb (c.length_typed + 1) nbytes then c.old_length_typed + 1 else nbytes in
    (copy buf 0 temp n, flush (record c { temp_buffer = temp; can_read = 0 }))

-- The count, the buffer and the console; `none` where the call does not return.
unfoldable pub terminal_read :
    List (Console → Console) → ℕ → Bytes → ℕ → Console → Option (ℤ × Bytes × Console)
unfolding deliver wait
terminal_read events fd buf nbytes c =
    if fd != stdin
    then some (minus_one, buf, c)
    else elim (wait events (record c { io = sti (c.io) })) [
      | none ↦ none
      | some d ↦
          let (out, d') = deliver (fill buf 0 0 nbytes) nbytes d in
          elim (strlen out) [ none ↦ none | some n ↦ some (pos n, out, d') ]
    ]
