-- ===== src/Terminal/Output.antt =====
-- What `terminal_write` of student-distrib/terminal_driver.c keeps.
use ece_391_linux_kernel_cla.Prelude.{ℕ, zero, suc, ◌+◌, ◌≡◌, refl, Bytes, pos, arith}
use ece_391_linux_kernel_cla.Console.{Console, term_of, flush}
use ece_391_linux_kernel_cla.Console.Scroll.{scroll_if_needed-scrolled}
use ece_391_linux_kernel_cla.Console.Bounds.{IsOn, putc-scroll-IsOn}
use ece_391_linux_kernel_cla.Terminal.{terminal_write, write_loop, write_byte, stdout}

write_byte-IsOn : (ch : ℕ) (c : Console) → IsOn c → IsOn (write_byte ch c)
unfolding write_byte
write_byte-IsOn ch c on = ground (arith, putc-scroll-IsOn ch c on, scroll_if_needed-scrolled c 0)

write_loop-IsOn : (k i : ℕ) (buf : Bytes) (c : Console) → IsOn c → IsOn (write_loop k i buf c)
unfolding write_loop
write_loop-IsOn zero i buf c on = on
write_loop-IsOn (suc k) i buf c on =
    write_loop-IsOn k (i + 1) buf (write_byte (buf i) c) (write_byte-IsOn (buf i) c on)

-- A write to the screen, of any bytes, with newlines and control characters among them, returns 0,
-- leaves the cursor on the screen if it was there, records it for the terminal, and drops what was
-- typed ahead.
pub terminal_write-IsOn :
    (buf : Bytes) (nbytes : ℕ) (c : Console)
    → IsOn c
    → let r = terminal_write stdout buf nbytes c in
      (r.0 ≡ pos 0)
      × IsOn r.1
      × (r.1.length_typed ≡ 0)
      × ((term_of r.1).cursor_x ≡ r.1.cursor_x)
      × ((term_of r.1).cursor_y ≡ r.1.cursor_y)
unfolding terminal_write flush
terminal_write-IsOn buf nbytes c on =
    (refl, ground (arith, write_loop-IsOn nbytes 0 buf c on), refl, ground arith, ground arith)
