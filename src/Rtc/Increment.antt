-- ===== src/Rtc/Increment.antt =====
-- `test_interrupts` of student-distrib/lib.c, which shows on the screen that the clock ticks.
use ece_391_linux_kernel_cla.Prelude.{
  ℕ, zero, suc, ◌+◌, ◌*◌, Option, none, some, Bytes, store, u8, literal,
}
use ece_391_linux_kernel_cla.Console.{Console, num_rows, num_cols}
use ece_391_linux_kernel_cla.Io.{outb}
use ece_391_linux_kernel_cla.Pic.{send_eoi}
use ece_391_linux_kernel_cla.Printf.{printf}

-- `for (i=0; i < NUM_ROWS*NUM_COLS; i++)` with `k` rounds left.
unfoldable pub increment_loop : ℕ → ℕ → Bytes → Bytes
increment_loop zero i video = video
increment_loop (suc k) i video =
    increment_loop k (i + 1) (store video (i * 2) (u8 (video (i * 2) + 1)))

-- What register C of the clock holds is read and thrown away.
unfoldable pub test_interrupts : (ℕ → ℕ) → Bytes → Bytes → Console → Option Console
unfolding increment_loop
test_interrupts stack memory conv_buf c =
    elim (printf stack memory conv_buf (literal "Test_interrupts called!") c) [
      | none ↦ none
      | some (n, d) ↦ some (record d {
        video = increment_loop (num_rows * num_cols) 0 d.video;
        io = outb 0x0C 0x70 (send_eoi 8 d.io);
      })
    ]
