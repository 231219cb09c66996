-- ===== src/Programs/Pingpong.antt =====
-- syscalls/ece391pingpong.c: a letter goes to and fro between two walls. Its macros are text:
-- `BUFMAX-1` is `79+2-1`, `LOOPMAX` is `79+2-2-1`.
use ece_391_linux_kernel_cla.Prelude.{
  ℕ, zero, suc, ◌+◌, ◌-◌, ℤ, pos, Bytes, store, u8, literal, ◌==◌, if◌then◌else◌,
}
use ece_391_linux_kernel_cla.Clib.Memory.{fill}
use ece_391_linux_kernel_cla.Programs.{Program, Calls, pure, ◌>>=◌, ◌>>◌, ece391_fdputs}

abbrev pub loop_start : ℕ
loop_start = 2

abbrev pub loop_max : ℕ
loop_max = 78

-- The buffer with its walls, a newline and the NUL.
unfoldable pub walls : Bytes → Bytes
walls buf = store (store (store (store (fill buf 0 32 81) 80 0) 79 10) 78 124) 1 124

-- The letter at `j`, with the space between the walls cleared.
unfoldable pub draw : ℕ → ℕ → Bytes → Bytes
draw curchar j buf = store (fill buf loop_start 32 (loop_max - loop_start)) j curchar

unfoldable pub next_char : ℕ → ℕ
next_char curchar = if curchar == 90 then 65 else u8 (curchar + 1)

-- `ret_val`, the word 32, in memory.
abbrev pub rate_word : Bytes
rate_word i = if i == 0 then 32 else 0

module _ {S : Type 0} (calls : Calls S) (rtc_fd : ℤ) (garbage : Bytes) where
  -- One picture, and the wait for the clock.
  unfoldable pub show_at : ℕ → ℕ → Bytes → Program S Bytes
  unfolding draw
  show_at curchar j buf = do
    ece391_fdputs calls (pos 1) (draw curchar j buf)
    _ ← calls.ece391_read rtc_fd garbage (pos 4)
    pure (draw curchar j buf)

  -- `for(j = STARTLOOP; j < LOOPMAX; j++)`, with `k` rounds left.
  unfoldable pub move_out : ℕ → ℕ → ℕ → Bytes → Program S Bytes
  unfolding show_at
  move_out zero j curchar buf = pure buf
  move_out (suc k) j curchar buf = do
    shown ← show_at curchar j buf
    move_out k (j + 1) curchar shown

  -- `for(j = LOOPMAX - 1; j >= STARTLOOP; j--)`, with `k` rounds left.
  unfoldable pub bounce_back : ℕ → ℕ → ℕ → Bytes → Program S Bytes
  unfolding show_at
  bounce_back zero j curchar buf = pure buf
  bounce_back (suc k) j curchar buf = do
    shown ← show_at curchar j buf
    bounce_back k (j - 1) curchar shown

  -- `while(1)`: `rounds` of the loop, which has no end; the letter then, and the buffer.
  unfoldable pub pingpong_loop : ℕ → ℕ → Bytes → Program S (ℕ × Bytes)
  unfolding move_out bounce_back next_char
  pingpong_loop zero curchar buf = pure (curchar, buf)
  pingpong_loop (suc rounds) curchar buf = do
    out ← move_out (loop_max - loop_start) loop_start curchar buf
    back ← bounce_back (loop_max - loop_start) (loop_max - 1) curchar out
    pingpong_loop rounds (next_char curchar) back

-- What happens in the first `rounds` rounds.
unfoldable pub pingpong_main : {S : Type 0} → Calls S → Bytes → Bytes → ℕ → Program S (ℕ × Bytes)
unfolding pingpong_loop walls
pingpong_main calls garbage buf rounds = do
  rtc_fd ← calls.ece391_open (literal "rtc")
  _ ← calls.ece391_write rtc_fd rate_word (pos 4)
  pingpong_loop calls rtc_fd garbage rounds 65 (walls buf)
