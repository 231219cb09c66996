-- ===== src/Terminal/Input.antt =====
-- What `terminal_read` of student-distrib/terminal_driver.c delivers.
use ece_391_linux_kernel_cla.Prelude.{
  ℕ, ◌+◌, ◌≤◌, ◌<◌, ◌≡◌, ◌≢◌, refl, ◌∙◌, true, some, [], Bytes, pos, ◌==◌, ltb, if◌then◌else◌,
  IsString, u32_mod, arith,
}
use ece_391_linux_kernel_cla.Clib.Memory.{fill}
use ece_391_linux_kernel_cla.Clib.Strings.{strlen-IsString}
use ece_391_linux_kernel_cla.Console.{Console, newline, flush}
use ece_391_linux_kernel_cla.Io.{sti}
use ece_391_linux_kernel_cla.Terminal.{terminal_read, deliver, stdin}

-- A line of `n` bytes, none of them NUL, waits in `temp_buffer`.
pub record HoldsLine (c : Console) (n : ℕ) : Type 0 where
  pub ready : c.can_read ≡ 1
  pub count : c.old_length_typed ≡ n
  pub body : (i : ℕ) → i < n → c.temp_buffer i ≢ 0

-- The line and a newline, zeros up to `nbytes`, then the buffer as it was.
abbrev pub line : Console → ℕ → Bytes → ℕ → ℕ → ℕ
line c n buf nbytes j =
    if ltb j n
    then c.temp_buffer j
    else if j == n
    then newline
    else if ltb j nbytes
    then 0
    else buf j

module _ (buf : Bytes) (nbytes n : ℕ) (c : Console) (held : HoldsLine c n) where
  abbrev delivered : Bytes
  delivered = (deliver (fill buf 0 0 nbytes) nbytes c).0

  delivered-line :
      n + 1 < nbytes → c.length_typed + 1 < nbytes → (j : ℕ) → delivered j ≡ line c n buf nbytes j
  unfolding deliver
  delivered-line h k j = ground (arith, held.count)

  delivered-IsString : n + 1 < nbytes → c.length_typed + 1 < nbytes → IsString delivered (n + 1)
  delivered-IsString h k = record {
    body = λ i lt. ground (arith, delivered-line h k i, held.body i);
    stop = delivered-line h k (n + 1) ∙ ground arith;
  }

  -- With a line of `n` bytes ready, room for it and a newline and one byte more in the buffer, and
  -- `length_typed + 1 < nbytes`, `terminal_read` returns `n + 1`, delivers the line, a newline and
  -- zeros, and writes nothing behind the `nbytes` cells of the buffer. The flag and the length of
  -- the line are 0 afterwards.
  pub terminal_read-line :
      n + 1 < nbytes
      → c.length_typed + 1 < nbytes
      → nbytes < u32_mod
      → (out : Bytes) × (c' : Console) × (terminal_read [] stdin buf nbytes c
          ≡ some (pos (n + 1), out, c'))
        × ((j : ℕ) → out j ≡ line c n buf nbytes j)
        × (c'.can_read ≡ 0)
        × (c'.io.interrupts ≡ true)
        × (c'.length_typed ≡ 0)
  unfolding terminal_read flush
  terminal_read-line h k l = (
    delivered,
    (deliver (fill buf 0 0 nbytes) nbytes (record c { io = sti (c.io) })).1,
    ground (arith, held.ready, strlen-IsString delivered (n + 1) (delivered-IsString h k)),
    delivered-line h k,
    refl,
    refl,
    refl,
  )

  -- With `length_typed` at 0, as Enter leaves it, a line that fills a buffer of `nbytes > 1` bytes
  -- overwrites the cell behind the buffer, with the line's next byte or the newline.
  pub deliver-overflow :
      c.length_typed ≡ 0
      → 1 < nbytes
      → nbytes ≤ n
      → delivered nbytes ≡ (if nbytes == n then newline else c.temp_buffer nbytes)
  unfolding deliver
  deliver-overflow e h k = ground (arith, held.count)
