-- ===== src/Console/Bounds.antt =====
-- When the cursor stays on the screen, and what is written off it.
use ece_391_linux_kernel_cla.Prelude.{
  ℕ, ◌+◌, ◌*◌, ◌<◌, ◌≡◌, ◌≢◌, refl, ℕ_discrete, ◌==◌, if◌then◌else◌, arith,
}
use ece_391_linux_kernel_cla.Console.{
  Console, num_cols, num_rows, newline, cell, put_cell, write_char, putc, scroll_if_needed,
}
use ece_391_linux_kernel_cla.Console.Scroll.{scroll_if_needed-scrolled}

-- The cursor stands on a cell of the screen.
pub record IsOn (c : Console) : Type 0 where
  pub column : c.cursor_x < num_cols
  pub row : c.cursor_y < num_rows

-- Any character but newline, at a cursor on the screen: the character is shown where the cursor was
-- (a row higher if that made the screen scroll), and the cursor moves on by one cell, from the last
-- column to the start of the next row, and stays on the screen.
pub putc-IsOn :
    (ch : ℕ) (c : Console)
    → IsOn c
    → ch ≢ newline
    → let c' = putc ch c in
      IsOn c'
      × (num_cols * c'.cursor_y + c'.cursor_x ≡ (
          if cell c.cursor_x c.cursor_y == cell 79 24
          then num_cols * 24
          else num_cols * c.cursor_y + c.cursor_x + 1))
      × (c'.video (
            if cell c.cursor_x c.cursor_y == cell 79 24
            then cell 79 23
            else cell c.cursor_x c.cursor_y)
          ≡ ch)
unfolding putc put_cell
putc-IsOn ch c on ne =
    let w = write_char ch c in
    ground (
      arith,
      scroll_if_needed-scrolled w (cell 79 23),
      scroll_if_needed-scrolled w (cell c.cursor_x c.cursor_y),
    )

putc-newline :
    (c : Console) → ((putc newline c).cursor_x ≡ 0) × ((putc newline c).cursor_y ≡ c.cursor_y + 1)
unfolding putc
putc-newline c = (refl, refl)

-- `putc` followed by `scroll_if_needed`, as `terminal_write` calls them, keeps the cursor on the
-- screen for every character, a newline on the last row too.
pub putc-scroll-IsOn : (ch : ℕ) (c : Console) → IsOn c → IsOn (scroll_if_needed (putc ch c))
putc-scroll-IsOn ch c on = elim (ℕ_discrete ch newline) [
  | yes e ↦ rw e (ground (arith, scroll_if_needed-scrolled (putc newline c) 0, putc-newline c))
  | no p ↦ ground (arith, scroll_if_needed-scrolled (putc ch c) 0, putc-IsOn ch c on p)
]
