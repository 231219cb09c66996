-- ===== src/Console/Scroll.antt =====
-- What scrolling does to the screen.
use ece_391_linux_kernel_cla.Prelude.{
  ℕ, zero, suc, ◌+◌, ◌-◌, ◌%◌, ◌≤◌, ◌<◌, ◌≡◌, ◌∙◌, ◌&&◌, Bytes, ltb, leb, ◌==◌, if◌then◌else◌,
  arith,
}
use ece_391_linux_kernel_cla.Console.{
  Console, num_cols, num_rows, attrib, cell, put_cell, scroll_row, scroll_rows, clear_last,
  scroll_if_needed,
}

-- The bytes of one row of the screen.
abbrev row_bytes : ℕ
row_bytes = 160

-- What moves into place `j`, a byte of a row that is overwritten by the next.
abbrev below : Bytes → ℕ → ℕ
below video j = if j % 2 == 0 then video (j + row_bytes) else attrib

scroll_row-below :
    (k x y : ℕ) (video : Bytes) (j : ℕ)
    → 0 < y
    → x + k ≤ num_cols
    → scroll_row k x y video j
      ≡ (if leb (cell x (y - 1)) j && ltb j (cell (x + k) (y - 1)) then below video j else video j)
unfolding scroll_row put_cell
scroll_row-below zero x y video j h le = ground arith
scroll_row-below (suc k) x y video j h le = ground (
  arith,
  scroll_row-below k (x + 1) y (put_cell x (y - 1) (video (cell x y)) video) j h (omega arith),
)

scroll_rows-below :
    (k y : ℕ) (video : Bytes) (j : ℕ)
    → 0 < y
    → scroll_rows k y video j
      ≡ (if leb (cell 0 (y - 1)) j && ltb j (cell 0 (y + k - 1)) then below video j else video j)
unfolding scroll_rows
scroll_rows-below zero y video j h = ground arith
scroll_rows-below (suc k) y video j h =
    scroll_rows-below k (y + 1) (scroll_row num_cols 0 y video) j (omega arith)
    ∙ ground (
      arith,
      scroll_row-below num_cols 0 y video j h (omega arith),
      scroll_row-below num_cols 0 y video (j + row_bytes) h (omega arith),
    )

clear_last-blank :
    (k x : ℕ) (video : Bytes) (j : ℕ)
    → clear_last k x video j ≡ (
        if leb (cell x 24) j && ltb j (cell (x + k) 24)
        then (if j % 2 == 0 then 32 else attrib)
        else video j)
unfolding clear_last put_cell
clear_last-blank zero x video j = ground arith
clear_last-blank (suc k) x video j =
    ground (arith, clear_last-blank k (x + 1) (put_cell x 24 32 video) j)

-- The screen moved up by one row: rows 0 to 23 show what rows 1 to 24 showed, the last row is blank,
-- and what lies behind the screen stays.
abbrev pub scrolled : Bytes → ℕ → ℕ
scrolled video j =
    if ltb j (cell 0 24)
    then below video j
    else if ltb j (cell 0 25)
    then (if j % 2 == 0 then 32 else attrib)
    else video j

-- `scroll_if_needed` moves the screen up by one row exactly if the cursor stands below the last
-- row; then it puts the cursor at the start of the row above. Otherwise the screen and the cursor
-- stay.
pub scroll_if_needed-scrolled :
    (c : Console) (j : ℕ)
    → ((scroll_if_needed c).video j
        ≡ (if leb num_rows c.cursor_y then scrolled c.video j else c.video j))
      × ((scroll_if_needed c).cursor_x ≡ (if leb num_rows c.cursor_y then 0 else c.cursor_x))
      × ((scroll_if_needed c).cursor_y
          ≡ (if leb num_rows c.cursor_y then c.cursor_y - 1 else c.cursor_y))
unfolding scroll_if_needed
scroll_if_needed-scrolled c j = ground (
  arith,
  clear_last-blank num_cols 0 (scroll_rows (num_rows - 1) 1 c.video) j,
  scroll_rows-below (num_rows - 1) 1 c.video j (omega arith),
)
