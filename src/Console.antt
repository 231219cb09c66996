-- ===== src/Console.antt =====
-- The text-mode screen, the cursor and the line buffer: `clear`, `putc` and `puts` of
-- student-distrib/lib.c and the screen routines of student-distrib/keyboard_driver.c. Video memory
-- is the bytes from `VIDEO` on, two for each cell of the screen; the kernel does not check where it
-- writes.
pub mod Scroll
pub mod Bounds
pub mod Puts
pub mod Kept
mod Tests
use ece_391_linux_kernel_cla.Prelude.{
  ℕ, zero, suc, ◌+◌, ◌-◌, ◌*◌, ◌/◌, Bool, true, false, Option, none, some, Bytes, store, u32_mod,
  ◌≡◌, arith, ◌==◌, leb, ltb, if◌then◌else◌,
}
use ece_391_linux_kernel_cla.Clib.Memory.{fill}
use ece_391_linux_kernel_cla.Io.{Io, outb}

abbrev pub line_size : ℕ
line_size = 128

abbrev pub num_cols : ℕ
num_cols = 80

abbrev pub num_rows : ℕ
num_rows = 25

abbrev pub attrib : ℕ
attrib = 2

abbrev pub newline : ℕ
newline = 10

-- `term`, less the field `video_mem`, which nothing reads. A process control block is known by its
-- slot, NULL by `none`. `vid_mem` is the 4000 bytes that the field points to.
pub record Term : Type 0 where
  pub been_here : ℕ
  pub cursor_x : ℕ
  pub cursor_y : ℕ
  pub keyboard_buffer : Bytes
  pub vid_mem : Bytes
  pub running_pcb : Option ℕ
  pub current_esp : ℕ
  pub current_ebp : ℕ
  pub esp0 : ℕ

-- The variables of the keyboard driver that are shared with the terminal driver and with `putc`, and
-- `terms` with `current_terminal`, an index of one of the three.
pub record Console : Type 0 where
  pub video : Bytes
  pub cursor_x : ℕ
  pub cursor_y : ℕ
  pub input_buffer : Bytes
  pub length_typed : ℕ
  pub temp_buffer : Bytes
  pub old_length_typed : ℕ
  pub can_read : ℕ
  pub ctrl_pressed : ℕ
  pub shift_flag : ℕ
  pub caps_flag : ℕ
  pub terms : ℕ → Term
  pub current_terminal : ℕ
  pub io : Io

-- `terms[current_terminal]`
abbrev pub term_of : Console → Term
term_of c = c.terms c.current_terminal

-- `terms[current_terminal] = t`
abbrev pub put_term : Term → Console → Console
put_term t c = record c { terms = λ i. if i == c.current_terminal then t else c.terms i }

pub term_of-put_term : (t : Term) (c : Console) → term_of (put_term t c) ≡ t
term_of-put_term t c = ground arith

-- The character byte of the cell at column `x` of row `y`; its attribute byte is the next.
abbrev pub cell : ℕ → ℕ → ℕ
cell x y = (num_cols * y + x) * 2

-- A character and its attribute.
unfoldable pub put_cell : ℕ → ℕ → ℕ → Bytes → Bytes
put_cell x y c video = store (store video (cell x y) c) (cell x y + 1) attrib

-- The position goes to the screen's controller as a high and a low byte.
unfoldable pub move_cursor_to : ℕ → ℕ → Console → Console
move_cursor_to curs_x curs_y c = record c {
  io =
      outb (curs_y * num_cols + curs_x) 0x3D5
        (outb 0xF 0x3D4 (outb ((curs_y * num_cols + curs_x) / 256) 0x3D5 (outb 0xE 0x3D4 c.io)));
}

-- The loop of `clear` with `k` cells left.
pub clear_loop : ℕ → ℕ → Bytes → Bytes
clear_loop zero i video = video
clear_loop (suc k) i video =
    clear_loop k (i + 1) (store (store video (i * 2) 32) (i * 2 + 1) attrib)

unfoldable pub clear : Console → Console
clear c = record c { video = clear_loop (num_rows * num_cols) 0 c.video }

unfoldable pub clear_screen : Console → Console
unfolding clear move_cursor_to
clear_screen c =
    clear
      (record (move_cursor_to 0 0 (record c { cursor_x = 0; cursor_y = 0 })) { ctrl_pressed = 0 })

unfoldable pub flush : Console → Console
flush c = record c { input_buffer = fill c.input_buffer 0 0 line_size; length_typed = 0 }

-- The inner loop of `scroll_if_needed`: `k` cells of row `y_val` are still to be moved up.
pub scroll_row : ℕ → ℕ → ℕ → Bytes → Bytes
scroll_row zero x_val y_val video = video
scroll_row (suc k) x_val y_val video =
    scroll_row k (x_val + 1) y_val (put_cell x_val (y_val - 1) (video (cell x_val y_val)) video)

-- The outer loop, with `k` rows left.
pub scroll_rows : ℕ → ℕ → Bytes → Bytes
scroll_rows zero y_val video = video
scroll_rows (suc k) y_val video = scroll_rows k (y_val + 1) (scroll_row num_cols 0 y_val video)

-- The loop that clears the last row, with `k` cells left.
pub clear_last : ℕ → ℕ → Bytes → Bytes
clear_last zero x_val video = video
clear_last (suc k) x_val video = clear_last k (x_val + 1) (put_cell x_val (num_rows - 1) 32 video)

unfoldable pub scroll_if_needed : Console → Console
unfolding move_cursor_to
scroll_if_needed c =
    if leb num_rows c.cursor_y
    then move_cursor_to 0 (c.cursor_y - 1) (record c {
      video = clear_last num_cols 0 (scroll_rows (num_rows - 1) 1 c.video);
      cursor_x = 0;
      cursor_y = c.cursor_y - 1;
    })
    else c

-- The character in its cell, and the cursor behind it.
unfoldable pub write_char : ℕ → Console → Console
write_char ch c = record c {
  video = put_cell c.cursor_x c.cursor_y ch c.video;
  cursor_x = if c.cursor_x == 79 then 0 else c.cursor_x + 1;
  cursor_y = if c.cursor_x == 79 then c.cursor_y + 1 else c.cursor_y;
}

-- `putc`. A newline moves the cursor down and does not scroll.
unfoldable pub putc : ℕ → Console → Console
unfolding write_char
putc ch c =
    if ch == newline
    then record c { cursor_x = 0; cursor_y = c.cursor_y + 1 }
    else scroll_if_needed (write_char ch c)

-- The loop of `puts`, on fuel as `strlen`: the count, and the console.
unfoldable pub puts_loop : ℕ → Bytes → ℕ → Console → Option (ℕ × Console)
puts_loop zero s index c = none
puts_loop (suc fuel) s index c = elim (s index == 0) [
  | true ↦ some (index, c)
  | false ↦ puts_loop fuel s (index + 1) (putc (s index) c)
]

unfoldable pub puts : Bytes → Console → Option (ℕ × Console)
unfolding puts_loop
puts s c = puts_loop u32_mod s 0 c
