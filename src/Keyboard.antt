-- ===== src/Keyboard.antt =====
-- The keys of student-distrib/keyboard_driver.c: what `update_buffer_and_cursor` does for a key that
-- is pressed while Control is not held. `beyond` is the memory behind the two tables of 100
-- characters, which a scancode from 100 on reads.
pub mod Line
pub mod Editing
pub mod Flags
mod Tests
use ece_391_linux_kernel_cla.Prelude.{
  ℕ, ◌+◌, ◌-◌, Bool, ◌&&◌, ◌||◌, ◌==◌, ◌!=◌, ltb, leb, if◌then◌else◌, List, [], ◌∷◌, ◌++◌, Bytes,
  store, codes, length, get_or, u8, not,
}
use ece_391_linux_kernel_cla.Clib.Memory.{fill, copy}
use ece_391_linux_kernel_cla.Console.{
  Console, line_size, num_cols, put_cell, move_cursor_to, scroll_if_needed, flush,
}

abbrev pub backspace : ℕ
backspace = 0x0E

abbrev pub caps_lock : ℕ
caps_lock = 0x3A

abbrev pub l_shift : ℕ
l_shift = 0x2A

abbrev pub r_shift : ℕ
r_shift = 0x36

abbrev pub enter : ℕ
enter = 0x1C

abbrev pub ctrl : ℕ
ctrl = 0x1D

abbrev pub keyboard_char : List ℕ
keyboard_char =
    codes "001234567890-=0"
    ++ 9 ∷ codes "qwertyuiop[]0aasdfghjkl;'`0"
    ++ b'\\' ∷ codes "zxcvbnm,./000 "

abbrev pub shift_keyboard_char : List ℕ
shift_keyboard_char = codes "00!@#$%^&*()_+000000000000{}00000000000:" ++ 34 ∷ codes "~0|0000000<>?"

-- `table[scancode]` of an array of 100, whose cells behind the initial values are 0.
abbrev pub look_up : List ℕ → Bytes → ℕ → ℕ
look_up table beyond scancode =
    if ltb scancode 100 then get_or table scancode 0 else beyond (scancode - 100)

-- Is the character a small letter?
abbrev pub is_letter : ℕ → Bool
is_letter c = leb 97 c && leb c 122

-- The character that a key stands for under the shift and caps flags.
unfoldable pub key_char : Bytes → ℕ → ℕ → ℕ → ℕ
key_char beyond shift_flag caps_flag scancode =
    let c = u8 (look_up keyboard_char beyond scancode) in
    if (shift_flag == 1) || (caps_flag == 1)
    then (if is_letter c then c - 32 else u8 (look_up shift_keyboard_char beyond scancode))
    else c

-- A character key: into the buffer and onto the screen, if the buffer has room.
unfoldable pub type_key : Bytes → ℕ → Console → Console
type_key beyond scancode c =
    if ltb c.length_typed line_size && (scancode != backspace)
    then (let ch = key_char beyond c.shift_flag c.caps_flag scancode in
        record c {
          input_buffer = store c.input_buffer c.length_typed ch;
          video = put_cell c.cursor_x c.cursor_y ch c.video;
          length_typed = c.length_typed + 1;
          cursor_x = c.cursor_x + 1;
        })
    else c

-- The cursor goes back by one cell, and the length with it, but at the start of the screen.
pub step_back : Console → Console
step_back c =
    if (c.cursor_x == 0) && (c.cursor_y != 0)
    then record c { cursor_x = 79; cursor_y = c.cursor_y - 1; length_typed = c.length_typed - 1 }
    else if c.cursor_x != 0
    then record c { cursor_x = c.cursor_x - 1; length_typed = c.length_typed - 1 }
    else c

unfoldable pub erase_key : Console → Console
unfolding step_back
erase_key c =
    let c' = step_back c in record c' { video = put_cell c'.cursor_x c'.cursor_y 32 c'.video }

-- Enter hands the line over to `terminal_read`.
unfoldable pub enter_key : Console → Console
unfolding flush
enter_key c =
    record (flush (record c {
      cursor_x = 0;
      cursor_y = c.cursor_y + 1;
      temp_buffer = copy (fill c.temp_buffer 0 0 line_size) 0 c.input_buffer line_size;
      old_length_typed = c.length_typed;
    })) { can_read = 1 }

-- A cursor behind the last column goes to the next row first.
pub wrap : Console → Console
wrap c =
    if ltb (num_cols - 1) c.cursor_x
    then record c { cursor_x = 0; cursor_y = c.cursor_y + 1 }
    else c

-- The ladder of tests on the scancode.
pub dispatch : Bytes → ℕ → Console → Console
dispatch beyond scancode c =
    if scancode == ctrl
    then record c { ctrl_pressed = 1 }
    else if scancode == caps_lock
    then record c { caps_flag = if c.caps_flag == 1 then 0 else 1 }
    else if scancode == l_shift
    then record c { shift_flag = 1 }
    else if scancode == r_shift
    then record c { shift_flag = 1 }
    else if scancode == enter
    then enter_key c
    else if (scancode == backspace) && ltb 0 c.length_typed
    then erase_key c
    else type_key beyond scancode c

-- The branch for a key pressed while Control is not held.
unfoldable pub press : Bytes → ℕ → Console → Console
press beyond scancode c =
    let d = dispatch beyond scancode (wrap c) in
    scroll_if_needed (move_cursor_to d.cursor_x d.cursor_y d)
