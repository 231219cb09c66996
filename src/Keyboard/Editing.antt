-- ===== src/Keyboard/Editing.antt =====
-- The cursor and the buffer stay within bounds under the keys of
-- student-distrib/keyboard_driver.c.
use ece_391_linux_kernel_cla.Prelude.{ℕ, ◌≤◌, ◌≡◌, Bytes, arith}
use ece_391_linux_kernel_cla.Console.{Console, line_size, scroll_if_needed, move_cursor_to}
use ece_391_linux_kernel_cla.Keyboard.{press, dispatch, wrap, type_key, erase_key, enter_key}

-- Between two keys. Column 80 is where the cursor stands after the last column has been filled, and
-- row 25 where it may stand after Enter there.
pub record IsEditing (c : Console) : Type 0 where
  pub room : c.length_typed ≤ line_size
  pub column : c.cursor_x ≤ 80
  pub row : c.cursor_y ≤ 25
  pub corner : c.cursor_y ≡ 25 → c.cursor_x ≡ 0

-- Before the screen is scrolled.
record IsTyped (c : Console) : Type 0 where
  room : c.length_typed ≤ line_size
  column : c.cursor_x ≤ 80
  row : c.cursor_y ≤ 26
  corner : c.cursor_y ≡ 26 → c.cursor_x ≡ 0

wrap-IsTyped :
    (c : Console)
    → IsEditing c
    → IsTyped (wrap c) × ((wrap c).cursor_x ≤ 79) × ((wrap c).cursor_y ≤ 25)
unfolding wrap
wrap-IsTyped c e = ground arith

type_key-IsTyped :
    (beyond : Bytes) (scancode : ℕ) (c : Console)
    → IsTyped c
    → c.cursor_x ≤ 79
    → c.cursor_y ≤ 25
    → IsTyped (type_key beyond scancode c)
unfolding type_key
type_key-IsTyped beyond scancode c t h k = ground arith

erase_key-IsTyped :
    (c : Console) → IsTyped c → c.cursor_x ≤ 79 → c.cursor_y ≤ 25 → IsTyped (erase_key c)
unfolding erase_key
erase_key-IsTyped c t h k = ground arith

enter_key-IsTyped : (c : Console) → c.cursor_y ≤ 25 → IsTyped (enter_key c)
unfolding enter_key
enter_key-IsTyped c k = ground arith

dispatch-IsTyped :
    (beyond : Bytes) (scancode : ℕ) (c : Console)
    → IsTyped c
    → c.cursor_x ≤ 79
    → c.cursor_y ≤ 25
    → IsTyped (dispatch beyond scancode c)
unfolding dispatch
dispatch-IsTyped beyond scancode c t h k = ground (
  arith,
  type_key-IsTyped beyond scancode c t h k,
  erase_key-IsTyped c t h k,
  enter_key-IsTyped c k,
)

scroll-IsEditing :
    (c : Console)
    → IsTyped c
    → IsEditing (scroll_if_needed (move_cursor_to c.cursor_x c.cursor_y c))
unfolding scroll_if_needed move_cursor_to
scroll-IsEditing c t = ground arith

-- Every key, whatever its scancode, that finds the line within its 128 bytes and the cursor at
-- most at column 80 and row 25, in row 25 only at column 0, leaves them so.
pub press-IsEditing :
    (beyond : Bytes) (scancode : ℕ) (c : Console)
    → IsEditing c
    → IsEditing (press beyond scancode c)
unfolding press
press-IsEditing beyond scancode c e =
    let (t, h, k) = wrap-IsTyped c e in
    scroll-IsEditing _ (dispatch-IsTyped beyond scancode (wrap c) t h k)
