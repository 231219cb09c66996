-- ===== src/Keyboard/Flags.antt =====
-- The keys of student-distrib/keyboard_driver.c that stand for a character leave the flags alone.
use ece_391_linux_kernel_cla.Prelude.{ℕ, ◌≡◌, ◌∙◌, true, Bytes, arith}
use ece_391_linux_kernel_cla.Console.{Console, scroll_if_needed, move_cursor_to}
use ece_391_linux_kernel_cla.Keyboard.{press, dispatch, wrap, type_key}
use ece_391_linux_kernel_cla.Keyboard.Line.{is_char_key}

-- The flags that say what a key stands for.
pub record SameFlags (c d : Console) : Type 0 where
  pub shift : d.shift_flag ≡ c.shift_flag
  pub caps : d.caps_flag ≡ c.caps_flag
  pub control : d.ctrl_pressed ≡ c.ctrl_pressed

wrap-SameFlags : (c : Console) → SameFlags c (wrap c)
unfolding wrap
wrap-SameFlags c = ground arith

scroll-SameFlags :
    (c : Console) → SameFlags c (scroll_if_needed (move_cursor_to c.cursor_x c.cursor_y c))
unfolding scroll_if_needed move_cursor_to
scroll-SameFlags c = ground arith

type_key-SameFlags : (beyond : Bytes) (s : ℕ) (c : Console) → SameFlags c (type_key beyond s c)
unfolding type_key
type_key-SameFlags beyond s c = ground arith

dispatch-SameFlags :
    (beyond : Bytes) (s : ℕ) (c : Console)
    → is_char_key s ≡ true
    → SameFlags c (dispatch beyond s c)
unfolding dispatch
dispatch-SameFlags beyond s c h = ground (arith, type_key-SameFlags beyond s c)

pub press-SameFlags :
    (beyond : Bytes) (s : ℕ) (c : Console) → is_char_key s ≡ true → SameFlags c (press beyond s c)
unfolding press
press-SameFlags beyond s c h =
    let w = wrap-SameFlags c in
    let d = dispatch-SameFlags beyond s (wrap c) h in
    let e = scroll-SameFlags (dispatch beyond s (wrap c)) in
    record {
      shift = e.shift ∙ d.shift ∙ w.shift;
      caps = e.caps ∙ d.caps ∙ w.caps;
      control = e.control ∙ d.control ∙ w.control;
    }
