-- ===== src/Console/Tests.antt =====
-- Uses of the theorems on the screen.
use ece_391_linux_kernel_cla.Prelude.{arith}
use ece_391_linux_kernel_cla.Console.{Console, newline, putc, scroll_if_needed}
use ece_391_linux_kernel_cla.Console.Bounds.{IsOn, putc-scroll-IsOn}
use ece_391_linux_kernel_cla.Samples.{blank}

-- On the last cell.
abbrev last : Console
last = record blank { cursor_x = 79; cursor_y = 24 }

last-IsOn : IsOn last
last-IsOn = record { column = omega arith; row = omega arith }

test_last_cell : IsOn (scroll_if_needed (putc newline last))
test_last_cell = putc-scroll-IsOn newline last last-IsOn
