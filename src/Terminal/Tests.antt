-- ===== src/Terminal/Tests.antt =====
-- Uses of the theorems on the terminal driver: the line "hello" waits to be read.
use ece_391_linux_kernel_cla.Prelude.{◌≡◌, refl, pos, ◌==◌, if◌then◌else◌, arith}
use ece_391_linux_kernel_cla.Clib.Memory.{fill}
use ece_391_linux_kernel_cla.Console.{newline, term_of}
use ece_391_linux_kernel_cla.Console.Bounds.{IsOn}
use ece_391_linux_kernel_cla.Terminal.{terminal_write, deliver, stdout}
use ece_391_linux_kernel_cla.Terminal.Input.{HoldsLine, deliver-overflow}
use ece_391_linux_kernel_cla.Terminal.Output.{terminal_write-IsOn}
use ece_391_linux_kernel_cla.Samples.{blank, zeros, hello, hello-IsString}

held : HoldsLine blank 5
held = record { ready = refl; count = refl; body = λ i lt. hello-IsString.body i lt }

deliver-overflow_example :
    (deliver (fill zeros 0 0 3) 3 blank).0 3 ≡ (if 3 == 5 then newline else blank.temp_buffer 3)
deliver-overflow_example = deliver-overflow zeros 3 5 blank held refl (omega arith) (omega arith)

terminal_write-IsOn_example :
    ((terminal_write stdout hello 5 blank).0 ≡ pos 0)
    × IsOn (terminal_write stdout hello 5 blank).1
    × ((terminal_write stdout hello 5 blank).1.length_typed ≡ 0)
    × ((term_of (terminal_write stdout hello 5 blank).1).cursor_x
        ≡ (terminal_write stdout hello 5 blank).1.cursor_x)
    × ((term_of (terminal_write stdout hello 5 blank).1).cursor_y
        ≡ (terminal_write stdout hello 5 blank).1.cursor_y)
terminal_write-IsOn_example =
    terminal_write-IsOn hello 5 blank record { column = omega arith; row = omega arith }
