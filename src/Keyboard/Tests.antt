-- ===== src/Keyboard/Tests.antt =====
-- Uses of the theorems on the keyboard: the line "hi", with the cursor behind the last column.
use ece_391_linux_kernel_cla.Prelude.{refl, codes, literal, arith}
use ece_391_linux_kernel_cla.Console.{Console}
use ece_391_linux_kernel_cla.Keyboard.{press, enter}
use ece_391_linux_kernel_cla.Keyboard.Editing.{IsEditing, press-IsEditing}
use ece_391_linux_kernel_cla.Keyboard.Line.{Holds}
use ece_391_linux_kernel_cla.Samples.{blank, zeros}

abbrev hi : Console
hi = record blank {
  input_buffer = literal "hi";
  length_typed = 2;
  cursor_x = 80;
  cursor_y = 24;
  shift_flag = 1;
}

hi-Holds : Holds hi (codes "hi")
hi-Holds = record { count = refl; chars = λ i lt. refl }

hi-IsEditing : IsEditing hi
hi-IsEditing = record {
  room = omega arith;
  column = omega arith;
  row = omega arith;
  corner = λ e. absurd (omega arith);
}

press-IsEditing_example : IsEditing (press zeros enter hi)
press-IsEditing_example = press-IsEditing zeros enter hi hi-IsEditing
