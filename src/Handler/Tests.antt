-- ===== src/Handler/Tests.antt =====
-- The keys "a" and "1", then Enter; and Control with 2.
use ece_391_linux_kernel_cla.Prelude.{
  ℕ, zero, suc, ◌+◌, ◌<◌, ◌≡◌, ◌≢◌, refl, some, pos, Bytes, List, [], ◌∷◌, ◌++◌, get_or, length,
  arith,
}
use ece_391_linux_kernel_cla.Console.{Console, newline}
use ece_391_linux_kernel_cla.Keyboard.{enter, key_char}
use ece_391_linux_kernel_cla.Handler.{
  Interrupt, done, gone, key, press_all, update_buffer_and_cursor,
}
use ece_391_linux_kernel_cla.Handler.Controls.{release_digit, IsPassed, update-select}
use ece_391_linux_kernel_cla.Handler.Typing.{chars_of, terminal_read-press_all}
use ece_391_linux_kernel_cla.Samples.{zeros}
use ece_391_linux_kernel_cla.Samples.Busy.{busy, busy-Implements}
use ece_391_linux_kernel_cla.Samples.Shell.{frame, busy_kernel}
use ece_391_linux_kernel_cla.Syscalls.{Kernel}
use ece_391_linux_kernel_cla.Syscalls.Execute.{resumed}
use ece_391_linux_kernel_cla.Syscalls.Stacks.{select, Implements}
use ece_391_linux_kernel_cla.Syscalls.Switch.{calc_processes, calc_loop}
use ece_391_linux_kernel_cla.Terminal.{terminal_read, stdin}

abbrev interrupt : Interrupt
interrupt = record {
  device = λ log port. 0;
  frame = frame;
  esp = 9000;
  ebp = 9004;
  first_count = 0;
  second_count = 0;
  beyond = zeros;
}

abbrev keys : List ℕ
keys = 0x1E ∷ 0x02 ∷ []

live_keys : (i : ℕ) → i < 2 → get_or (chars_of zeros 0 0 keys) i 0 ≢ 0
unfolding key_char
live_keys zero lt = omega arith
live_keys (suc zero) lt = omega arith
live_keys (suc (suc i)) lt = absurd (omega (arith, lt))

terminal_read-press_all_example :
    (k' : Kernel) × (out : Bytes) × (c : Console) × (press_all interrupt
        (keys ++ enter ∷ [])
        busy_kernel
      ≡ done k')
    × (terminal_read [] stdin zeros 32 k'.console ≡ some (pos (length keys + 1), out, c))
    × ((j : ℕ) → j < length keys → out j ≡ get_or (chars_of zeros 0 0 keys) j 0)
    × (out (length keys) ≡ newline)
terminal_read-press_all_example =
    terminal_read-press_all interrupt keys busy_kernel zeros 32 refl live_keys refl refl
      (omega arith) (omega arith) (omega arith)

-- Control is held.
abbrev held : Kernel
held = record busy_kernel { console = record (busy_kernel.console) { ctrl_pressed = 1 } }

-- The counters start at 1.
abbrev lucky : Interrupt
lucky = record interrupt { first_count = 1; second_count = 1 }

lucky-IsPassed : IsPassed lucky held
unfolding calc_processes calc_loop
lucky-IsPassed = record { first = omega arith; second = omega arith }

held-Implements : Implements busy held
held-Implements = record {
  current = busy-Implements.current;
  running = busy-Implements.running;
  been_here = busy-Implements.been_here;
  chain = busy-Implements.chain;
  bound = busy-Implements.bound;
  taken_slot = busy-Implements.taken_slot;
  apart = busy-Implements.apart;
  free = busy-Implements.free;
  booted = busy-Implements.booted;
  small = busy-Implements.small;
}

update-select_example :
    (k' : Kernel) × (update_buffer_and_cursor (key (release_digit 1) lucky) held
      ≡ gone (resumed 6000 0 k'))
    × Implements (select 1 busy) k'
update-select_example =
    update-select lucky 1 1 [] busy held held-Implements (omega arith) refl lucky-IsPassed
      (omega arith) refl
