-- ===== src/Scheduler.antt =====
-- student-distrib/scheduler.c: the timer, its interrupt, and the switch between the processes of the
-- terminals. No gate of the interrupt descriptor table leads to `inter_PIT`.
pub mod Resumption
mod Tests
use ece_391_linux_kernel_cla.Prelude.{
  ℕ, ◌+◌, ◌/◌, ◌%◌, Bool, true, false, ◌==◌, if◌then◌else◌, Option, none, some, Bytes, literal,
  bit_and,
}
use ece_391_linux_kernel_cla.Console.{Console, Term}
use ece_391_linux_kernel_cla.Io.{Io, outb, cli}
use ece_391_linux_kernel_cla.Paging.{load_new_process}
use ece_391_linux_kernel_cla.Pic.{Pic, enable_irq, send_eoi}
use ece_391_linux_kernel_cla.Printf.{printf}
use ece_391_linux_kernel_cla.Syscalls.{Kernel}
use ece_391_linux_kernel_cla.Syscalls.Execute.{Outcome, fault, resumed, Frame}

abbrev pub divisor : ℕ
divisor = 1193180 / 20

-- The mode, then the low and the high byte of the divisor.
unfoldable pub init_pit : Pic → Pic
init_pit s = enable_irq 0 (record s {
  io = outb (divisor / 256) 0x40 (outb (bit_and divisor 0xFF) 0x40 (outb 0x36 0x43 s.io));
})

-- `terms[a] = t`
abbrev pub put_at : ℕ → Term → Kernel → Kernel
put_at a t k = record k {
  console = record (k.console) { terms = λ i. if i == a then t else k.console.terms i };
}

-- The registers and the kernel stack of terminal `currently_running` are saved.
unfoldable pub save_task : ℕ → ℕ → ℕ → Kernel → Kernel
save_task currently_running esp ebp k =
    put_at currently_running
      (record (k.console.terms currently_running) {
        current_esp = esp;
        current_ebp = ebp;
        esp0 = k.esp0;
      })
      k

-- The new `currently_running`, and how the call goes on.
unfoldable pub switch_active_task : ℕ → ℕ → ℕ → ℕ → Kernel → ℕ × Outcome
switch_active_task term esp ebp currently_running k =
    let k₁ = save_task currently_running esp ebp k in
    let t = k₁.console.terms term in
    (
      term,
      elim t.running_pcb [
        | none ↦ fault
        | some q ↦ resumed t.current_esp t.current_ebp (record k₁ {
          tables = load_new_process (k₁.pcbs q).process_num (k₁.tables);
          esp0 = t.esp0;
        })
      ],
    )

-- How the handler of the timer ends, and the static counter.
pub data Tick : Type 0 where
  returns : ℕ → Kernel → Tick
  -- `while(1)` around a message: what follows it, the switch among it, is not reached.
  spins : ℕ → Kernel → Tick
  faults : Tick

-- Interrupts off, and the end of this one signalled.
abbrev pub quiet_tick : Kernel → Kernel
quiet_tick k = record k { console = record (k.console) { io = send_eoi 0 (cli (k.console.io)) } }

unfoldable pub inter_pit : Frame → ℕ → Kernel → Tick
inter_pit fr counter k =
    let k₁ = quiet_tick k in
    if (k.console.terms ((counter + 1) % 3)).been_here == 1
    then spins counter k₁
    else if (k.console.terms ((counter + 2) % 3)).been_here == 1
    then spins counter k₁
    else if (k.console.terms ((counter + 3) % 3)).been_here == 1
    then returns counter k₁
    else elim (printf fr.words fr.memory fr.conv_buf (literal "shunu hada\n") (k₁.console)) [
      | none ↦ faults
      | some (n, c) ↦ returns counter (record k₁ { console = c })
    ]
