-- ===== src/Syscalls/Halt/Roundtrip.antt =====
-- `halt` of student-distrib/syscalls.c undoes what `execute` has done.
use ece_391_linux_kernel_cla.Prelude.{ℕ, ◌≡◌, ◌≢◌, ◌∙◌, ap, ap₂, true, false, some, Bytes, arith}
use ece_391_linux_kernel_cla.Console.{term_of}
use ece_391_linux_kernel_cla.FileSystem.{Dentry}
use ece_391_linux_kernel_cla.Io.{Device}
use ece_391_linux_kernel_cla.Syscalls.{Kernel, running_pcb}
use ece_391_linux_kernel_cla.Syscalls.Execute.{entered, resumed, Frame, execute}
use ece_391_linux_kernel_cla.Syscalls.Execute.Started.{
  IsLoadable, IsRunning, IsBlock, entry_of, execute-IsRunning,
}
use ece_391_linux_kernel_cla.Syscalls.Halt.{halt}
use ece_391_linux_kernel_cla.Syscalls.Halt.Resumed.{IsChild, halt-IsBack}
use ece_391_linux_kernel_cla.Syscalls.Slots.{slot_loop, taken, slot_loop-IsTaking}

-- The process in slot `q` asks for a new one, which gets slot `p`.
pub record IsCaller (p q : ℕ) (k : Kernel) : Type 0 where
  pub running : running_pcb k ≡ some q
  pub been_here : (term_of k.console).been_here ≡ 1
  pub taken_slot : taken q k.processes ≡ true
  pub not_first : p ≢ 0
  pub not_start : (k.pcbs p).term_start ≢ 1

pub IsBlock-IsChild :
    (fr : Frame) (arg_buffer : Bytes) (p q len : ℕ) (k k' : Kernel)
    → IsCaller p q k
    → taken p k.processes ≡ false
    → IsRunning p k k'
    → IsBlock fr arg_buffer p len k k'
    → IsChild p q k'
IsBlock-IsChild fr arg_buffer p q len k k' c free r b = record {
  running = r.running;
  number = b.number;
  not_first = c.not_first;
  not_start = ground (arith, b.term_start, c.been_here, c.not_start);
  parent = ground (arith, b.parent, c.been_here, c.not_first, c.running);
  apart = λ e. absurd (ground (arith, c.taken_slot, free, ap (λ x. taken x k.processes) e));
}

-- In a terminal that is open, a process in a slot `q` that is taken executes a program that can be
-- loaded, and gets a slot other than 0 whose block does not bear the mark of a terminal's first
-- process: if the program then halts, with any status, the kernel goes back to the stack on which
-- `execute` was called. The process in slot `q` runs again, and the bitmap and the blocks of all
-- other slots are as before the call.
pub halt-execute :
    (device : Device) (fr : Frame) (command name arg_buffer : Bytes) (d : Dentry) (len status q : ℕ)
    (k : Kernel)
    → IsLoadable fr command name arg_buffer d len k
    → IsCaller (slot_loop 6 0 1 k.processes).0 q k
    → let p = (slot_loop 6 0 1 k.processes).0 in
      (k' : Kernel) × (k'' : Kernel) × (execute device fr (some command) k
        ≡ entered (entry_of k.fs d.inode_num) k')
      × (halt device fr status k' ≡ resumed fr.esp fr.ebp k'')
      × (running_pcb k'' ≡ some q)
      × (k''.processes ≡ k.processes)
      × ((r : ℕ) → r ≢ p → k''.pcbs r ≡ k.pcbs r)
halt-execute device fr command name arg_buffer d len status q k h c =
    let p = (slot_loop 6 0 1 k.processes).0 in
    let t = slot_loop-IsTaking k.processes h.room in
    let (k', call, s, run, block, image) =
      execute-IsRunning device fr command name arg_buffer d len k h in
    let child = IsBlock-IsChild fr arg_buffer p q len k k' c t.free run block in
    let (k'', back, b) = halt-IsBack device fr status p q k' child in
    (
      k',
      k'',
      call,
      back
          ∙ ap₂ (λ x y. resumed x y k'') (block.parent_sp ∙ ground (arith, c.not_first))
              (block.parent_bp ∙ ground (arith, c.not_first)),
      b.running,
      b.processes ∙ s.undone,
      λ r ne. b.others r ne ∙ block.others r ne,
    )
