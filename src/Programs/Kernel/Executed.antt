-- ===== src/Programs/Kernel/Executed.antt =====
-- `execute` as a user program meets it: the program that is executed runs until it halts, and the
-- call returns.
use ece_391_linux_kernel_cla.Prelude.{
  ℕ, ◌+◌, ◌≡◌, ◌≢◌, refl, sym, ◌∙◌, ap, ap₂, Bool, true, some, pos, Bytes, ◌==◌, arith,
}
use ece_391_linux_kernel_cla.FileSystem.{Dentry}
use ece_391_linux_kernel_cla.Syscalls.{Kernel, running_pcb}
use ece_391_linux_kernel_cla.Syscalls.Execute.{entered, resumed, Frame, quieted, execute}
use ece_391_linux_kernel_cla.Syscalls.Execute.Started.{IsLoadable, entry_of, execute-IsRunning}
use ece_391_linux_kernel_cla.Syscalls.Halt.{halt}
use ece_391_linux_kernel_cla.Syscalls.Halt.Resumed.{IsChild, halt-IsBack}
use ece_391_linux_kernel_cla.Syscalls.Halt.Roundtrip.{IsCaller, IsBlock-IsChild}
use ece_391_linux_kernel_cla.Syscalls.Slots.{slot_loop, clear_slot, slot_loop-IsTaking}
use ece_391_linux_kernel_cla.Programs.Kernel.{
  System, Surroundings, iret, return_from, kernel_execute,
}

-- What a program in slot `p` leaves as it was until it halts: who runs, the bitmap, its own block but
-- for the descriptors, and the blocks of the other processes.
pub record IsTame (p : ℕ) (k k' : Kernel) : Type 0 where
  pub running : running_pcb k' ≡ running_pcb k
  pub processes : k'.processes ≡ k.processes
  pub block : k'.pcbs p ≡ record (k.pcbs p) { fd_array = (k'.pcbs p).fd_array }
  pub others : (q : ℕ) → q ≢ p → k'.pcbs q ≡ k.pcbs q

IsTame-IsChild : (p q : ℕ) (k k' : Kernel) → IsTame p k k' → IsChild p q k → IsChild p q k'
IsTame-IsChild p q k k' t c = record {
  running = t.running ∙ c.running;
  number = ap (λ b. b.process_num) t.block ∙ c.number;
  not_first = c.not_first;
  not_start = λ e. c.not_start (sym (ap (λ b. b.term_start) t.block) ∙ e);
  parent = ap (λ b. b.parent_pcb) t.block ∙ c.parent;
  apart = c.apart;
}

-- The program that the system executes at `eip` in slot `p` halts, and is tame.
abbrev pub Halts : Surroundings → ℕ → ℕ → Type 0
Halts w p eip =
    (m : System)
    → running_pcb (m.kernel) ≡ some p
    → (status : ℕ) × (m' : System) × (w.child eip m ≡ some (status, m'))
      × IsTame p (m.kernel) (m'.kernel)

quieted-IsLoadable :
    (fr : Frame) (command name arg_buffer : Bytes) (d : Dentry) (len : ℕ) (k : Kernel)
    → IsLoadable fr command name arg_buffer d len k
    → IsLoadable fr command name arg_buffer d len (quieted k)
quieted-IsLoadable fr command name arg_buffer d len k h = record {
  parsed = h.parsed;
  entry = h.entry;
  program = h.program;
  header = h.header;
  small = h.small;
  arguments = h.arguments;
  fits = h.fits;
  room = h.room;
}

quieted-IsCaller : (p q : ℕ) (k : Kernel) → IsCaller p q k → IsCaller p q (quieted k)
quieted-IsCaller p q k c = record {
  running = c.running;
  been_here = c.been_here;
  taken_slot = c.taken_slot;
  not_first = c.not_first;
  not_start = c.not_start;
}

return_from-resumed :
    (w : Surroundings) (flag : Bool) (esp ebp status : ℕ) (m : System) (k : Kernel)
    → halt ((w.outside m.count).device) (w.frame m.count) status (quieted m.kernel)
      ≡ resumed esp ebp k
    → return_from w flag esp ebp status m
      ≡ some (pos 0, record { kernel = iret flag k; count = m.count + 1 })
unfolding return_from
return_from-resumed w flag esp ebp status m k e =
    let a : (esp == esp) ≡ true = ground arith in
    let b : (ebp == ebp) ≡ true = ground arith in rw (return_from, e, a, b) refl

kernel_execute-entered :
    (w : Surroundings) (command : Bytes) (eip status : ℕ) (m m₁ : System) (k k₂ : Kernel)
    → let fr = w.frame m.count in
      execute ((w.outside m.count).device) fr (some command) (quieted m.kernel) ≡ entered eip k
      → w.child eip (record { kernel = k; count = m.count + 1 }) ≡ some (status, m₁)
      → halt ((w.outside m₁.count).device) (w.frame m₁.count) status (quieted m₁.kernel)
        ≡ resumed fr.esp fr.ebp k₂
      → kernel_execute w command m
        ≡ some (
          pos 0,
          record { kernel = iret (m.kernel.console.io.interrupts) k₂; count = m₁.count + 1 },
        )
unfolding kernel_execute
kernel_execute-entered w command eip status m m₁ k k₂ e f g =
    let fr = w.frame m.count in
    rw (kernel_execute, e, f)
      (return_from-resumed w (m.kernel.console.io.interrupts) fr.esp fr.ebp status m₁ k₂ g)

-- A user program in slot `q`, in a terminal that is open, executes a program that can be loaded, and
-- gets a slot other than 0 without the mark of a terminal's first process. If the program halts, and
-- has until then left alone who runs, the bitmap and the blocks but for its own descriptors, the
-- call returns 0: the caller runs again, with the interrupt flag it had, and the bitmap and the
-- blocks of all other slots are as before.
pub kernel_execute-returns :
    (w : Surroundings) (command name arg_buffer : Bytes) (d : Dentry) (len q : ℕ) (m : System)
    → IsLoadable (w.frame m.count) command name arg_buffer d len (m.kernel)
    → IsCaller (slot_loop 6 0 1 (m.kernel.processes)).0 q (m.kernel)
    → Halts w (slot_loop 6 0 1 (m.kernel.processes)).0 (entry_of (m.kernel.fs) d.inode_num)
    → (m' : System) × (kernel_execute w command m ≡ some (pos 0, m'))
      × (running_pcb (m'.kernel) ≡ some q)
      × (m'.kernel.console.io.interrupts ≡ m.kernel.console.io.interrupts)
      × (m'.kernel.processes ≡ m.kernel.processes)
      × ((r : ℕ)
          → r ≢ (slot_loop 6 0 1 (m.kernel.processes)).0
          → m'.kernel.pcbs r ≡ m.kernel.pcbs r)
kernel_execute-returns w command name arg_buffer d len q m h c halts =
    let fr = w.frame m.count in
    let k = quieted m.kernel in
    let p = (slot_loop 6 0 1 (m.kernel.processes)).0 in
    let flag = m.kernel.console.io.interrupts in
    let t = slot_loop-IsTaking (k.processes) h.room in
    let (k₁, call, s, run, block, image) =
      execute-IsRunning ((w.outside m.count).device) fr command name arg_buffer d len k
        (quieted-IsLoadable fr command name arg_buffer d len (m.kernel) h) in
    let child =
      IsBlock-IsChild fr arg_buffer p q len k k₁ (quieted-IsCaller p q (m.kernel) c) t.free run
        block in
    let (status, m₁, ended, tame) =
      halts (record { kernel = k₁; count = m.count + 1 }) run.running in
    let child' =
      IsTame-IsChild p q k₁ (quieted m₁.kernel)
        (record {
          running = tame.running;
          processes = tame.processes;
          block = tame.block;
          others = tame.others;
        })
        child in
    let (k₂, back, b) =
      halt-IsBack ((w.outside m₁.count).device) (w.frame m₁.count) status p q (quieted m₁.kernel)
        child' in
    let sp : (m₁.kernel.pcbs p).parent_sp ≡ fr.esp =
      ap (λ x. x.parent_sp) tame.block ∙ block.parent_sp ∙ ground (arith, c.not_first) in
    let bp : (m₁.kernel.pcbs p).parent_bp ≡ fr.ebp =
      ap (λ x. x.parent_bp) tame.block ∙ block.parent_bp ∙ ground (arith, c.not_first) in
    (
      record { kernel = iret flag k₂; count = m₁.count + 1 },
      kernel_execute-entered w command (entry_of (m.kernel.fs) d.inode_num) status m m₁ k₁ k₂ call
          ended (back ∙ ap₂ (λ x y. resumed x y k₂) sp bp),
      b.running,
      refl,
      b.processes ∙ ap (λ x. clear_slot p x) tame.processes ∙ s.undone,
      λ r ne. b.others r ne ∙ tame.others r ne ∙ block.others r ne,
    )
