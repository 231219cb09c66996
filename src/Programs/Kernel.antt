-- ===== src/Programs/Kernel.antt =====
-- The system calls of student-distrib/syscalls.c as the interface of the user programs, through the
-- dispatch of student-distrib/syscall_handler.S: interrupts are disabled on entry, and the user's
-- flags come back at the end. What an executed program does until it halts is a parameter.
pub mod Files
pub mod Refusals
pub mod Opening
pub mod Directory
pub mod Executed
use ece_391_linux_kernel_cla.Prelude.{
  ℕ, ◌+◌, Bool, true, false, ◌&&◌, Option, none, some, List, [], ◌∷◌, ℤ, pos, negsuc, minus_one,
  Bytes, to_u32, get_or, ◌==◌, ltb, leb, if◌then◌else◌,
}
use ece_391_linux_kernel_cla.Syscalls.{
  Kernel, Outside, running_pcb, read, write, syscall_open, close,
}
use ece_391_linux_kernel_cla.Syscalls.Args.{getargs}
use ece_391_linux_kernel_cla.Syscalls.Execute.{
  fault, returned, entered, resumed, Frame, quieted, execute,
}
use ece_391_linux_kernel_cla.Syscalls.Halt.{halt}
use ece_391_linux_kernel_cla.Syscalls.Switch.{vidmap, set_handler}
use ece_391_linux_kernel_cla.Programs.{Program, Calls, pure, ◌>>=◌}

-- The kernel, and how many system calls there were.
pub record System : Type 0 where
  pub kernel : Kernel
  pub count : ℕ

-- The entries of the table `syscalls`.
pub data Entry : Type 0 where
  halt_entry : Entry
  execute_entry : Entry
  read_entry : Entry
  write_entry : Entry
  open_entry : Entry
  close_entry : Entry
  getargs_entry : Entry
  vidmap_entry : Entry
  set_handler_entry : Entry
  sigreturn_entry : Entry

abbrev syscalls : List (Option Entry)
syscalls =
    none
    ∷ some halt_entry
    ∷ some execute_entry
    ∷ some read_entry
    ∷ some write_entry
    ∷ some open_entry
    ∷ some close_entry
    ∷ some getargs_entry
    ∷ some vidmap_entry
    ∷ some set_handler_entry
    ∷ some sigreturn_entry
    ∷ []

-- The signed bounds of `syscall_handler`, and the table.
unfoldable pub find_call : ℤ → Option Entry
find_call (negsuc n) = none
find_call (pos n) = if leb 1 n && leb n 10 then get_or syscalls n none else none

-- What the calls meet outside the kernel: for the call of each number, the devices and interrupts,
-- and the frame of `execute` and `halt`. `child` is what the program at an entry point does until it
-- halts: the status, and the system then. `other` is a call with arbitrary registers.
pub record Surroundings : Type 0 where
  pub outside : ℕ → Outside
  pub frame : ℕ → Frame
  pub rodata : Bytes
  pub v_m_page_table : ℕ
  pub child : ℕ → Program System ℕ
  pub other : Entry → Program System ℤ

-- The flags that `iret` restores.
abbrev pub iret : Bool → Kernel → Kernel
iret flag k = record k {
  console = record (k.console) { io = record (k.console.io) { interrupts = flag } };
}

-- `int $0x80`, for a call that returns.
unfoldable pub system_call : {A : Type 0} → (Kernel → Option (A × Kernel)) → Program System A
system_call call m = elim (call (quieted m.kernel)) [
  | none ↦ none
  | some (a, k) ↦
      some (a, record { kernel = iret (m.kernel.console.io.interrupts) k; count = m.count + 1 })
]

abbrev pub or_else : {A : Type 0} → A → Option A → A
or_else a none = a
or_else a (some b) = b

-- `read` with a buffer.
unfoldable pub call_read : Outside → ℕ → Bytes → ℕ → Kernel → Option ((ℤ × Bytes) × Kernel)
call_read o fd buf nbytes k = elim (read o fd (some buf) nbytes k) [
  | none ↦ none
  | some (r, out, k') ↦ some ((r, or_else buf out), k')
]

-- `getargs` of the process that runs.
unfoldable pub call_getargs : Bytes → Bytes → ℤ → Kernel → Option ((ℤ × Bytes) × Kernel)
call_getargs rodata buf nbytes k = elim (running_pcb k) [
  | none ↦ none
  | some p ↦ elim (getargs rodata ((k.pcbs p).args) (some buf) nbytes) [
    | none ↦ none
    | some (r, out) ↦ some ((r, or_else buf out), k)
  ]
]

module _ (w : Surroundings) where
  unfoldable pub kernel_read : ℤ → Bytes → ℤ → Program System (ℤ × Bytes)
  unfolding system_call call_read
  kernel_read fd buf nbytes m =
      system_call (call_read (w.outside m.count) (to_u32 fd) buf (to_u32 nbytes)) m

  unfoldable pub kernel_write : ℤ → Bytes → ℤ → Program System ℤ
  unfolding system_call
  kernel_write fd buf nbytes m =
      system_call (write ((w.outside m.count).device) (to_u32 fd) (some buf) (to_u32 nbytes)) m

  unfoldable pub kernel_open : Bytes → Program System ℤ
  unfolding system_call
  kernel_open name m = system_call (syscall_open ((w.outside m.count).device) name) m

  unfoldable pub kernel_close : ℤ → Program System ℤ
  unfolding system_call
  kernel_close fd = system_call (close (to_u32 fd))

  unfoldable pub kernel_getargs : Bytes → ℤ → Program System (ℤ × Bytes)
  unfolding system_call call_getargs
  kernel_getargs buf nbytes = system_call (call_getargs w.rodata buf nbytes)

  unfoldable pub kernel_vidmap : ℕ → Program System (ℤ × Option ℕ)
  unfolding system_call
  kernel_vidmap at =
      system_call (λ k. let (r, put, k') = vidmap w.v_m_page_table at k in some ((r, put), k'))

  unfoldable pub kernel_set_handler : ℤ → ℕ → Program System ℤ
  unfolding system_call
  kernel_set_handler signum handler =
      system_call (λ k. some (set_handler (to_u32 signum) handler, k))

  -- `halt` of the program that was executed. It goes back to the stack of the call, where `execute`
  -- returns 0, or the call does not return.
  unfoldable pub return_from : Bool → ℕ → ℕ → ℕ → Program System ℤ
  return_from flag esp ebp status m =
      elim (halt ((w.outside m.count).device) (w.frame m.count) status (quieted m.kernel)) [
        | fault ↦ none
        | returned r k ↦ none
        | entered eip k ↦ none
        | resumed esp' ebp' k ↦
            if (esp' == esp) && (ebp' == ebp)
            then some (pos 0, record { kernel = iret flag k; count = m.count + 1 })
            else none
      ]

  unfoldable pub kernel_execute : Bytes → Program System ℤ
  unfolding return_from
  kernel_execute command m =
      let flag = m.kernel.console.io.interrupts in
      let fr = w.frame m.count in
      elim (execute ((w.outside m.count).device) fr (some command) (quieted m.kernel)) [
        | fault ↦ none
        | returned r k ↦ some (r, record { kernel = iret flag k; count = m.count + 1 })
        | entered eip k ↦ elim (w.child eip (record { kernel = k; count = m.count + 1 })) [
          | none ↦ none
          | some (status, m') ↦ return_from flag fr.esp fr.ebp status m'
        ]
        | resumed esp ebp k ↦ none
      ]

  -- A number that is out of bounds is refused.
  unfoldable pub kernel_int80 : ℤ → Program System ℤ
  unfolding find_call system_call
  kernel_int80 num = elim (find_call num) [
    | none ↦ system_call (λ k. some (minus_one, k))
    | some e ↦ w.other e
  ]

  abbrev pub kernel_calls : Calls System
  kernel_calls = record {
    ece391_execute = kernel_execute;
    ece391_read = kernel_read;
    ece391_write = kernel_write;
    ece391_open = kernel_open;
    ece391_close = kernel_close;
    ece391_getargs = kernel_getargs;
    ece391_vidmap = kernel_vidmap;
    ece391_set_handler = kernel_set_handler;
    int80 = kernel_int80;
  }
