-- ===== src/Syscalls/Execute.antt =====
-- `execute` of student-distrib/syscalls.c.
pub mod Started
pub mod Refused
pub mod Absent
mod Tests
use ece_391_linux_kernel_cla.Prelude.{
  ℕ, ◌+◌, ◌-◌, ◌*◌, Bool, true, false, List, [], ◌∷◌, Option, none, some, ℤ, pos, negsuc, minus_one,
  is_zero, Bytes, literal, store, shift, word, get_or, ◌==◌, ◌!=◌, ltb, if◌then◌else◌,
}
use ece_391_linux_kernel_cla.Clib.{strlen, strncmp, strncpy}
use ece_391_linux_kernel_cla.Console.{Console, Term, term_of, put_term}
use ece_391_linux_kernel_cla.FileSystem.{
  Dentry, missing, found, read_dentry_by_name, read_data, length_in_bytes,
}
use ece_391_linux_kernel_cla.Io.{Device, cli}
use ece_391_linux_kernel_cla.Paging.{load_new_process}
use ece_391_linux_kernel_cla.Printf.{printf}
use ece_391_linux_kernel_cla.Syscalls.{Kernel, Pcb, running_pcb, syscall_open}
use ece_391_linux_kernel_cla.Syscalls.Command.{parse_command, filename_size, max_arg_buf_size}
use ece_391_linux_kernel_cla.Syscalls.Slots.{slot_loop, max_processes, max_processes_dec}

-- How a call ends: it returns; it goes to user level at an address (`switch_to_user`); or it goes on
-- with another call's stack, as `halt` does. `fault` is NULL read as a block, no end of a scan, a page
-- fault, or a write behind the end of a local buffer, of which C does not say what it does.
pub data Outcome : Type 0 where
  fault : Outcome
  returned : ℤ → Kernel → Outcome
  entered : ℕ → Kernel → Outcome
  resumed : ℕ → ℕ → Kernel → Outcome

-- The kernel that a call ends with.
unfoldable pub kernel_or : Kernel → Outcome → Kernel
kernel_or k fault = k
kernel_or k (returned r k') = k'
kernel_or k (entered eip k') = k'
kernel_or k (resumed esp ebp k') = k'

-- What a call of `execute` finds on its stack: the local buffers, the stack's registers, and what
-- `printf` may look at.
pub record Frame : Type 0 where
  pub file_name : Bytes
  pub arg_buffer : Bytes
  pub is_executable : Bytes
  pub esp : ℕ
  pub ebp : ℕ
  pub words : ℕ → ℕ
  pub memory : Bytes
  pub conv_buf : Bytes

abbrev pub executable_bytes : ℕ
executable_bytes = 4

abbrev pub exec_bits : Bytes
exec_bits i = get_or (0x7F ∷ 0x45 ∷ 0x4C ∷ 0x46 ∷ []) i 0

abbrev pub kernel_ds : ℕ
kernel_ds = 0x18

-- Where the program image starts, behind 128 MB.
abbrev pub image_offset : ℕ
image_offset = 0x48000

-- The bytes from there to the end of the 4 MB page. Behind it at most the page of `vidmap` is present;
-- a copy that goes on into that one is not followed.
abbrev pub image_room : ℕ
image_room = 3899392

-- The top of the kernel stack of the process in slot `p`.
abbrev pub kernel_stack : ℕ → ℕ
kernel_stack p = 8388608 - 8192 * p - 4

abbrev pub is_minus_one : ℤ → Bool
is_minus_one (pos n) = false
is_minus_one (negsuc n) = n == 0

-- Does the file hold anything, and does it begin with the four bytes of an executable?
unfoldable pub is_program : Frame → Bytes → ℕ → Bool
is_program fr fs inode =
    let (r, magic) = read_data fs inode 0 fr.is_executable executable_bytes in
    if is_minus_one r then false else is_zero (strncmp magic exec_bits executable_bytes)

-- The image of slot `p` with the file in it.
unfoldable pub put_image : ℕ → ℕ → Kernel → Kernel
put_image inode p k =
    let at = shift (k.images p) image_offset in
    let out = (read_data k.fs inode 0 at (length_in_bytes k.fs inode)).1 in
    record k {
      images = λ q.
          if q == p
          then (λ j. if ltb j image_offset then k.images q j else out (j - image_offset))
          else k.images q;
    }

-- The whole file goes to the program image of slot `p`, and faults behind the page's end. What
-- `read_data` returns is not looked at; that it can read the file is known from the entry point.
unfoldable pub load_image : ℕ → ℕ → Kernel → Option Kernel
unfolding put_image
load_image inode p k =
    if ltb image_room (length_in_bytes k.fs inode) then none else some (put_image inode p k)

-- The first process of a terminal has no parent.
abbrev pub parent_of : Kernel → Option ℕ
parent_of k = if (term_of k.console).been_here == 1 then running_pcb k else none

-- The arguments, if there are any, as far as they fit.
abbrev pub store_args : Bytes → Bytes → ℕ → Bytes
store_args args arg_buffer len =
    if len != 0
    then strncpy args arg_buffer (if ltb max_arg_buf_size len then max_arg_buf_size else len)
    else args

-- The block of the new process, where `len` is the length of the arguments. `term_start` is set for
-- the first process of a terminal; otherwise it stays as the slot's last process left it.
unfoldable pub init_pcb : Frame → ℕ → Bytes → Bytes → ℕ → Kernel → Pcb
init_pcb fr p name arg_buffer len k =
    let old = k.pcbs p in
    record old {
      process_num = p;
      parent_sp = if p == 0 then 0 else fr.esp;
      parent_bp = if p == 0 then 0 else fr.ebp;
      parent_pcb = if p == 0 then none else parent_of k;
      filename = strncpy (strncpy old.filename (literal "") filename_size) name filename_size;
      args = store_args (strncpy old.args (literal "") max_arg_buf_size) arg_buffer len;
      term_start = if (term_of k.console).been_here != 1 then 1 else old.term_start;
    }

-- The block is stored, and the terminal runs the new process.
unfoldable pub install : ℕ → Pcb → Kernel → Kernel
install p pcb k = record k {
  pcbs = λ q. if q == p then pcb else k.pcbs q;
  console =
      put_term (record (term_of k.console) { running_pcb = some p; been_here = 1 }) (k.console);
}

-- `open("stdin")`, `open("stdout")`, and the jump to user level.
unfoldable pub enter : Device → ℕ → Kernel → Outcome
enter device p k = elim (syscall_open device (literal "stdin") k) [
  | none ↦ fault
  | some (r, k₁) ↦ elim (syscall_open device (literal "stdout") k₁) [
    | none ↦ fault
    | some (r', k₂) ↦
        entered (word (k₂.entry_point)) (record k₂ { esp0 = kernel_stack p; ss0 = kernel_ds })
  ]
]

-- From the choice of a slot on. If the entry point cannot be read, the slot stays taken.
unfoldable pub start_process : Device → Frame → Bytes → Bytes → Dentry → Kernel → Outcome
start_process device fr name arg_buffer d k =
    let (p, processes) = slot_loop max_processes_dec 0 1 k.processes in
    let (r, entry_point) = read_data k.fs d.inode_num 24 k.entry_point executable_bytes in
    let k₁ = record k { processes = processes; tables = load_new_process p (k.tables) } in
    let k₂ = record k₁ { entry_point = entry_point } in
    if is_minus_one r then returned minus_one k₂ else elim (load_image d.inode_num p k₂) [
      | none ↦ fault
      | some k₃ ↦ elim (strlen arg_buffer) [
        | none ↦ fault
        | some len ↦ enter device p (install p (init_pcb fr p name arg_buffer len k₃) k₃)
      ]
    ]

abbrev pub full_message : Bytes
full_message = literal "Max number of processes reached\n"

-- The six slots are taken: a message, and -10.
unfoldable pub refuse : Frame → Kernel → Outcome
refuse fr k = elim (printf fr.words fr.memory fr.conv_buf full_message (k.console)) [
  | none ↦ fault
  | some (n, c) ↦ returned (negsuc 9) (record k { console = c })
]

-- With interrupts disabled. (`processes == NULL` sets `processes` to 0, which it is.)
abbrev pub quieted : Kernel → Kernel
quieted k = record k { console = record (k.console) { io = cli (k.console.io) } }

unfoldable pub execute : Device → Frame → Option Bytes → Kernel → Outcome
execute device fr none k = returned minus_one (quieted k)
execute device fr (some command) k = elim (parse_command fr.file_name fr.arg_buffer command) [
  | none ↦ fault
  | some (name, arg_buffer) ↦ elim (read_dentry_by_name k.fs (some name)) [
    | none ↦ fault
    | some l ↦ elim l [
      | missing ↦ returned minus_one (quieted k)
      | found d ↦
          if is_program fr k.fs d.inode_num
          then (if max_processes == k.processes
              then refuse fr (quieted k)
              else start_process device fr name arg_buffer d (quieted k))
          else returned minus_one (quieted k)
    ]
  ]
]
