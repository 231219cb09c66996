-- ===== src/Syscalls/Execute/Started.antt =====
-- What `execute` of student-distrib/syscalls.c has done when it goes to user level.
pub mod Entered
pub mod Loaded
use ece_391_linux_kernel_cla.Prelude.{
  ℕ, ◌+◌, ◌-◌, ◌≤◌, ◌<◌, ◌≡◌, ◌≢◌, refl, ◌∙◌, ap, ap₂, sym, subst, Bool, true, false, ◌&&◌, Option,
  none, some, ℤ, pos, minus_one, Bytes, IsString, literal, word, shift, u32_mod, min, ◌==◌, ◌!=◌,
  ltb, if◌then◌else◌, dec_lt, ℕ_discrete, arith,
}
use ece_391_linux_kernel_cla.Clib.{strlen, strncpy}
use ece_391_linux_kernel_cla.Clib.Strings.{strlen-IsString}
use ece_391_linux_kernel_cla.Clib.Copies.{padded, strncpy-padded}
use ece_391_linux_kernel_cla.Console.{Console, Term, term_of, put_term, term_of-put_term}
use ece_391_linux_kernel_cla.FileSystem.{
  Dentry, Lookup, missing, found, read_dentry_by_name, read_data, length_in_bytes,
}
use ece_391_linux_kernel_cla.FileSystem.Blocks.{content}
use ece_391_linux_kernel_cla.FileSystem.Reading.{transferred, read_data-content}
use ece_391_linux_kernel_cla.Io.{Device}
use ece_391_linux_kernel_cla.Paging.{load_new_process}
use ece_391_linux_kernel_cla.Syscalls.{Kernel, Pcb, FileData, running_pcb, fd_of}
use ece_391_linux_kernel_cla.Syscalls.Command.{parse_command, filename_size, max_arg_buf_size}
use ece_391_linux_kernel_cla.Syscalls.Descriptors.{IsFdChange, IsFdChange-running}
use ece_391_linux_kernel_cla.Syscalls.Slots.{slot_loop, max_processes, IsTaking, slot_loop-IsTaking}
use ece_391_linux_kernel_cla.Syscalls.Execute.{
  Outcome, entered, Frame, is_program, put_image, load_image, image_room, init_pcb, install, enter,
  start_process, execute, parent_of, store_args, quieted, kernel_stack, kernel_ds, image_offset,
  is_minus_one,
}
use ece_391_linux_kernel_cla.Syscalls.Execute.Started.Entered.{IsEntered, enter-IsEntered}
pub use ece_391_linux_kernel_cla.Syscalls.Execute.Started.Loaded.{
  IsLoadable, IsImage, entry_of, put_image-IsImage, store_args-padded, read_entry, read_entry-word,
}

-- The control block of the new process. A descriptor from 2 on is as the last process in that slot
-- has left it.
pub record IsBlock (fr : Frame) (arg_buffer : Bytes) (p len : ℕ) (k k' : Kernel) : Type 0 where
  pub number : (k'.pcbs p).process_num ≡ p
  pub parent : (k'.pcbs p).parent_pcb ≡ (if p == 0 then none else parent_of k)
  pub parent_sp : (k'.pcbs p).parent_sp ≡ (if p == 0 then 0 else fr.esp)
  pub parent_bp : (k'.pcbs p).parent_bp ≡ (if p == 0 then 0 else fr.ebp)
  pub term_start :
      (k'.pcbs p).term_start
      ≡ (if (term_of k.console).been_here != 1 then 1 else (k.pcbs p).term_start)
  pub args :
      (j : ℕ) → j < max_arg_buf_size → (k'.pcbs p).args j ≡ (if ltb j len then arg_buffer j else 0)
  pub used : (fd : ℕ) → fd ≤ 1 → (fd_of p fd k').in_use ≡ 1
  pub stale : (fd : ℕ) → 2 ≤ fd → fd_of p fd k' ≡ fd_of p fd k
  pub others : (q : ℕ) → q ≢ p → k'.pcbs q ≡ k.pcbs q

-- The process in slot `p` runs in terminal `current_terminal`, on its kernel stack and in its image.
pub record IsRunning (p : ℕ) (k k' : Kernel) : Type 0 where
  pub running : running_pcb k' ≡ some p
  pub been_here : (term_of k'.console).been_here ≡ 1
  pub terminal : k'.console.current_terminal ≡ k.console.current_terminal
  pub elsewhere : (i : ℕ) → i ≢ k.console.current_terminal → k'.console.terms i ≡ k.console.terms i
  pub tables : k'.tables ≡ load_new_process p k.tables
  pub stack : k'.esp0 ≡ kernel_stack p
  pub segment : k'.ss0 ≡ kernel_ds
  pub quiet : k'.console.io.interrupts ≡ false
  pub fs : k'.fs ≡ k.fs

-- The kernel before the descriptors are opened.
abbrev loaded_kernel : Dentry → ℕ → ℕ → Bytes → Kernel → Kernel
loaded_kernel d p processes entry_point k = put_image d.inode_num p (record k {
  processes = processes;
  tables = load_new_process p (k.tables);
  entry_point = entry_point;
})

module _ (device : Device) (fr : Frame) (command name arg_buffer : Bytes) (d : Dentry) (len : ℕ)
    (k : Kernel) (h : IsLoadable fr command name arg_buffer d len k) where
  abbrev slot : ℕ × ℕ
  slot = slot_loop 6 0 1 k.processes

  abbrev k₂ : Kernel
  k₂ = loaded_kernel d slot.0 slot.1 (read_entry d k) (quieted k)

  abbrev k₃ : Kernel
  k₃ = install slot.0 (init_pcb fr slot.0 name arg_buffer len k₂) k₂

  execute-start :
      execute device fr (some command) k ≡ start_process device fr name arg_buffer d (quieted k)
  unfolding execute
  execute-start =
      let room : (max_processes == k.processes) ≡ false = ground (arith, h.room) in
      ground (arith, h.parsed, h.entry, h.program, room)

  loaded :
      load_image d.inode_num slot.0 (record (quieted k) {
        processes = slot.1;
        tables = load_new_process slot.0 (k.tables);
        entry_point = read_entry d k;
      })
      ≡ some k₂
  unfolding load_image
  loaded =
      let fits : ltb image_room (length_in_bytes k.fs d.inode_num) ≡ false =
        ground (arith, h.small) in
      rw fits refl

  start_process-enter :
      start_process device fr name arg_buffer d (quieted k) ≡ enter device slot.0 k₃
  unfolding start_process
  start_process-enter =
      rw
        (
          (read_entry-word d k h.header h.small).1,
          loaded,
          strlen-IsString arg_buffer len h.arguments h.fits,
        )
        refl

  install-running : running_pcb k₃ ≡ some slot.0
  unfolding install
  install-running =
      ap (λ t. t.running_pcb)
        (term_of-put_term (record (term_of k₂.console) { running_pcb = some slot.0; been_here = 1 })
          (k₂.console))

  install-block : k₃.pcbs slot.0 ≡ init_pcb fr slot.0 name arg_buffer len k₂
  unfolding install
  install-block = let e : (slot.0 == slot.0) ≡ true = ground arith in rw e refl

  install-other : (q : ℕ) → q ≢ slot.0 → k₃.pcbs q ≡ k.pcbs q
  unfolding install put_image
  install-other q ne = let e : (q == slot.0) ≡ false = ground arith in rw e refl

  install-IsImage : IsImage slot.0 d k k₃
  unfolding install
  install-IsImage =
      let i =
        put_image-IsImage slot.0 d
          (record (quieted k) {
            processes = slot.1;
            tables = load_new_process slot.0 (k.tables);
            entry_point = read_entry d k;
          })
          h.header h.small in
      record { loaded = i.loaded; behind = i.behind; before = i.before; apart = i.apart }

  module _ (k' : Kernel) (e : IsEntered slot.0 k₃ k') where
    -- A field of the block that is no descriptor is as `init_pcb` has set it.
    block-field :
        {A : Type 0} (field : Pcb → A)
        → ((x : Pcb) (fds : ℕ → FileData) → field (record x { fd_array = fds }) ≡ field x)
        → field (k'.pcbs slot.0) ≡ field (init_pcb fr slot.0 name arg_buffer len k₂)
    block-field field same =
        ap field e.change.block
        ∙ same (k₃.pcbs slot.0) ((k'.pcbs slot.0).fd_array)
        ∙ ap field install-block

    enter-IsBlock : IsBlock fr arg_buffer slot.0 len k k'
    unfolding init_pcb put_image
    enter-IsBlock = record {
      number = block-field (λ x. x.process_num) (λ x fds. refl);
      parent = block-field (λ x. x.parent_pcb) (λ x fds. refl);
      parent_sp = block-field (λ x. x.parent_sp) (λ x fds. refl);
      parent_bp = block-field (λ x. x.parent_bp) (λ x fds. refl);
      term_start = block-field (λ x. x.term_start) (λ x fds. refl);
      args = λ j lt.
          ap (λ a. a j) (block-field (λ x. x.args) (λ x fds. refl))
          ∙ store_args-padded ((k.pcbs slot.0).args) arg_buffer len j h.arguments lt;
      used = e.used;
      stale = λ fd le. e.others fd le ∙ ap (λ x. x.fd_array fd) install-block;
      others = λ q ne. e.change.others q ne ∙ install-other q ne;
    }

    enter-IsImage : IsImage slot.0 d k k'
    enter-IsImage =
        let s : k'.images ≡ k₃.images = ap (λ x. x.images) e.change.rest in
        let i = install-IsImage in
        record {
          loaded = λ j lt. ap (λ f. f slot.0 (image_offset + j)) s ∙ i.loaded j lt;
          behind = λ j le. ap (λ f. f slot.0 (image_offset + j)) s ∙ i.behind j le;
          before = λ j lt. ap (λ f. f slot.0 j) s ∙ i.before j lt;
          apart = λ q ne. ap (λ f. f q) s ∙ i.apart q ne;
        }

    enter-IsRunning : IsRunning slot.0 k k'
    unfolding install put_image
    enter-IsRunning =
        let c : k'.console ≡ k₃.console = ap (λ x. x.console) e.change.rest in
        let t : term_of k₃.console
            ≡ record (term_of k₂.console) { running_pcb = some slot.0; been_here = 1 } =
          term_of-put_term
            (record (term_of k₂.console) { running_pcb = some slot.0; been_here = 1 })
            (k₂.console) in
        record {
          running = ap (λ x. (term_of x).running_pcb) c ∙ install-running;
          been_here = ap (λ x. (term_of x).been_here) c ∙ ap (λ x. x.been_here) t;
          terminal = ap (λ x. x.current_terminal) c;
          elsewhere = λ i ne.
              let o : (i == k.console.current_terminal) ≡ false = ground arith in
              ap (λ x. x.terms i) c ∙ rw o refl;
          tables = ap (λ x. x.tables) e.change.rest;
          stack = e.stack;
          segment = e.segment;
          quiet = ap (λ x. x.io.interrupts) c;
          fs = ap (λ x. x.fs) e.change.rest;
        }

  -- `execute` of a command of at most 31 characters that names an executable file of at least 28
  -- bytes and at most the 3899392 that the page of the image has room for, with a slot free, does not
  -- return: it takes the lowest free slot, loads the whole file into that slot's image, links the
  -- block to the parent, opens the terminal's two descriptors and goes to the address in the file's
  -- header. The other processes and terminals are not changed.
  pub execute-IsRunning :
      (k' : Kernel) × (execute device fr (some command) k ≡ entered (entry_of k.fs d.inode_num) k')
      × IsTaking k.processes slot.0 k'.processes
      × IsRunning slot.0 k k'
      × IsBlock fr arg_buffer slot.0 len k k'
      × IsImage slot.0 d k k'
  unfolding install put_image
  execute-IsRunning =
      let (k', call, e) = enter-IsEntered device slot.0 k₃ install-running in
      (
        k',
        execute-start
            ∙ start_process-enter
            ∙ call
            ∙ ap (λ a. entered a k') (read_entry-word d k h.header h.small).0,
        subst (IsTaking k.processes slot.0) (sym (ap (λ x. x.processes) e.change.rest))
            (slot_loop-IsTaking k.processes h.room),
        enter-IsRunning k' e,
        enter-IsBlock k' e,
        enter-IsImage k' e,
      )
