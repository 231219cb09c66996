-- ===== src/Syscalls/Halt/Resumed.antt =====
-- How `halt` of student-distrib/syscalls.c gives way to the parent process.
use ece_391_linux_kernel_cla.Prelude.{
  ℕ, ◌≡◌, ◌≢◌, refl, ◌∙◌, ap, ap₂, sym, true, false, some, Bytes, literal, ◌==◌, arith,
}
use ece_391_linux_kernel_cla.Clib.{strncpy}
use ece_391_linux_kernel_cla.Console.{term_of, put_term, term_of-put_term}
use ece_391_linux_kernel_cla.Io.{Device, sti}
use ece_391_linux_kernel_cla.Paging.{load_new_process}
use ece_391_linux_kernel_cla.Syscalls.{Pcb, Kernel, running_pcb, fd_of}
use ece_391_linux_kernel_cla.Syscalls.Command.{filename_size, max_arg_buf_size}
use ece_391_linux_kernel_cla.Syscalls.Execute.{resumed, Frame, kernel_stack, quieted}
use ece_391_linux_kernel_cla.Syscalls.Halt.{close_loop, clear_names, resume, restore_parent, halt}
use ece_391_linux_kernel_cla.Syscalls.Halt.Closing.{closed, IsClosed, close_loop-all}
use ece_391_linux_kernel_cla.Syscalls.Slots.{clear_slot}

-- The process in slot `p` runs; it is not the first of its terminal, and its parent is in slot `q`.
pub record IsChild (p q : ℕ) (k : Kernel) : Type 0 where
  pub running : running_pcb k ≡ some p
  pub number : (k.pcbs p).process_num ≡ p
  pub not_first : p ≢ 0
  pub not_start : (k.pcbs p).term_start ≢ 1
  pub parent : (k.pcbs p).parent_pcb ≡ some q
  pub apart : q ≢ p

-- The parent runs, in its own image and on its own kernel stack; the slot of the process and its
-- descriptors are free.
pub record IsBack (p q : ℕ) (k k' : Kernel) : Type 0 where
  pub running : running_pcb k' ≡ some q
  pub processes : k'.processes ≡ clear_slot p k.processes
  pub tables : k'.tables ≡ load_new_process (k.pcbs q).process_num k.tables
  pub stack : k'.esp0 ≡ kernel_stack (k.pcbs q).process_num
  pub interrupts : k'.console.io.interrupts ≡ true
  pub flags : (j : ℕ) → (fd_of p j k').in_use ≡ closed 0 8 j (fd_of p j k).in_use
  pub others : (r : ℕ) → r ≢ p → k'.pcbs r ≡ k.pcbs r
  pub images : k'.images ≡ k.images
  pub fs : k'.fs ≡ k.fs
  pub terminal : k'.console.current_terminal ≡ k.console.current_terminal
  pub been_here : (term_of k'.console).been_here ≡ (term_of k.console).been_here
  pub elsewhere : (i : ℕ) → i ≢ k.console.current_terminal → k'.console.terms i ≡ k.console.terms i
  pub term_start : (k'.pcbs p).term_start ≡ (k.pcbs p).term_start

clear_names_self :
    (p : ℕ) (k : Kernel)
    → (clear_names p k).pcbs p ≡ record (k.pcbs p) {
      args = strncpy (k.pcbs p).args (literal "") max_arg_buf_size;
      filename = strncpy (k.pcbs p).filename (literal "") filename_size;
    }
unfolding clear_names
clear_names_self p k = let e : (p == p) ≡ true = ground arith in rw e refl

clear_names-other : (p r : ℕ) (k : Kernel) → r ≢ p → (clear_names p k).pcbs r ≡ k.pcbs r
unfolding clear_names
clear_names-other p r k ne = let e : (r == p) ≡ false = ground arith in rw e refl

clear_names-running : (p : ℕ) (k : Kernel) → running_pcb (clear_names p k) ≡ running_pcb k
unfolding clear_names
clear_names-running p k = refl

-- The kernel that `restore_parent` goes on with.
abbrev restored : ℕ → ℕ → Kernel → Kernel
restored p q k = record k {
  old_ebp = (k.pcbs p).parent_bp;
  old_esp = (k.pcbs p).parent_sp;
  console = put_term (record (term_of k.console) { running_pcb = some q }) (k.console);
  tables = load_new_process (k.pcbs q).process_num (k.tables);
}

restored-running : (p q : ℕ) (k : Kernel) → running_pcb (restored p q k) ≡ some q
restored-running p q k =
    ap (λ t. t.running_pcb)
      (term_of-put_term (record (term_of k.console) { running_pcb = some q }) (k.console))

restored-elsewhere :
    (p q i : ℕ) (k : Kernel)
    → i ≢ k.console.current_terminal
    → (restored p q k).console.terms i ≡ k.console.terms i
restored-elsewhere p q i k ne =
    let e : (i == k.console.current_terminal) ≡ false = ground arith in rw e refl

-- The kernel that `resume` ends with.
abbrev handed_back : ℕ → Kernel → Kernel
handed_back q k = record k {
  esp0 = kernel_stack (k.pcbs q).process_num;
  console = record (k.console) { io = sti (k.console.io) };
}

resume-some :
    (q : ℕ) (k : Kernel)
    → running_pcb k ≡ some q
    → resume k ≡ resumed k.old_esp k.old_ebp (handed_back q k)
unfolding resume
resume-some q k run = ground (arith, run)

restore_parent-some :
    (p q : ℕ) (k : Kernel)
    → (k.pcbs p).parent_pcb ≡ some q
    → restore_parent p k
      ≡ resumed (k.pcbs p).parent_sp (k.pcbs p).parent_bp (handed_back q (restored p q k))
unfolding restore_parent
restore_parent-some p q k parent =
    let e = resume-some q (restored p q k) (restored-running p q k) in ground (arith, parent, e)

module _ (device : Device) (fr : Frame) (status p q : ℕ) (k : Kernel) (child : IsChild p q k) where
  abbrev quit : Kernel
  quit = record (quieted k) { processes = clear_slot (k.pcbs p).process_num (k.processes) }

  -- The kernel behind the loop, for the block of the process and for the others.
  module _ (k₁ : Kernel) (c : IsClosed p 0 8 quit k₁) (e : close_loop 8 0 p quit ≡ some k₁) where
    abbrev cleared : Kernel
    cleared = clear_names p k₁

    cleared-block : cleared.pcbs p ≡ record (k.pcbs p) {
      args = (cleared.pcbs p).args;
      filename = (cleared.pcbs p).filename;
      fd_array = (k₁.pcbs p).fd_array;
    }
    cleared-block =
        let blank : Pcb = record (k.pcbs p) {
          args = strncpy (k.pcbs p).args (literal "") max_arg_buf_size;
          filename = strncpy (k.pcbs p).filename (literal "") filename_size;
          fd_array = (k₁.pcbs p).fd_array;
        } in
        let e₀ : cleared.pcbs p ≡ blank =
          clear_names_self p k₁
          ∙ ap {A = Pcb} {B = Pcb}
              (λ x. record x {
                args = strncpy x.args (literal "") max_arg_buf_size;
                filename = strncpy x.filename (literal "") filename_size;
              })
              c.change.block in
        let back : Bytes → Bytes → Pcb = λ a f. record blank { args = a; filename = f } in
        e₀ ∙ sym (ap₂ back (ap (λ x. x.args) e₀) (ap (λ x. x.filename) e₀))

    cleared-other : (r : ℕ) → r ≢ p → cleared.pcbs r ≡ k.pcbs r
    cleared-other r ne = clear_names-other p r k₁ ne ∙ c.change.others r ne

    halt-restore_parent : halt device fr status k ≡ restore_parent p cleared
    unfolding halt
    halt-restore_parent =
        let n : (cleared.pcbs p).process_num ≡ p =
          ap (λ x. x.process_num) cleared-block ∙ child.number in
        let s : (cleared.pcbs p).term_start ≡ (k.pcbs p).term_start =
          ap (λ x. x.term_start) cleared-block in
        ground (arith, child.running, e, n, s, child.not_first, child.not_start)

    cleared-IsBack : IsBack p q k (handed_back q (restored p q cleared))
    unfolding clear_names
    cleared-IsBack = record {
      running = restored-running p q cleared;
      processes =
          ap (λ x. x.processes) c.change.rest ∙ ap (λ n. clear_slot n (k.processes)) child.number;
      tables =
          ap₂ (λ x t. load_new_process x.process_num t) (cleared-other q child.apart)
            (ap (λ x. x.tables) c.change.rest);
      stack = ap (λ x. kernel_stack x.process_num) (cleared-other q child.apart);
      interrupts = refl;
      flags = λ j. ap (λ x. (x.fd_array j).in_use) cleared-block ∙ c.flags j;
      others = cleared-other;
      images = ap (λ x. x.images) c.change.rest;
      fs = ap (λ x. x.fs) c.change.rest;
      terminal = ap (λ x. x.console.current_terminal) c.change.rest;
      been_here =
          ap (λ t. t.been_here)
            (term_of-put_term (record (term_of cleared.console) { running_pcb = some q })
              (cleared.console))
          ∙ ap (λ x. (term_of x.console).been_here) c.change.rest;
      elsewhere = λ i ne.
          restored-elsewhere p q i cleared
            (λ e. ne (e ∙ ap (λ x. x.console.current_terminal) c.change.rest))
          ∙ ap (λ x. x.console.terms i) c.change.rest;
      term_start = ap (λ x. x.term_start) cleared-block;
    }

  -- `halt` in a process that another one has started does not return: it goes on with the stack that
  -- `execute` saved for the parent, and the parent runs again, in its own image and on its own
  -- kernel stack; the slot and the descriptors from 2 on are free, and no other process is changed.
  pub halt-IsBack :
      (k' : Kernel) × (halt device fr status k
        ≡ resumed (k.pcbs p).parent_sp (k.pcbs p).parent_bp k')
      × IsBack p q k k'
  halt-IsBack =
      let (k₁, e, c) = close_loop-all p quit child.running in
      let b = cleared-block k₁ c e in
      (
        handed_back q (restored p q (clear_names p k₁)),
        halt-restore_parent k₁ c e
            ∙ restore_parent-some p q (clear_names p k₁) (ap (λ x. x.parent_pcb) b ∙ child.parent)
            ∙ ap₂ (λ s t. resumed s t (handed_back q (restored p q (clear_names p k₁))))
                (ap (λ x. x.parent_sp) b) (ap (λ x. x.parent_bp) b),
        cleared-IsBack k₁ c e,
      )
