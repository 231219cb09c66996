-- ===== src/Syscalls/Switch/Saved.antt =====
-- What a switch between the terminals of student-distrib/syscalls.c saves and brings back.
use ece_391_linux_kernel_cla.Prelude.{
  ℕ, ◌<◌, ◌≡◌, ◌≢◌, refl, ◌∙◌, ap, ap₂, sym, subst, true, false, some, Bytes, ◌==◌, arith,
}
use ece_391_linux_kernel_cla.Clib.Memory.{copy}
use ece_391_linux_kernel_cla.Console.{Term, line_size, term_of, move_cursor_to}
use ece_391_linux_kernel_cla.Io.{Device}
use ece_391_linux_kernel_cla.Paging.{load_new_process}
use ece_391_linux_kernel_cla.Syscalls.{Kernel, running_pcb}
use ece_391_linux_kernel_cla.Syscalls.Execute.{resumed, Frame, kernel_or}
use ece_391_linux_kernel_cla.Syscalls.Switch.{
  save_term, restore_screen, leave_term, enter_term, screen_bytes, switch_to_other_term,
}

-- A terminal as a switch with the registers `esp` and `ebp` leaves the current one of kernel `k`.
pub record IsSaved (esp ebp : ℕ) (k : Kernel) (t : Term) : Type 0 where
  pub been_here : t.been_here ≡ (term_of k.console).been_here
  pub running : t.running_pcb ≡ (term_of k.console).running_pcb
  pub registers : (t.current_esp ≡ esp) × (t.current_ebp ≡ ebp)
  pub stack : t.esp0 ≡ k.esp0
  pub cursor : (t.cursor_x ≡ k.console.cursor_x) × (t.cursor_y ≡ k.console.cursor_y)
  pub screen : (j : ℕ) → j < screen_bytes → t.vid_mem j ≡ k.console.video j
  pub line : (j : ℕ) → j < line_size → t.keyboard_buffer j ≡ k.console.input_buffer j

-- Terminal `b` is shown, and its process, in slot `q`, has its image and its stack.
pub record IsShown (b q : ℕ) (k k' : Kernel) : Type 0 where
  pub current : k'.console.current_terminal ≡ b
  pub running : running_pcb k' ≡ some q
  pub cursor :
      (k'.console.cursor_x ≡ (k.console.terms b).cursor_x)
      × (k'.console.cursor_y ≡ (k.console.terms b).cursor_y)
  pub screen : (j : ℕ) → j < screen_bytes → k'.console.video j ≡ (k.console.terms b).vid_mem j
  pub line :
      (j : ℕ) → j < line_size → k'.console.input_buffer j ≡ (k.console.terms b).keyboard_buffer j
  pub stack : k'.esp0 ≡ (k.console.terms b).esp0
  pub tables : k'.tables ≡ load_new_process (k.pcbs q).process_num k.tables
  pub others : (i : ℕ) → i ≢ k.console.current_terminal → k'.console.terms i ≡ k.console.terms i
  pub pcbs : k'.pcbs ≡ k.pcbs
  pub processes : k'.processes ≡ k.processes
  pub images : k'.images ≡ k.images
  -- The count of characters typed is not the terminal's own.
  pub typed : k'.console.length_typed ≡ k.console.length_typed

copy_lt : (m q : Bytes) (n j : ℕ) → j < n → copy m 0 q n j ≡ q j
copy_lt m q n j lt = ground arith

leave_term-IsSaved :
    (b esp ebp : ℕ) (k : Kernel)
    → IsSaved esp ebp k ((leave_term b esp ebp k).console.terms k.console.current_terminal)
unfolding leave_term save_term
leave_term-IsSaved b esp ebp k =
    let e : (k.console.current_terminal == k.console.current_terminal) ≡ true = ground arith in
    record {
      been_here = rw e refl;
      running = rw e refl;
      registers = (rw e refl, rw e refl);
      stack = rw e refl;
      cursor = (rw e refl, rw e refl);
      screen =
          λ j lt. rw e (copy_lt (term_of k.console).vid_mem (k.console.video) screen_bytes j lt);
      line = λ j lt.
          rw e
            (copy_lt (term_of k.console).keyboard_buffer (k.console.input_buffer) line_size j lt);
    }

leave_term-other :
    (b esp ebp i : ℕ) (k : Kernel)
    → i ≢ k.console.current_terminal
    → (leave_term b esp ebp k).console.terms i ≡ k.console.terms i
unfolding leave_term
leave_term-other b esp ebp i k ne =
    let e : (i == k.console.current_terminal) ≡ false = ground arith in rw e refl

-- The terminal that comes back, from a kernel whose current terminal is `b` already.
enter_term-IsShown :
    (q : ℕ) (k : Kernel)
    → running_pcb k ≡ some q
    → (k' : Kernel) × (enter_term k
        ≡ resumed (term_of k.console).current_esp (term_of k.console).current_ebp k')
      × IsShown k.console.current_terminal q k k'
      × (k'.console.terms ≡ k.console.terms)
unfolding enter_term restore_screen move_cursor_to
enter_term-IsShown q k run =
    let t = term_of k.console in
    (
      record k {
        console = restore_screen (k.console);
        tables = load_new_process (k.pcbs q).process_num (k.tables);
        esp0 = t.esp0;
      },
      ground (arith, run),
      record {
        current = refl;
        running = run;
        cursor = (refl, refl);
        screen = λ j lt. copy_lt (k.console.video) t.vid_mem screen_bytes j lt;
        line = λ j lt. copy_lt (k.console.input_buffer) t.keyboard_buffer line_size j lt;
        stack = refl;
        tables = refl;
        others = λ i ne. refl;
        pcbs = refl;
        processes = refl;
        images = refl;
        typed = refl;
      },
      refl,
    )

leave_term-running :
    (b esp ebp q : ℕ) (k : Kernel)
    → b ≢ k.console.current_terminal
    → (k.console.terms b).running_pcb ≡ some q
    → running_pcb (leave_term b esp ebp k) ≡ some q
unfolding leave_term
leave_term-running b esp ebp q k ne run =
    ap (λ t. t.running_pcb) (leave_term-other b esp ebp b k ne) ∙ run

leave_term-IsShown :
    (b esp ebp q : ℕ) (k k' : Kernel)
    → b ≢ k.console.current_terminal
    → IsShown b q (leave_term b esp ebp k) k'
    → k'.console.terms ≡ (leave_term b esp ebp k).console.terms
    → IsShown b q k k'
unfolding leave_term
leave_term-IsShown b esp ebp q k k' ne s terms =
    let same : (leave_term b esp ebp k).console.terms b ≡ k.console.terms b =
      leave_term-other b esp ebp b k ne in
    record {
      current = s.current;
      running = s.running;
      cursor = (s.cursor.0 ∙ ap (λ t. t.cursor_x) same, s.cursor.1 ∙ ap (λ t. t.cursor_y) same);
      screen = λ j lt. s.screen j lt ∙ ap (λ t. t.vid_mem j) same;
      line = λ j lt. s.line j lt ∙ ap (λ t. t.keyboard_buffer j) same;
      stack = s.stack ∙ ap (λ t. t.esp0) same;
      tables = s.tables;
      others = λ i d. ap (λ f. f i) terms ∙ leave_term-other b esp ebp i k d;
      pcbs = s.pcbs;
      processes = s.processes;
      images = s.images;
      typed = s.typed;
    }

-- A switch to terminal `b`, another than the current one, in which the process in slot `q` runs,
-- goes on with the stack that terminal `b` was left with. It shows what is saved of terminal `b`,
-- and saves the terminal that is left.
pub switch_to_other_term-IsShown :
    (device : Device) (fr : Frame) (b esp ebp q : ℕ) (k : Kernel)
    → b ≢ k.console.current_terminal
    → (k.console.terms b).been_here ≡ 1
    → (k.console.terms b).running_pcb ≡ some q
    → (k' : Kernel) × (switch_to_other_term device fr b esp ebp k
        ≡ resumed (k.console.terms b).current_esp (k.console.terms b).current_ebp k')
      × IsShown b q k k'
      × IsSaved esp ebp k (k'.console.terms k.console.current_terminal)
unfolding switch_to_other_term leave_term
switch_to_other_term-IsShown device fr b esp ebp q k ne here run =
    let l = leave_term b esp ebp k in
    let same = leave_term-other b esp ebp b k ne in
    let (k', e, shown, terms) =
      enter_term-IsShown q (leave_term b esp ebp k) (leave_term-running b esp ebp q k ne run) in
    let call : switch_to_other_term device fr b esp ebp k ≡ enter_term (leave_term b esp ebp k) =
      ground (arith, here) in
    (
      k',
      call ∙ e ∙ ap (λ t. resumed t.current_esp t.current_ebp k') same,
      leave_term-IsShown b esp ebp q k k' ne shown terms,
      subst (IsSaved esp ebp k) (sym (ap (λ f. f k.console.current_terminal) terms))
          (leave_term-IsSaved b esp ebp k),
    )

-- Terminal `a` is shown as in `k`, where the process in slot `p` runs.
pub record IsBackIn (a p : ℕ) (k k' : Kernel) : Type 0 where
  pub current : k'.console.current_terminal ≡ a
  pub running : running_pcb k' ≡ some p
  pub cursor :
      (k'.console.cursor_x ≡ k.console.cursor_x) × (k'.console.cursor_y ≡ k.console.cursor_y)
  pub screen : (j : ℕ) → j < screen_bytes → k'.console.video j ≡ k.console.video j
  pub line : (j : ℕ) → j < line_size → k'.console.input_buffer j ≡ k.console.input_buffer j
  pub stack : k'.esp0 ≡ k.esp0

-- A switch from terminal `a`, which is open, to the open terminal `b`, then any change of the
-- kernel that leaves terminal `b` shown and what is saved of terminal `a` alone, then a switch
-- back to terminal `a`: the second switch goes on with the stack on which the first was called,
-- and the screen, the line, the cursor, the running process and the kernel stack are those of that
-- time.
pub switch_to_other_term-back :
    (device : Device) (fr fr' : Frame) (a b esp ebp esp' ebp' sp bp p q : ℕ) (k k₁ k₂ : Kernel)
    → k.console.current_terminal ≡ a
    → b ≢ a
    → (k.console.terms a).been_here ≡ 1
    → (k.console.terms a).running_pcb ≡ some p
    → (k.console.terms b).been_here ≡ 1
    → (k.console.terms b).running_pcb ≡ some q
    → switch_to_other_term device fr b esp ebp k ≡ resumed sp bp k₁
    → k₂.console.current_terminal ≡ b
    → k₂.console.terms a ≡ k₁.console.terms a
    → (k₃ : Kernel) × (switch_to_other_term device fr' a esp' ebp' k₂ ≡ resumed esp ebp k₃)
      × IsBackIn a p k k₃
unfolding kernel_or
switch_to_other_term-back device fr fr' a b esp ebp esp' ebp' sp bp p q k k₁ k₂ cur ne first run
      here run' left now same =
    let at : term_of k.console ≡ k.console.terms a = ap (λ i. k.console.terms i) cur in
    let (k', e, shown, saved) =
      switch_to_other_term-IsShown device fr b esp ebp q k (λ x. ne (x ∙ cur)) here run' in
    let same' : k'.console.terms k.console.current_terminal ≡ k₂.console.terms a =
      ap (λ i. k'.console.terms i) cur
      ∙ ap (λ o. (kernel_or k o).console.terms a) (sym e ∙ left)
      ∙ sym same in
    let s = subst (IsSaved esp ebp k) same' saved in
    let (k₃, f, back, again) =
      switch_to_other_term-IsShown device fr' a esp' ebp' p k₂ (λ x. ne (sym (x ∙ now)))
        (s.been_here ∙ ap (λ t. t.been_here) at ∙ first)
        (s.running ∙ ap (λ t. t.running_pcb) at ∙ run) in
    (
      k₃,
      f ∙ ap₂ (λ x y. resumed x y k₃) s.registers.0 s.registers.1,
      record {
        current = back.current;
        running = back.running;
        cursor = (back.cursor.0 ∙ s.cursor.0, back.cursor.1 ∙ s.cursor.1);
        screen = λ j lt. back.screen j lt ∙ s.screen j lt;
        line = λ j lt. back.line j lt ∙ s.line j lt;
        stack = back.stack ∙ s.stack;
      },
    )
