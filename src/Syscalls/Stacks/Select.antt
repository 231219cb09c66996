-- ===== src/Syscalls/Stacks/Select.antt =====
-- `switch_to_other_term` of student-distrib/syscalls.c selects a terminal.
use ece_391_linux_kernel_cla.Prelude.{
  ℕ, ◌≤◌, ◌≡◌, ◌≢◌, refl, sym, subst, ◌∙◌, ap, true, false, List, [], ◌∷◌, some, literal, ◌==◌,
  ℕ_discrete, arith,
}
use ece_391_linux_kernel_cla.Console.{put_term, clear_screen, clear, move_cursor_to}
use ece_391_linux_kernel_cla.Io.{Device}
use ece_391_linux_kernel_cla.Pic.{send_eoi}
use ece_391_linux_kernel_cla.Syscalls.{Kernel}
use ece_391_linux_kernel_cla.Syscalls.Execute.{resumed, Frame, execute}
use ece_391_linux_kernel_cla.Syscalls.Slots.{taken, max_processes}
use ece_391_linux_kernel_cla.Syscalls.Stacks.{
  Stacks, head_of, is_open, select, IsStack-ap, IsSameProcess, IsSameProcess-ap, Implements,
}
use ece_391_linux_kernel_cla.Syscalls.Switch.{switch_to_other_term, open_term, save_term}
use ece_391_linux_kernel_cla.Syscalls.Switch.Saved.{IsSaved, IsShown, switch_to_other_term-IsShown}

-- Nothing that the stacks depend on has changed but the terminal that is shown. Descriptors, and all
-- else of the kernel, may have.
pub record IsSelect (b : ℕ) (k k' : Kernel) : Type 0 where
  pub current : k'.console.current_terminal ≡ b
  pub running : (a : ℕ) → (k'.console.terms a).running_pcb ≡ (k.console.terms a).running_pcb
  pub been_here : (a : ℕ) → (k'.console.terms a).been_here ≡ (k.console.terms a).been_here
  pub blocks : (p : ℕ) → IsSameProcess (k.pcbs p) (k'.pcbs p)
  pub processes : k'.processes ≡ k.processes

pub select-Implements :
    (b : ℕ) (s : Stacks) (k k' : Kernel)
    → Implements s k
    → IsSelect b k k'
    → Implements (select b s) k'
select-Implements b s k k' i e = record {
  current = e.current;
  running = λ a. e.running a ∙ i.running a;
  been_here = λ a. ap (λ x. x == 1) (e.been_here a) ∙ i.been_here a;
  chain = λ a. IsStack-ap k.pcbs k'.pcbs (s.stacks a) (λ p h. e.blocks p) (i.chain a);
  bound = i.bound;
  taken_slot = λ a p h. ap (λ x. taken p x) e.processes ∙ i.taken_slot a p h;
  apart = i.apart;
  free =
      λ p l h z. i.free p l (sym (ap (taken p) e.processes) ∙ h) (sym (e.blocks p).term_start ∙ z);
  booted = λ a p h. ap (taken 0) e.processes ∙ i.booted a p h;
  small = subst (λ n. n ≤ max_processes) (sym e.processes) i.small;
}

shown-IsSelect :
    (b q esp ebp : ℕ) (k k' : Kernel)
    → IsShown b q k k'
    → IsSaved esp ebp k (k'.console.terms k.console.current_terminal)
    → IsSelect b k k'
shown-IsSelect b q esp ebp k k' shown saved = record {
  current = shown.current;
  running = λ a. elim (ℕ_discrete a k.console.current_terminal) [
    | yes e ↦
        ap (λ x. (k'.console.terms x).running_pcb) e
        ∙ saved.running
        ∙ sym (ap (λ x. (k.console.terms x).running_pcb) e)
    | no ne ↦ ap (λ t. t.running_pcb) (shown.others a ne)
  ];
  been_here = λ a. elim (ℕ_discrete a k.console.current_terminal) [
    | yes e ↦
        ap (λ x. (k'.console.terms x).been_here) e
        ∙ saved.been_here
        ∙ sym (ap (λ x. (k.console.terms x).been_here) e)
    | no ne ↦ ap (λ t. t.been_here) (shown.others a ne)
  ];
  blocks = λ p. IsSameProcess-ap (k.pcbs p) (k'.pcbs p) (ap (λ x. x p) shown.pcbs);
  processes = shown.processes;
}

-- A switch to another terminal that is open selects it, and goes on with the stack on which its
-- process was left; all stacks of processes stay.
pub switch_to_other_term-select :
    (device : Device) (fr : Frame) (b esp ebp q : ℕ) (qs : List ℕ) (s : Stacks) (k : Kernel)
    → Implements s k
    → b ≢ s.current
    → s.stacks b ≡ q ∷ qs
    → (k' : Kernel) × (switch_to_other_term device fr b esp ebp k
        ≡ resumed (k.console.terms b).current_esp (k.console.terms b).current_ebp k')
      × Implements (select b s) k'
switch_to_other_term-select device fr b esp ebp q qs s k i ne top =
    let here : (k.console.terms b).been_here ≡ 1 =
      let e = i.been_here b ∙ ap is_open top in ground (arith, e) in
    let (k', e, shown, saved) =
      switch_to_other_term-IsShown device fr b esp ebp q k (λ x. ne (x ∙ i.current)) here
        (i.running b ∙ ap head_of top) in
    (k', e, select-Implements b s k k' i (shown-IsSelect b q esp ebp k k' shown saved))

-- What `open_term` hands to `execute`.
abbrev pub opening : ℕ → ℕ → ℕ → Kernel → Kernel
opening b esp ebp k =
    let c = clear_screen (put_term (save_term esp ebp k) (k.console)) in
    record k { console = record c { io = send_eoi 1 c.io; current_terminal = b } }

opening-IsSelect : (b esp ebp : ℕ) (k : Kernel) → IsSelect b k (opening b esp ebp k)
unfolding save_term clear_screen clear move_cursor_to
opening-IsSelect b esp ebp k = record {
  current = refl;
  running = λ a. elim (ℕ_discrete a k.console.current_terminal) [
    | yes e ↦
        let t : (a == k.console.current_terminal) ≡ true = ground (arith, e) in
        rw t (sym (ap (λ x. (k.console.terms x).running_pcb) e))
    | no ne ↦ let t : (a == k.console.current_terminal) ≡ false = ground arith in rw t refl
  ];
  been_here = λ a. elim (ℕ_discrete a k.console.current_terminal) [
    | yes e ↦
        let t : (a == k.console.current_terminal) ≡ true = ground (arith, e) in
        rw t (sym (ap (λ x. (k.console.terms x).been_here) e))
    | no ne ↦ let t : (a == k.console.current_terminal) ≡ false = ground arith in rw t refl
  ];
  blocks = λ p. record { process_num = refl; parent_pcb = refl; term_start = refl };
  processes = refl;
}

-- A switch to a terminal that is not open executes the shell with that terminal shown.
pub switch_to_other_term-open :
    (device : Device) (fr : Frame) (b esp ebp : ℕ) (s : Stacks) (k : Kernel)
    → Implements s k
    → s.stacks b ≡ []
    → (k' : Kernel) × (switch_to_other_term device fr b esp ebp k
        ≡ execute device fr (some (literal "shell")) k')
      × (k' ≡ opening b esp ebp k)
      × Implements (select b s) k'
unfolding switch_to_other_term open_term
switch_to_other_term-open device fr b esp ebp s k i empty =
    let here : ((k.console.terms b).been_here == 1) ≡ false = i.been_here b ∙ ap is_open empty in
    (
      opening b esp ebp k,
      ground (arith, here),
      refl,
      select-Implements b s k (opening b esp ebp k) i (opening-IsSelect b esp ebp k),
    )
