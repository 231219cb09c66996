-- ===== src/Syscalls/Stacks/Pop.antt =====
-- `halt` of student-distrib/syscalls.c pops a process.
use ece_391_linux_kernel_cla.Prelude.{
  ℕ, ◌<◌, ◌≤◌, ◌≡◌, ◌≢◌, sym, subst, ◌∙◌, ap, true, false, List, ◌∷◌, ◌==◌, ℕ_discrete, arith,
}
use ece_391_linux_kernel_cla.Console.{term_of}
use ece_391_linux_kernel_cla.Io.{Device}
use ece_391_linux_kernel_cla.Syscalls.{Kernel}
use ece_391_linux_kernel_cla.Syscalls.Execute.{resumed, Frame}
use ece_391_linux_kernel_cla.Syscalls.Halt.{halt}
use ece_391_linux_kernel_cla.Syscalls.Halt.Resumed.{IsChild, IsBack, halt-IsBack}
use ece_391_linux_kernel_cla.Syscalls.Slots.{taken, clear_slot-taken, clear_slot-le, max_processes}
use ece_391_linux_kernel_cla.Syscalls.Stacks.{
  Stacks, elem, head_of, is_open, tail_of, pop, change-here, change-there, IsStack, IsStack-ap,
  IsSameProcess-ap, Implements,
}

module _ (p q : ℕ) (ps : List ℕ) (s : Stacks) (k k' : Kernel) (i : Implements s k)
    (two : s.stacks s.current ≡ p ∷ q ∷ ps) where
  top : IsStack k.pcbs (p ∷ q ∷ ps)
  top = subst (IsStack k.pcbs) two (i.chain s.current)

  child : IsChild p q k
  child = record {
    running =
        ap (λ a. (k.console.terms a).running_pcb) i.current ∙ i.running s.current ∙ ap head_of two;
    number = top.0.number;
    not_first = top.1.not_first;
    not_start = top.1.not_start;
    parent = top.1.parent;
    apart = λ e. let o = top.0.once in absurd (ground (arith, o, e));
  }

  -- The stack of the process itself, and no other.
  on_stack : elem p (s.stacks s.current) ≡ true
  on_stack = ap (elem p) two ∙ ground arith

  here : (a : ℕ) → a ≡ s.current → (pop s).stacks a ≡ q ∷ ps
  here a e = change-here tail_of s a e ∙ ap tail_of (ap (λ x. s.stacks x) e ∙ two)

  popped-elem :
      (a x : ℕ) → elem x ((pop s).stacks a) ≡ true → (x ≢ p) × (elem x (s.stacks a) ≡ true)
  popped-elem a x h = elim (ℕ_discrete a s.current) [
    | yes e ↦
        let g : elem x (q ∷ ps) ≡ true = sym (ap (elem x) (here a e)) ∙ h in
        let o = top.0.once in
        (
          λ z. absurd (ground (arith, o, sym (ap (λ y. elem y (q ∷ ps)) z) ∙ g)),
          ap (elem x) (ap (λ y. s.stacks y) e ∙ two) ∙ ground (arith, g),
        )
    | no ne ↦
        let g : elem x (s.stacks a) ≡ true = sym (ap (elem x) (change-there tail_of s a ne)) ∙ h in
        (λ z. ne (i.apart a s.current p (sym (ap (λ y. elem y (s.stacks a)) z) ∙ g) on_stack), g)
  ]

  module _ (b : IsBack p q k k') where
    still : (x : ℕ) → x < 6 → x ≢ p → taken x k'.processes ≡ taken x k.processes
    still x l ne =
        ap (taken x) b.processes
        ∙ clear_slot-taken p k.processes x (i.bound s.current p on_stack) i.small l
        ∙ ground (arith, ne)

    freed : taken p k'.processes ≡ false
    freed =
        let l = i.bound s.current p on_stack in
        ap (taken p) b.processes ∙ clear_slot-taken p k.processes p l i.small l ∙ ground arith

    elsewhere : (a : ℕ) → a ≢ s.current → k'.console.terms a ≡ k.console.terms a
    elsewhere a ne = b.elsewhere a (λ e. ne (e ∙ i.current))

    shown : (a : ℕ) → a ≡ s.current → k'.console.terms a ≡ term_of k'.console
    shown a e = ap (λ x. k'.console.terms x) (e ∙ sym i.current ∙ sym b.terminal)

    popped-chain : (a : ℕ) → IsStack k.pcbs ((pop s).stacks a) → IsStack k'.pcbs ((pop s).stacks a)
    popped-chain a h =
        IsStack-ap k.pcbs k'.pcbs ((pop s).stacks a)
          (λ x g. IsSameProcess-ap (k.pcbs x) (k'.pcbs x) (b.others x (popped-elem a x g).0)) h

    popped-Implements : Implements (pop s) k'
    popped-Implements = record {
      current = b.terminal ∙ i.current;
      running = λ a. elim (ℕ_discrete a s.current) [
        | yes e ↦ ap (λ x. x.running_pcb) (shown a e) ∙ b.running ∙ sym (ap head_of (here a e))
        | no ne ↦
            ap (λ x. x.running_pcb) (elsewhere a ne)
            ∙ i.running a
            ∙ sym (ap head_of (change-there tail_of s a ne))
      ];
      been_here = λ a. elim (ℕ_discrete a s.current) [
        | yes e ↦
            ap (λ x. x.been_here == 1) (shown a e)
            ∙ ap (λ x. x == 1) b.been_here
            ∙ ap (λ x. (k.console.terms x).been_here == 1) i.current
            ∙ i.been_here s.current
            ∙ ap is_open two
            ∙ sym (ap is_open (here a e))
        | no ne ↦
            ap (λ x. x.been_here == 1) (elsewhere a ne)
            ∙ i.been_here a
            ∙ sym (ap is_open (change-there tail_of s a ne))
      ];
      chain = λ a. popped-chain a (elim (ℕ_discrete a s.current) [
        | yes e ↦ subst (IsStack k.pcbs) (sym (here a e)) top.2
        | no ne ↦ subst (IsStack k.pcbs) (sym (change-there tail_of s a ne)) (i.chain a)
      ]);
      bound = λ a x h. i.bound a x (popped-elem a x h).1;
      taken_slot = λ a x h.
          let (ne, g) = popped-elem a x h in still x (i.bound a x g) ne ∙ i.taken_slot a x g;
      apart = λ a c x h g. i.apart a c x (popped-elem a x h).1 (popped-elem c x g).1;
      free = λ x l h. elim (ℕ_discrete x p) [
        | yes e ↦
            λ z. top.1.not_start (sym b.term_start ∙ sym (ap (λ y. (k'.pcbs y).term_start) e) ∙ z)
        | no ne ↦ λ z.
            i.free x l (sym (still x l ne) ∙ h) (sym (ap (λ y. y.term_start) (b.others x ne)) ∙ z)
      ];
      booted = λ a x h.
          still 0 (omega arith) (λ e. top.1.not_first (sym e)) ∙ i.booted a x (popped-elem a x h).1;
      small =
          subst (λ n. n ≤ max_processes) (sym b.processes)
            (clear_slot-le p k.processes (i.bound s.current p on_stack) i.small);
    }

-- `halt` with a process below the one that halts on the stack of the terminal that is shown pops
-- that stack: it does not return, but goes on with the stack pointers saved in the block of the
-- process, and all other stacks stay.
pub halt-pop :
    (device : Device) (fr : Frame) (status p q : ℕ) (ps : List ℕ) (s : Stacks) (k : Kernel)
    → Implements s k
    → s.stacks s.current ≡ p ∷ q ∷ ps
    → (k' : Kernel) × (halt device fr status k
        ≡ resumed (k.pcbs p).parent_sp (k.pcbs p).parent_bp k')
      × Implements (pop s) k'
halt-pop device fr status p q ps s k i two =
    let (k', e, b) = halt-IsBack device fr status p q k (child p q ps s k k i two) in
    (k', e, popped-Implements p q ps s k k' i two b)
