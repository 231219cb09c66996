-- ===== src/Syscalls/Stacks/Push.antt =====
-- `execute` of student-distrib/syscalls.c pushes a process.
use ece_391_linux_kernel_cla.Prelude.{
  ℕ, ◌<◌, ◌≡◌, ◌≢◌, ◌⊎◌, refl, sym, subst, ◌∙◌, ap, true, false, List, [], ◌∷◌, some, Bytes, ◌==◌,
  ℕ_discrete, Bool-cases, inl, inr, arith,
}
use ece_391_linux_kernel_cla.Console.{term_of}
use ece_391_linux_kernel_cla.FileSystem.{Dentry}
use ece_391_linux_kernel_cla.Io.{Device}
use ece_391_linux_kernel_cla.Syscalls.{Kernel, running_pcb}
use ece_391_linux_kernel_cla.Syscalls.Execute.{entered, Frame, execute}
use ece_391_linux_kernel_cla.Syscalls.Execute.Started.{
  IsLoadable, IsRunning, IsBlock, entry_of, execute-IsRunning,
}
use ece_391_linux_kernel_cla.Syscalls.Slots.{taken, slot_loop, IsTaking}
use ece_391_linux_kernel_cla.Syscalls.Stacks.{
  Stacks, elem, head_of, is_open, push, change-here, change-there, IsStack, IsStack-ap,
  IsSameProcess-ap, Implements,
}

module _ (fr : Frame) (arg_buffer : Bytes) (p len : ℕ) (s : Stacks) (k k' : Kernel)
    (i : Implements s k) (t : IsTaking k.processes p k'.processes) (r : IsRunning p k k')
    (b : IsBlock fr arg_buffer p len k k') where
  -- A process on a stack has another slot.
  fresh : (a x : ℕ) → elem x (s.stacks a) ≡ true → x ≢ p
  fresh a x h e =
      absurd (ground (arith, i.taken_slot a x h, t.free, ap (λ y. taken y k.processes) e))

  fresh-elem : (a : ℕ) → elem p (s.stacks a) ≡ false
  fresh-elem a = elim (Bool-cases (elem p (s.stacks a))) [
    | inl h ↦ absurd (fresh a p h refl)
    | inr h ↦ h
  ]

  kept : (a : ℕ) → IsStack k'.pcbs (s.stacks a)
  kept a =
      IsStack-ap k.pcbs k'.pcbs (s.stacks a)
        (λ x h. IsSameProcess-ap (k.pcbs x) (k'.pcbs x) (b.others x (fresh a x h))) (i.chain a)

  not_first : (a x : ℕ) → elem x (s.stacks a) ≡ true → p ≢ 0
  not_first a x h e =
      absurd (ground (arith, i.booted a x h, t.free, ap (λ y. taken y k.processes) e))

  -- The new process on the stack of the terminal it is started in.
  top : (ps : List ℕ) → ps ≡ s.stacks k.console.current_terminal → IsStack k'.pcbs (p ∷ ps)
  top [] e =
      let closed : ((term_of k.console).been_here == 1) ≡ false =
        i.been_here k.console.current_terminal ∙ ap is_open (sym e) in
      (
        record { number = b.number; once = refl },
        record { term_start = ground (arith, b.term_start, closed) },
      )
  top (q ∷ ps) e =
      let a = k.console.current_terminal in
      let open_ : ((term_of k.console).been_here == 1) ≡ true =
        i.been_here a ∙ ap is_open (sym e) in
      let later = not_first a q (ap (elem q) (sym e) ∙ ground arith) in
      let run : running_pcb k ≡ some q = i.running a ∙ ap head_of (sym e) in
      (
        record { number = b.number; once = ap (elem p) e ∙ fresh-elem a },
        record {
          parent = ground (arith, b.parent, later, open_, run);
          not_first = later;
          not_start = ground (arith, b.term_start, open_, i.free p t.bound t.free);
        },
        subst (IsStack k'.pcbs) (sym e) (kept a),
      )

  current-eq : (a : ℕ) → a ≡ s.current → a ≡ k.console.current_terminal
  current-eq a e = e ∙ sym i.current

  elsewhere : (a : ℕ) → a ≢ s.current → k'.console.terms a ≡ k.console.terms a
  elsewhere a ne = r.elsewhere a (λ e. ne (e ∙ i.current))

  shown : (a : ℕ) → a ≡ s.current → k'.console.terms a ≡ term_of k'.console
  shown a e = ap (λ x. k'.console.terms x) (current-eq a e ∙ sym r.terminal)

  -- On which stack a process is after the push.
  pushed-elem :
      (a x : ℕ)
      → elem x ((push p s).stacks a) ≡ true
      → ((x ≡ p) × (a ≡ s.current)) ⊎ (elem x (s.stacks a) ≡ true)
  pushed-elem a x h = elim (ℕ_discrete a s.current) [
    | yes e ↦
        let g : elem x (p ∷ s.stacks a) ≡ true =
          sym (ap (elem x) (change-here (λ ps. p ∷ ps) s a e)) ∙ h in
        elim (ℕ_discrete x p) [ yes q ↦ inl (q, e) | no q ↦ inr (ground (arith, g, q)) ]
    | no ne ↦ inr (sym (ap (elem x) (change-there (λ ps. p ∷ ps) s a ne)) ∙ h)
  ]

  pushed-taken :
      (a x : ℕ) → elem x ((push p s).stacks a) ≡ true → (x < 6) × (taken x k'.processes ≡ true)
  pushed-taken a x h = elim (pushed-elem a x h) [
    | inl (e, c) ↦
        (omega (arith, e, t.bound), subst (λ y. taken y k'.processes ≡ true) (sym e) t.set)
    | inr g ↦
        let l = i.bound a x g in
        (l, t.others x (omega (arith, l)) (fresh a x g) ∙ i.taken_slot a x g)
  ]

  pushed-apart :
      (a c x : ℕ)
      → elem x ((push p s).stacks a) ≡ true
      → elem x ((push p s).stacks c) ≡ true
      → a ≡ c
  pushed-apart a c x h g = elim (pushed-elem a x h) [
    | inl (e, u) ↦ elim (pushed-elem c x g) [
      | inl (f, v) ↦ u ∙ sym v
      | inr w ↦ absurd (fresh c x w e)
    ]
    | inr w ↦ elim (pushed-elem c x g) [
      | inl (f, v) ↦ absurd (fresh a x w f)
      | inr z ↦ i.apart a c x w z
    ]
  ]

  pub pushed-Implements : Implements (push p s) k'
  pushed-Implements = record {
    current = r.terminal ∙ i.current;
    running = λ a. elim (ℕ_discrete a s.current) [
      | yes e ↦
          ap (λ x. x.running_pcb) (shown a e)
          ∙ r.running
          ∙ sym (ap head_of (change-here (λ ps. p ∷ ps) s a e))
      | no ne ↦
          ap (λ x. x.running_pcb) (elsewhere a ne)
          ∙ i.running a
          ∙ sym (ap head_of (change-there (λ ps. p ∷ ps) s a ne))
    ];
    been_here = λ a. elim (ℕ_discrete a s.current) [
      | yes e ↦
          ap (λ x. x.been_here == 1) (shown a e)
          ∙ ap (λ x. x == 1) r.been_here
          ∙ sym (ap is_open (change-here (λ ps. p ∷ ps) s a e))
      | no ne ↦
          ap (λ x. x.been_here == 1) (elsewhere a ne)
          ∙ i.been_here a
          ∙ sym (ap is_open (change-there (λ ps. p ∷ ps) s a ne))
    ];
    chain = λ a. elim (ℕ_discrete a s.current) [
      | yes e ↦
          subst (IsStack k'.pcbs) (sym (change-here (λ ps. p ∷ ps) s a e))
            (top (s.stacks a) (ap (λ x. s.stacks x) (current-eq a e)))
      | no ne ↦ subst (IsStack k'.pcbs) (sym (change-there (λ ps. p ∷ ps) s a ne)) (kept a)
    ];
    bound = λ a x h. (pushed-taken a x h).0;
    taken_slot = λ a x h. (pushed-taken a x h).1;
    apart = pushed-apart;
    free = λ x l h. elim (ℕ_discrete x p) [
      | yes e ↦ absurd (ground (arith, t.set, h, ap (λ y. taken y k'.processes) e))
      | no ne ↦
          let w : k'.pcbs x ≡ k.pcbs x = b.others x ne in
          λ z.
            i.free x l (sym (t.others x (omega (arith, l)) ne) ∙ h)
              (sym (ap (λ y. y.term_start) w) ∙ z)
    ];
    booted = λ a x h. elim (ℕ_discrete p 0) [
      | yes e ↦ subst (λ y. taken y k'.processes ≡ true) e t.set
      | no ne ↦ t.others 0 (omega arith) (λ e. ne (sym e)) ∙ t.lower 0 (omega (arith, ne))
    ];
    small = t.small;
  }

-- `execute` of a command of at most 31 characters that names an executable file of at least 28 bytes
-- and at most the 3899392 that the page of the image has room for, with a slot free, goes to the
-- file's entry point and pushes the slot that the loop over the bitmap finds on the stack of the
-- terminal that is shown, whether or not a process runs there already; all other stacks stay.
pub execute-push :
    (device : Device) (fr : Frame) (command name arg_buffer : Bytes) (d : Dentry) (len : ℕ)
    (s : Stacks) (k : Kernel)
    → Implements s k
    → IsLoadable fr command name arg_buffer d len k
    → (k' : Kernel) × (execute device fr (some command) k ≡ entered (entry_of k.fs d.inode_num) k')
      × Implements (push (slot_loop 6 0 1 k.processes).0 s) k'
execute-push device fr command name arg_buffer d len s k i h =
    let (k', e, t, r, b, image) = execute-IsRunning device fr command name arg_buffer d len k h in
    (k', e, pushed-Implements fr arg_buffer (slot_loop 6 0 1 k.processes).0 len s k k' i t r b)
