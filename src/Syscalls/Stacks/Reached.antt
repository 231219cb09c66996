-- ===== src/Syscalls/Stacks/Reached.antt =====
-- What holds of the processes and the terminals of student-distrib/syscalls.c after any sequence of
-- its calls. Left out is `halt` of the first process of a terminal, which executes a new shell.
use ece_391_linux_kernel_cla.Prelude.{
  ℕ, ◌<◌, ◌≡◌, ◌≢◌, refl, sym, subst, ◌∙◌, ap, true, List, [], ◌∷◌, Option, none, some, ℤ, Bytes,
  literal, arith,
}
use ece_391_linux_kernel_cla.FileSystem.{Dentry}
use ece_391_linux_kernel_cla.Io.{Device}
use ece_391_linux_kernel_cla.Syscalls.{Pcb, Kernel, running_pcb, syscall_open, close}
use ece_391_linux_kernel_cla.Syscalls.Execute.{Outcome, entered, resumed, Frame, execute, kernel_or}
use ece_391_linux_kernel_cla.Syscalls.Execute.Started.{IsLoadable}
use ece_391_linux_kernel_cla.Syscalls.Halt.{halt}
use ece_391_linux_kernel_cla.Syscalls.Slots.{taken, slot_loop}
use ece_391_linux_kernel_cla.Syscalls.Stacks.{
  Stacks, elem, head_of, is_open, push, pop, select, IsStack, Implements,
}
use ece_391_linux_kernel_cla.Syscalls.Stacks.Other.{Leaves, syscall_open-Leaves, close-Leaves}
use ece_391_linux_kernel_cla.Syscalls.Stacks.Pop.{halt-pop}
use ece_391_linux_kernel_cla.Syscalls.Stacks.Push.{execute-push}
use ece_391_linux_kernel_cla.Syscalls.Stacks.Select.{
  opening, IsSelect, select-Implements, switch_to_other_term-select, switch_to_other_term-open,
}
use ece_391_linux_kernel_cla.Syscalls.Switch.{switch_to_other_term}

-- One call, or anything else that neither shows another terminal nor touches who runs where: a
-- program, a system call that reads or writes, an interrupt. Of the blocks that keeps the number, the
-- parent and the mark of a first process; descriptors, positions and all else may change.
pub data Step (k k' : Kernel) : Type 0 where
  started :
      (device : Device) (fr : Frame) (command name arg_buffer : Bytes) (d : Dentry) (len eip : ℕ)
      → IsLoadable fr command name arg_buffer d len k
      → execute device fr (some command) k ≡ entered eip k'
      → Step k k'
  halted :
      (device : Device) (fr : Frame) (status p sp bp : ℕ)
      → running_pcb k ≡ some p
      → (k.pcbs p).term_start ≢ 1
      → halt device fr status k ≡ resumed sp bp k'
      → Step k k'
  switched :
      (device : Device) (fr : Frame) (b esp ebp sp bp : ℕ)
      → b ≢ k.console.current_terminal
      → (k.console.terms b).been_here ≡ 1
      → switch_to_other_term device fr b esp ebp k ≡ resumed sp bp k'
      → Step k k'
  opened_term :
      (device : Device) (fr : Frame) (name arg_buffer : Bytes) (d : Dentry) (b esp ebp len eip : ℕ)
      → (k.console.terms b).been_here ≢ 1
      → IsLoadable fr (literal "shell") name arg_buffer d len (opening b esp ebp k)
      → switch_to_other_term device fr b esp ebp k ≡ entered eip k'
      → Step k k'
  opened_fd :
      (device : Device) (filename : Bytes) (r : ℤ)
      → syscall_open device filename k ≡ some (r, k')
      → Step k k'
  closed_fd : (fd : ℕ) (r : ℤ) → close fd k ≡ some (r, k') → Step k k'
  other : IsSelect k.console.current_terminal k k' → Step k k'

-- Any number of steps.
pub data Reach (k : Kernel) : Kernel → Type 0 where
  stay : Reach k k
  step : {k' k'' : Kernel} → Reach k k' → Step k' k'' → Reach k k''

-- Before the first shell: no terminal is open, no slot is taken, no block was used.
pub record IsFresh (k : Kernel) : Type 0 where
  pub closed : (a : ℕ) → (k.console.terms a).been_here ≢ 1
  pub idle : (a : ℕ) → (k.console.terms a).running_pcb ≡ none
  pub unused : k.processes ≡ 0
  pub no_start : (p : ℕ) → (k.pcbs p).term_start ≢ 1

abbrev pub empty : ℕ → Stacks
empty a = record { stacks = λ b. []; current = a }

pub fresh-Implements : (k : Kernel) → IsFresh k → Implements (empty k.console.current_terminal) k
fresh-Implements k f = record {
  current = refl;
  running = f.idle;
  been_here = λ a. let c = f.closed a in ground (arith, c);
  chain = λ a. (record {});
  bound = λ a p h. absurd (ground (arith, h));
  taken_slot = λ a p h. absurd (ground (arith, h));
  apart = λ a b p h g. absurd (ground (arith, h));
  free = λ p l h. f.no_start p;
  booted = λ a p h. absurd (ground (arith, h));
  small = omega (arith, f.unused);
}

-- Some stacks are the kernel's.
abbrev HasStacks : Kernel → Type 0
HasStacks k = (s : Stacks) × Implements s k

-- Two ways a call is known to end are one.
same_end :
    (s : Stacks) (o x y : Outcome) (k : Kernel)
    → o ≡ x
    → o ≡ y
    → Implements s (kernel_or k x)
    → HasStacks (kernel_or k y)
same_end s o x y k e f i = (s, subst (λ z. Implements s (kernel_or k z)) (sym e ∙ f) i)

is_start : Option ℕ → (ℕ → Pcb) → ℕ
is_start none pcbs = 1
is_start (some p) pcbs = (pcbs p).term_start

halted-HasStacks :
    (device : Device) (fr : Frame) (status p sp bp : ℕ) (s : Stacks) (k k' : Kernel) (ps : List ℕ)
    → Implements s k
    → s.stacks s.current ≡ ps
    → running_pcb k ≡ some p
    → (k.pcbs p).term_start ≢ 1
    → halt device fr status k ≡ resumed sp bp k'
    → HasStacks k'
unfolding kernel_or is_start
halted-HasStacks device fr status p sp bp s k k' [] i e run ne out =
    let top : some p ≡ head_of [] =
      sym run
      ∙ ap (λ a. (k.console.terms a).running_pcb) i.current
      ∙ i.running s.current
      ∙ ap head_of e in
    absurd (ground (arith, top))
halted-HasStacks device fr status p sp bp s k k' (q ∷ []) i e run ne out =
    let top : some p ≡ some q =
      sym run
      ∙ ap (λ a. (k.console.terms a).running_pcb) i.current
      ∙ i.running s.current
      ∙ ap head_of e in
    let bottom : IsStack k.pcbs (q ∷ []) = subst (IsStack k.pcbs) e (i.chain s.current) in
    absurd (ne (ap (λ x. is_start x k.pcbs) top ∙ bottom.1.term_start))
halted-HasStacks device fr status p sp bp s k k' (q ∷ r ∷ ps) i e run ne out =
    let (k₁, f, j) = halt-pop device fr status q r ps s k i e in
    same_end (pop s) _ _ (resumed sp bp k') k f out j

switched-HasStacks :
    (device : Device) (fr : Frame) (b esp ebp sp bp : ℕ) (s : Stacks) (k k' : Kernel) (qs : List ℕ)
    → Implements s k
    → s.stacks b ≡ qs
    → b ≢ k.console.current_terminal
    → (k.console.terms b).been_here ≡ 1
    → switch_to_other_term device fr b esp ebp k ≡ resumed sp bp k'
    → HasStacks k'
unfolding kernel_or
switched-HasStacks device fr b esp ebp sp bp s k k' [] i e ne here out =
    let closed = i.been_here b ∙ ap is_open e in absurd (ground (arith, closed, here))
switched-HasStacks device fr b esp ebp sp bp s k k' (q ∷ qs) i e ne here out =
    let (k₁, f, j) =
      switch_to_other_term-select device fr b esp ebp q qs s k i (λ x. ne (x ∙ sym i.current)) e in
    same_end (select b s) _ _ (resumed sp bp k') k f out j

opened-HasStacks :
    (device : Device) (fr : Frame) (name arg_buffer : Bytes) (d : Dentry) (b esp ebp len eip : ℕ)
    (s : Stacks) (k k' : Kernel) (qs : List ℕ)
    → Implements s k
    → s.stacks b ≡ qs
    → (k.console.terms b).been_here ≢ 1
    → IsLoadable fr (literal "shell") name arg_buffer d len (opening b esp ebp k)
    → switch_to_other_term device fr b esp ebp k ≡ entered eip k'
    → HasStacks k'
unfolding kernel_or
opened-HasStacks device fr name arg_buffer d b esp ebp len eip s k k' (q ∷ qs) i e ne l out =
    let closed = i.been_here b ∙ ap is_open e in absurd (ground (arith, closed, ne))
opened-HasStacks device fr name arg_buffer d b esp ebp len eip s k k' [] i e ne l out =
    let (k₁, f, same, j) = switch_to_other_term-open device fr b esp ebp s k i e in
    let l' = subst (IsLoadable fr (literal "shell") name arg_buffer d len) (sym same) l in
    let (k₂, g, h) =
      execute-push device fr (literal "shell") name arg_buffer d len (select b s) k₁ j l' in
    same_end (push (slot_loop 6 0 1 k₁.processes).0 (select b s)) _ _ (entered eip k') k (f ∙ g) out
      h

other-HasStacks :
    (k k' : Kernel) (s : Stacks)
    → Implements s k
    → IsSelect k.console.current_terminal k k'
    → HasStacks k'
other-HasStacks k k' s i e =
    (select k.console.current_terminal s, select-Implements k.console.current_terminal s k k' i e)

Step-HasStacks : (k k' : Kernel) → HasStacks k → Step k k' → HasStacks k'
unfolding kernel_or
Step-HasStacks k k' (s, i) (started device fr command name arg_buffer d len eip l e) =
    let (k₁, f, j) = execute-push device fr command name arg_buffer d len s k i l in
    same_end (push (slot_loop 6 0 1 k.processes).0 s) _ _ (entered eip k') k f e j
Step-HasStacks k k' (s, i) (halted device fr status p sp bp run ne e) =
    halted-HasStacks device fr status p sp bp s k k' (s.stacks s.current) i refl run ne e
Step-HasStacks k k' (s, i) (switched device fr b esp ebp sp bp ne here e) =
    switched-HasStacks device fr b esp ebp sp bp s k k' (s.stacks b) i refl ne here e
Step-HasStacks k k' (s, i) (opened_term device fr name arg_buffer d b esp ebp len eip ne l e) =
    opened-HasStacks device fr name arg_buffer d b esp ebp len eip s k k' (s.stacks b) i refl ne l e
Step-HasStacks k k' (s, i) (opened_fd device filename r e) =
    other-HasStacks k k' s i (subst (Leaves k) e (syscall_open-Leaves device filename k))
Step-HasStacks k k' (s, i) (closed_fd fd r e) =
    other-HasStacks k k' s i (subst (Leaves k) e (close-Leaves fd k))
Step-HasStacks k k' (s, i) (other e) = other-HasStacks k k' s i e

Reach-HasStacks : (k k' : Kernel) → HasStacks k → Reach k k' → HasStacks k'
Reach-HasStacks k k' i stay = i
Reach-HasStacks k k' i (step {k' = k₁} r t) = Step-HasStacks k₁ k' (Reach-HasStacks k k₁ i r) t

head_of-elem : (ps : List ℕ) (p : ℕ) → head_of ps ≡ some p → elem p ps ≡ true
head_of-elem [] p e = absurd (ground (arith, e))
head_of-elem (q ∷ ps) p e =
    let h : q ≡ p = ap (λ x. elim x [ none ↦ 0 | some y ↦ y ]) e in ground (arith, h)

head_of-number :
    (pcbs : ℕ → Pcb) (ps : List ℕ) (p : ℕ)
    → IsStack pcbs ps
    → head_of ps ≡ some p
    → (pcbs p).process_num ≡ p
head_of-number pcbs [] p h e = absurd (ground (arith, e))
head_of-number pcbs (q ∷ []) p h e =
    let same : q ≡ p = ap (λ x. elim x [ none ↦ 0 | some y ↦ y ]) e in
    subst (λ x. (pcbs x).process_num ≡ x) same h.0.number
head_of-number pcbs (q ∷ r ∷ ps) p h e =
    let same : q ≡ p = ap (λ x. elim x [ none ↦ 0 | some y ↦ y ]) e in
    subst (λ x. (pcbs x).process_num ≡ x) same h.0.number

-- The process in slot `p` runs in terminal `a` and in no other; its slot is taken, and its block
-- says so.
pub record IsAlone (a p : ℕ) (k : Kernel) : Type 0 where
  pub bound : p < 6
  pub taken_slot : taken p k.processes ≡ true
  pub number : (k.pcbs p).process_num ≡ p
  pub alone : (b : ℕ) → (k.console.terms b).running_pcb ≡ some p → b ≡ a

-- From a kernel in which nothing has run yet, after any sequence of calls of `execute` that start
-- a program (a command of at most 31 characters, for an executable file of at least 28 bytes that
-- fits into the page of the image, with a slot free), of `halt` in a process whose block does not
-- mark it as the first of its terminal, of switches to an open terminal or to one that is opened by
-- such an `execute`, of `open` and `close`, and of other steps that leave the terminal shown, the
-- running processes, the bitmap, and of each block the number, the parent and the mark of a first
-- process as they are: the process that a terminal runs has one of the six slots, that slot is taken, its
-- block has the slot's number, and no other terminal runs it.
pub Reach-IsAlone :
    (k k' : Kernel) (a p : ℕ)
    → IsFresh k
    → Reach k k'
    → (k'.console.terms a).running_pcb ≡ some p
    → IsAlone a p k'
Reach-IsAlone k k' a p fresh r run =
    let (s, i) =
      Reach-HasStacks k k' (empty k.console.current_terminal, fresh-Implements k fresh) r in
    let on : (b : ℕ) → (k'.console.terms b).running_pcb ≡ some p → elem p (s.stacks b) ≡ true =
      λ b e. head_of-elem (s.stacks b) p (sym (i.running b) ∙ e) in
    record {
      bound = i.bound a p (on a run);
      taken_slot = i.taken_slot a p (on a run);
      number = head_of-number k'.pcbs (s.stacks a) p (i.chain a) (sym (i.running a) ∙ run);
      alone = λ b e. i.apart b a p (on b e) (on a run);
    }
