-- ===== src/Syscalls/Stacks.antt =====
-- The processes of student-distrib/syscalls.c as a client sees them: each terminal has a stack of
-- processes, of which the top one runs. `execute` pushes, `halt` pops, and
-- `switch_to_other_term` selects a terminal.
pub mod Push
pub mod Pop
pub mod Select
pub mod Other
pub mod Reached
mod Tests
use ece_391_linux_kernel_cla.Prelude.{
  ℕ, ◌+◌, ◌*◌, ◌<◌, ◌≤◌, ◌≡◌, ◌≢◌, refl, sym, ◌∙◌, ap, Bool, true, false, ◌||◌, ◌!=◌, List, [], ◌∷◌,
  Option, none, some, bit_and, ◌==◌, if◌then◌else◌, arith,
}
use ece_391_linux_kernel_cla.Console.{Term, term_of}
use ece_391_linux_kernel_cla.Syscalls.{Pcb, Kernel}
use ece_391_linux_kernel_cla.Syscalls.Slots.{taken, slot_bit, max_processes}

-- Terminals by index, and the one that is shown.
pub record Stacks : Type 0 where
  pub stacks : ℕ → List ℕ
  pub current : ℕ

abbrev pub elem : ℕ → List ℕ → Bool
elem x [] = false
elem x (y ∷ ys) = (x == y) || elem x ys

abbrev pub head_of : List ℕ → Option ℕ
head_of [] = none
head_of (x ∷ xs) = some x

abbrev pub is_open : List ℕ → Bool
is_open [] = false
is_open (x ∷ xs) = true

abbrev pub tail_of : List ℕ → List ℕ
tail_of [] = []
tail_of (x ∷ xs) = xs

abbrev pub change : (List ℕ → List ℕ) → Stacks → Stacks
change f s = record s {
  stacks = λ a. if a == s.current then f (s.stacks s.current) else s.stacks a;
}

abbrev pub push : ℕ → Stacks → Stacks
push p s = change (λ ps. p ∷ ps) s

abbrev pub pop : Stacks → Stacks
pop s = change tail_of s

abbrev pub select : ℕ → Stacks → Stacks
select a s = record s { current = a }

-- The block of slot `p` is that of a process that the one in slot `q` has started.
pub record IsLink (pcbs : ℕ → Pcb) (p q : ℕ) : Type 0 where
  pub parent : (pcbs p).parent_pcb ≡ some q
  pub not_first : p ≢ 0
  pub not_start : (pcbs p).term_start ≢ 1

-- The block of slot `p` is that of the first process of a terminal.
pub record IsBottom (pcbs : ℕ → Pcb) (p : ℕ) : Type 0 where
  pub term_start : (pcbs p).term_start ≡ 1

-- The blocks are linked as the stack is, and no process is on it twice.
pub record IsTop (pcbs : ℕ → Pcb) (p : ℕ) (ps : List ℕ) : Type 0 where
  pub number : (pcbs p).process_num ≡ p
  pub once : elem p ps ≡ false

abbrev pub IsStack : (ℕ → Pcb) → List ℕ → Type 0
IsStack pcbs [] = Unit
IsStack pcbs (p ∷ []) = IsTop pcbs p [] × IsBottom pcbs p
IsStack pcbs (p ∷ q ∷ ps) = IsTop pcbs p (q ∷ ps) × IsLink pcbs p q × IsStack pcbs (q ∷ ps)

-- The kernel has these stacks. A slot that is free was not left by the first process of a terminal.
pub record Implements (s : Stacks) (k : Kernel) : Type 0 where
  pub current : k.console.current_terminal ≡ s.current
  pub running : (a : ℕ) → (k.console.terms a).running_pcb ≡ head_of (s.stacks a)
  pub been_here : (a : ℕ) → ((k.console.terms a).been_here == 1) ≡ is_open (s.stacks a)
  pub chain : (a : ℕ) → IsStack k.pcbs (s.stacks a)
  pub bound : (a p : ℕ) → elem p (s.stacks a) ≡ true → p < 6
  pub taken_slot : (a p : ℕ) → elem p (s.stacks a) ≡ true → taken p k.processes ≡ true
  pub apart : (a b p : ℕ) → elem p (s.stacks a) ≡ true → elem p (s.stacks b) ≡ true → a ≡ b
  pub free : (p : ℕ) → p < 6 → taken p k.processes ≡ false → (k.pcbs p).term_start ≢ 1
  pub booted : (a p : ℕ) → elem p (s.stacks a) ≡ true → taken 0 k.processes ≡ true
  pub small : k.processes ≤ max_processes

-- Two blocks are those of the same process: they may differ in the descriptors and the strings.
pub record IsSameProcess (b b' : Pcb) : Type 0 where
  pub process_num : b'.process_num ≡ b.process_num
  pub parent_pcb : b'.parent_pcb ≡ b.parent_pcb
  pub term_start : b'.term_start ≡ b.term_start

pub IsSameProcess-ap : (b b' : Pcb) → b' ≡ b → IsSameProcess b b'
IsSameProcess-ap b b' e = record {
  process_num = ap (λ x. x.process_num) e;
  parent_pcb = ap (λ x. x.parent_pcb) e;
  term_start = ap (λ x. x.term_start) e;
}

-- A block that agrees with another serves as well.
IsTop-ap :
    (pcbs pcbs' : ℕ → Pcb) (p : ℕ) (ps : List ℕ)
    → IsSameProcess (pcbs p) (pcbs' p)
    → IsTop pcbs p ps
    → IsTop pcbs' p ps
IsTop-ap pcbs pcbs' p ps e t = record { number = e.process_num ∙ t.number; once = t.once }

IsLink-ap :
    (pcbs pcbs' : ℕ → Pcb) (p q : ℕ)
    → IsSameProcess (pcbs p) (pcbs' p)
    → IsLink pcbs p q
    → IsLink pcbs' p q
IsLink-ap pcbs pcbs' p q e l = record {
  parent = e.parent_pcb ∙ l.parent;
  not_first = l.not_first;
  not_start = λ x. l.not_start (sym e.term_start ∙ x);
}

-- Blocks of processes that are not on the stack do not matter.
pub IsStack-ap :
    (pcbs pcbs' : ℕ → Pcb) (ps : List ℕ)
    → ((p : ℕ) → elem p ps ≡ true → IsSameProcess (pcbs p) (pcbs' p))
    → IsStack pcbs ps
    → IsStack pcbs' ps
IsStack-ap pcbs pcbs' [] e h = h
IsStack-ap pcbs pcbs' (p ∷ []) e h =
    let same = e p (ground arith) in
    (IsTop-ap pcbs pcbs' p [] same h.0, record { term_start = same.term_start ∙ h.1.term_start })
IsStack-ap pcbs pcbs' (p ∷ q ∷ ps) e h = (
  IsTop-ap pcbs pcbs' p (q ∷ ps) (e p (ground arith)) h.0,
  IsLink-ap pcbs pcbs' p q (e p (ground arith)) h.1,
  IsStack-ap pcbs pcbs' (q ∷ ps) (λ r i. e r (ground (arith, i))) h.2,
)

pub change-here :
    (f : List ℕ → List ℕ) (s : Stacks) (a : ℕ)
    → a ≡ s.current
    → (change f s).stacks a ≡ f (s.stacks a)
change-here f s a e =
    let q : (a == s.current) ≡ true = ground (arith, e) in rw q (ap (λ b. f (s.stacks b)) (sym e))

pub change-there :
    (f : List ℕ → List ℕ) (s : Stacks) (a : ℕ) → a ≢ s.current → (change f s).stacks a ≡ s.stacks a
change-there f s a ne = let q : (a == s.current) ≡ false = ground arith in rw q refl
