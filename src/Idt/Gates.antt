-- ===== src/Idt/Gates.antt =====
-- The gates that `initialize_idt` of student-distrib/idt.c leaves.
use ece_391_linux_kernel_cla.Prelude.{
  ℕ, zero, suc, ◌+◌, ◌-◌, ◌*◌, ◌/◌, ◌^◌, ◌<◌, ◌≡◌, ◌≢◌, refl, ◌∙◌, ap, ◌||◌, ◌&&◌, ltb, leb, ◌==◌,
  if◌then◌else◌, List, [], ◌∷◌, Option, none, some, u32_mod, bit_and-high, bit_and-ones, arith, sym,
  ==_iff, true, Bool-cases, inl, inr,
}
use ece_391_linux_kernel_cla.Idt.{
  Handler, undefined_interrupt, Gate, set_idt_entry, init_gate, init_loop, set_entries, handlers,
  initialize_idt,
}

-- The address that a gate leads to.
abbrev pub offset : Gate → ℕ
offset g = g.offset_31_16 * 65536 + g.offset_15_00

set_idt_entry-offset :
    (address : ℕ) (g : Gate) → address < u32_mod → offset (set_idt_entry address g) ≡ address
unfolding set_idt_entry
set_idt_entry-offset address g h = omega (
  arith,
  bit_and-high 16 (2 ^ 16 - 1) address,
  bit_and-ones 16 (address / 2 ^ 16),
  bit_and-ones 16 address,
)

-- The last handler listed for a vector.
unfoldable pub handler_of : List (ℕ × Handler) → ℕ → Option Handler
handler_of [] i = none
handler_of ((n, h) ∷ rest) i = elim (handler_of rest i) [
  | none ↦ if i == n then some h else none
  | some k ↦ some k
]

set_idt_entry-set_idt_entry :
    (a b : ℕ) (g : Gate) → set_idt_entry a (set_idt_entry b g) ≡ set_idt_entry a g
unfolding set_idt_entry
set_idt_entry-set_idt_entry a b g = refl

-- A gate with the handler's address put in, if there is one.
abbrev routed : (Handler → ℕ) → Option Handler → Gate → Gate
routed address none g = g
routed address (some h) g = set_idt_entry (address h) g

module _ (address : Handler → ℕ) where
  init_loop-all :
      (k i : ℕ) (idt : ℕ → Gate) (j : ℕ)
      → init_loop address k i idt j
        ≡ (if leb i j && ltb j (i + k) then init_gate address j (idt j) else idt j)
  unfolding init_loop
  init_loop-all zero i idt j = ground arith
  init_loop-all (suc k) i idt j = ground (
    arith,
    init_loop-all k (i + 1) (λ l. if l == i then init_gate address i (idt i) else idt l) j,
  )

  set_entries-routed :
      (hs : List (ℕ × Handler)) (idt : ℕ → Gate) (i : ℕ)
      → set_entries address hs idt i ≡ routed address (handler_of hs i) (idt i)
  unfolding set_entries handler_of
  set_entries-routed [] idt i = refl
  set_entries-routed ((n, h) ∷ rest) idt i =
      set_entries-routed rest (λ j. if j == n then set_idt_entry (address h) (idt n) else idt j) i
      ∙ step (handler_of rest i) (λ e. ap idt (sym ((==_iff i n).0 e)))
    where
      step :
          (o : Option Handler)
          → ((i == n) ≡ true → idt n ≡ idt i)
          → routed address o (if i == n then set_idt_entry (address h) (idt n) else idt i)
            ≡ routed address
                (elim o [ none ↦ if i == n then some h else none | some k ↦ some k ])
                (idt i)
      step none p = ground arith
      step (some k) p = ground (arith, set_idt_entry-set_idt_entry (address k) (address h) (idt n))

  gate :
      (idt : ℕ → Gate) (i : ℕ)
      → i < 256
      → initialize_idt address idt i
        ≡ routed address (handler_of handlers i) (init_gate address i (idt i))
  unfolding initialize_idt
  gate idt i h =
      set_entries-routed handlers (init_loop address 256 0 idt) i
      ∙ ap (routed address (handler_of handlers i)) (init_loop-all 256 0 idt i ∙ ground arith)

  -- What every gate of the table has: it is present, selects the kernel's code, and has the fixed
  -- bits of a 32-bit gate; only the system call's gate is open to user level; and it is a trap gate,
  -- which leaves interrupts enabled, for the exceptions and for the clock, and an interrupt gate
  -- otherwise.
  pub record IsGate (i : ℕ) (g : Gate) : Type 0 where
    pub present : g.present ≡ 1
    pub selector : g.seg_selector ≡ 0x10
    pub open_to_user : g.dpl ≡ (if i == 0x80 then 3 else 0)
    pub trap : g.reserved3 ≡ (if ltb i 32 || (i == 0x28) then 1 else 0)
    pub wide : (g.size ≡ 1) × (g.reserved2 ≡ 1) × (g.reserved1 ≡ 1)
    pub zeros : (g.reserved0 ≡ 0) × (g.reserved4 ≡ 0)

  init_gate-IsGate : (i : ℕ) (g : Gate) → IsGate i (init_gate address i g)
  unfolding init_gate set_idt_entry
  init_gate-IsGate i g = ground arith

  routed-IsGate :
      (i : ℕ) (o : Option Handler) (g : Gate) → IsGate i g → IsGate i (routed address o g)
  unfolding set_idt_entry
  routed-IsGate i none g h = h
  routed-IsGate i (some k) g h = ground arith

  -- `initialize_idt` leaves all 256 gates present, 32 bits wide, on the kernel's code segment,
  -- open to user level for vector 0x80 only, as trap gates for the vectors below 32 and for 0x28
  -- and as interrupt gates for the others.
  pub initialize_idt-IsGate :
      (idt : ℕ → Gate) (i : ℕ) → i < 256 → IsGate i (initialize_idt address idt i)
  initialize_idt-IsGate idt i h =
      rw (gate idt i h) (routed-IsGate i (handler_of handlers i) _ (init_gate-IsGate i (idt i)))

  -- Where a gate leads: the handler listed for its vector; without one, `undefined_interrupt`; but
  -- the exception vectors without one keep the address that the table held before.
  abbrev pub target : (ℕ → Gate) → ℕ → Option Handler → ℕ
  target idt i (some h) = address h
  target idt i none = if ltb i 32 then offset (idt i) else address undefined_interrupt

  init_gate-offset :
      (i : ℕ) (g : Gate)
      → address undefined_interrupt < u32_mod
      → offset (init_gate address i g)
        ≡ (if ltb i 32 || (i == 0x28) then offset g else address undefined_interrupt)
  unfolding init_gate
  init_gate-offset i g h = elim (Bool-cases (ltb i 32 || (i == 0x28))) [
    | inl e ↦ rw e
    | inr e ↦ rw e (set_idt_entry-offset (address undefined_interrupt) _ h)
  ]

  target-offset :
      (idt : ℕ → Gate) (i : ℕ) (o : Option Handler)
      → ((h : Handler) → address h < u32_mod)
      → (i ≡ 0x28 → o ≢ none)
      → offset (routed address o (init_gate address i (idt i))) ≡ target idt i o
  target-offset idt i none fits ne =
      init_gate-offset i (idt i) (fits undefined_interrupt)
      ∙ (let other : i ≢ 0x28 = λ e. ne e refl in ground arith)
  target-offset idt i (some k) fits ne = set_idt_entry-offset (address k) _ (fits k)

  clock-listed : (i : ℕ) → i ≡ 0x28 → handler_of handlers i ≢ none
  unfolding handler_of
  clock-listed i e f = let g : handler_of handlers 0x28 ≡ none = rw e at f in cc g

  -- With all handlers at 32-bit addresses, the gate of each of the 256 vectors leads to the
  -- handler that is listed for it; without one, to `undefined_interrupt`, but for an exception
  -- vector to where the table led before.
  pub initialize_idt-target :
      ((h : Handler) → address h < u32_mod)
      → (idt : ℕ → Gate) (i : ℕ) → i < 256
      → offset (initialize_idt address idt i) ≡ target idt i (handler_of handlers i)
  initialize_idt-target fits idt i h =
      ap offset (gate idt i h) ∙ target-offset idt i (handler_of handlers i) fits (clock-listed i)
