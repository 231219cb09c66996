-- ===== src/Handler/Controls.antt =====
-- Control and a digit, in `update_buffer_and_cursor` of student-distrib/keyboard_driver.c.
use ece_391_linux_kernel_cla.Prelude.{
  ℕ, ◌+◌, ◌<◌, ◌≡◌, ◌≢◌, sym, ◌∙◌, true, List, ◌∷◌, ℕ_discrete, arith,
}
use ece_391_linux_kernel_cla.Syscalls.{Kernel}
use ece_391_linux_kernel_cla.Syscalls.Execute.{resumed}
use ece_391_linux_kernel_cla.Syscalls.Slots.{taken}
use ece_391_linux_kernel_cla.Syscalls.Stacks.{Stacks, select, Implements}
use ece_391_linux_kernel_cla.Syscalls.Stacks.Select.{switch_to_other_term-select}
use ece_391_linux_kernel_cla.Syscalls.Switch.{calc_processes}
use ece_391_linux_kernel_cla.Syscalls.Switch.Limits.{calc_processes-taken}
use ece_391_linux_kernel_cla.Handler.{
  done, gone, Interrupt, end_interrupt, on_console, key, release_key, switch_key,
  update_buffer_and_cursor,
}

-- The scancode of the release of the digit for terminal `term`.
abbrev pub release_digit : ℕ → ℕ
release_digit term = 0x82 + term

-- Control is not one of the shifts.
release_key-switch_key :
    (w : Interrupt) (k : Kernel)
    → k.console.ctrl_pressed ≡ 1
    → (release_key w 0x82 k ≡ switch_key w 0 k)
      × (release_key w 0x83 k ≡ switch_key w 1 k)
      × (release_key w 0x84 k ≡ switch_key w 2 k)
unfolding release_key
release_key-switch_key w k c = (ground (arith, c), ground (arith, c), ground (arith, c))

update-switch_key :
    (w : Interrupt) (term : ℕ) (k : Kernel)
    → term < 3
    → k.console.ctrl_pressed ≡ 1
    → update_buffer_and_cursor (key (release_digit term) w) k
      ≡ switch_key (key (release_digit term) w) term k
unfolding update_buffer_and_cursor
update-switch_key w term k lt c = elim (ℕ_discrete term 0) [
  | yes e ↦ rw e (release_key-switch_key (key 0x82 w) k c).0
  | no ne ↦ elim (ℕ_discrete term 1) [
    | yes e ↦ rw e (release_key-switch_key (key 0x83 w) k c).1
    | no ne' ↦
        let e : term ≡ 2 = omega (arith, lt, ne, ne') in
        rw e (release_key-switch_key (key 0x84 w) k c).2
  ]
]

-- With Control held and slot 0 taken, the release of the digit of another terminal switches to no
-- terminal when the counter of `calc_processes`, which is never set, happens to start at 0: the
-- handler only signals the end of the interrupt, and Control stays held.
pub update-refused :
    (w : Interrupt) (term : ℕ) (k : Kernel)
    → term < 3
    → k.console.ctrl_pressed ≡ 1
    → w.first_count ≡ 0
    → taken 0 k.processes ≡ true
    → update_buffer_and_cursor (key (release_digit term) w) k ≡ done (on_console end_interrupt k)
unfolding switch_key
update-refused w term k lt c z t =
    let six = calc_processes-taken w.first_count k.processes (omega (arith, z)) in
    let e : calc_processes w.first_count k.processes ≡ 6 = six ∙ ground (arith, z, t) in
    update-switch_key w term k lt c ∙ ground (arith, e)

-- The counters let the switch pass.
pub record IsPassed (w : Interrupt) (k : Kernel) : Type 0 where
  pub first : calc_processes w.first_count k.processes ≢ 6
  pub second : calc_processes w.second_count k.processes ≢ 5

-- With Control held, and counters of `calc_processes` that let the switch pass, the release of the
-- digit of another terminal that is open goes on with that terminal's process: the terminal is
-- selected, and all stacks of processes stay.
pub update-select :
    (w : Interrupt) (term q : ℕ) (qs : List ℕ) (s : Stacks) (k : Kernel)
    → Implements s k
    → term < 3
    → k.console.ctrl_pressed ≡ 1
    → IsPassed w k
    → term ≢ s.current
    → s.stacks term ≡ q ∷ qs
    → (k' : Kernel) × (update_buffer_and_cursor (key (release_digit term) w) k
        ≡ gone (resumed (k.console.terms term).current_esp (k.console.terms term).current_ebp k'))
      × Implements (select term s) k'
unfolding switch_key
update-select w term q qs s k i lt c p ne top =
    let (k', e, j) =
      switch_to_other_term-select (λ log port. release_digit term) w.frame term w.esp w.ebp q qs s k
        i ne top in
    let other : k.console.current_terminal ≢ term = λ x. ne (sym x ∙ i.current) in
    (k', update-switch_key w term k lt c ∙ ground (arith, e, p.first, p.second, other), j)
