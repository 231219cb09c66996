-- ===== src/Scheduler/Resumption.antt =====
-- What `switch_active_task` of student-distrib/scheduler.c saves and brings back, and when its timer
-- spins.
use ece_391_linux_kernel_cla.Prelude.{
  ℕ, ◌+◌, ◌%◌, ◌<◌, ◌≡◌, ◌≢◌, refl, sym, ◌∙◌, ap, true, false, ◌==◌, some, ℕ_discrete, arith,
}
use ece_391_linux_kernel_cla.Paging.{load_new_process}
use ece_391_linux_kernel_cla.Syscalls.{Kernel}
use ece_391_linux_kernel_cla.Syscalls.Execute.{resumed, Frame, kernel_or}
use ece_391_linux_kernel_cla.Scheduler.{save_task, switch_active_task, spins, quiet_tick, inter_pit}

save_task-other :
    (a esp ebp i : ℕ) (k : Kernel)
    → i ≢ a
    → (save_task a esp ebp k).console.terms i ≡ k.console.terms i
unfolding save_task
save_task-other a esp ebp i k ne = let e : (i == a) ≡ false = ground arith in rw e refl

save_task_self :
    (a esp ebp : ℕ) (k : Kernel)
    → (save_task a esp ebp k).console.terms a
      ≡ record (k.console.terms a) { current_esp = esp; current_ebp = ebp; esp0 = k.esp0 }
unfolding save_task
save_task_self a esp ebp k = let e : (a == a) ≡ true = ground arith in rw e refl

-- The kernel that the switch ends with.
abbrev pub resumption : ℕ → ℕ → ℕ → ℕ → ℕ → Kernel → Kernel
resumption b esp ebp a q k =
    let k₁ = save_task a esp ebp k in
    record k₁ {
      tables = load_new_process (k₁.pcbs q).process_num (k₁.tables);
      esp0 = (k₁.console.terms b).esp0;
    }

pub switch_active_task-resumption :
    (b esp ebp a q : ℕ) (k : Kernel)
    → b ≢ a
    → (k.console.terms b).running_pcb ≡ some q
    → switch_active_task b esp ebp a k ≡ (
      b,
      resumed
          (k.console.terms b).current_esp
          (k.console.terms b).current_ebp
          (resumption b esp ebp a q k),
    )
unfolding switch_active_task
switch_active_task-resumption b esp ebp a q k ne run =
    let same = save_task-other a esp ebp b k ne in
    let run' : ((save_task a esp ebp k).console.terms b).running_pcb ≡ some q =
      ap (λ t. t.running_pcb) same ∙ run in
    let e : switch_active_task b esp ebp a k ≡ (
      b,
      resumed ((save_task a esp ebp k).console.terms b).current_esp
          ((save_task a esp ebp k).console.terms b).current_ebp (resumption b esp ebp a q k),
    ) =
      ground (arith, run') in
    e ∙ ap (λ t. (b, resumed t.current_esp t.current_ebp (resumption b esp ebp a q k))) same

-- A switch of the running task from terminal `a` to terminal `b`, then any change of the kernel
-- that leaves what is saved of terminal `a` alone, then a switch back: the second goes on with the
-- stack on which the first was called, with the kernel stack of that time and the image of the
-- process of terminal `a`. The second switch changes neither which terminal is shown nor the
-- screen.
pub switch_active_task-back :
    (a b esp ebp esp' ebp' p q : ℕ) (k k₁ k₂ : Kernel)
    → b ≢ a
    → (k.console.terms a).running_pcb ≡ some p
    → (k.console.terms b).running_pcb ≡ some q
    → switch_active_task b esp ebp a k
      ≡ (b, resumed (k.console.terms b).current_esp (k.console.terms b).current_ebp k₁)
    → k₂.console.terms a ≡ k₁.console.terms a
    → (k₃ : Kernel) × (switch_active_task a esp' ebp' b k₂ ≡ (a, resumed esp ebp k₃))
      × (k₃.esp0 ≡ k.esp0)
      × (k₃.tables ≡ load_new_process (k₂.pcbs p).process_num k₂.tables)
      × (k₃.console.video ≡ k₂.console.video)
      × (k₃.console.current_terminal ≡ k₂.console.current_terminal)
unfolding save_task kernel_or
switch_active_task-back a b esp ebp esp' ebp' p q k k₁ k₂ ne run run' out same =
    let end : resumption b esp ebp a q k ≡ k₁ =
      ap (λ x. kernel_or k x.1)
        (sym (switch_active_task-resumption b esp ebp a q k ne run') ∙ out) in
    let saved : k₂.console.terms a
        ≡ record (k.console.terms a) { current_esp = esp; current_ebp = ebp; esp0 = k.esp0 } =
      same ∙ sym (ap (λ x. x.console.terms a) end) ∙ save_task_self a esp ebp k in
    let running : (k₂.console.terms a).running_pcb ≡ some p = ap (λ t. t.running_pcb) saved ∙ run in
    let back = switch_active_task-resumption a esp' ebp' b p k₂ (λ e. ne (sym e)) running in
    (
      resumption a esp' ebp' b p k₂,
      back
          ∙ ap (λ t. (a, resumed t.current_esp t.current_ebp (resumption a esp' ebp' b p k₂)))
              saved,
      ap (λ t. t.esp0) (save_task-other b esp' ebp' a k₂ (λ e. ne (sym e)) ∙ saved),
      refl,
      refl,
      refl,
    )

-- As soon as one of the other two terminals is open, the timer's handler never returns; it prints the
-- same message for ever, with interrupts disabled, and switches to no other process.
pub inter_pit-spins :
    (fr : Frame) (counter a : ℕ) (k : Kernel)
    → a < 3
    → a ≢ counter % 3
    → (k.console.terms a).been_here ≡ 1
    → inter_pit fr counter k ≡ spins counter (quiet_tick k)
unfolding inter_pit
inter_pit-spins fr counter a k lt ne open_ = elim (ℕ_discrete a ((counter + 1) % 3)) [
  | yes e ↦
      let h : (k.console.terms ((counter + 1) % 3)).been_here ≡ 1 =
        ap (λ x. (k.console.terms x).been_here) (sym e) ∙ open_ in
      ground (arith, h)
  | no d ↦
      let e : a ≡ (counter + 2) % 3 = omega (arith, lt, ne, d) in
      let h : (k.console.terms ((counter + 2) % 3)).been_here ≡ 1 =
        ap (λ x. (k.console.terms x).been_here) (sym e) ∙ open_ in
      ground (arith, h)
]
