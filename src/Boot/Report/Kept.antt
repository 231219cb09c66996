-- ===== src/Boot/Report/Kept.antt =====
-- The report that `entry` of student-distrib/kernel.c prints leaves the terminals alone.
use ece_391_linux_kernel_cla.Prelude.{
  ℕ, zero, suc, ◌+◌, ◌≡◌, refl, inl, inr, subst, Bool, true, false, ◌&&◌, Option, none, some, List,
  Bytes, u32, ◌==◌, ltb, Bool-cases,
}
use ece_391_linux_kernel_cla.Boot.Report.{
  Report, bootloader_magic, check_flag, then_report, if_flag, word_at, print, bytes_loop,
  module_loop, report_modules, mmap_loop, report_mmap, report_first, report_last, print_report,
}
use ece_391_linux_kernel_cla.Console.{Console, clear}
use ece_391_linux_kernel_cla.Console.Kept.{KeepsTerms, KeepsTerms-refl, KeepsTerms-trans, KeptCount}
use ece_391_linux_kernel_cla.Printf.Kept.{printf-KeptCount}

-- What a part of the report that starts with this console ends with, if it returns.
abbrev EndsKept : Console → Option Report → Type 0
EndsKept c none = Unit
EndsKept c (some q) = KeepsTerms c q.console

record KeptReport (c : Console) (o : Option Report) : Type 0 where
  ends : EndsKept c o

-- A part that keeps the terminals whatever it starts with.
abbrev Keeps : (Report → Option Report) → Type 0
Keeps f = (r : Report) → KeptReport r.console (f r)

then_report-Kept :
    (c : Console) (o : Option Report) (f : Report → Option Report)
    → KeptReport c o
    → Keeps f
    → KeptReport c (then_report o f)
unfolding then_report
then_report-Kept c none f h g = record { ends = record {} }
then_report-Kept c (some q) f h g = record { ends = longer (f q) ((g q).ends) }
  where
    longer : (o : Option Report) → EndsKept q.console o → EndsKept c o
    longer none k = k
    longer (some u) k = KeepsTerms-trans c q.console u.console h.ends k

if_flag-Kept : (b : Bool) (f : Report → Option Report) → Keeps f → Keeps (if_flag b f)
unfolding if_flag
if_flag-Kept true f h r = h r
if_flag-Kept false f h r = record { ends = KeepsTerms-refl r.console }

-- What the whole report ends with.
abbrev KeptAll : Console → Option (Bool × Report) → Type 0
KeptAll c none = Unit
KeptAll c (some (b, q)) = KeepsTerms c q.console

KeptAll-trans :
    (c d : Console) (o : Option (Bool × Report)) → KeepsTerms c d → KeptAll d o → KeptAll c o
KeptAll-trans c d none h g = g
KeptAll-trans c d (some (b, q)) h g = KeepsTerms-trans c d q.console h g

some-Kept :
    (c : Console) (b : Bool) (o : Option Report)
    → KeptReport c o
    → KeptAll c (elim o [ none ↦ none | some q ↦ some (b, q) ])
some-Kept c b none h = record {}
some-Kept c b (some q) h = h.ends

first-Kept :
    (c : Console) (o : Option Report)
    → KeptReport c o
    → (f : Report → Option (Bool × Report)) → ((q : Report) → KeptAll q.console (f q))
    → KeptAll c (elim o [ none ↦ none | some q ↦ f q ])
first-Kept c none h f g = record {}
first-Kept c (some q) h f g = KeptAll-trans c q.console (f q) h.ends (g q)

module _ (memory conv_buf : Bytes) (behind : ℕ → ℕ) where
  print-Kept : (format : Bytes) (args : List ℕ) → Keeps (print memory conv_buf behind format args)
  unfolding print
  print-Kept format args r = record {
    ends = counted _ (printf-KeptCount _ memory conv_buf format r.console);
  }
    where
      counted :
          (o : Option (ℕ × Console))
          → KeptCount r.console o
          → EndsKept r.console
              (elim o [ none ↦ none | some (n, c) ↦ some (record r { console = c }) ])
      counted none h = h
      counted (some (n, c)) h = h

  bytes_loop-Kept : (k i mod_start : ℕ) → Keeps (bytes_loop memory conv_buf behind k i mod_start)
  unfolding bytes_loop
  bytes_loop-Kept zero i mod_start r = record { ends = KeepsTerms-refl r.console }
  bytes_loop-Kept (suc k) i mod_start r =
      then_report-Kept r.console _ _ (print-Kept _ _ r) (bytes_loop-Kept k (i + 1) mod_start)

  module_loop-Kept : (k n at : ℕ) → Keeps (module_loop memory conv_buf behind k n at)
  unfolding module_loop
  module_loop-Kept zero n at r = record { ends = KeepsTerms-refl r.console }
  module_loop-Kept (suc k) n at r = then_report-Kept r.console _ _ (print-Kept _ _ r) (λ r₁.
      then_report-Kept r₁.console _ _ (print-Kept _ _ r₁) (λ r₂.
        then_report-Kept r₂.console _ _ (print-Kept _ _ r₂) (λ r₃.
          then_report-Kept r₃.console _ _ (bytes_loop-Kept 16 0 _ r₃) (λ r₄.
            then_report-Kept r₄.console _ _ (print-Kept _ _ r₄)
              (module_loop-Kept k (n + 1) (u32 (at + 16)))))))

  report_modules-Kept : (mbi : ℕ) → Keeps (report_modules memory conv_buf behind mbi)
  unfolding report_modules
  report_modules-Kept mbi r = module_loop-Kept _ 0 _ _

  mmap_loop-Kept : (fuel mmap end : ℕ) → Keeps (mmap_loop memory conv_buf behind fuel mmap end)
  unfolding mmap_loop
  mmap_loop-Kept zero mmap end r = record { ends = record {} }
  mmap_loop-Kept (suc fuel) mmap end r = elim (Bool-cases (ltb mmap end)) [
    | inl h ↦
        rw (h, mmap_loop)
          (then_report-Kept r.console _ _ (print-Kept _ _ r) (mmap_loop-Kept fuel _ end))
    | inr h ↦ rw (h, mmap_loop) (record { ends = KeepsTerms-refl r.console })
  ]

  report_mmap-Kept : (fuel mbi : ℕ) → Keeps (report_mmap memory conv_buf behind fuel mbi)
  unfolding report_mmap
  report_mmap-Kept fuel mbi r =
      then_report-Kept r.console _ _ (print-Kept _ _ r) (mmap_loop-Kept fuel _ _)

  report_first-Kept : (mbi : ℕ) → Keeps (report_first memory conv_buf behind mbi)
  unfolding report_first
  report_first-Kept mbi r = then_report-Kept r.console _ _ (print-Kept _ _ r) (λ r₁.
      then_report-Kept r₁.console _ _ (if_flag-Kept _ _ (print-Kept _ _) r₁) (λ r₂.
        then_report-Kept r₂.console _ _ (if_flag-Kept _ _ (print-Kept _ _) r₂) (λ r₃.
          then_report-Kept r₃.console _ _ (if_flag-Kept _ _ (print-Kept _ _) r₃)
            (if_flag-Kept _ _ (report_modules-Kept mbi)))))

  report_last-Kept : (fuel mbi : ℕ) → Keeps (report_last memory conv_buf behind fuel mbi)
  unfolding report_last
  report_last-Kept fuel mbi r =
      then_report-Kept r.console _ _ (if_flag-Kept _ _ (print-Kept _ _) r)
        (if_flag-Kept _ _ (report_mmap-Kept fuel mbi))

  clear-KeepsTerms : (c : Console) → KeepsTerms c (clear c)
  unfolding clear
  clear-KeepsTerms c = record { terms = refl; current_terminal = refl }

  print_report-Kept :
      (fuel magic addr : ℕ) (r : Report)
      → KeptAll r.console (print_report memory conv_buf behind fuel magic addr r)
  unfolding print_report
  print_report-Kept fuel magic addr r =
      let c = r.console in
      let start : Report = record r { console = clear c } in
      let flags = word_at memory conv_buf behind addr in
      KeptAll-trans c (clear c) _ (clear-KeepsTerms c)
        (elim (Bool-cases (magic == bootloader_magic)) [
          | inr h ↦ rw (h, KeptAll) (some-Kept (clear c) false _ (print-Kept _ _ start))
          | inl h ↦
              rw (h, KeptAll)
                (first-Kept (clear c) _ (report_first-Kept addr start) _ (λ q.
                  elim (Bool-cases (check_flag flags 4 && check_flag flags 5)) [
                    | inl g ↦ rw (g, KeptAll) (some-Kept q.console false _ (print-Kept _ _ q))
                    | inr g ↦
                        rw (g, KeptAll) (some-Kept q.console true _ (report_last-Kept fuel addr q))
                  ]))
        ])

  -- The report leaves the terminals alone, whether `entry` goes on or not.
  pub print_report-KeepsTerms :
      (fuel magic addr : ℕ) (r q : Report) (go_on : Bool)
      → print_report memory conv_buf behind fuel magic addr r ≡ some (go_on, q)
      → KeepsTerms r.console q.console
  print_report-KeepsTerms fuel magic addr r q go_on e =
      subst (KeptAll r.console) e (print_report-Kept fuel magic addr r)
