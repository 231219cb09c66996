-- ===== src/Console/Kept.antt =====
-- The output routines of student-distrib/lib.c leave the terminals alone.
use ece_391_linux_kernel_cla.Prelude.{
  ℕ, zero, suc, ◌+◌, ◌≡◌, refl, ◌∙◌, inl, inr, Option, none, some, Bytes, ◌==◌, u32_mod, Bool-cases,
  arith,
}
use ece_391_linux_kernel_cla.Console.{
  Console, putc, write_char, scroll_if_needed, move_cursor_to, puts_loop, puts,
}

pub record KeepsTerms (c d : Console) : Type 0 where
  pub terms : d.terms ≡ c.terms
  pub current_terminal : d.current_terminal ≡ c.current_terminal

pub KeepsTerms-refl : (c : Console) → KeepsTerms c c
KeepsTerms-refl c = record { terms = refl; current_terminal = refl }

pub KeepsTerms-trans : (c d e : Console) → KeepsTerms c d → KeepsTerms d e → KeepsTerms c e
KeepsTerms-trans c d e f g = record {
  terms = g.terms ∙ f.terms;
  current_terminal = g.current_terminal ∙ f.current_terminal;
}

-- The console that a call leaves, if it returns.
abbrev pub Kept : Console → Option Console → Type 0
Kept c none = Unit
Kept c (some d) = KeepsTerms c d

pub putc-KeepsTerms : (ch : ℕ) (c : Console) → KeepsTerms c (putc ch c)
unfolding putc write_char scroll_if_needed move_cursor_to
putc-KeepsTerms ch c = ground arith

-- The same for a result with a count.
abbrev pub KeptCount : Console → Option (ℕ × Console) → Type 0
KeptCount c none = Unit
KeptCount c (some (n, d)) = KeepsTerms c d

pub KeptCount-trans :
    (c d : Console) (o : Option (ℕ × Console)) → KeepsTerms c d → KeptCount d o → KeptCount c o
KeptCount-trans c d none f g = g
KeptCount-trans c d (some (n, e)) f g = KeepsTerms-trans c d e f g

puts_loop-KeptCount :
    (fuel : ℕ) (s : Bytes) (i : ℕ) (c : Console) → KeptCount c (puts_loop fuel s i c)
unfolding puts_loop
puts_loop-KeptCount zero s i c = record {}
puts_loop-KeptCount (suc fuel) s i c = elim (Bool-cases (s i == 0)) [
  | inl h ↦ rw (h, KeptCount) (KeepsTerms-refl c)
  | inr h ↦
      rw (h, KeptCount)
        (KeptCount-trans c (putc (s i) c) (puts_loop fuel s (i + 1) (putc (s i) c))
          (putc-KeepsTerms (s i) c) (puts_loop-KeptCount fuel s (i + 1) (putc (s i) c)))
]

pub puts-KeptCount : (s : Bytes) (c : Console) → KeptCount c (puts s c)
unfolding puts
puts-KeptCount s c = puts_loop-KeptCount u32_mod s 0 c
