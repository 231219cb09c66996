-- ===== src/Programs/Grep/Search.antt =====
-- The search of a line in syscalls/ece391grep.c against what it is to find.
use ece_391_linux_kernel_cla.Prelude.{ℕ, ◌+◌, ◌<◌, ◌≡◌, Bytes}

-- The `n` characters of `s` stand in `text` from `at` on.
abbrev pub StandsAt : Bytes → Bytes → ℕ → ℕ → Type 0
StandsAt s text n at = (j : ℕ) → j < n → text (at + j) ≡ s j
