-- ===== src/Io.antt =====
-- Port input and output and the interrupt flag, as the macros `outb`, `inb`, `cli` and `sti` of
-- student-distrib/lib.h reach them. The devices behind the ports are not part of the kernel: what a
-- port answers is a function of the writes so far, and a parameter of the code that reads it.
use ece_391_linux_kernel_cla.Prelude.{ℕ, Bool, true, false, List, ◌∷◌, u8}

-- A byte written, and the port.
pub record Out : Type 0 where
  pub value : ℕ
  pub port : ℕ

pub record Io : Type 0 where
  -- The newest write first.
  pub log : List Out
  pub interrupts : Bool

-- What a read of a port answers after the writes so far.
abbrev pub Device : Type 0
Device = List Out → ℕ → ℕ

abbrev pub out : ℕ → ℕ → Out
out v p = record { value = v; port = p }

abbrev pub outb : ℕ → ℕ → Io → Io
outb v p io = record io { log = out (u8 v) p ∷ io.log }

abbrev pub inb : Device → ℕ → Io → ℕ
inb device p io = u8 (device io.log p)

abbrev pub cli : Io → Io
cli io = record io { interrupts = false }

abbrev pub sti : Io → Io
sti io = record io { interrupts = true }
