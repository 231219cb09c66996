-- ===== src/Programs/Shell.antt =====
-- syscalls/ece391shell.c.
pub mod Session
use ece_391_linux_kernel_cla.Prelude.{
  ℕ, zero, suc, ◌-◌, Bool, true, false, ◌&&◌, ℤ, pos, negsuc, is_zero, is_pos, Bytes, literal, ◌==◌,
  ltb, if◌then◌else◌,
}
use ece_391_linux_kernel_cla.Support.{ece391_strcmp}
use ece_391_linux_kernel_cla.Programs.{
  Program, Calls, pure, stuck, lift, ◌>>=◌, ◌>>◌, is_int, failed, store_int, ece391_fdputs,
}

-- `if (cnt > 0 && '\n' == buf[cnt - 1]) cnt--;`
unfoldable pub trim : Bytes → ℤ → ℤ
trim buf (negsuc n) = negsuc n
trim buf (pos n) = if ltb 0 n && (buf (n - 1) == 10) then pos (n - 1) else pos n

module _ {S : Type 0} (calls : Calls S) where
  -- What the shell says of the result of a command.
  unfoldable pub report : ℤ → Program S (Unit {0})
  report rval = elim (failed rval) [
    | true ↦ ece391_fdputs calls (pos 1) (literal "no such command\n")
    | false ↦ elim (is_int (pos 256) rval) [
      | true ↦ ece391_fdputs calls (pos 1) (literal "program terminated by exception\n")
      | false ↦ elim (is_zero rval) [
        | true ↦ pure tt
        | false ↦ ece391_fdputs calls (pos 1) (literal "program terminated abnormally\n")
      ]
    ]
  ]

  -- `while (1)`, on fuel.
  unfoldable pub shell_loop : ℕ → Bytes → Program S ℤ
  unfolding trim report
  shell_loop zero buf = stuck
  shell_loop (suc fuel) buf = do
    ece391_fdputs calls (pos 1) (literal "391OS> ")
    (cnt, out) ← calls.ece391_read (pos 0) buf (pos 1023)
    elim (failed cnt) [
      | true ↦ do ece391_fdputs calls (pos 1) (literal "read from keyboard failed\n"); pure (pos 3)
      | false ↦ do
        let line = store_int out (trim out cnt) 0
        differs ← lift (ece391_strcmp line (literal "exit"))
        elim (is_zero differs) [
          | true ↦ pure (pos 0)
          | false ↦ elim (line 0 == 0) [
            | true ↦ shell_loop fuel line
            | false ↦ do rval ← calls.ece391_execute line; report rval; shell_loop fuel line
          ]
        ]
    ]

  unfoldable pub shell_main : ℕ → Bytes → Program S ℤ
  unfolding shell_loop
  shell_main fuel buf = do
    ece391_fdputs calls (pos 1) (literal "Starting 391 Shell\n")
    shell_loop fuel buf
