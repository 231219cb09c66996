-- ===== src/Programs/Cat.antt =====
-- syscalls/ece391cat.c.
pub mod Printed
pub mod Whole
use ece_391_linux_kernel_cla.Prelude.{
  ℕ, zero, suc, true, false, Option, none, some, ℤ, pos, is_zero, Bytes, literal,
}
use ece_391_linux_kernel_cla.Programs.{
  Program, Calls, pure, stuck, ◌>>=◌, ◌>>◌, failed, ece391_fdputs,
}

module _ {S : Type 0} (calls : Calls S) where
  -- `while (0 != (cnt = read(fd, buf, 1024)))`, on fuel.
  unfoldable pub cat_loop : ℕ → ℤ → Bytes → Program S ℤ
  cat_loop zero fd buf = stuck
  cat_loop (suc fuel) fd buf = do
    (cnt, out) ← calls.ece391_read fd buf (pos 1024)
    elim (is_zero cnt) [
      | true ↦ pure (pos 0)
      | false ↦ elim (failed cnt) [
        | true ↦ do ece391_fdputs calls (pos 1) (literal "file read failed\n"); pure (pos 3)
        | false ↦ do
          r ← calls.ece391_write (pos 1) out cnt
          elim (failed r) [ true ↦ pure (pos 3) | false ↦ cat_loop fuel fd out ]
      ]
    ]

  unfoldable pub cat_main : ℕ → Bytes → Program S ℤ
  unfolding cat_loop
  cat_main fuel buf = do
    (r, name) ← calls.ece391_getargs buf (pos 1024)
    elim (is_zero r) [
      | false ↦ do ece391_fdputs calls (pos 1) (literal "could not read arguments\n"); pure (pos 3)
      | true ↦ do
        fd ← calls.ece391_open name
        elim (failed fd) [
          | true ↦ do ece391_fdputs calls (pos 1) (literal "file not found\n"); pure (pos 2)
          | false ↦ cat_loop fuel fd name
        ]
    ]
