-- ===== src/Programs/Ls.antt =====
-- syscalls/ece391ls.c.
pub mod Listed
use ece_391_linux_kernel_cla.Prelude.{
  ℕ, zero, suc, ◌+◌, true, false, ℤ, pos, negsuc, is_zero, Bytes, literal,
}
use ece_391_linux_kernel_cla.Programs.{
  Program, Calls, pure, stuck, ◌>>=◌, ◌>>◌, failed, store_int, add_one, ece391_fdputs,
}

module _ {S : Type 0} (calls : Calls S) where
  -- `while (0 != (cnt = read(fd, buf, SBUFSIZE-1)))`, on fuel.
  unfoldable pub ls_loop : ℕ → ℤ → Bytes → Program S ℤ
  ls_loop zero fd buf = stuck
  ls_loop (suc fuel) fd buf = do
    (cnt, out) ← calls.ece391_read fd buf (pos 32)
    elim (is_zero cnt) [
      | true ↦ pure (pos 0)
      | false ↦ elim (failed cnt) [
        | true ↦ do
          ece391_fdputs calls (pos 1) (literal "directory entry read failed\n")
          pure (pos 3)
        | false ↦ do
          let line = store_int out cnt 10
          r ← calls.ece391_write (pos 1) line (add_one cnt)
          elim (failed r) [ true ↦ pure (pos 3) | false ↦ ls_loop fuel fd line ]
      ]
    ]

  unfoldable pub ls_main : ℕ → Bytes → Program S ℤ
  unfolding ls_loop
  ls_main fuel buf = do
    fd ← calls.ece391_open (literal ".")
    elim (failed fd) [
      | true ↦ do ece391_fdputs calls (pos 1) (literal "directory open failed\n"); pure (pos 2)
      | false ↦ ls_loop fuel fd buf
    ]
