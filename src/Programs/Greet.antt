-- ===== src/Programs/Greet.antt =====
-- syscalls/ece391hello.c and syscalls/ece391testprint.c.
use ece_391_linux_kernel_cla.Prelude.{true, false, ℤ, pos, Bytes, literal}
use ece_391_linux_kernel_cla.Programs.{
  Program, Calls, pure, ◌>>=◌, ◌>>◌, failed, store_int, ece391_fdputs,
}

module _ {S : Type 0} (calls : Calls S) where
  unfoldable pub hello_main : Bytes → Program S ℤ
  hello_main buf = do
    ece391_fdputs calls (pos 1) (literal "Hi, what's your name? ")
    (cnt, out) ← calls.ece391_read (pos 0) buf (pos 1023)
    elim (failed cnt) [
      | true ↦ do
        ece391_fdputs calls (pos 1) (literal "Can't read name from keyboard.\n")
        pure (pos 3)
      | false ↦ do
        ece391_fdputs calls (pos 1) (literal "Hello, ")
        ece391_fdputs calls (pos 1) (store_int out cnt 0)
        pure (pos 0)
    ]

  unfoldable pub testprint_main : Program S ℤ
  testprint_main = do
    ece391_fdputs calls (pos 1) (literal "Hello, if this ran, the program was correct. Yay!\n")
    pure (pos 0)
