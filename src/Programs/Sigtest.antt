-- ===== src/Programs/Sigtest.antt =====
-- syscalls/ece391sigtest.c. The store through the null pointer `badbuf` is the processor's affair: what
-- it does, a fault and the handler for it perhaps, is a parameter. A handler is known by its address.
use ece_391_linux_kernel_cla.Prelude.{
  ℕ, true, false, ℤ, pos, is_zero, Bytes, literal, ◌==◌, if◌then◌else◌,
}
use ece_391_linux_kernel_cla.Programs.{
  Program, Calls, pure, ◌>>=◌, ◌>>◌, when, failed, is_int, store_int, ece391_fdputs,
}

abbrev pub segfault : ℤ
segfault = pos 1

abbrev pub alarm : ℤ
alarm = pos 3

-- `charbuf` and the word that `eax` of the interrupted code has on the stack; both handlers share
-- the message for a signal's number.
unfoldable pub signum_text : ℤ → Bytes
signum_text signum =
    if is_int signum (pos 0)
    then literal "0\n"
    else if is_int signum (pos 1)
    then literal "1\n"
    else if is_int signum (pos 2)
    then literal "2\n"
    else if is_int signum (pos 3)
    then literal "3\n"
    else literal "invalid\n"

module _ {S : Type 0} (calls : Calls S) where
  -- The place that `badbuf` and the saved register EAX are set to: that of `charbuf`.
  unfoldable pub segfault_sighandler : ℕ → Bytes → ℤ → Program S (ℕ × ℕ)
  unfolding signum_text
  segfault_sighandler charbuf_at buf signum = do
    ece391_fdputs calls (pos 1) (literal "Segfault signal handler called, signum: ")
    ece391_fdputs calls (pos 1) (signum_text signum)
    ece391_fdputs calls (pos 1) (literal "Press enter to continue...\n")
    _ ← calls.ece391_read (pos 0) buf (pos 1)
    ece391_fdputs calls (pos 1) (literal "Signal handler returning\n")
    pure (charbuf_at, charbuf_at)

  unfoldable pub alarm_sighandler : ℤ → Program S (Unit {0})
  unfolding signum_text
  alarm_sighandler signum = do
    ece391_fdputs calls (pos 1) (literal "Alarm signal handler called, signum: ")
    ece391_fdputs calls (pos 1) (signum_text signum)

  -- `store_bad` is `(*badbuf) = 1`, and returns what `charbuf` holds then.
  unfoldable pub sigtest_main : ℕ → ℕ → Program S ℕ → Bytes → Program S ℤ
  sigtest_main segfault_at alarm_at store_bad buf = do
    (r, args) ← calls.ece391_getargs buf (pos 1024)
    elim (is_zero r) [
      | false ↦ do ece391_fdputs calls (pos 1) (literal "could not read argument\n"); pure (pos 3)
      | true ↦ do
        when (args 0 == 49) (do
          ece391_fdputs calls (pos 1) (literal "Installing signal handlers\n")
          _ ← calls.ece391_set_handler segfault segfault_at
          _ ← calls.ece391_set_handler alarm alarm_at
          pure tt)
        ece391_fdputs calls (pos 1) (literal "Hi, what's your name? ")
        (cnt, out) ← calls.ece391_read (pos 0) args (pos 1023)
        elim (failed cnt) [
          | true ↦ do
            ece391_fdputs calls (pos 1) (literal "Can't read name from keyboard.\n")
            pure (pos 3)
          | false ↦ do
            charbuf ← store_bad
            ece391_fdputs calls (pos 1) (literal "Hello, ")
            ece391_fdputs calls (pos 1) (store_int out cnt 0)
            ece391_fdputs calls (pos 1)
                (if charbuf == 1 then literal "success\n" else literal "failure\n")
            pure (pos 0)
        ]
    ]
