-- ===== src/Programs/Emulate/Fills.antt =====
-- The system calls of syscalls/ece391emulate.c over the host, and the interface of the user programs
-- that they fill.
use ece_391_linux_kernel_cla.Prelude.{
  ℕ, ◌+◌, true, false, Option, none, some, List, map, ℤ, pos, negsuc, minus_one, is_zero, Bytes,
  shift, literal, s32, ◌==◌, ltb, if◌then◌else◌,
}
use ece_391_linux_kernel_cla.Support.{ece391_strlen, ece391_strcmp}
use ece_391_linux_kernel_cla.Programs.{Program, Calls, pure, lift, ◌>>=◌, ◌>>◌, is_int, failed}
use ece_391_linux_kernel_cla.Programs.Emulate.{split_command, join_args, read_name}

-- How a process has ended: by its own status, or by a signal.
pub data Status : Type 0 where
  exited : ℕ → Status
  signalled : ℕ → Status

-- What the host and its C library do. `run` is `fork`, `execv` in the child, and `wait` in the parent;
-- the child kills itself by signal 9 if `execv` returns. A directory stream is known by a number.
pub record Host (H : Type 0) : Type 0 where
  pub run : Bytes → List Bytes → Program H Status
  pub opendir : Bytes → Program H (Option ℕ)
  pub open_path : Bytes → Program H ℤ
  pub readdir : ℕ → Program H (Option Bytes)
  pub closedir : ℕ → Program H ℤ
  pub close_fd : ℤ → Program H ℤ
  pub call_open : Bytes → Program H ℕ
  pub call_read : ℤ → Bytes → ℤ → Program H (ℤ × Bytes)
  pub call_write : ℤ → Bytes → ℤ → Program H ℤ
  pub call_close : ℤ → Program H ℤ
  pub mmap : ℤ → Program H (Option ℕ)
  pub perror : Bytes → Program H (Unit {0})

-- The variables of the file, and the host. `argv` are the arguments behind the program's name.
pub record Emulated (H : Type 0) : Type 0 where
  pub host : H
  pub dir : Option ℕ
  pub dir_fd : ℤ
  pub mem_fd : ℤ
  pub argv : List Bytes

module _ {H : Type 0} (os : Host H) where
  abbrev on_host : {A : Type 0} → Program H A → Program (Emulated H) A
  on_host m e = elim (m e.host) [ none ↦ none | some (a, h) ↦ some (a, record e { host = h }) ]

  abbrev set_dir : Option ℕ → ℤ → Program (Emulated H) (Unit {0})
  set_dir d fd e = some (tt, record e { dir = d; dir_fd = fd })

  abbrev set_mem : ℤ → Program (Emulated H) (Unit {0})
  set_mem fd e = some (tt, record e { mem_fd = fd })

  -- What `ece391_execute` makes of the end of the child.
  unfoldable pub status_of : Status → ℤ
  status_of (exited n) = pos n
  status_of (signalled n) = if n == 9 then minus_one else pos 256

  unfoldable pub emulated_execute : Bytes → Bytes → Program (Emulated H) ℤ
  unfolding status_of
  emulated_execute buf command = do
    n ← lift (ece391_strlen command)
    elim (ltb 1023 n) [
      | true ↦ pure minus_one
      | false ↦ do
        (line, args) ← lift (split_command buf command)
        status ← on_host (os.run line (map (λ i. shift line i) args))
        pure (status_of status)
    ]

  -- The raw call returns the negative of an error's number.
  unfoldable pub emulated_open : Bytes → Program (Emulated H) ℤ
  emulated_open filename = do
    r ← lift (ece391_strcmp filename (literal "."))
    elim (is_zero r) [
      | true ↦ do
        d ← on_host (os.opendir (literal "."))
        fd ← on_host (os.open_path (literal "/dev/null"))
        set_dir d fd
        pure fd
      | false ↦ do
        rval ← on_host (os.call_open filename)
        pure (if ltb 0xFFFFC000 rval then minus_one else s32 rval)
    ]

  unfoldable pub emulated_getargs : Bytes → ℤ → Program (Emulated H) (ℤ × Bytes)
  emulated_getargs buf nbytes e = elim (join_args e.argv buf nbytes) [
    | none ↦ none
    | some r ↦ some (r, e)
  ]

  -- The first megabyte of memory, and the screen in it.
  unfoldable pub map_low : ℤ → Program (Emulated H) (ℤ × Option ℕ)
  map_low mem_fd = do
    image ← on_host (os.mmap mem_fd)
    elim image [
      | none ↦ do on_host (os.perror (literal "mmap low memory")); pure (minus_one, none)
      | some base ↦ pure (pos 0, some (base + 0xB8000))
    ]

  unfoldable pub emulated_vidmap : ℕ → Program (Emulated H) (ℤ × Option ℕ)
  unfolding map_low
  emulated_vidmap at e = elim (failed e.mem_fd) [
    | true ↦ (do fd ← on_host (os.open_path (literal "/dev/mem")); set_mem fd; map_low fd) e
    | false ↦ map_low (e.mem_fd) e
  ]

  -- The stream of the directory, if the descriptor is the one that stands for it.
  abbrev dir_for : ℤ → Emulated H → Option ℕ
  dir_for fd e = if is_int e.dir_fd fd then e.dir else none

  -- A read of the directory takes the count as it is, a negative one as one that is never reached.
  unfoldable pub emulated_read : ℤ → Bytes → ℤ → Program (Emulated H) (ℤ × Bytes)
  emulated_read fd buf nbytes e = elim (dir_for fd e) [
    | none ↦ on_host (os.call_read fd buf nbytes) e
    | some d ↦
        (do
          de ← on_host (os.readdir d)
          elim de [
            | none ↦ pure (pos 0, buf)
            | some d_name ↦ do
              (n, out) ← lift (read_name d_name buf (elim nbytes [ pos k ↦ k | negsuc k ↦ 0 ]))
              pure (pos n, out)
          ])
          e
  ]

  unfoldable pub emulated_write : ℤ → Bytes → ℤ → Program (Emulated H) ℤ
  emulated_write fd buf nbytes e = elim (dir_for fd e) [
    | none ↦ on_host (os.call_write fd buf nbytes) e
    | some d ↦ some (minus_one, e)
  ]

  unfoldable pub emulated_close : ℤ → Program (Emulated H) ℤ
  emulated_close fd e = elim (dir_for fd e) [
    | none ↦ on_host (os.call_close fd) e
    | some d ↦
        (do
          _ ← on_host (os.closedir d)
          _ ← on_host (os.close_fd e.dir_fd)
          set_dir none minus_one
          pure (pos 0))
          e
  ]

  -- The file has no `ece391_set_handler`, and no program here makes a call by its number but the test of
  -- the numbers; both are parameters. `garbage` is what lies in the buffer of `ece391_execute`.
  abbrev pub emulated_calls :
      Bytes → (ℤ → ℕ → Program (Emulated H) ℤ) → (ℤ → Program (Emulated H) ℤ) → Calls (Emulated H)
  emulated_calls garbage set_handler int80 = record {
    ece391_execute = emulated_execute garbage;
    ece391_read = emulated_read;
    ece391_write = emulated_write;
    ece391_open = emulated_open;
    ece391_close = emulated_close;
    ece391_getargs = emulated_getargs;
    ece391_vidmap = emulated_vidmap;
    ece391_set_handler = set_handler;
    int80 = int80;
  }
