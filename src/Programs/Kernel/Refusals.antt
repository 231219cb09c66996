-- ===== src/Programs/Kernel/Refusals.antt =====
-- The calls that this kernel refuses, and messages to the screen, as a user program meets them.
use ece_391_linux_kernel_cla.Prelude.{
  ℕ, ◌+◌, ◌≤◌, ◌<◌, ◌≡◌, ◌≢◌, ◌⊎◌, inl, inr, refl, some, Option, ℤ, pos, minus_one, Bytes, to_u32,
  arith,
}
use ece_391_linux_kernel_cla.Support.{ece391_strlen}
use ece_391_linux_kernel_cla.Syscalls.{Kernel, terminal_fops, running_pcb, fd_of, write, close}
use ece_391_linux_kernel_cla.Syscalls.Execute.{quieted}
use ece_391_linux_kernel_cla.Syscalls.Open.{IsBad, above, unused, read-IsBad}
use ece_391_linux_kernel_cla.Programs.{ece391_fdputs, ◌>>=◌}
use ece_391_linux_kernel_cla.Programs.Kernel.{
  System, Surroundings, system_call, call_read, kernel_read, kernel_write, kernel_close,
  kernel_calls,
}
use ece_391_linux_kernel_cla.Programs.Kernel.Files.{IsShown, system_call-some, kernel_write-screen}

-- A call has come and gone.
abbrev pub tick : System → System
tick m = record m { count = m.count + 1 }

-- The process in slot `p` runs, with the screen as descriptor 1.
pub record IsUser (p : ℕ) (k : Kernel) : Type 0 where
  pub run : running_pcb k ≡ some p
  pub screen : (fd_of p 1 k).table ≡ terminal_fops
  pub screen_in_use : (fd_of p 1 k).in_use ≢ 0

pub system_call-tick :
    {A : Type 0} (call : Kernel → Option (A × Kernel)) (m : System) (a : A)
    → call (quieted m.kernel) ≡ some (a, quieted m.kernel)
    → system_call call m ≡ some (a, tick m)
system_call-tick call m a e = system_call-some call m a (quieted m.kernel) e

-- A descriptor that is out of bounds or not in use.
abbrev pub IsClosed : ℕ → ℤ → System → Type 0
IsClosed p fd m = (7 < to_u32 fd) ⊎ ((fd_of p (to_u32 fd) (m.kernel)).in_use ≡ 0)

IsClosed-IsBad :
    (p : ℕ) (fd : ℤ) (buf : Bytes) (m : System)
    → IsClosed p fd m
    → IsBad (to_u32 fd) p (quieted m.kernel) (some buf)
IsClosed-IsBad p fd buf m (inl h) = above buf h
IsClosed-IsBad p fd buf m (inr h) = unused buf h

module _ (w : Surroundings) (p : ℕ) (m : System) (run : running_pcb (m.kernel) ≡ some p) where
  module _ (fd : ℤ) (bad : IsClosed p fd m) where
    pub kernel_read-IsClosed :
        (buf : Bytes) (n : ℤ) → kernel_read w fd buf n m ≡ some ((minus_one, buf), tick m)
    unfolding kernel_read call_read
    kernel_read-IsClosed buf n =
        let k = quieted m.kernel in
        let e =
          read-IsBad (w.outside m.count) (to_u32 fd) p (to_u32 n) k (some buf) run
            (IsClosed-IsBad p fd buf m bad) in
        system_call-tick (call_read (w.outside m.count) (to_u32 fd) buf (to_u32 n)) m
          (minus_one, buf) (rw (call_read, e.0) refl)

    pub kernel_write-IsClosed :
        (buf : Bytes) (n : ℤ) → kernel_write w fd buf n m ≡ some (minus_one, tick m)
    unfolding kernel_write
    kernel_write-IsClosed buf n =
        let k = quieted m.kernel in
        let e =
          read-IsBad (w.outside m.count) (to_u32 fd) p (to_u32 n) k (some buf) run
            (IsClosed-IsBad p fd buf m bad) in
        system_call-tick (write ((w.outside m.count).device) (to_u32 fd) (some buf) (to_u32 n)) m
          minus_one e.1

  -- Descriptors 0 and 1 cannot be closed either.
  pub kernel_close-refused :
      (fd : ℤ) → (to_u32 fd ≤ 1) ⊎ IsClosed p fd m → kernel_close w fd m ≡ some (minus_one, tick m)
  unfolding kernel_close close
  kernel_close-refused fd bad =
      system_call-tick (close (to_u32 fd)) m minus_one (ground (arith, run, bad))

-- A message is shown.
pub kernel_fdputs :
    (w : Surroundings) (p n : ℕ) (s : Bytes) (m : System)
    → IsUser p (m.kernel)
    → ece391_strlen s ≡ some n
    → n < 4294967296
    → (m' : System) × (ece391_fdputs (kernel_calls w) (pos 1) s m ≡ some (tt, m'))
      × IsShown p s n (m.kernel) (m'.kernel)
unfolding ece391_fdputs
kernel_fdputs w p n s m u e lt =
    let put = kernel_write-screen w p n s m u.run u.screen u.screen_in_use lt in
    (put.0, rw (◌>>=◌, e, put.1) refl, put.2)
