-- ===== src/Programs.antt =====
-- The user programs of syscalls/ over the system calls of syscalls/ece391syscall.h: an interface with
-- the state of the system as a parameter, which Programs/Kernel fills with this kernel. A program
-- takes the state and returns a result with the new state; `none` is a call that does not return, or
-- a loop that runs on. What lies in a local buffer before it is written is a parameter.
pub mod Cat
pub mod Kernel
pub mod Ls
pub mod Greet
pub mod Counter
pub mod Shell
pub mod Syserr
pub mod Pingpong
pub mod Sigtest
pub mod Grep
pub mod Fish
pub mod Emulate
mod Tests
use ece_391_linux_kernel_cla.Prelude.{
  ℕ, zero, suc, ◌+◌, Bool, true, false, Option, none, some, ℤ, pos, negsuc, Bytes, store, literal,
  ◌==◌, ◌&&◌,
}
use ece_391_linux_kernel_cla.Support.{ece391_strlen}

abbrev pub Program : Type 0 → Type 0 → Type 0
Program S A = S → Option (A × S)

module _ {S : Type 0} where
  abbrev pub pure : {A : Type 0} → A → Program S A
  pure a s = some (a, s)

  infixl 5 ◌>>=◌ ◌>>◌
  abbrev pub ◌>>=◌ : {A B : Type 0} → Program S A → (A → Program S B) → Program S B
  ◌>>=◌ m f s = elim (m s) [ none ↦ none | some (a, s') ↦ f a s' ]

  abbrev pub ◌>>◌ : {B : Type 0} → Program S (Unit {0}) → Program S B → Program S B
  m >> k = m >>= λ _. k

  -- A computation that may find no end.
  abbrev pub lift : {A : Type 0} → Option A → Program S A
  lift none s = none
  lift (some a) s = some (a, s)

  -- No result: the end is not reached.
  abbrev pub stuck : {A : Type 0} → Program S A
  stuck s = none

  abbrev pub when : Bool → Program S (Unit {0}) → Program S (Unit {0})
  when true m = m
  when false m = pure tt

-- The system calls, with the state of the system `S`. A call that fills a buffer returns it with its
-- result; `ece391_vidmap` returns what goes to the place it is given, if anything does. `int80` is
-- the interrupt with a number in the register EAX.
pub record Calls (S : Type 0) : Type 0 where
  pub ece391_execute : Bytes → Program S ℤ
  pub ece391_read : ℤ → Bytes → ℤ → Program S (ℤ × Bytes)
  pub ece391_write : ℤ → Bytes → ℤ → Program S ℤ
  pub ece391_open : Bytes → Program S ℤ
  pub ece391_close : ℤ → Program S ℤ
  pub ece391_getargs : Bytes → ℤ → Program S (ℤ × Bytes)
  pub ece391_vidmap : ℕ → Program S (ℤ × Option ℕ)
  pub ece391_set_handler : ℤ → ℕ → Program S ℤ
  pub int80 : ℤ → Program S ℤ

-- `a == b` for an `int`.
abbrev pub is_int : ℤ → ℤ → Bool
is_int (pos a) (pos b) = a == b
is_int (negsuc a) (negsuc b) = a == b
is_int _ _ = false

abbrev pub failed : ℤ → Bool
failed r = is_int (negsuc 0) r

-- `a + 1`
abbrev pub add_one : ℤ → ℤ
add_one (pos n) = pos (n + 1)
add_one (negsuc zero) = pos 0
add_one (negsuc (suc n)) = negsuc n

-- `buf[i] = v`. A negative `i` is below the buffer.
abbrev pub store_int : Bytes → ℤ → ℕ → Bytes
store_int buf (pos i) v = store buf i v
store_int buf (negsuc i) v = buf

module _ {S : Type 0} (calls : Calls S) where
  unfoldable pub ece391_fdputs : ℤ → Bytes → Program S (Unit {0})
  ece391_fdputs fd s = do n ← lift (ece391_strlen s); _ ← calls.ece391_write fd s (pos n); pure tt
