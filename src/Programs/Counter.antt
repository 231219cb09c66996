-- ===== src/Programs/Counter.antt =====
-- syscalls/ece391counter.c. `cnt` is unsigned there; it is compared with -1 as a word.
use ece_391_linux_kernel_cla.Prelude.{
  ℕ, zero, suc, ◌+◌, Bool, true, false, ◌||◌, ◌&&◌, ℤ, pos, Bytes, literal, ◌==◌, ltb,
  if◌then◌else◌,
}
use ece_391_linux_kernel_cla.Support.{ece391_strlen, ece391_itoa}
use ece_391_linux_kernel_cla.Programs.{
  Program, Calls, pure, lift, ◌>>=◌, ◌>>◌, failed, store_int, ece391_fdputs,
}

-- The `switch` on the first character; `max` is 0 for an empty line.
unfoldable pub count_for : ℕ → ℕ
count_for c = if c == 48 then 100 else if c == 49 then 10000 else if c == 50 then 100000 else 0

-- A line of more than one character, or one that is no digit from 0 to 2.
unfoldable pub is_wrong : ℕ → ℕ → Bool
is_wrong n c = ltb 1 n || ((n == 1) && (ltb c 48 || ltb 50 c))

module _ {S : Type 0} (calls : Calls S) where
  -- `for (i = 0; i < max; i++)`, with `k` rounds left.
  unfoldable pub count_loop : ℕ → ℕ → Bytes → Program S Bytes
  count_loop zero i buf = pure buf
  count_loop (suc k) i buf = do
    numeral ← lift (ece391_itoa (i + 1) buf 10)
    ece391_fdputs calls (pos 1) numeral
    ece391_fdputs calls (pos 1) (literal "\n")
    count_loop k (i + 1) numeral

  unfoldable pub counter_main : Bytes → Program S ℤ
  unfolding count_loop count_for is_wrong
  counter_main buf = do
    ece391_fdputs calls (pos 1)
        (literal "Enter the Test Number: (0): 100, (1): 10000, (2): 100000\n")
    (cnt, out) ← calls.ece391_read (pos 0) buf (pos 1023)
    elim (failed cnt) [
      | true ↦ do
        ece391_fdputs calls (pos 1) (literal "Can't read the number from keyboard.\n")
        pure (pos 3)
      | false ↦ do
        let line = store_int out cnt 0
        n ← lift (ece391_strlen line)
        elim (is_wrong n (line 0)) [
          | true ↦ do ece391_fdputs calls (pos 1) (literal "Wrong Choice!\n"); pure (pos 0)
          | false ↦ do _ ← count_loop (count_for (line 0)) 0 line; pure (pos 0)
        ]
    ]
