-- ===== src/Syscalls/Args.antt =====
-- `getargs` of student-distrib/syscalls.c.
use ece_391_linux_kernel_cla.Prelude.{
  ℕ, zero, suc, ◌+◌, ◌-◌, ◌<◌, ◌≡◌, ◌∙◌, ◌&&◌, Option, none, some, ℤ, pos, minus_one, is_pos, Bytes,
  store, IsString, u32_mod, ◌==◌, ltb, leb, if◌then◌else◌, arith,
}
use ece_391_linux_kernel_cla.Clib.{strlen}
use ece_391_linux_kernel_cla.Clib.Memory.{fill, copy}
use ece_391_linux_kernel_cla.Clib.Strings.{strlen-IsString}
use ece_391_linux_kernel_cla.Syscalls.Command.{max_arg_buf_size}

-- The first loop, with `k` rounds left before `i` reaches the length; the count of its rounds too.
unfoldable pub args_loop : ℕ → ℕ → Bytes → Bytes → Bytes × ℕ
args_loop zero i args buf = (buf, i)
args_loop (suc k) i args buf =
    let rest = args_loop k (i + 1) args (store buf i (args i)) in
    if args i == 0 then (buf, i) else rest

-- `rodata` is what follows the literal "\0" in memory: the source copies `strlen(buf)` bytes from
-- there over the old contents. The second loop fills up to `max_arg_buf_size`.
unfoldable pub getargs : Bytes → Bytes → Option Bytes → ℤ → Option (ℤ × Option Bytes)
unfolding args_loop
getargs rodata args none nbytes = some (minus_one, none)
getargs rodata args (some buf) nbytes =
    if args 0 == 0
    then some (minus_one, some buf)
    else if is_pos nbytes
    then elim (strlen args) [
      | none ↦ none
      | some n ↦ elim (strlen buf) [
        | none ↦ none
        | some len ↦
            let (out, i) = args_loop n 0 args (copy buf 0 rodata len) in
            some (pos 0, some (fill out i 0 (max_arg_buf_size - i)))
      ]
    ]
    else some (minus_one, some buf)

-- The loop copies the arguments before their NUL.
args_loop-copy :
    (k i : ℕ) (args buf : Bytes) (n : ℕ)
    → IsString args n
    → i + k ≡ n
    → ((args_loop k i args buf).1 ≡ n)
      × ((j : ℕ) → (args_loop k i args buf).0 j ≡ (if leb i j && ltb j n then args j else buf j))
unfolding args_loop
args_loop-copy zero i args buf n s e = (omega (arith, e), λ j. ground arith)
args_loop-copy (suc k) i args buf n s e =
    let ih = args_loop-copy k (i + 1) args (store buf i (args i)) n s (omega arith) in
    (
      ground (arith, s.body i (omega arith), ih.0),
      λ j. ground (arith, s.body i (omega arith), ih.1 j),
    )

-- With arguments of `n` bytes, 0 < n < 95, a C string in the buffer, and a positive count,
-- `getargs` returns 0 and leaves the arguments and their NUL in the buffer with zeros up to byte
-- 94, whatever the count is.
pub getargs-copy :
    (rodata args buf : Bytes) (nbytes n len : ℕ)
    → IsString args n
    → IsString buf len
    → 0 < n
    → n < max_arg_buf_size
    → len < u32_mod
    → 0 < nbytes
    → (out : Bytes) × (getargs rodata args (some buf) (pos nbytes) ≡ some (pos 0, some out))
      × IsString out n
      × ((j : ℕ) → j < max_arg_buf_size → out j ≡ (if ltb j n then args j else 0))
unfolding getargs
getargs-copy rodata args buf nbytes n len s t hn lt hl hb =
    let (at, cells) = args_loop-copy n 0 args (copy buf 0 rodata len) n s (omega arith) in
    let looped = args_loop n 0 args (copy buf 0 rodata len) in
    let out = fill looped.0 looped.1 0 (max_arg_buf_size - looped.1) in
    let out_at : (j : ℕ) → j < max_arg_buf_size → out j ≡ (if ltb j n then args j else 0) =
      λ j k. ground (arith, at, cells j) in
    (
      out,
      ground (arith, s.body 0 hn, strlen-IsString args n s, strlen-IsString buf len t hl),
      record {
        body = λ i k. ground (arith, out_at i (omega arith), s.body i k);
        stop = out_at n lt ∙ ground arith;
      },
      out_at,
    )
