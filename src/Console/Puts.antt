-- ===== src/Console/Puts.antt =====
-- `puts` of student-distrib/lib.c against a loop over the characters of the string.
use ece_391_linux_kernel_cla.Prelude.{
  ℕ, zero, suc, ◌+◌, ◌<◌, ◌≡◌, some, Bytes, IsString, u32_mod, arith,
}
use ece_391_linux_kernel_cla.Console.{Console, putc, puts_loop, puts}

-- The `n` characters of `s` from `i` on, each by `putc`.
pub put_chars : ℕ → ℕ → Bytes → Console → Console
put_chars zero i s c = c
put_chars (suc n) i s c = put_chars n (i + 1) s (putc (s i) c)

puts_loop-put_chars :
    (fuel : ℕ) (s : Bytes) (i k n : ℕ) (c : Console)
    → IsString s n
    → i + k ≡ n
    → k < fuel
    → puts_loop fuel s i c ≡ some (n, put_chars k i s c)
unfolding puts_loop put_chars
puts_loop-put_chars zero s i k n c h e lt = absurd (omega arith)
puts_loop-put_chars (suc fuel) s i zero n c h e lt =
    let q : i ≡ n = omega (arith, e) in ground (arith, h.stop, q)
puts_loop-put_chars (suc fuel) s i (suc k) n c h e lt = ground (
  arith,
  h.body i (omega (arith, e)),
  puts_loop-put_chars fuel s (i + 1) k n (putc (s i) c) h (omega (arith, e)) (omega (arith, lt)),
)

-- `puts` of a C string of `n` bytes, fewer than 2^32, prints each of them and returns `n`.
pub puts-put_chars :
    (s : Bytes) (n : ℕ) (c : Console)
    → IsString s n
    → n < u32_mod
    → puts s c ≡ some (n, put_chars n 0 s c)
unfolding puts
puts-put_chars s n c h lt = puts_loop-put_chars u32_mod s 0 n n c h (omega arith) lt
