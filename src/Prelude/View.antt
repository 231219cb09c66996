-- ===== src/Prelude/View.antt =====
-- Memory as the source's pointers see it: the byte at each offset from the pointer.
use Prim.Native.Nat.{ℕ, ◌+◌, ◌*◌, ◌<◌, ◌^◌, ◌%◌}
use Prim.Native.Char.{code}
use Prim.Native.String.{String}
use mathlib.Core.Path.{◌≡◌}
use mathlib.Core.Logic.{◌≢◌}
use mathlib.Core.List.{List, [], ◌∷◌}
use native.Mathlib.Omega.{arith}
use ece_391_linux_kernel_cla.Prelude.Tests.{◌==◌, if◌then◌else◌}
use ece_391_linux_kernel_cla.Prelude.Lists.{get_or}

-- `p i` is `p[i]` for a pointer `p` to bytes.
abbrev pub Bytes : Type 0
Bytes = ℕ → ℕ

-- `p[i] = v`
abbrev pub store : Bytes → ℕ → ℕ → Bytes
store p i v j = if j == i then v else p j

-- The pointer `p + k`.
abbrev pub shift : Bytes → ℕ → Bytes
shift p k i = p (k + i)

-- Every cell holds a byte.
abbrev pub AreBytes : Bytes → Type 0
AreBytes p = (i : ℕ) → p i < 256

abbrev pub u8 : ℕ → ℕ
u8 n = n % 256

abbrev pub u32_mod : ℕ
u32_mod = 2 ^ 32

abbrev pub u32 : ℕ → ℕ
u32 n = n % u32_mod

-- The little-endian word at `p`.
unfoldable pub word : Bytes → ℕ
word p = p 0 + p 1 * 256 + p 2 * 65536 + p 3 * 16777216

abbrev pub codes : String → List ℕ
codes String.[] = []
codes (String.◌∷◌ c s) = code c ∷ codes s

-- A string literal in memory: its characters, then NUL.
abbrev pub literal : String → Bytes
literal s i = get_or (codes s) i 0

-- `s` holds a C string of `n` bytes.
pub record IsString (s : Bytes) (n : ℕ) : Type 0 where
  pub body : (i : ℕ) → i < n → s i ≢ 0
  pub stop : s n ≡ 0

pub word-lt : (p : Bytes) → AreBytes p → word p < u32_mod
unfolding word
word-lt p h = omega (arith, h 0, h 1, h 2, h 3)
