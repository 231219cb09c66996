-- ===== src/Programs/Emulate.antt =====
-- syscalls/ece391emulate.c: the system calls of the user programs on a Linux host. The host's calls and
-- its C library are parameters (`Host`), with the host's state; the calls that the file only passes on,
-- by their numbers there, are among them.
pub mod Fills
pub mod Entries
use ece_391_linux_kernel_cla.Prelude.{
  ℕ, zero, suc, ◌+◌, ◌-◌, Bool, true, false, ◌||◌, ◌&&◌, Option, none, some, List, [], ◌∷◌, ◌++◌, ℤ,
  pos, negsuc, minus_one, Bytes, store, shift, u32_mod, ◌==◌, ltb, leb, if◌then◌else◌,
}
use ece_391_linux_kernel_cla.Support.{ece391_strlen, ece391_strcpy}
use ece_391_linux_kernel_cla.Programs.Grep.{put_back}

-- `'\0' != *scan && ' ' != *scan && '\n' != *scan`
unfoldable pub in_word : ℕ → Bool
in_word c = if c == 0 then false else if c == 32 then false else if c == 10 then false else true

-- `while (in_word) scan++`, on fuel: where the word ends.
unfoldable pub word_end : ℕ → Bytes → ℕ → Option ℕ
unfolding in_word
word_end zero buf scan = none
word_end (suc fuel) buf scan = elim (in_word (buf scan)) [
  | true ↦ word_end fuel buf (scan + 1)
  | false ↦ some scan
]

-- `while (' ' == *scan) scan++`
unfoldable pub skip_spaces : ℕ → Bytes → ℕ → Option ℕ
skip_spaces zero buf scan = none
skip_spaces (suc fuel) buf scan = elim (buf scan == 32) [
  | true ↦ skip_spaces fuel buf (scan + 1)
  | false ↦ some scan
]

-- The loop over the arguments, on fuel: the buffer with a NUL behind each, and where each starts.
unfoldable pub split_loop : ℕ → Bytes → ℕ → List ℕ → Option (Bytes × List ℕ)
unfolding word_end skip_spaces
split_loop zero buf scan args = none
split_loop (suc fuel) buf scan args = elim (skip_spaces u32_mod buf scan) [
  | none ↦ none
  | some at ↦ elim ((buf at == 0) || (buf at == 10)) [
    | true ↦ some (store buf at 0, args)
    | false ↦ elim (word_end u32_mod buf at) [
      | none ↦ none
      | some end ↦ elim (buf end == 0) [
        | true ↦ split_loop fuel buf end (args ++ at ∷ [])
        | false ↦ split_loop fuel (store buf end 0) (end + 1) (args ++ at ∷ [])
      ]
    ]
  ]
]

-- The command behind "./", taken apart: `args`, the first of them the program.
unfoldable pub split_command : Bytes → Bytes → Option (Bytes × List ℕ)
unfolding split_loop
split_command buf command = elim (ece391_strcpy (shift (store (store buf 0 46) 1 47) 2) command) [
  | none ↦ none
  | some out ↦
      let line = put_back (store (store buf 0 46) 1 47) 2 out in
      elim (word_end u32_mod line 2) [
        | none ↦ none
        | some end ↦ elim (line end == 0) [
          | true ↦ some (line, 0 ∷ [])
          | false ↦ split_loop u32_mod (store line end 0) (end + 1) (0 ∷ [])
        ]
      ]
]

-- `strcpy(buf + at, src)`
unfoldable pub copy_at : Bytes → ℕ → Bytes → Option Bytes
copy_at buf at src = elim (ece391_strcpy (shift buf at) src) [
  | none ↦ none
  | some out ↦ some (put_back buf at out)
]

-- The end of `join_args`: the NUL, if there is room.
unfoldable pub end_args : Bytes → ℕ → ℕ → ℤ × Bytes
end_args buf at left = if ltb left 1 then (minus_one, buf) else (pos 0, store buf at 0)

-- The loop over the arguments behind the program's name: the next goes to `buf + at`, where `left`
-- bytes are left.
unfoldable pub join_loop : List Bytes → Bytes → ℕ → ℕ → Option (ℤ × Bytes)
unfolding copy_at end_args
join_loop [] buf at left = some (end_args buf at left)
join_loop (arg ∷ args) buf at left = elim (ece391_strlen arg) [
  | none ↦ none
  | some len ↦ elim (ltb left len) [
    | true ↦ some (minus_one, buf)
    | false ↦ elim (copy_at buf at arg) [
      | none ↦ none
      | some out ↦ elim args [
        | [] ↦ some (end_args out (at + len) (left - len))
        | _ ∷ _ ↦ elim (ltb (left - len) 1) [
          | true ↦ some (minus_one, out)
          | false ↦ join_loop args (store out (at + len) 32) (at + len + 1) (left - len - 1)
        ]
      ]
    ]
  ]
]

-- With a negative count every path returns -1 before the buffer is written.
unfoldable pub join_args : List Bytes → Bytes → ℤ → Option (ℤ × Bytes)
unfolding join_loop
join_args argv buf (negsuc n) = some (minus_one, buf)
join_args argv buf (pos nbytes) = join_loop argv buf 0 nbytes

-- The loop that copies a name, on fuel; whether the name has ended, the buffer and the count.
unfoldable pub name_copy : ℕ → Bytes → ℕ → Bytes → ℕ → Option (Bool × Bytes × ℕ)
name_copy zero from nbytes to copied = none
name_copy (suc fuel) from nbytes to copied = elim (from copied == 0) [
  | true ↦ some (true, to, copied)
  | false ↦
      let next = store to copied (from copied) in
      elim ((copied + 1 == nbytes) || (copied + 1 == 32)) [
        | true ↦ some (false, next, copied + 1)
        | false ↦ name_copy fuel from nbytes next (copied + 1)
      ]
]

-- `while (nbytes > copied && 32 > copied)`, with `k` rounds left before 32.
unfoldable pub pad_name : ℕ → ℕ → Bytes → ℕ → Bytes × ℕ
pad_name zero nbytes to copied = (to, copied)
pad_name (suc k) nbytes to copied =
    let rest = pad_name k nbytes (store to copied 0) (copied + 1) in
    if ltb copied nbytes then rest else (to, copied)

-- The name of a directory entry as `ece391_read` delivers it.
unfoldable pub read_name : Bytes → Bytes → ℕ → Option (ℕ × Bytes)
unfolding name_copy pad_name
read_name from buf nbytes = elim (name_copy 33 from nbytes buf 0) [
  | none ↦ none
  | some (ended, to, copied) ↦
      if ended
      then (let (out, n) = pad_name (32 - copied) nbytes to copied in some (n, out))
      else some (copied, to)
]
