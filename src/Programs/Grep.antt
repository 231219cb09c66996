-- ===== src/Programs/Grep.antt =====
-- syscalls/ece391grep.c. A buffer's pointer with an offset is the bytes from there on; what `read`
-- leaves there goes back to its place. What lies in the buffers before is a parameter.
pub mod Search
use ece_391_linux_kernel_cla.Prelude.{
  ℕ, zero, suc, ◌+◌, ◌-◌, Bool, true, false, ◌&&◌, not, Option, none, some, ℤ, pos, negsuc, sub_ℕ,
  minus_one, is_zero, Bytes, store, shift, literal, u32_mod, ◌==◌, ◌!=◌, ltb, leb, if◌then◌else◌,
}
use ece_391_linux_kernel_cla.Support.{ece391_strlen, ece391_strncmp}
use ece_391_linux_kernel_cla.Programs.{
  Program, Calls, pure, stuck, lift, ◌>>=◌, ◌>>◌, failed, store_int, ece391_fdputs,
}

abbrev pub bufsize : ℕ
bufsize = 1024

-- `while (line_end < last && '\n' != text[line_end])`, with `k` rounds left before `last`.
unfoldable pub line_end_from : ℕ → ℕ → Bytes → ℕ
line_end_from zero i text = i
line_end_from (suc k) i text =
    let rest = line_end_from k (i + 1) text in if text i == 10 then i else rest

-- `ece391_strcpy (text, text + from)`: the bytes go down within one buffer, each read before its
-- cell is written.
unfoldable pub move_down : ℕ → ℕ → ℕ → Bytes → Option Bytes
move_down zero from i text = none
move_down (suc fuel) from i text = elim (text (from + i) == 0) [
  | true ↦ some (store text i 0)
  | false ↦ move_down fuel from (i + 1) (store text i (text (from + i)))
]

-- `for (check = line_start; check < line_end; check++)` with `k` rounds left: is the string there?
unfoldable pub occurs : ℕ → ℕ → Bytes → Bytes → ℕ → Bool
occurs zero check text s s_len = false
occurs (suc k) check text s s_len =
    let rest = occurs k (check + 1) text s s_len in
    if (s 0 == text check) && is_zero (ece391_strncmp (shift text check) s s_len)
    then true
    else rest

-- The cells from `at` on are those of `out`.
abbrev pub put_back : Bytes → ℕ → Bytes → Bytes
put_back text at out j = if ltb j at then text j else out (j - at)

module _ {S : Type 0} (calls : Calls S) (s fname : Bytes) (s_len : ℕ) where
  -- A line that the string occurs in, with the file's name.
  unfoldable pub show_line : Bytes → ℕ → Program S (Unit {0})
  show_line text line_start = do
    ece391_fdputs calls (pos 1) fname
    ece391_fdputs calls (pos 1) (literal ":")
    ece391_fdputs calls (pos 1) (shift text line_start)
    ece391_fdputs calls (pos 1) (literal "\n")

  -- The loop over the lines in the buffer, on fuel: the buffer, and `last`.
  unfoldable pub line_loop : ℕ → ℕ → ℕ → ℕ → Bytes → Program S (Bytes × ℕ)
  unfolding line_end_from move_down occurs show_line
  line_loop zero cnt last line_start text = stuck
  line_loop (suc fuel) cnt last line_start text =
      let line_end = line_end_from (last - line_start) line_start text in
      let cut = store text line_end 0 in
      elim ((text line_end != 10) && (cnt != 0) && (line_start != 0)) [
        | true ↦ do
          moved ← lift (move_down u32_mod line_start 0 cut)
          pure (moved, last - line_start)
        | false ↦ do
          elim (occurs (line_end - line_start) line_start cut s s_len) [
            | true ↦ show_line cut line_start
            | false ↦ pure tt
          ]
          elim (leb last (line_end + 1)) [
            | true ↦ pure (cut, 0)
            | false ↦ line_loop fuel cnt last (line_end + 1) cut
          ]
      ]

  -- The loop over the reads, on fuel. A negative count other than -1 is no result of `read`.
  unfoldable pub file_loop : ℕ → ℤ → ℕ → Bytes → Program S ℤ
  unfolding line_loop
  file_loop zero fd last text = stuck
  file_loop (suc fuel) fd last text = do
    (cnt, out) ← calls.ece391_read fd (shift text last) (sub_ℕ bufsize last)
    elim cnt [
      | negsuc n ↦ elim (n == 0) [
        | true ↦ do ece391_fdputs calls (pos 1) (literal "file read failed\n"); pure minus_one
        | false ↦ stuck
      ]
      | pos n ↦ do
        (text', last') ← line_loop (last + n + 1) n (last + n) 0 (put_back text last out)
        elim (n == 0) [
          | false ↦ file_loop fuel fd last' text'
          | true ↦ do
            r ← calls.ece391_close fd
            elim (failed r) [
              | true ↦ do
                ece391_fdputs calls (pos 1) (literal "file close failed\n")
                pure minus_one
              | false ↦ pure (pos 0)
            ]
        ]
    ]

module _ {S : Type 0} (calls : Calls S) (garbage : Bytes) where
  unfoldable pub do_one_file : ℕ → Bytes → Bytes → Program S ℤ
  unfolding file_loop
  do_one_file fuel s fname = do
    s_len ← lift (ece391_strlen s)
    fd ← calls.ece391_open fname
    elim (failed fd) [
      | true ↦ do ece391_fdputs calls (pos 1) (literal "file open failed\n"); pure minus_one
      | false ↦ file_loop calls s fname s_len fuel fd 0 garbage
    ]

  -- The loop over the directory, on fuel. Names that begin with a dot are passed over.
  unfoldable pub grep_loop : ℕ → ℤ → Bytes → Bytes → Program S ℤ
  unfolding do_one_file
  grep_loop zero fd search buf = stuck
  grep_loop (suc fuel) fd search buf = do
    (cnt, out) ← calls.ece391_read fd buf (pos 32)
    elim (is_zero cnt) [
      | true ↦ pure (pos 0)
      | false ↦ elim (failed cnt) [
        | true ↦ do
          ece391_fdputs calls (pos 1) (literal "directory entry read failed\n")
          pure (pos 3)
        | false ↦ elim (out 0 == 46) [
          | true ↦ grep_loop fuel fd search out
          | false ↦ do
            r ← do_one_file fuel search (store_int out cnt 0)
            elim (is_zero r) [
              | false ↦ pure (pos 3)
              | true ↦ grep_loop fuel fd search (store_int out cnt 0)
            ]
        ]
      ]
    ]

  unfoldable pub grep_main : ℕ → Bytes → Bytes → Program S ℤ
  unfolding grep_loop
  grep_main fuel search buf = do
    (r, pattern) ← calls.ece391_getargs search (pos 1024)
    elim (is_zero r) [
      | false ↦ do ece391_fdputs calls (pos 1) (literal "could not read argument\n"); pure (pos 3)
      | true ↦ do
        fd ← calls.ece391_open (literal ".")
        elim (failed fd) [
          | true ↦ do ece391_fdputs calls (pos 1) (literal "directory open failed\n"); pure (pos 2)
          | false ↦ grep_loop fuel fd pattern buf
        ]
    ]
