-- ===== src/Syscalls/Command.antt =====
-- How `execute` of student-distrib/syscalls.c takes a command apart into a file name and arguments.
-- The two buffers lie on the stack; where the compiler puts them is not known, so that a write behind
-- the end of one of them has no result here (`none`).
pub mod Loop
pub mod Parsed
use ece_391_linux_kernel_cla.Prelude.{
  ℕ, zero, suc, ◌+◌, Option, none, some, Bytes, store, literal, ltb, ◌&&◌, ◌==◌, ◌!=◌,
  if◌then◌else◌,
}
use ece_391_linux_kernel_cla.Clib.{strlen, strncpy}

abbrev pub ascii_space : ℕ
ascii_space = 0x20

abbrev pub max_arg_buf_size : ℕ
max_arg_buf_size = 95

abbrev pub filename_size : ℕ
filename_size = 32

-- The variables of the loop.
pub record Parse : Type 0 where
  pub handled_lz : ℕ
  pub parsed_filename : ℕ
  pub file_name : Bytes
  pub file_cur_char : ℕ
  pub arg_buffer : Bytes
  pub arg_cur_char : ℕ

-- `handled_lz` is set at the first character that is no space.
unfoldable pub handle_lz : ℕ → Parse → Parse
handle_lz ch s =
    if (ch != ascii_space) && (s.handled_lz == 0) then record s { handled_lz = 1 } else s

-- A character of the name, or the space behind it.
unfoldable pub name_char : ℕ → Parse → Parse
name_char ch s =
    if ch != ascii_space
    then record s {
      file_name = store s.file_name s.file_cur_char ch;
      file_cur_char = s.file_cur_char + 1;
    }
    else record s { parsed_filename = 1; handled_lz = 0 }

-- A character of the arguments, once the spaces before them are passed.
unfoldable pub arg_char : ℕ → Parse → Parse
arg_char ch s =
    if s.handled_lz == 1
    then record s {
      arg_buffer = store s.arg_buffer s.arg_cur_char ch;
      arg_cur_char = s.arg_cur_char + 1;
    }
    else s

-- One round of the loop.
unfoldable pub parse_char : ℕ → Parse → Parse
parse_char ch s =
    let t = handle_lz ch s in
    if (t.parsed_filename == 0) && (t.handled_lz == 1) then name_char ch t else arg_char ch t

-- The loop with `k` characters left, the next at `cur_char`.
unfoldable pub parse_loop : ℕ → ℕ → Bytes → Parse → Parse
parse_loop zero cur_char command s = s
parse_loop (suc k) cur_char command s =
    parse_loop k (cur_char + 1) command (parse_char (command cur_char) s)

-- Both buffers are cleared first.
abbrev pub fresh_parse : Bytes → Bytes → Parse
fresh_parse file_memory arg_memory = record {
  handled_lz = 0;
  parsed_filename = 0;
  file_name = strncpy file_memory (literal "") filename_size;
  file_cur_char = 0;
  arg_buffer = strncpy arg_memory (literal "") max_arg_buf_size;
  arg_cur_char = 0;
}

-- At the end both are ended by NUL: the name at the length of the whole command, the
-- arguments behind their last character. A command of 32 characters or more stores the first NUL
-- behind the 32 bytes of `file_name`. In a shorter command no index of the loop reaches that length.
unfoldable pub parse_command : Bytes → Bytes → Bytes → Option (Bytes × Bytes)
unfolding parse_loop
parse_command file_memory arg_memory command = elim (strlen command) [
  | none ↦ none
  | some n ↦
      let s = parse_loop n 0 command (fresh_parse file_memory arg_memory) in
      if ltb n filename_size
      then some (
        store s.file_name n 0,
        if s.arg_buffer 0 != 0 then store s.arg_buffer s.arg_cur_char 0 else s.arg_buffer,
      )
      else none
]
