-- ===== src/Syscalls/Execute/Absent.antt =====
-- Where `execute` of student-distrib/syscalls.c finds no file.
use ece_391_linux_kernel_cla.Prelude.{
  ℕ, zero, suc, ◌+◌, ◌<◌, ◌≡◌, refl, ◌∙◌, ap, subst, Option, some, none, minus_one, Bytes, AreBytes,
  store, literal, ltb, ◌!=◌, if◌then◌else◌, Bool-cases, inl, inr, arith,
}
use ece_391_linux_kernel_cla.Clib.{strncpy, strlen}
use ece_391_linux_kernel_cla.FileSystem.{Lookup, missing, found}
use ece_391_linux_kernel_cla.FileSystem.Names.{Begins, FoundFrom, read_dentry_by_name-FoundFrom}
use ece_391_linux_kernel_cla.Io.{Device}
use ece_391_linux_kernel_cla.Syscalls.{Kernel}
use ece_391_linux_kernel_cla.Syscalls.Command.{
  Parse, fresh_parse, handle_lz, name_char, arg_char, parse_char, parse_loop, parse_command,
  filename_size,
}
use ece_391_linux_kernel_cla.Syscalls.Command.Parsed.{
  IsCommand, IsWord, cleared, parse_command-IsCommand,
}
use ece_391_linux_kernel_cla.Syscalls.Execute.{returned, Frame, quieted, execute}
use ece_391_linux_kernel_cla.Syscalls.Execute.Refused.{no_file, execute-IsUnknown}

parse_char-AreBytes :
    (ch : ℕ) (s : Parse) → ch < 256 → AreBytes s.file_name → AreBytes (parse_char ch s).file_name
unfolding parse_char handle_lz name_char arg_char
parse_char-AreBytes ch s h b = λ j. ground (arith, b j)

parse_loop-AreBytes :
    (k i : ℕ) (command : Bytes) (s : Parse)
    → AreBytes command
    → AreBytes s.file_name
    → AreBytes (parse_loop k i command s).file_name
unfolding parse_loop
parse_loop-AreBytes zero i command s c b = b
parse_loop-AreBytes (suc k) i command s c b =
    parse_loop-AreBytes k (i + 1) command _ c (parse_char-AreBytes (command i) s (c i) b)

-- The name that is found holds bytes.
abbrev NameAreBytes : Option (Bytes × Bytes) → Type 0
NameAreBytes none = Unit
NameAreBytes (some (name, args)) = AreBytes name

parse_command-AreBytes :
    (file_memory arg_memory command : Bytes)
    → AreBytes file_memory
    → AreBytes command
    → NameAreBytes (parse_command file_memory arg_memory command)
unfolding parse_command
parse_command-AreBytes file_memory arg_memory command b c = at_end (strlen command)
  where
    start : AreBytes (strncpy file_memory (literal "") filename_size)
    start j = ground (arith, cleared file_memory filename_size j, b j)

    at_end :
        (o : Option ℕ)
        → NameAreBytes (elim o [
          | none ↦ none
          | some n ↦
              let s = parse_loop n 0 command (fresh_parse file_memory arg_memory) in
              if ltb n filename_size
              then some (
                store s.file_name n 0,
                if s.arg_buffer 0 != 0 then store s.arg_buffer s.arg_cur_char 0 else s.arg_buffer,
              )
              else none
        ])
    at_end none = record {}
    at_end (some n) =
        let loop = parse_loop-AreBytes n 0 command (fresh_parse file_memory arg_memory) c start in
        elim (Bool-cases (ltb n filename_size)) [
          | inl h ↦ rw (h, NameAreBytes) (λ j. ground (arith, loop j))
          | inr h ↦ rw (h, NameAreBytes) (record {})
        ]

named :
    (fs name command : Bytes) (lead m : ℕ) (f : Lookup)
    → IsWord name command lead m
    → ((n : ℕ) → n < fs 0 → ¬ Begins fs (λ j. command (lead + j)) m n)
    → FoundFrom fs name m 0 (fs 0) f
    → f ≡ missing
named fs name command lead m missing w none_begins h = refl
named fs name command lead m (found d) w none_begins h =
    absurd (none_begins h.0 h.2 (λ j lt. h.3 j lt ∙ w.chars j lt))

-- On a disk and in buffers that hold bytes, with a command of at most 31 characters in all, which
-- are leading spaces, a name, spaces and arguments that do not begin with a space: if none of the
-- entries, as many as the low byte of the boot block's count says, has a name that begins with the
-- command's, `execute` returns -1 and changes nothing but that it leaves interrupts disabled.
pub execute-IsCommand :
    (device : Device) (fr : Frame) (command : Bytes) (lead m gap r : ℕ) (k : Kernel)
    → AreBytes k.fs
    → AreBytes fr.file_name
    → AreBytes command
    → IsCommand command lead m gap r
    → lead + m + gap + r < filename_size
    → ((n : ℕ) → n < k.fs 0 → ¬ Begins k.fs (λ j. command (lead + j)) m n)
    → execute device fr (some command) k ≡ returned minus_one (quieted k)
execute-IsCommand device fr command lead m gap r k bs bf bc c short none_begins =
    let (name, args, parsed, word, rest) =
      parse_command-IsCommand fr.file_name fr.arg_buffer command lead m gap r c short in
    let bn : AreBytes name =
      subst NameAreBytes parsed (parse_command-AreBytes fr.file_name fr.arg_buffer command bf bc) in
    let (f, e, from) =
      read_dentry_by_name-FoundFrom k.fs name m bs bn word.string (omega (arith, short))
        c.name_pos in
    let gone = named k.fs name command lead m f word none_begins from in
    execute-IsUnknown device fr command name args k parsed (no_file (e ∙ ap some gone))
