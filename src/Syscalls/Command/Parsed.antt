-- ===== src/Syscalls/Command/Parsed.antt =====
-- What `execute` of student-distrib/syscalls.c finds in a command.
use ece_391_linux_kernel_cla.Prelude.{
  ℕ, zero, suc, ◌+◌, ◌-◌, ◌≤◌, ◌<◌, ◌≡◌, ◌≢◌, inr, refl, ap, ap₂, sym, subst, ◌∙◌, true, false,
  some, Bytes, store, literal, IsString, ◌!=◌, ltb, if◌then◌else◌, arith,
}
use ece_391_linux_kernel_cla.Clib.{strncpy}
use ece_391_linux_kernel_cla.Clib.Copies.{strncpy-padded}
use ece_391_linux_kernel_cla.Clib.Strings.{strlen-IsString}
use ece_391_linux_kernel_cla.Syscalls.Command.{
  Parse, parse_char, handle_lz, name_char, arg_char, parse_loop, parse_command, fresh_parse,
  ascii_space, filename_size, max_arg_buf_size,
}
use ece_391_linux_kernel_cla.Syscalls.Command.Loop.{
  parse_loop-add, parse_loop-spaces, written, parse_loop-name, parse_loop-args,
}

-- `lead` spaces, a name of `m` characters, `gap` spaces, and `r` characters of arguments that do not
-- begin with a space.
pub record IsCommand (command : Bytes) (lead m gap r : ℕ) : Type 0 where
  pub leading : (i : ℕ) → i < lead → command i ≡ ascii_space
  pub name_pos : 0 < m
  pub name : (i : ℕ) → i < m → command (lead + i) ≢ ascii_space
  pub between : (i : ℕ) → i < gap → command (lead + m + i) ≡ ascii_space
  pub apart : 0 < r → 0 < gap
  pub arguments : 0 < r → command (lead + m + gap) ≢ ascii_space
  pub string : IsString command (lead + m + gap + r)

-- The space that ends the name, and the spaces behind it.
parse_char-gap :
    (ch : ℕ) (t : Parse)
    → t.parsed_filename ≡ 0
    → t.handled_lz ≡ 1
    → ch ≡ ascii_space
    → parse_char ch t ≡ record t { parsed_filename = 1; handled_lz = 0 }
unfolding parse_char handle_lz name_char arg_char
parse_char-gap ch t p h e = ground arith

parse_loop-gap :
    (g i : ℕ) (command : Bytes) (t : Parse)
    → t.parsed_filename ≡ 0
    → t.handled_lz ≡ 1
    → ((j : ℕ) → i ≤ j → j < i + suc g → command j ≡ ascii_space)
    → parse_loop (suc g) i command t ≡ record t { parsed_filename = 1; handled_lz = 0 }
unfolding parse_loop
parse_loop-gap g i command t p h sp =
    ap (parse_loop g (i + 1) command)
      (parse_char-gap (command i) t p h (sp i (omega arith) (omega arith)))
    ∙ parse_loop-spaces g (i + 1) command _ refl (λ j l u. sp j (omega arith) (omega arith))

-- What has become of a state `t` behind the name.
record IsTail (command : Bytes) (at r : ℕ) (t u : Parse) : Type 0 where
  name : u.file_name ≡ t.file_name
  count : u.arg_cur_char ≡ t.arg_cur_char + r
  chars : (j : ℕ) → u.arg_buffer j ≡ written t.arg_buffer t.arg_cur_char r command at j

args-IsTail :
    (r i : ℕ) (command : Bytes) (s : Parse)
    → s.parsed_filename ≡ 1
    → s.handled_lz ≡ 0
    → (0 < r → command i ≢ ascii_space)
    → IsTail command i r s (parse_loop r i command s)
unfolding parse_loop
args-IsTail zero i command s p h ne = record {
  name = refl;
  count = omega arith;
  chars = λ j. ground arith;
}
args-IsTail (suc r) i command s p h ne =
    let has = parse_loop-args r i command s p (inr (h, ne (omega arith))) in
    record { name = has.name; count = has.count; chars = has.chars }

parse_loop-IsTail :
    (gap r i : ℕ) (command : Bytes) (t : Parse)
    → t.parsed_filename ≡ 0
    → t.handled_lz ≡ 1
    → ((j : ℕ) → i ≤ j → j < i + gap → command j ≡ ascii_space)
    → (0 < r → 0 < gap)
    → (0 < r → command (i + gap) ≢ ascii_space)
    → IsTail command (i + gap) r t (parse_loop (gap + r) i command t)
unfolding parse_loop
parse_loop-IsTail zero zero i command t p h sp apart ne = record {
  name = refl;
  count = omega arith;
  chars = λ j. ground arith;
}
parse_loop-IsTail zero (suc r) i command t p h sp apart ne = absurd (omega (arith, apart))
parse_loop-IsTail (suc g) r i command t p h sp apart ne =
    let u : Parse = record t { parsed_filename = 1; handled_lz = 0 } in
    let e : parse_loop (suc g + r) i command t ≡ parse_loop r (i + suc g) command u =
      parse_loop-add (suc g) r i command t
      ∙ ap (parse_loop r (i + suc g) command) (parse_loop-gap g i command t p h sp) in
    let tail = args-IsTail r (i + suc g) command u refl refl ne in
    let tail' : IsTail command (i + suc g) r t (parse_loop r (i + suc g) command u) = record {
      name = tail.name;
      count = tail.count;
      chars = tail.chars;
    } in
    subst (IsTail command (i + suc g) r t) (sym e) tail'

-- The buffers behind the loop.
record IsParsed (command : Bytes) (lead m at r : ℕ) (s u : Parse) : Type 0 where
  name : (j : ℕ) → u.file_name j ≡ written s.file_name 0 m command lead j
  count : u.arg_cur_char ≡ r
  args : (j : ℕ) → u.arg_buffer j ≡ written s.arg_buffer 0 r command at j

-- The state before the loop.
record IsFresh (s : Parse) : Type 0 where
  handled : s.handled_lz ≡ 0
  parsed : s.parsed_filename ≡ 0
  count : s.file_cur_char ≡ 0
  arg_count : s.arg_cur_char ≡ 0

parse_loop-IsParsed :
    (lead m gap r : ℕ) (command : Bytes) (s : Parse)
    → IsCommand command lead m gap r
    → IsFresh s
    → IsParsed command lead m (lead + m + gap) r s (parse_loop (lead + m + gap + r) 0 command s)
parse_loop-IsParsed lead zero gap r command s c f = absurd (omega (arith, c.name_pos))
parse_loop-IsParsed lead (suc m) gap r command s c f =
    let len : lead + suc m + gap + r ≡ lead + (suc m + (gap + r)) = omega arith in
    let first : 0 + lead ≡ lead = omega arith in
    let t = parse_loop (suc m) lead command s in
    let named = parse_loop-name m lead command s f.parsed (omega (arith, f.handled)) (λ j l u.
      let e : lead + (j - lead) ≡ j = omega arith in
      subst (λ x. command x ≢ ascii_space) e (c.name (j - lead) (omega arith))) in
    let e : parse_loop (lead + suc m + gap + r) 0 command s
        ≡ parse_loop (gap + r) (lead + suc m) command t =
      ap (λ n. parse_loop n 0 command s) len
      ∙ parse_loop-add lead (suc m + (gap + r)) 0 command s
      ∙ ap (λ i. parse_loop (suc m + (gap + r)) i command (parse_loop lead 0 command s)) first
      ∙ ap (parse_loop (suc m + (gap + r)) lead command)
          (parse_loop-spaces lead 0 command s f.handled (λ j l u. c.leading j (omega arith)))
      ∙ parse_loop-add (suc m) (gap + r) lead command s in
    let tail : IsTail command (lead + suc m + gap) r t
        (parse_loop (gap + r) (lead + suc m) command t) =
      parse_loop-IsTail gap r (lead + suc m) command t named.parsed named.handled
        (λ j l u.
          let e : lead + suc m + (j - (lead + suc m)) ≡ j = omega arith in
          subst (λ x. command x ≡ ascii_space) e (c.between (j - (lead + suc m)) (omega arith)))
        c.apart c.arguments in
    let done : IsParsed command lead (suc m) (lead + suc m + gap) r s
        (parse_loop (gap + r) (lead + suc m) command t) =
      record {
        name = λ j.
            ap (λ b. b j) tail.name
            ∙ named.chars j
            ∙ ap (λ at. written s.file_name at (suc m) command lead j) f.count;
        count = omega (arith, tail.count, named.arg_count, f.arg_count);
        args = λ j.
            tail.chars j
            ∙ ap₂ (λ b at. written b at r command (lead + suc m + gap) j) named.args
                (named.arg_count ∙ f.arg_count);
      } in
    subst (IsParsed command lead (suc m) (lead + suc m + gap) r s) (sym e) done

empty-IsString : IsString (literal "") 0
empty-IsString = record { body = λ i lt. absurd (omega arith); stop = refl }

-- The memory behind a buffer of `n` cleared cells.
pub cleared :
    (memory : Bytes) (n j : ℕ) → strncpy memory (literal "") n j ≡ (if ltb j n then 0 else memory j)
cleared memory n j = strncpy-padded memory (literal "") 0 n j empty-IsString ∙ ground arith

-- `out` holds the `m` characters of the command from `at` on, as a C string.
pub record IsWord (out command : Bytes) (at m : ℕ) : Type 0 where
  pub string : IsString out m
  pub chars : (i : ℕ) → i < m → out i ≡ command (at + i)

written-at :
    (old : Bytes) (m : ℕ) (command : Bytes) (at i : ℕ)
    → written old 0 m command at i ≡ (if ltb i m then command (at + i) else old i)
written-at old m command at i = let e : at + (i - 0) ≡ at + i = omega arith in rw e (ground arith)

-- The NUL that is stored behind the word, or further on, ends it where the buffer held 0.
ended-IsWord :
    (f old command : Bytes) (at m n : ℕ)
    → ((j : ℕ) → f j ≡ written old 0 m command at j)
    → old m ≡ 0
    → ((i : ℕ) → i < m → command (at + i) ≢ 0)
    → m ≤ n
    → IsWord (store f n 0) command at m
ended-IsWord f old command at m n h z ne le =
    let g : (i : ℕ) → f i ≡ (if ltb i m then command (at + i) else old i) =
      λ i. h i ∙ written-at old m command at i in
    record {
      string = record { body = λ i lt. ground (arith, g i, ne i lt); stop = ground (arith, g m) };
      chars = λ i lt. ground (arith, g i);
    }

args-IsWord :
    (f old command : Bytes) (at r n : ℕ)
    → ((j : ℕ) → f j ≡ written old 0 r command at j)
    → old r ≡ 0
    → ((i : ℕ) → i < r → command (at + i) ≢ 0)
    → n ≡ r
    → IsWord (if f 0 != 0 then store f n 0 else f) command at r
args-IsWord f old command at zero n h z ne e =
    let e₀ : f 0 ≡ 0 = h 0 ∙ written-at old 0 command at 0 ∙ ground arith in
    let e₁ : (f 0 != 0) ≡ false = ground arith in
    rw e₁ record {
      string = record { body = λ i lt. absurd (omega arith); stop = e₀ };
      chars = λ i lt. absurd (omega arith);
    }
args-IsWord f old command at (suc r) n h z ne e =
    let e₀ : f 0 ≡ command (at + 0) = h 0 ∙ written-at old (suc r) command at 0 ∙ ground arith in
    let e₁ : (f 0 != 0) ≡ true = ground (arith, ne 0 (omega arith)) in
    rw e₁ (ended-IsWord f old command at (suc r) n h z ne (omega arith))

-- A command of at most 31 characters in all, which are leading spaces, a name, spaces, and arguments
-- that do not begin with a space, is taken apart into exactly the name and the arguments, each of them
-- a C string; without arguments the second is the empty string.
pub parse_command-IsCommand :
    (file_memory arg_memory command : Bytes) (lead m gap r : ℕ)
    → IsCommand command lead m gap r
    → lead + m + gap + r < filename_size
    → (name : Bytes) × (args : Bytes) × (parse_command file_memory arg_memory command
        ≡ some (name, args))
      × IsWord name command lead m
      × IsWord args command (lead + m + gap) r
unfolding parse_command
parse_command-IsCommand file_memory arg_memory command lead m gap r c hn =
    let n = lead + m + gap + r in
    let s : Parse = fresh_parse file_memory arg_memory in
    let u = parse_loop n 0 command s in
    let small : ltb n filename_size ≡ true = ground (arith, hn) in
    let p : IsParsed command lead m (lead + m + gap) r s u =
      parse_loop-IsParsed lead m gap r command s c
        (record { handled = refl; parsed = refl; count = refl; arg_count = refl }) in
    (
      store u.file_name n 0,
      if u.arg_buffer 0 != 0 then store u.arg_buffer u.arg_cur_char 0 else u.arg_buffer,
      rw (strlen-IsString command n c.string (omega (arith, hn)), parse_command, small) refl,
      ended-IsWord u.file_name s.file_name command lead m n p.name
          (cleared file_memory filename_size m ∙ ground arith)
          (λ i lt. c.string.body (lead + i) (omega arith)) (omega arith),
      args-IsWord u.arg_buffer s.arg_buffer command (lead + m + gap) r u.arg_cur_char p.args
          (cleared arg_memory max_arg_buf_size r ∙ ground arith)
          (λ i lt. c.string.body (lead + m + gap + i) (omega arith)) p.count,
    )
