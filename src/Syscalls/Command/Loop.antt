-- ===== src/Syscalls/Command/Loop.antt =====
-- What runs of spaces and of other characters do to the variables of the command parser of `execute`
-- in student-distrib/syscalls.c.
use ece_391_linux_kernel_cla.Prelude.{
  ℕ, zero, suc, ◌+◌, ◌-◌, ◌≤◌, ◌<◌, ◌≡◌, ◌≢◌, ◌⊎◌, inl, inr, refl, ap, ◌∙◌, ◌&&◌, Bytes, ltb, leb,
  if◌then◌else◌, arith,
}
use ece_391_linux_kernel_cla.Syscalls.Command.{
  Parse, parse_char, handle_lz, name_char, arg_char, parse_loop, ascii_space,
}

pub parse_loop-add :
    (j k i : ℕ) (command : Bytes) (s : Parse)
    → parse_loop (j + k) i command s ≡ parse_loop k (i + j) command (parse_loop j i command s)
unfolding parse_loop
parse_loop-add zero k i command s =
    let e : 0 + k ≡ k = omega arith in let e' : i + 0 ≡ i = omega arith in rw (e, e') refl
parse_loop-add (suc j) k i command s =
    let e : suc j + k ≡ suc (j + k) = omega arith in
    let e' : i + suc j ≡ i + 1 + j = omega arith in
    rw (e, e') (parse_loop-add j k (i + 1) command (parse_char (command i) s))

parse_char-space : (ch : ℕ) (s : Parse) → s.handled_lz ≡ 0 → ch ≡ ascii_space → parse_char ch s ≡ s
unfolding parse_char handle_lz name_char arg_char
parse_char-space ch s h e = ground arith

-- Spaces before a word change nothing.
pub parse_loop-spaces :
    (k i : ℕ) (command : Bytes) (s : Parse)
    → s.handled_lz ≡ 0
    → ((j : ℕ) → i ≤ j → j < i + k → command j ≡ ascii_space)
    → parse_loop k i command s ≡ s
unfolding parse_loop
parse_loop-spaces zero i command s h sp = refl
parse_loop-spaces (suc k) i command s h sp =
    ap (parse_loop k (i + 1) command)
      (parse_char-space (command i) s h (sp i (omega arith) (omega arith)))
    ∙ parse_loop-spaces k (i + 1) command s h (λ j l u. sp j (omega arith) (omega arith))

-- The cells from `at` to `at + k` of the buffer hold the command from `i` on; the others are those
-- of `old`.
abbrev pub written : Bytes → ℕ → ℕ → Bytes → ℕ → ℕ → ℕ
written old at k command i j = if leb at j && ltb j (at + k) then command (i + (j - at)) else old j

written-suc :
    (old new : Bytes) (at k : ℕ) (command : Bytes) (i j : ℕ)
    → new j ≡ written old at 1 command i j
    → written new (at + 1) k command (i + 1) j ≡ written old at (suc k) command i j
written-suc old new at k command i j h =
    let e : at < j → i + 1 + (j - (at + 1)) ≡ i + (j - at) = λ lt. omega arith in ground arith

pub record IsNamed (command : Bytes) (i k : ℕ) (s t : Parse) : Type 0 where
  pub handled : t.handled_lz ≡ 1
  pub parsed : t.parsed_filename ≡ 0
  pub count : t.file_cur_char ≡ s.file_cur_char + k
  pub chars : (j : ℕ) → t.file_name j ≡ written s.file_name s.file_cur_char k command i j
  pub args : t.arg_buffer ≡ s.arg_buffer
  pub arg_count : t.arg_cur_char ≡ s.arg_cur_char

parse_char-name :
    (command : Bytes) (i : ℕ) (s : Parse)
    → s.parsed_filename ≡ 0
    → s.handled_lz ≤ 1
    → command i ≢ ascii_space
    → IsNamed command i 1 s (parse_char (command i) s)
unfolding parse_char handle_lz name_char arg_char
parse_char-name command i s p le ne = ground arith

pub parse_loop-name :
    (k i : ℕ) (command : Bytes) (s : Parse)
    → s.parsed_filename ≡ 0
    → s.handled_lz ≤ 1
    → ((j : ℕ) → i ≤ j → j < i + suc k → command j ≢ ascii_space)
    → IsNamed command i (suc k) s (parse_loop (suc k) i command s)
unfolding parse_loop
parse_loop-name zero i command s p le ne =
    parse_char-name command i s p le (ne i (omega arith) (omega arith))
parse_loop-name (suc k) i command s p le ne =
    let t = parse_char (command i) s in
    let one : IsNamed command i 1 s t =
      parse_char-name command i s p le (ne i (omega arith) (omega arith)) in
    let ih : IsNamed command (i + 1) (suc k) t (parse_loop (suc k) (i + 1) command t) =
      parse_loop-name k (i + 1) command t one.parsed (omega (arith, one.handled))
        (λ j l u. ne j (omega arith) (omega arith)) in
    record {
      handled = ih.handled;
      parsed = ih.parsed;
      count = omega (arith, ih.count, one.count);
      chars = λ j.
          ih.chars j
          ∙ ap (λ at. written t.file_name at (suc k) command (i + 1) j) one.count
          ∙ written-suc s.file_name t.file_name s.file_cur_char (suc k) command i j (one.chars j);
      args = ih.args ∙ one.args;
      arg_count = ih.arg_count ∙ one.arg_count;
    }

pub record HasArgs (command : Bytes) (i k : ℕ) (s t : Parse) : Type 0 where
  pub handled : t.handled_lz ≡ 1
  pub parsed : t.parsed_filename ≡ 1
  pub count : t.arg_cur_char ≡ s.arg_cur_char + k
  pub chars : (j : ℕ) → t.arg_buffer j ≡ written s.arg_buffer s.arg_cur_char k command i j
  pub name : t.file_name ≡ s.file_name

parse_char-args :
    (command : Bytes) (i : ℕ) (s : Parse)
    → s.parsed_filename ≡ 1
    → (s.handled_lz ≡ 1) ⊎ ((s.handled_lz ≡ 0) × (command i ≢ ascii_space))
    → HasArgs command i 1 s (parse_char (command i) s)
unfolding parse_char handle_lz name_char arg_char
parse_char-args command i s p (inl h) = ground arith
parse_char-args command i s p (inr (h, ne)) = ground arith

-- Once the first character is no space, all of them are kept.
pub parse_loop-args :
    (k i : ℕ) (command : Bytes) (s : Parse)
    → s.parsed_filename ≡ 1
    → (s.handled_lz ≡ 1) ⊎ ((s.handled_lz ≡ 0) × (command i ≢ ascii_space))
    → HasArgs command i (suc k) s (parse_loop (suc k) i command s)
unfolding parse_loop
parse_loop-args zero i command s p h = parse_char-args command i s p h
parse_loop-args (suc k) i command s p h =
    let t = parse_char (command i) s in
    let one : HasArgs command i 1 s t = parse_char-args command i s p h in
    let ih : HasArgs command (i + 1) (suc k) t (parse_loop (suc k) (i + 1) command t) =
      parse_loop-args k (i + 1) command t one.parsed (inl one.handled) in
    record {
      handled = ih.handled;
      parsed = ih.parsed;
      count = omega (arith, ih.count, one.count);
      chars = λ j.
          ih.chars j
          ∙ ap (λ at. written t.arg_buffer at (suc k) command (i + 1) j) one.count
          ∙ written-suc s.arg_buffer t.arg_buffer s.arg_cur_char (suc k) command i j (one.chars j);
      name = ih.name ∙ one.name;
    }
