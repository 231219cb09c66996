-- ===== src/Handler/Typing.antt =====
-- From the keys of student-distrib/keyboard_driver.c to `terminal_read` of
-- student-distrib/terminal_driver.c.
use ece_391_linux_kernel_cla.Prelude.{
  ℕ, ◌+◌, ◌^◌, ◌≤◌, ◌<◌, ◌≡◌, ◌≢◌, refl, sym, subst, ◌∙◌, ap, ap₂, Bool, true, ◌&&◌, ltb, some,
  List, [], ◌∷◌, ◌++◌, length, length-append, get_or, Bytes, pos, u8, u32_mod, bit_and,
  bit_and-high, bit_and-ones, ◌/◌, arith,
}
use ece_391_linux_kernel_cla.Console.{Console, line_size, newline}
use ece_391_linux_kernel_cla.Keyboard.Flags.{press-SameFlags}
use ece_391_linux_kernel_cla.Keyboard.{press, key_char, enter}
use ece_391_linux_kernel_cla.Keyboard.Line.{Holds, IsHanded, is_char_key, press-append, press-enter}
use ece_391_linux_kernel_cla.Terminal.{terminal_read, stdin}
use ece_391_linux_kernel_cla.Terminal.Input.{HoldsLine, terminal_read-line}
use ece_391_linux_kernel_cla.Syscalls.{Kernel}
use ece_391_linux_kernel_cla.Handler.{
  done, Interrupt, end_interrupt, release, key, update_buffer_and_cursor, press_all,
}

-- A key that is pressed while Control is not held.
key-press :
    (w : Interrupt) (s : ℕ) (k : Kernel)
    → s < 128
    → k.console.ctrl_pressed ≡ 0
    → update_buffer_and_cursor (key s w) k
      ≡ done (record k { console = end_interrupt (press w.beyond s (k.console)) })
unfolding update_buffer_and_cursor
key-press w s k lt h =
    let small : u8 s ≡ s = omega (arith, lt) in
    let low : bit_and s release ≡ 0 =
      let e = bit_and-high 7 1 s in let f = bit_and-ones 1 (s / 2 ^ 7) in omega (arith, e, f, lt) in
    ground (arith, small, low, h)

-- The characters that keys stand for.
abbrev pub chars_of : Bytes → ℕ → ℕ → List ℕ → List ℕ
chars_of beyond shift_flag caps_flag [] = []
chars_of beyond shift_flag caps_flag (s ∷ ss) =
    key_char beyond shift_flag caps_flag s ∷ chars_of beyond shift_flag caps_flag ss

-- Every key stands for a character.
abbrev pub are_keys : List ℕ → Bool
are_keys [] = true
are_keys (s ∷ ss) = is_char_key s && ltb s 128 && are_keys ss

append_assoc : (xs ys zs : List ℕ) → (xs ++ ys) ++ zs ≡ xs ++ (ys ++ zs)
append_assoc [] ys zs = refl
append_assoc (x ∷ xs) ys zs = ap (λ r. x ∷ r) (append_assoc xs ys zs)

append_nil : (xs : List ℕ) → xs ++ [] ≡ xs
append_nil [] = refl
append_nil (x ∷ xs) = ap (λ r. x ∷ r) (append_nil xs)

length-chars_of :
    (beyond : Bytes) (f g : ℕ) (ss : List ℕ) → length (chars_of beyond f g ss) ≡ length ss
length-chars_of beyond f g [] = refl
length-chars_of beyond f g (s ∷ ss) = omega (arith, length-chars_of beyond f g ss)

module _ (w : Interrupt) where
  -- The console after one key.
  abbrev typed : ℕ → Kernel → Kernel
  typed s k = record k { console = end_interrupt (press w.beyond s (k.console)) }

  press_all-key :
      (s : ℕ) (ts : List ℕ) (k : Kernel)
      → s < 128
      → k.console.ctrl_pressed ≡ 0
      → press_all w (s ∷ ts) k ≡ press_all w ts (typed s k)
  unfolding press_all
  press_all-key s ts k lt c = ground (arith, key-press w s k lt c)

  press_all-Holds :
      (ss ts xs : List ℕ) (k : Kernel)
      → are_keys ss ≡ true
      → k.console.ctrl_pressed ≡ 0
      → Holds k.console xs
      → length xs + length ss ≤ line_size
      → (k' : Kernel) × (press_all w (ss ++ ts) k ≡ press_all w ts k')
        × Holds k'.console (xs ++ chars_of w.beyond k.console.shift_flag k.console.caps_flag ss)
        × (k'.console.ctrl_pressed ≡ 0)
  press_all-Holds [] ts xs k h c held le =
      (k, refl, subst (Holds k.console) (sym (append_nil xs)) held, c)
  press_all-Holds (s ∷ ss) ts xs k h c held le =
      let ch = key_char w.beyond k.console.shift_flag k.console.caps_flag s in
      let is : is_char_key s ≡ true = ground arith in
      let small : s < 128 = ground arith in
      let rest : are_keys ss ≡ true = ground arith in
      let flags = press-SameFlags w.beyond s (k.console) is in
      let one = press-append w.beyond s (k.console) xs held is (omega (arith, le)) in
      let held' : Holds (typed s k).console (xs ++ ch ∷ []) = record {
        count = one.count;
        chars = one.chars;
      } in
      let (k', e, all, c') =
        press_all-Holds ss ts (xs ++ ch ∷ []) (typed s k) rest (flags.control ∙ c) held'
          (omega (arith, le, length-append xs (ch ∷ []))) in
      let same : chars_of w.beyond (typed s k).console.shift_flag (typed s k).console.caps_flag ss
          ≡ chars_of w.beyond k.console.shift_flag k.console.caps_flag ss =
        ap₂ (λ f g. chars_of w.beyond f g ss) flags.shift flags.caps in
      (
        k',
        press_all-key s (ss ++ ts) k small c ∙ e,
        subst (Holds k'.console) (append_assoc xs (ch ∷ []) _ ∙ ap (λ r. xs ++ (ch ∷ r)) same) all,
        c',
      )

  -- Keys that stand for characters and then Enter, on an empty line.
  press_all-IsHanded :
      (ss : List ℕ) (k : Kernel)
      → are_keys ss ≡ true
      → k.console.ctrl_pressed ≡ 0
      → k.console.length_typed ≡ 0
      → length ss ≤ line_size
      → (k' : Kernel) × (press_all w (ss ++ enter ∷ []) k ≡ done k')
        × IsHanded k'.console (chars_of w.beyond k.console.shift_flag k.console.caps_flag ss)
  unfolding press_all
  press_all-IsHanded ss k h c empty le =
      let xs = chars_of w.beyond k.console.shift_flag k.console.caps_flag ss in
      let held : Holds k.console [] = record {
        count = empty;
        chars = λ i lt. absurd (omega (arith, lt));
      } in
      let (k', e, all, c') = press_all-Holds ss (enter ∷ []) [] k h c held (omega (arith, le)) in
      let len : length xs ≤ line_size =
        omega (arith, length-chars_of w.beyond k.console.shift_flag k.console.caps_flag ss, le) in
      let i = press-enter w.beyond (k'.console) xs all len in
      (
        typed enter k',
        e ∙ press_all-key enter [] k' (omega arith) c',
        record { ready = i.ready; count = i.count; chars = i.chars; fresh = i.fresh },
      )

  -- At most 128 keys that stand for characters, none of them NUL, pressed one after the other on
  -- an empty line while Control is not held, and then Enter: each of these interrupts returns, and
  -- a `terminal_read` with a buffer of at least two bytes more than the line then returns the
  -- number of characters and one, and delivers the characters that the keys stand for and a
  -- newline.
  pub terminal_read-press_all :
      (ss : List ℕ) (k : Kernel) (buf : Bytes) (nbytes : ℕ)
      → are_keys ss ≡ true
      → ((i : ℕ)
          → i < length ss
          → get_or (chars_of w.beyond k.console.shift_flag k.console.caps_flag ss) i 0 ≢ 0)
      → k.console.ctrl_pressed ≡ 0
      → k.console.length_typed ≡ 0
      → length ss ≤ line_size
      → length ss + 1 < nbytes
      → nbytes < u32_mod
      → (k' : Kernel) × (out : Bytes) × (c : Console) × (press_all w (ss ++ enter ∷ []) k ≡ done k')
        × (terminal_read [] stdin buf nbytes k'.console ≡ some (pos (length ss + 1), out, c))
        × ((j : ℕ)
            → j < length ss
            → out j ≡ get_or (chars_of w.beyond k.console.shift_flag k.console.caps_flag ss) j 0)
        × (out (length ss) ≡ newline)
  terminal_read-press_all ss k buf nbytes h live c empty le room small =
      let xs = chars_of w.beyond k.console.shift_flag k.console.caps_flag ss in
      let n : length xs ≡ length ss =
        length-chars_of w.beyond k.console.shift_flag k.console.caps_flag ss in
      let (k', e, i) = press_all-IsHanded ss k h c empty le in
      let held : HoldsLine k'.console (length ss) = record {
        ready = i.ready;
        count = i.count ∙ n;
        body = λ j lt z. live j lt (sym (i.chars j (omega (arith, lt, n))) ∙ z);
      } in
      let (out, c', f, cells, flag, sti, zero') =
        terminal_read-line buf nbytes (length ss) (k'.console) held room
          (omega (arith, i.fresh, room)) small in
      (
        k',
        out,
        c',
        e,
        f,
        λ j lt. cells j ∙ ground (arith, lt) ∙ i.chars j (omega (arith, lt, n)),
        cells (length ss) ∙ ground arith,
      )
