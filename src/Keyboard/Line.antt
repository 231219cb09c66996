-- ===== src/Keyboard/Line.antt =====
-- The line buffer of student-distrib/keyboard_driver.c as a list of characters.
use ece_391_linux_kernel_cla.Prelude.{
  ℕ, zero, suc, ◌+◌, ◌-◌, ◌≤◌, ◌<◌, ◌≡◌, ◌≢◌, refl, ap, Bool, true, ◌||◌, not, List, [], ◌∷◌, ◌++◌,
  Bytes, ◌==◌, ltb, if◌then◌else◌, length, length-append, get_or, arith, dec_lt, store,
}
use ece_391_linux_kernel_cla.Console.{Console, line_size, scroll_if_needed, move_cursor_to, flush}
use ece_391_linux_kernel_cla.Keyboard.{
  press, dispatch, wrap, type_key, erase_key, step_back, enter_key, key_char, enter, ctrl,
  caps_lock, l_shift, r_shift, backspace,
}

-- The buffer holds the characters `xs`.
pub record Holds (c : Console) (xs : List ℕ) : Type 0 where
  pub count : c.length_typed ≡ length xs
  pub chars : (i : ℕ) → i < length xs → c.input_buffer i ≡ get_or xs i 0

get_or-append :
    (xs ys : List ℕ) (i : ℕ)
    → get_or (xs ++ ys) i 0
      ≡ (if ltb i (length xs) then get_or xs i 0 else get_or ys (i - length xs) 0)
get_or-append [] ys i = ground arith
get_or-append (x ∷ xs) ys zero = ground arith
get_or-append (x ∷ xs) ys (suc i) = ground (arith, get_or-append xs ys i)

-- All but the last.
abbrev pub drop_last : List ℕ → List ℕ
drop_last [] = []
drop_last (x ∷ []) = []
drop_last (x ∷ y ∷ r) = x ∷ drop_last (y ∷ r)

length-drop_last : (xs : List ℕ) → length (drop_last xs) ≡ length xs - 1
length-drop_last [] = refl
length-drop_last (x ∷ []) = refl
length-drop_last (x ∷ y ∷ r) = omega (arith, length-drop_last (y ∷ r))

get_or-drop_last :
    (xs : List ℕ) (i : ℕ) → i < length (drop_last xs) → get_or (drop_last xs) i 0 ≡ get_or xs i 0
get_or-drop_last [] i h = refl
get_or-drop_last (x ∷ []) i h = absurd (omega arith)
get_or-drop_last (x ∷ y ∷ r) zero h = refl
get_or-drop_last (x ∷ y ∷ r) (suc i) h = get_or-drop_last (y ∷ r) i (omega arith)

-- Is the key one of those that stand for a character?
abbrev pub is_char_key : ℕ → Bool
is_char_key s = not (
    (s == ctrl)
    || (s == caps_lock)
    || (s == l_shift)
    || (s == r_shift)
    || (s == enter)
    || (s == backspace))

-- The fields that the screen's routines leave alone.
record SameLine (c d : Console) : Type 0 where
  buffer : d.input_buffer ≡ c.input_buffer
  count : d.length_typed ≡ c.length_typed
  temp : d.temp_buffer ≡ c.temp_buffer
  old : d.old_length_typed ≡ c.old_length_typed
  ready : d.can_read ≡ c.can_read
  shift : d.shift_flag ≡ c.shift_flag
  caps : d.caps_flag ≡ c.caps_flag

wrap-SameLine : (c : Console) → SameLine c (wrap c)
unfolding wrap
wrap-SameLine c = ground arith

scroll-SameLine :
    (c : Console) → SameLine c (scroll_if_needed (move_cursor_to c.cursor_x c.cursor_y c))
unfolding scroll_if_needed move_cursor_to
scroll-SameLine c = ground arith

Holds-SameLine : (c d : Console) (xs : List ℕ) → SameLine c d → Holds c xs → Holds d xs
Holds-SameLine c d xs s h = record {
  count = omega (arith, s.count, h.count);
  chars = λ i lt. rw s.buffer (h.chars i lt);
}

-- The characters `xs` wait for the reader, and the line itself is empty.
pub record IsHanded (c : Console) (xs : List ℕ) : Type 0 where
  pub ready : c.can_read ≡ 1
  pub count : c.old_length_typed ≡ length xs
  pub chars : (i : ℕ) → i < length xs → c.temp_buffer i ≡ get_or xs i 0
  pub fresh : c.length_typed ≡ 0

IsHanded-SameLine : (c d : Console) (xs : List ℕ) → SameLine c d → IsHanded c xs → IsHanded d xs
IsHanded-SameLine c d xs s h = record {
  ready = omega (arith, s.ready, h.ready);
  count = omega (arith, s.old, h.count);
  chars = λ i lt. rw s.temp (h.chars i lt);
  fresh = omega (arith, s.count, h.fresh);
}

store-append :
    (buf : Bytes) (xs : List ℕ) (ch i : ℕ)
    → i < length (xs ++ ch ∷ [])
    → (i < length xs → buf i ≡ get_or xs i 0)
    → store buf (length xs) ch i ≡ get_or (xs ++ ch ∷ []) i 0
store-append buf xs ch i h same = elim (dec_lt i (length xs)) [
  | yes p ↦ ground (arith, get_or-append xs (ch ∷ []) i, same p)
  | no p ↦
      let e : i ≡ length xs = omega (arith, length-append xs (ch ∷ [])) in
      let z : length xs - length xs ≡ 0 = omega arith in
      rw e
        (ground (arith, get_or-append xs (ch ∷ []) (length xs), ap (λ k. get_or (ch ∷ []) k 0) z))
]

module _ (beyond : Bytes) where
  type_key-Holds :
      (s : ℕ) (c : Console) (xs : List ℕ) (ch : ℕ)
      → key_char beyond c.shift_flag c.caps_flag s ≡ ch
      → Holds c xs
      → length xs < line_size
      → s ≢ backspace
      → Holds (type_key beyond s c) (xs ++ ch ∷ [])
  unfolding type_key
  type_key-Holds s c xs ch e h lt ne = record {
    count = ground (arith, h.count, length-append xs (ch ∷ []));
    chars = λ i k. ground (arith, h.count, store-append c.input_buffer xs ch i k (h.chars i));
  }

  dispatch-char :
      (s : ℕ) (c : Console) (ys : List ℕ)
      → is_char_key s ≡ true
      → Holds (type_key beyond s c) ys
      → Holds (dispatch beyond s c) ys
  unfolding dispatch
  dispatch-char s c ys k h =
      let e : dispatch beyond s c ≡ type_key beyond s c = ground arith in rw e h

  -- What the screen's routines do around a key leaves the line alone.
  press-Holds :
      (s : ℕ) (c : Console) (ys : List ℕ)
      → Holds (dispatch beyond s (wrap c)) ys
      → Holds (press beyond s c) ys
  unfolding press
  press-Holds s c ys h = Holds-SameLine (dispatch beyond s (wrap c)) _ ys (scroll-SameLine _) h

  -- A key other than Control, Caps Lock, the shifts, Enter and Backspace appends the character
  -- that it stands for under the flags to the line, if the line has fewer than 128.
  pub press-append :
      (s : ℕ) (c : Console) (xs : List ℕ)
      → Holds c xs
      → is_char_key s ≡ true
      → length xs < line_size
      → Holds (press beyond s c) (xs ++ key_char beyond c.shift_flag c.caps_flag s ∷ [])
  press-append s c xs h k lt =
      let same = wrap-SameLine c in
      let ch = key_char beyond c.shift_flag c.caps_flag s in
      press-Holds s c _ (
        dispatch-char s (wrap c) (xs ++ ch ∷ []) k (
          type_key-Holds s (wrap c) xs ch (λ i. key_char beyond (same.shift i) (same.caps i) s)
            (Holds-SameLine c (wrap c) xs same h) lt (ground arith)))

  erase_key-Holds :
      (c : Console) (xs : List ℕ)
      → Holds c xs
      → 0 < length xs
      → 0 < c.cursor_x + c.cursor_y
      → Holds (erase_key c) (drop_last xs)
  unfolding erase_key step_back
  erase_key-Holds c xs h lt on = record {
    count = ground (arith, h.count, length-drop_last xs);
    chars = λ i k. ground (arith, h.chars i, length-drop_last xs, get_or-drop_last xs i k);
  }

  dispatch-erase :
      (c : Console) (ys : List ℕ)
      → 0 < c.length_typed
      → Holds (erase_key c) ys
      → Holds (dispatch beyond backspace c) ys
  unfolding dispatch
  dispatch-erase c ys lt h =
      let e : dispatch beyond backspace c ≡ erase_key c = ground arith in rw e h

  wrap-on : (c : Console) → 0 < c.cursor_x + c.cursor_y → 0 < (wrap c).cursor_x + (wrap c).cursor_y
  unfolding wrap
  wrap-on c h = ground arith

  -- Backspace takes the last character off a line that has one, unless the cursor stands in the
  -- upper left corner of the screen.
  pub press-drop_last :
      (c : Console) (xs : List ℕ)
      → Holds c xs
      → 0 < length xs
      → 0 < c.cursor_x + c.cursor_y
      → Holds (press beyond backspace c) (drop_last xs)
  press-drop_last c xs h lt on =
      let held = Holds-SameLine c (wrap c) xs (wrap-SameLine c) h in
      press-Holds backspace c _ (
        dispatch-erase (wrap c) _ (omega (arith, held.count))
          (erase_key-Holds (wrap c) xs held lt (wrap-on c on)))

  enter_key-IsHanded :
      (c : Console) (xs : List ℕ) → Holds c xs → length xs ≤ line_size → IsHanded (enter_key c) xs
  unfolding enter_key flush
  enter_key-IsHanded c xs h le = record {
    ready = refl;
    count = h.count;
    chars = λ i lt. ground (arith, h.chars i lt);
    fresh = refl;
  }

  dispatch-enter : (c : Console) → dispatch beyond enter c ≡ enter_key c
  unfolding dispatch
  dispatch-enter c = ground arith

  -- Enter hands a line of at most 128 characters to the reader, character for character and with
  -- its length, sets the reader's flag, and leaves the length of the line at 0.
  pub press-enter :
      (c : Console) (xs : List ℕ)
      → Holds c xs
      → length xs ≤ line_size
      → IsHanded (press beyond enter c) xs
  unfolding press
  press-enter c xs h le =
      let held = Holds-SameLine c (wrap c) xs (wrap-SameLine c) h in
      let handed : IsHanded (dispatch beyond enter (wrap c)) xs =
        rw (dispatch-enter (wrap c)) (enter_key-IsHanded (wrap c) xs held le) in
      IsHanded-SameLine (dispatch beyond enter (wrap c)) _ xs (scroll-SameLine _) handed
