-- ===== src/Terminal/Shown.antt =====
-- What `terminal_write` of student-distrib/terminal_driver.c shows: the screen after a write depends
-- on the screen before it and on the bytes written, not on the line that is typed meanwhile.
use ece_391_linux_kernel_cla.Prelude.{
  ℕ, zero, suc, ◌+◌, ◌<◌, ◌≡◌, refl, ◌∙◌, ap, Bytes, pos, ◌==◌, arith, Bool-cases, inl, inr,
}
use ece_391_linux_kernel_cla.Console.{
  Console, newline, term_of, flush, putc, write_char, scroll_if_needed, move_cursor_to,
}
use ece_391_linux_kernel_cla.Console.Kept.{KeepsTerms, KeepsTerms-refl, KeepsTerms-trans}
use ece_391_linux_kernel_cla.Terminal.{terminal_write, write_loop, write_byte, stdout}

-- The same picture and the same cursor.
pub record Shows (c d : Console) : Type 0 where
  pub video : c.video ≡ d.video
  pub cursor_x : c.cursor_x ≡ d.cursor_x
  pub cursor_y : c.cursor_y ≡ d.cursor_y

pub Shows-trans : (c d e : Console) → Shows c d → Shows d e → Shows c e
Shows-trans c d e p q = record {
  video = p.video ∙ q.video;
  cursor_x = p.cursor_x ∙ q.cursor_x;
  cursor_y = p.cursor_y ∙ q.cursor_y;
}

scroll_if_needed-Shows :
    (c d : Console) → Shows c d → Shows (scroll_if_needed c) (scroll_if_needed d)
unfolding scroll_if_needed move_cursor_to
scroll_if_needed-Shows c d h = ground (arith, h.video, h.cursor_x, h.cursor_y)

write_char-Shows : (ch : ℕ) (c d : Console) → Shows c d → Shows (write_char ch c) (write_char ch d)
unfolding write_char
write_char-Shows ch c d h = ground (arith, h.video, h.cursor_x, h.cursor_y)

putc-Shows : (ch : ℕ) (c d : Console) → Shows c d → Shows (putc ch c) (putc ch d)
unfolding putc
putc-Shows ch c d h = elim (Bool-cases (ch == newline)) [
  | inl e ↦
      rw e (record { video = h.video; cursor_x = refl; cursor_y = ap (λ y. y + 1) h.cursor_y })
  | inr e ↦
      rw e (scroll_if_needed-Shows (write_char ch c) (write_char ch d) (write_char-Shows ch c d h))
]

write_byte-Shows : (ch : ℕ) (c d : Console) → Shows c d → Shows (write_byte ch c) (write_byte ch d)
unfolding write_byte
write_byte-Shows ch c d h = ground (
  arith,
  h,
  scroll_if_needed-Shows (putc ch c) (putc ch d) (putc-Shows ch c d h),
  scroll_if_needed-Shows c d h,
)

pub write_loop-Shows :
    (k i : ℕ) (buf : Bytes) (c d : Console)
    → Shows c d
    → Shows (write_loop k i buf c) (write_loop k i buf d)
unfolding write_loop
write_loop-Shows zero i buf c d h = h
write_loop-Shows (suc k) i buf c d h =
    write_loop-Shows k (i + 1) buf (write_byte (buf i) c) (write_byte (buf i) d)
      (write_byte-Shows (buf i) c d h)

pub write_loop-none : (i : ℕ) (buf : Bytes) (c : Console) → Shows (write_loop 0 i buf c) c
unfolding write_loop
write_loop-none i buf c = record { video = refl; cursor_x = refl; cursor_y = refl }

-- The bytes count, not where they stand.
pub write_loop-moved :
    (k i j : ℕ) (buf buf' : Bytes) (c : Console)
    → ((l : ℕ) → l < k → buf (i + l) ≡ buf' (j + l))
    → write_loop k i buf c ≡ write_loop k j buf' c
unfolding write_loop
write_loop-moved zero i j buf buf' c h = refl
write_loop-moved (suc k) i j buf buf' c h =
    let e : buf i ≡ buf' j = ground (arith, h 0 (omega arith)) in
    rw e (
      write_loop-moved k (i + 1) (j + 1) buf buf' (write_byte (buf' j) c)
        (λ l lt. ground (arith, h (l + 1) (omega arith))))

pub write_loop-append :
    (a b i : ℕ) (buf : Bytes) (c : Console)
    → write_loop (a + b) i buf c ≡ write_loop b (i + a) buf (write_loop a i buf c)
unfolding write_loop
write_loop-append zero b i buf c = ground arith
write_loop-append (suc a) b i buf c =
    let e : suc a + b ≡ suc (a + b) = omega arith in
    let f : i + suc a ≡ i + 1 + a = omega arith in
    rw (e, f, write_loop) (write_loop-append a b (i + 1) buf (write_byte (buf i) c))

write_byte-KeepsTerms : (ch : ℕ) (c : Console) → KeepsTerms c (write_byte ch c)
unfolding write_byte putc write_char scroll_if_needed move_cursor_to
write_byte-KeepsTerms ch c = ground arith

write_loop-KeepsTerms : (k i : ℕ) (buf : Bytes) (c : Console) → KeepsTerms c (write_loop k i buf c)
unfolding write_loop
write_loop-KeepsTerms zero i buf c = KeepsTerms-refl c
write_loop-KeepsTerms (suc k) i buf c =
    KeepsTerms-trans c (write_byte (buf i) c) _ (write_byte-KeepsTerms (buf i) c)
      (write_loop-KeepsTerms k (i + 1) buf (write_byte (buf i) c))

-- A write to the screen shows the bytes one after the other, returns 0, and changes nothing of who
-- runs in the terminal that is shown.
pub terminal_write-Shows :
    (buf : Bytes) (nbytes : ℕ) (c : Console)
    → let r = terminal_write stdout buf nbytes c in
      (r.0 ≡ pos 0)
      × Shows (write_loop nbytes 0 buf c) r.1
      × ((term_of r.1).running_pcb ≡ (term_of c).running_pcb)
unfolding terminal_write flush
terminal_write-Shows buf nbytes c =
    let t = write_loop-KeepsTerms nbytes 0 buf c in
    (
      refl,
      record { video = refl; cursor_x = refl; cursor_y = refl },
      ground (arith, t.terms, t.current_terminal),
    )
