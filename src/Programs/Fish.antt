-- ===== src/Programs/Fish.antt =====
-- fish/fish.c: two pictures from files, blinking by the clock. The functions of fish/blink.S, in
-- assembly, are parameters.
pub mod Blinking
use ece_391_linux_kernel_cla.Prelude.{
  ℕ, zero, suc, ◌+◌, ◌-◌, ◌*◌, Bool, true, false, ◌&&◌, ◌||◌, Option, none, some, ℤ, pos, negsuc,
  Bytes, store, shift, literal, word, is_zero, ◌==◌, ◌!=◌, ltb, if◌then◌else◌,
}
use ece_391_linux_kernel_cla.Programs.{Program, Calls, pure, stuck, ◌>>=◌, ◌>>◌, failed}
use ece_391_linux_kernel_cla.Programs.Pingpong.{rate_word}

-- The fields of `struct mp1_blink_struct` that this file sets.
pub record Blink : Type 0 where
  pub location : ℕ
  pub on_char : ℕ
  pub off_char : ℕ
  pub on_length : ℕ
  pub off_length : ℕ

abbrev pub blink_size : ℕ
blink_size = 16

abbrev pub cells : ℕ
cells = 2000

abbrev pub wait_rounds : ℕ
wait_rounds = 200

-- `for(i=0; i<n; i++)` with `k` rounds left.
unfoldable pub memset_loop : ℕ → ℕ → ℕ → Bytes → Bytes
memset_loop zero i c mem = mem
memset_loop (suc k) i c mem = memset_loop k (i + 1) c (store mem i c)

unfoldable pub ece391_memset : Bytes → ℕ → ℕ → Bytes
unfolding memset_loop
ece391_memset mem c n = memset_loop n 0 c mem

-- Between ranges that share no cell.
unfoldable pub memcpy_loop : ℕ → ℕ → Bytes → Bytes → Bytes
memcpy_loop zero i d s = d
memcpy_loop (suc k) i d s = memcpy_loop k (i + 1) (store d i (s i)) s

unfoldable pub ece391_memcpy : Bytes → Bytes → ℕ → Bytes
unfolding memcpy_loop
ece391_memcpy d s n = memcpy_loop n 0 d s

-- `blink_array[i].location` of the bytes of the array: a half word at the start of an element.
abbrev pub location_at : Bytes → ℕ → ℕ
location_at blink_array i = blink_array (blink_size * i) + blink_array (blink_size * i + 1) * 256

-- The first element that is free, `k` rounds before the end; an element is known by its index.
unfoldable pub malloc_loop : ℕ → ℕ → Bytes → Option ℕ
malloc_loop zero i blink_array = none
malloc_loop (suc k) i blink_array =
    let rest = malloc_loop k (i + 1) blink_array in
    if location_at blink_array i == 0 then some i else rest

unfoldable pub mp1_malloc : Bytes → Option ℕ
unfolding malloc_loop
mp1_malloc blink_array = malloc_loop cells 0 blink_array

-- `memory` points to the element with the index `i`.
unfoldable pub mp1_free : Bytes → ℕ → Bytes
unfolding ece391_memset
mp1_free blink_array i j =
    if ltb j (blink_size * i)
    then blink_array j
    else ece391_memset (shift blink_array (blink_size * i)) 0 blink_size (j - blink_size * i)

-- What the rest of the program does: `mp1_ioctl` with a structure to add and with a number, and
-- `mp1_rtc_tasklet`; `clear` is the store of `ece391_memset(blink_array, ...)`.
pub record Mp1 (S : Type 0) : Type 0 where
  pub ioctl_add : Blink → Program S ℤ
  pub ioctl : ℕ → ℕ → Program S ℤ
  pub rtc_tasklet : ℕ → Program S (Unit {0})
  pub update_array : (Bytes → Bytes) → Program S (Unit {0})

-- The variables of `add_frames` that a row changes.
pub record Frames : Type 0 where
  pub c0 : ℕ
  pub c1 : ℕ
  pub eof0 : Bool
  pub eof1 : Bool

-- A character that is drawn: neither a space nor the end of the line.
abbrev pub is_ink : ℕ → Bool
is_ink c = (c != 32) && (c != 10)

abbrev pub blank_if_end : ℕ → ℕ
blank_if_end c = if c == 10 then 32 else c

abbrev pub is_negative : ℤ → Bool
is_negative (pos n) = false
is_negative (negsuc n) = true

module _ {S : Type 0} (calls : Calls S) (mp1 : Mp1 S) where
  -- The next character of a picture, with its end, unless its line has ended.
  unfoldable pub next_of : ℤ → ℕ → Bool → Program S (ℕ × Bool)
  next_of fd c eof = elim (c == 10) [
    | true ↦ pure (c, eof)
    | false ↦ do
      (num_bytes, out) ← calls.ece391_read fd (λ i. c) (pos 1)
      pure (if is_zero num_bytes then (10, true) else (out 0, eof))
  ]

  -- The inner `while(1)`, on fuel.
  unfoldable pub row_loop : ℕ → ℤ → ℤ → ℕ → ℕ → Frames → Program S Frames
  unfolding next_of
  row_loop zero fd0 fd1 row col f = stuck
  row_loop (suc fuel) fd0 fd1 row col f = do
    (c0, eof0) ← next_of fd0 f.c0 f.eof0
    (c1, eof1) ← next_of fd1 f.c1 f.eof1
    let f' : Frames = record { c0 = c0; c1 = c1; eof0 = eof0; eof1 = eof1 }
    elim ((c0 == 10) && (c1 == 10)) [
      | true ↦ pure f'
      | false ↦ do
        elim (is_ink c0 || is_ink c1) [
          | true ↦ do
            _ ← mp1.ioctl_add (record {
              location = row * 80 + col + 40;
              on_char = blank_if_end c0;
              off_char = blank_if_end c1;
              on_length = 15;
              off_length = 15;
            })
            pure tt
          | false ↦ pure tt
        ]
        row_loop fuel fd0 fd1 row (col + 1) f'
    ]

  -- The character that the next row starts with; a picture that has ended is closed.
  unfoldable pub start_row : ℤ → Bool → Program S ℕ
  start_row fd eof = elim eof [ true ↦ do _ ← calls.ece391_close fd; pure 10 | false ↦ pure 48 ]

  -- `while(eof0 == 0 || eof1 == 0)`, on fuel; `width` is the fuel for a row.
  unfoldable pub frames_loop : ℕ → ℕ → ℤ → ℤ → ℕ → Frames → Program S (Unit {0})
  unfolding row_loop start_row
  frames_loop zero width fd0 fd1 row f = stuck
  frames_loop (suc fuel) width fd0 fd1 row f = elim (f.eof0 && f.eof1) [
    | true ↦ pure tt
    | false ↦ do
      f' ← row_loop width fd0 fd1 row 0 f
      c0 ← start_row fd0 f'.eof0
      c1 ← start_row fd1 f'.eof1
      frames_loop fuel width fd0 fd1 (row + 1) (record f' { c0 = c0; c1 = c1 })
  ]

  -- A file that is missing ends the program.
  unfoldable pub add_frames : ℕ → Bytes → Bytes → Program S (Unit {0})
  unfolding frames_loop
  add_frames fuel f0 f1 = do
    fd0 ← calls.ece391_open f0
    elim (is_negative fd0) [
      | true ↦ stuck
      | false ↦ do
        fd1 ← calls.ece391_open f1
        elim (is_negative fd1) [
          | true ↦ stuck
          | false ↦
              frames_loop fuel fuel fd0 fd1 0
                (record { c0 = 48; c1 = 48; eof0 = false; eof1 = false })
        ]
    ]

  -- `vmem_at` is the address of `vmem_base_addr`; the result is what it holds then, or NULL.
  unfoldable pub mp1_set_video_mode : ℕ → Program S (Option ℕ)
  mp1_set_video_mode vmem_at = do
    (r, base) ← calls.ece391_vidmap vmem_at
    pure (if failed r then none else base)

  -- `for(i=0; i<n; i++)` with `k` rounds left: the clock, then the tasklet.
  unfoldable pub wait_loop : ℕ → ℤ → Bytes → Program S Bytes
  wait_loop zero rtc_fd garbage = pure garbage
  wait_loop (suc k) rtc_fd garbage = do
    (_, out) ← calls.ece391_read rtc_fd garbage (pos 4)
    mp1.rtc_tasklet (word out)
    wait_loop k rtc_fd out

  unfoldable pub fish_main : ℕ → ℕ → Bytes → Program S ℤ
  unfolding add_frames mp1_set_video_mode wait_loop ece391_memset
  fish_main fuel vmem_at garbage = do
    mp1.update_array (λ a. ece391_memset a 0 (blink_size * cells))
    base ← mp1_set_video_mode vmem_at
    elim base [
      | none ↦ pure (negsuc 0)
      | some v ↦ do
        rtc_fd ← calls.ece391_open (literal "rtc")
        add_frames fuel (literal "frame0.txt") (literal "frame1.txt")
        _ ← calls.ece391_write rtc_fd rate_word (pos 4)
        g₁ ← wait_loop wait_rounds rtc_fd garbage
        _ ← mp1.ioctl_add (record {
          location = 6 * 80 + 60;
          on_char = 73;
          off_char = 77;
          on_length = 7;
          off_length = 6;
        })
        g₂ ← wait_loop wait_rounds rtc_fd g₁
        _ ← mp1.ioctl (40 * 65536 + (6 * 80 + 60)) 3
        g₃ ← wait_loop wait_rounds rtc_fd g₂
        _ ← mp1.ioctl wait_rounds 1
        _ ← wait_loop cells rtc_fd g₃
        _ ← calls.ece391_close rtc_fd
        pure (pos 0)
    ]
