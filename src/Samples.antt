-- ===== src/Samples.antt =====
-- Data for the tests: a disk with one file, the empty screen, C strings.
pub mod Shell
pub mod Busy
use ece_391_linux_kernel_cla.Prelude.{
  some, ℕ, zero, suc, ◌-◌, ◌<◌, ◌≡◌, refl, Bool, true, ◌&&◌, List, [], ◌∷◌, Bytes, AreBytes,
  IsString, literal, ◌==◌, ltb, leb, if◌then◌else◌, codes, get_or, all_below, all_below_sound,
  arith, ◌!=◌, ◌≢◌,
}
use ece_391_linux_kernel_cla.Console.{Console, Term}
use ece_391_linux_kernel_cla.Io.{Io}

abbrev pub all_bytes : List ℕ → Bool
all_bytes [] = true
all_bytes (x ∷ xs) = ltb x 256 && all_bytes xs

pub get_or-byte : (xs : List ℕ) (i : ℕ) → all_bytes xs ≡ true → get_or xs i 0 < 256
get_or-byte [] i h = omega arith
get_or-byte (x ∷ xs) zero h = ground arith
get_or-byte (x ∷ xs) (suc i) h = get_or-byte xs i (ground arith)

abbrev pub frame0 : Bytes
frame0 = literal "frame0.txt"

abbrev pub hello : Bytes
hello = literal "hello"

-- One entry, "frame0.txt", of type 2 with inode 1: five bytes in data block 0.
abbrev pub disk : Bytes
disk i =
    if i == 0
    then 1
    else if i == 4
    then 2
    else if leb 64 i && ltb i 96
    then frame0 (i - 64)
    else if i == 96
    then 2
    else if i == 100
    then 1
    else if i == 8192
    then 5
    else if leb 12288 i && ltb i 12293
    then hello (i - 12288)
    else 0

pub frame0-AreBytes : AreBytes frame0
frame0-AreBytes i = get_or-byte (codes "frame0.txt") i refl

pub hello-AreBytes : AreBytes hello
hello-AreBytes i = get_or-byte (codes "hello") i refl

pub disk-AreBytes : AreBytes disk
disk-AreBytes i = ground (arith, frame0-AreBytes (i - 64), hello-AreBytes (i - 12288))

-- A table of bytes that is checked at every cell below the NUL.
abbrev live : Bytes → ℕ → Bool
live s i = s i != 0

nonzero : (a : ℕ) → (a != 0) ≡ true → a ≢ 0
nonzero a h = ground arith

all_below-IsString : (s : Bytes) (n : ℕ) → all_below n (live s) ≡ true → s n ≡ 0 → IsString s n
all_below-IsString s n h z = record {
  body = λ i lt. nonzero (s i) (all_below_sound n (live s) h i lt);
  stop = z;
}

pub frame0-IsString : IsString frame0 10
unfolding all_below
frame0-IsString = all_below-IsString frame0 10 refl refl

pub hello-IsString : IsString hello 5
unfolding all_below
hello-IsString = all_below-IsString hello 5 refl refl

abbrev pub zeros : Bytes
zeros i = 0

abbrev pub quiet : Io
quiet = record { log = []; interrupts = true }

-- A terminal whose shell is the process in slot 0.
abbrev pub fresh_term : Term
fresh_term = record {
  been_here = 1;
  cursor_x = 0;
  cursor_y = 0;
  keyboard_buffer = zeros;
  vid_mem = zeros;
  running_pcb = some 0;
  current_esp = 0;
  current_ebp = 0;
  esp0 = 0;
}

abbrev pub blank : Console
blank = record {
  video = zeros;
  cursor_x = 2;
  cursor_y = 3;
  input_buffer = zeros;
  length_typed = 0;
  temp_buffer = hello;
  old_length_typed = 5;
  can_read = 1;
  ctrl_pressed = 0;
  shift_flag = 0;
  caps_flag = 0;
  terms = λ i. fresh_term;
  current_terminal = 0;
  io = quiet;
}
