-- ===== src/Syscalls/Execute/Started/Loaded.antt =====
-- The file that `execute` of student-distrib/syscalls.c loads, and the arguments.
use ece_391_linux_kernel_cla.Prelude.{
  ℕ, ◌+◌, ◌-◌, ◌≤◌, ◌<◌, ◌≡◌, ◌≢◌, refl, ◌∙◌, ap, true, false, some, pos, Bytes, IsString, literal,
  word, shift, u32_mod, min, ◌==◌, ltb, if◌then◌else◌, arith,
}
use ece_391_linux_kernel_cla.Clib.{strncpy}
use ece_391_linux_kernel_cla.Clib.Copies.{strncpy-padded}
use ece_391_linux_kernel_cla.FileSystem.{
  Dentry, found, read_dentry_by_name, read_data, length_in_bytes,
}
use ece_391_linux_kernel_cla.FileSystem.Blocks.{content}
use ece_391_linux_kernel_cla.FileSystem.Reading.{read_data-content}
use ece_391_linux_kernel_cla.Syscalls.{Kernel}
use ece_391_linux_kernel_cla.Syscalls.Command.{parse_command, max_arg_buf_size}
use ece_391_linux_kernel_cla.Syscalls.Slots.{max_processes}
use ece_391_linux_kernel_cla.Syscalls.Execute.{
  Frame, is_program, put_image, image_room, store_args, image_offset,
}

-- The command, of at most 31 characters, names an executable file `d` that fits into the page of the
-- program image, and gives `len` bytes of arguments in `arg_buffer`; one of the six slots is free.
pub record IsLoadable (fr : Frame) (command name arg_buffer : Bytes) (d : Dentry) (len : ℕ)
    (k : Kernel) : Type 0 where
  pub parsed : parse_command fr.file_name fr.arg_buffer command ≡ some (name, arg_buffer)
  pub entry : read_dentry_by_name k.fs (some name) ≡ some (found d)
  pub program : is_program fr k.fs d.inode_num ≡ true
  pub header : 28 ≤ length_in_bytes k.fs d.inode_num
  pub small : length_in_bytes k.fs d.inode_num ≤ image_room
  pub arguments : IsString arg_buffer len
  pub fits : len < u32_mod
  pub room : k.processes < max_processes

-- What process `p` sees is the file `d`, from the start of the program image on, and no other
-- process sees anything else than before.
pub record IsImage (p : ℕ) (d : Dentry) (k k' : Kernel) : Type 0 where
  pub loaded :
      (i : ℕ)
      → i < length_in_bytes k.fs d.inode_num
      → k'.images p (image_offset + i) ≡ content k.fs d.inode_num i
  pub behind :
      (i : ℕ)
      → length_in_bytes k.fs d.inode_num ≤ i
      → k'.images p (image_offset + i) ≡ k.images p (image_offset + i)
  pub before : (i : ℕ) → i < image_offset → k'.images p i ≡ k.images p i
  pub apart : (q : ℕ) → q ≢ p → k'.images q ≡ k.images q

-- The address at which the file says that it starts.
abbrev pub entry_of : Bytes → ℕ → ℕ
entry_of fs inode = word (λ i. content fs inode (24 + i))

pub store_args-padded :
    (old arg_buffer : Bytes) (len j : ℕ)
    → IsString arg_buffer len
    → j < max_arg_buf_size
    → store_args (strncpy old (literal "") max_arg_buf_size) arg_buffer len j
      ≡ (if ltb j len then arg_buffer j else 0)
store_args-padded old arg_buffer len j h lt =
    let empty : IsString (literal "") 0 = record {
      body = λ i l. absurd (omega arith);
      stop = refl;
    } in
    let base = strncpy-padded old (literal "") 0 max_arg_buf_size j empty in
    let top : (n : ℕ) → strncpy (strncpy old (literal "") max_arg_buf_size) arg_buffer n j ≡ _ =
      λ n. strncpy-padded (strncpy old (literal "") max_arg_buf_size) arg_buffer len n j h in
    ground (arith, base, top max_arg_buf_size, top len)

pub put_image-IsImage :
    (p : ℕ) (d : Dentry) (k : Kernel)
    → 28 ≤ length_in_bytes k.fs d.inode_num
    → length_in_bytes k.fs d.inode_num ≤ image_room
    → IsImage p d k (put_image d.inode_num p k)
unfolding put_image
put_image-IsImage p d k h l =
    let size = length_in_bytes k.fs d.inode_num in
    let r =
      (read_data-content k.fs d.inode_num 0 (shift (k.images p) image_offset) size
        (omega (arith, h)) (omega (arith, l)) (omega arith) (omega (arith, l))).1 in
    let same : (p == p) ≡ true = ground arith in
    record {
      loaded = λ i lt.
          let o : ltb (image_offset + i) image_offset ≡ false = ground arith in
          let z : image_offset + i - image_offset ≡ i = omega arith in
          rw (same, o, z) (r i ∙ ground arith);
      behind = λ i ge.
          let o : ltb (image_offset + i) image_offset ≡ false = ground arith in
          let z : image_offset + i - image_offset ≡ i = omega arith in
          rw (same, o, z) (r i ∙ ground arith);
      before = λ i lt. let o : ltb i image_offset ≡ true = ground arith in rw (same, o) refl;
      apart = λ q ne. let o : (q == p) ≡ false = ground arith in rw o refl;
    }

-- The entry point that `execute` reads.
abbrev pub read_entry : Dentry → Kernel → Bytes
read_entry d k = (read_data k.fs d.inode_num 24 k.entry_point 4).1

pub read_entry-word :
    (d : Dentry) (k : Kernel)
    → 28 ≤ length_in_bytes k.fs d.inode_num
    → length_in_bytes k.fs d.inode_num ≤ image_room
    → (word (read_entry d k) ≡ entry_of k.fs d.inode_num)
      × ((read_data k.fs d.inode_num 24 k.entry_point 4).0 ≡ pos 4)
unfolding word
read_entry-word d k h l =
    let size = length_in_bytes k.fs d.inode_num in
    let r =
      read_data-content k.fs d.inode_num 24 k.entry_point 4 (omega (arith, h)) (omega (arith, l))
        (omega (arith, h)) (omega arith) in
    let four : min 4 (size - 24) ≡ 4 = ground (arith, h) in
    let c : (i : ℕ) → i < 4 → read_entry d k i ≡ content k.fs d.inode_num (24 + i) =
      λ i lt. r.1 i ∙ ground (arith, four) in
    (
      omega (arith, c 0 (omega arith), c 1 (omega arith), c 2 (omega arith), c 3 (omega arith)),
      r.0 ∙ ap pos four,
    )
