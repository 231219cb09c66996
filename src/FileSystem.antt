-- ===== src/FileSystem.antt =====
-- The read-only file system of student-distrib/filesysobjs.c: a boot block, directory entries of 64
-- bytes, inodes of 4096 bytes (a length and data block numbers) and data blocks of 4096 bytes.
-- `fs` is the pointer `start_fs`: `fs k` is the byte at `start_fs + k`. Offsets are 32-bit and wrap.
pub mod Entries
pub mod Names
pub mod Renamed
pub mod Blocks
pub mod Reading
pub mod Listing
mod Tests
use ece_391_linux_kernel_cla.Prelude.{
  ℕ, zero, suc, ◌+◌, ◌-◌, ◌*◌, ◌/◌, ◌%◌, Bool, true, false, ◌||◌, Option, none, some, ℤ, pos,
  negsuc, minus_one, is_zero, is_pos, ◌^◌, Bytes, store, shift, u8, u32, u32_mod, word, ◌==◌, ltb,
  leb, if◌then◌else◌, s32,
}
use ece_391_linux_kernel_cla.Clib.{strlen, strncmp, strncpy}
use ece_391_linux_kernel_cla.Clib.Memory.{fill}

abbrev pub block_size : ℕ
block_size = 4096

-- The size of the boot block's head and of a directory entry.
abbrev pub size_stat_dirs : ℕ
size_stat_dirs = 64

abbrev pub size_buff : ℕ
size_buff = 32

-- `boot_block_t`
pub record BootBlock : Type 0 where
  pub num_dir_entries : ℕ
  pub num_inodes : ℕ
  pub num_data_blocks : ℕ

-- `dentry_t`. Of `filename` the first 32 bytes count, of `reserved` the first 24.
pub record Dentry : Type 0 where
  pub filename : Bytes
  pub file_type : ℕ
  pub inode_num : ℕ
  pub reserved : Bytes

-- A return of -1, or of 0 with the entry that is written through the pointer.
pub data Lookup : Type 0 where
  missing : Lookup
  found : Dentry → Lookup

-- `memcpy(dentry, dir_addr, 64)`: the fields as the struct lays them out.
unfoldable pub memcpy_dentry : Bytes → Dentry
memcpy_dentry dir = record {
  filename = dir;
  file_type = word (shift dir 32);
  inode_num = word (shift dir 36);
  reserved = shift dir 40;
}

-- `copy_dentry`: the two words are read through a `uint8_t *`, so one byte of each.
unfoldable pub copy_dentry : Bytes → Dentry
copy_dentry dir = record {
  filename = dir;
  file_type = dir 32;
  inode_num = dir 36;
  reserved = shift dir 40;
}

-- The directory entry at `index`.
abbrev pub entry : Bytes → ℕ → Bytes
entry fs index i = fs (u32 (size_stat_dirs + size_stat_dirs * index + i))

unfoldable pub copy_boot_block : Bytes → BootBlock
copy_boot_block fs = record {
  num_dir_entries = word fs;
  num_inodes = word (shift fs 4);
  num_data_blocks = word (shift fs 8);
}

-- The loop over the entries, with `k` of them left. (The result of `strncmp` goes through a `char`:
-- it lies between -255 and 255, so it is 0 only if it was.)
unfoldable pub name_loop : ℕ → ℕ → Bytes → Bytes → Option Lookup
name_loop zero n fs fname = some missing
name_loop (suc k) n fs fname =
    let rest = name_loop k (n + 1) fs fname in
    elim (strlen fname) [
      | none ↦ none
      | some len ↦
          if is_zero (strncmp (entry fs n) fname len)
          then some (found (memcpy_dentry (entry fs n)))
          else rest
    ]

-- `fname` may be NULL. The number of entries is read through a `uint8_t *`: one byte.
unfoldable pub read_dentry_by_name : Bytes → Option Bytes → Option Lookup
unfolding name_loop memcpy_dentry
read_dentry_by_name fs none = some missing
read_dentry_by_name fs (some fname) =
    if fname 0 == 0 then some missing else name_loop (fs 0) 0 fs fname

unfoldable pub read_dentry_by_index : Bytes → ℕ → Lookup
unfolding copy_dentry
read_dentry_by_index fs index =
    if leb (word fs) index then missing else found (copy_dentry (entry fs index))

-- Where the inode starts.
abbrev pub inode_at : ℕ → ℕ
inode_at inode = u32 (block_size + inode * block_size)

abbrev pub word_at : Bytes → ℕ → ℕ
word_at fs at = word (λ i. fs (u32 (at + i)))

-- The length of the file, the inode's first word.
abbrev pub length_in_bytes : Bytes → ℕ → ℕ
length_in_bytes fs inode = word_at fs (inode_at inode)

-- Where data block `block` starts.
abbrev pub block_at : Bytes → ℕ → ℕ
block_at fs block = u32 (block_size + word_at fs 4 * block_size + block * block_size)

-- The variables of the copy loop of `read_data`.
pub record Cursor : Type 0 where
  pub data_block_ptr : ℕ
  pub block_addr : ℕ
  pub block_size_counter : ℕ

-- `if(block_size_counter == 0)`: go on to the next data block.
pub refill : Bytes → Cursor → Cursor
refill fs c =
    if c.block_size_counter == 0
    then (record {
      data_block_ptr = u32 (c.data_block_ptr + 4);
      block_addr = block_at fs (word_at fs (u32 (c.data_block_ptr + 4)));
      block_size_counter = block_size;
    })
    else c

-- `block_size_counter--; i++, block_addr++`
pub advance : Cursor → Cursor
advance c = record c {
  block_addr = u32 (c.block_addr + 1);
  block_size_counter = c.block_size_counter - 1;
}

-- The copy loop with `k` bytes left, the next of them for `buf[i]`.
pub data_loop : ℕ → Bytes → Cursor → ℕ → Bytes → Bytes
data_loop zero fs c i buf = buf
data_loop (suc k) fs c i buf =
    data_loop k fs (advance (refill fs c)) (i + 1) (store buf i (fs (refill fs c).block_addr))

-- How many bytes a read asks for, once it is cut to the end of the file.
pub clip : ℕ → ℕ → ℕ → ℕ
clip file_length offset length =
    if leb file_length (u32 (length + offset)) then u32 (file_length + u32_mod - offset) else length

-- The loop's variables before the first round.
pub start : Bytes → ℕ → ℕ → Cursor
start fs inode offset =
    let ptr = u32 (inode_at inode + 4 * (offset / block_size + 1)) in
    record {
      data_block_ptr = ptr;
      block_addr = u32 (block_at fs (word_at fs ptr) + offset % block_size);
      block_size_counter = block_size - offset % block_size;
    }

-- The count returned, and the buffer.
unfoldable pub read_data : Bytes → ℕ → ℕ → Bytes → ℕ → ℤ × Bytes
unfolding clip start data_loop advance refill
read_data fs inode offset buf length =
    if length_in_bytes fs inode == 0
    then (minus_one, buf)
    else (let n = clip (length_in_bytes fs inode) offset length in
        (s32 n, data_loop n fs (start fs inode offset) 0 buf))

-- The length of the file of the entry at `index`.
unfoldable pub get_num_bytes : Bytes → ℕ → ℕ
get_num_bytes fs index =
    length_in_bytes fs (word_at fs (u32 (size_stat_dirs + size_stat_dirs * index + 36)))

-- `file_read` of an open file with inode `info` and position `file_pos`: the count returned, the
-- buffer, and the new position.
unfoldable pub file_read : Bytes → ℕ → ℕ → Option Bytes → ℕ → ℤ × Option Bytes × ℕ
file_read fs info file_pos none nbytes = (pos 0, none, file_pos)
file_read fs info file_pos (some buf) nbytes =
    let (bytes_read, out) = read_data fs info file_pos (fill buf 0 0 nbytes) nbytes in
    elim bytes_read [
      | pos n ↦
          if ltb 0 n then (pos n, some out, u32 (file_pos + n)) else (pos 0, some out, file_pos)
      | negsuc n ↦ (pos 0, some out, file_pos)
    ]

-- A `dentry_t` on the stack, as the bytes from its start on. `stack` is what lies behind it.
unfoldable pub dentry_bytes : Dentry → Bytes → Bytes
dentry_bytes d stack i =
    if ltb i 32
    then d.filename i
    else if ltb i 36
    then d.file_type / 256 ^ (i - 32) % 256
    else if ltb i 40
    then d.inode_num / 256 ^ (i - 36) % 256
    else if ltb i 64
    then d.reserved (i - 40)
    else stack i

-- What `dir_read` returns: the count, the buffer, and the new `directoryIndex`.
abbrev pub Listed : Type 0
Listed = ℤ × Bytes × ℕ

-- `dir_read` reads the entry at the static `directoryIndex`, whatever descriptor and count it is
-- given.
unfoldable pub dir_read : Bytes → Bytes → ℕ → Bytes → Option Listed
unfolding read_dentry_by_index dentry_bytes
dir_read fs stack directory_index buf = elim (read_dentry_by_index fs directory_index) [
  | missing ↦ some (pos 0, buf, 0)
  | found d ↦ elim (strlen (dentry_bytes d stack)) [
    | none ↦ none
    | some len ↦
        let name = if ltb size_buff len then size_buff else len in
        some (
          pos name,
          strncpy (fill buf 0 0 (size_buff + 1)) (dentry_bytes d stack) name,
          u32 (directory_index + 1),
        )
  ]
]

-- The operations that do nothing but return.
unfoldable pub dir_open : ℤ
dir_open = pos 0

unfoldable pub dir_close : ℤ
dir_close = pos 0

unfoldable pub dir_write : ℤ
dir_write = minus_one

unfoldable pub file_open : ℤ
file_open = pos 0

unfoldable pub file_close : ℤ
file_close = pos 0

unfoldable pub file_write : ℤ
file_write = minus_one
