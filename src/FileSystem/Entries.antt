-- ===== src/FileSystem/Entries.antt =====
-- The two ways in which student-distrib/filesysobjs.c reads a directory entry.
use ece_391_linux_kernel_cla.Prelude.{
  ℕ, ◌+◌, ◌*◌, ◌%◌, ◌<◌, ◌≡◌, refl, ap, Bytes, AreBytes, shift, word, u32, arith,
}
use ece_391_linux_kernel_cla.FileSystem.{
  memcpy_dentry, copy_dentry, entry, get_num_bytes, length_in_bytes, size_stat_dirs, word_at,
}

-- `copy_dentry` copies the name and the reserved bytes as `memcpy` does, but of the file type and of
-- the inode number it keeps the low byte only.
pub copy_dentry-memcpy_dentry :
    (dir : Bytes)
    → AreBytes dir
    → ((copy_dentry dir).file_type ≡ (memcpy_dentry dir).file_type % 256)
      × ((copy_dentry dir).inode_num ≡ (memcpy_dentry dir).inode_num % 256)
      × ((copy_dentry dir).filename ≡ (memcpy_dentry dir).filename)
      × ((copy_dentry dir).reserved ≡ (memcpy_dentry dir).reserved)
unfolding copy_dentry memcpy_dentry word
copy_dentry-memcpy_dentry dir b = (omega (arith, b 32), omega (arith, b 36), refl, refl)

word_at-entry :
    (fs : Bytes) (index : ℕ)
    → word_at fs (u32 (size_stat_dirs + size_stat_dirs * index + 36))
      ≡ word (shift (entry fs index) 36)
unfolding word
word_at-entry fs index = ground (
  arith,
  ap fs (offset 0 (omega arith)),
  ap fs (offset 1 (omega arith)),
  ap fs (offset 2 (omega arith)),
  ap fs (offset 3 (omega arith)),
)
  where
    offset :
        (i : ℕ)
        → i < 4
        → u32 (u32 (size_stat_dirs + size_stat_dirs * index + 36) + i)
          ≡ u32 (size_stat_dirs + size_stat_dirs * index + (36 + i))
    offset i h = omega arith

-- The length that `get_num_bytes` reports for an index is that of the inode which `memcpy` of the
-- entry at that index gives.
pub get_num_bytes-entry :
    (fs : Bytes) (index : ℕ)
    → get_num_bytes fs index ≡ length_in_bytes fs (memcpy_dentry (entry fs index)).inode_num
unfolding get_num_bytes memcpy_dentry
get_num_bytes-entry fs index = ap (length_in_bytes fs) (word_at-entry fs index)
