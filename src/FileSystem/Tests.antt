-- ===== src/FileSystem/Tests.antt =====
-- Uses of the theorems on the file system, on a disk with one file of five bytes.
use ece_391_linux_kernel_cla.Prelude.{
  ℕ, ◌+◌, ◌-◌, ◌≤◌, ◌≡◌, refl, min, some, pos, Bytes, word, arith,
}
use ece_391_linux_kernel_cla.Clib.Memory.{fill}
use ece_391_linux_kernel_cla.FileSystem.{Lookup, file_read, read_dentry_by_name, length_in_bytes}
use ece_391_linux_kernel_cla.FileSystem.Reading.{transferred, file_read-content}
use ece_391_linux_kernel_cla.FileSystem.Names.{FoundFrom, read_dentry_by_name-FoundFrom}
use ece_391_linux_kernel_cla.Samples.{
  disk, disk-AreBytes, frame0, frame0-AreBytes, frame0-IsString, zeros,
}

five : length_in_bytes disk 1 ≡ 5
unfolding word
five = refl

file_read-content_example :
    (out : Bytes) × (file_read disk 1 2 (some zeros) 10 ≡ (
      pos (min 10 (length_in_bytes disk 1 - 2)),
      some out,
      2 + min 10 (length_in_bytes disk 1 - 2),
    ))
    × ((j : ℕ)
        → out j ≡ transferred disk 1 2 (min 10 (length_in_bytes disk 1 - 2)) (fill zeros 0 0 10) j)
    × (2 + min 10 (length_in_bytes disk 1 - 2) ≤ length_in_bytes disk 1)
file_read-content_example =
    file_read-content disk 1 2 zeros 10 (omega (arith, five)) (omega (arith, five)) (omega arith)

read_dentry_by_name-FoundFrom_example :
    (f : Lookup) × (read_dentry_by_name disk (some frame0) ≡ some f)
    × FoundFrom disk frame0 10 0 (disk 0) f
read_dentry_by_name-FoundFrom_example =
    read_dentry_by_name-FoundFrom disk frame0 10 disk-AreBytes frame0-AreBytes frame0-IsString
      (omega arith) (omega arith)

one_entry : word disk ≡ 1
unfolding word
one_entry = refl
