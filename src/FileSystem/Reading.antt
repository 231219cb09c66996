-- ===== src/FileSystem/Reading.antt =====
-- `read_data` and `file_read` of student-distrib/filesysobjs.c against the content of the file.
use ece_391_linux_kernel_cla.Prelude.{
  ℕ, ◌+◌, ◌-◌, ◌≤◌, ◌<◌, ◌≡◌, min, some, pos, Bytes, u32_mod, ltb, if◌then◌else◌, s32, arith,
  minus_one, ℕ_discrete,
}
use ece_391_linux_kernel_cla.Clib.Memory.{fill}
use ece_391_linux_kernel_cla.FileSystem.{length_in_bytes, clip, read_data, file_read}
use ece_391_linux_kernel_cla.FileSystem.Blocks.{content, data_loop-start}

clip-min :
    (len offset length : ℕ)
    → offset ≤ len
    → len < u32_mod
    → length + offset < u32_mod
    → clip len offset length ≡ min length (len - offset)
unfolding clip
clip-min len offset length h k l = ground arith

-- What a transfer of `n` bytes from position `offset` on leaves at `j`.
abbrev pub transferred : Bytes → ℕ → ℕ → ℕ → Bytes → ℕ → ℕ
transferred fs inode offset n buf j = if ltb j n then content fs inode (offset + j) else buf j

-- A read at an offset inside a file that is not empty and shorter than 2^31, with a count that
-- does not wrap, returns the smaller of the count and of what is left of the file, puts that many
-- bytes of the file from `offset` on into the buffer, across block boundaries, and writes nothing
-- behind them.
pub read_data-content :
    (fs : Bytes) (inode offset : ℕ) (buf : Bytes) (length : ℕ)
    → 0 < length_in_bytes fs inode
    → length_in_bytes fs inode < 2147483648
    → offset ≤ length_in_bytes fs inode
    → length + offset < u32_mod
    → let n = min length (length_in_bytes fs inode - offset) in
      ((read_data fs inode offset buf length).0 ≡ pos n)
      × ((j : ℕ) → (read_data fs inode offset buf length).1 j ≡ transferred fs inode offset n buf j)
unfolding read_data s32
read_data-content fs inode offset buf length h k l m =
    let c = clip-min (length_in_bytes fs inode) offset length l (omega arith) m in
    (
      ground (arith, c),
      λ j. ground (
        arith,
        c,
        data_loop-start (clip (length_in_bytes fs inode) offset length) fs inode offset buf j,
      ),
    )

pub read_data-empty :
    (fs : Bytes) (inode offset : ℕ) (buf : Bytes) (length : ℕ)
    → length_in_bytes fs inode ≡ 0
    → read_data fs inode offset buf length ≡ (minus_one, buf)
unfolding read_data
read_data-empty fs inode offset buf length e = ground arith

-- For a file shorter than 2^31 bytes, at a position inside it, and a count that does not wrap,
-- `file_read` returns the number of bytes up to the end of the file or the count asked for,
-- whichever is smaller, so 0 at the end and for an empty file. It delivers the file's bytes from
-- the position on, zeros the rest of the `nbytes` cells and writes no other, and moves the
-- position by the count, so that the position stays inside the file.
pub file_read-content :
    (fs : Bytes) (inode at : ℕ) (buf : Bytes) (nbytes : ℕ)
    → length_in_bytes fs inode < 2147483648
    → at ≤ length_in_bytes fs inode
    → nbytes + at < u32_mod
    → let len = length_in_bytes fs inode in
      let n = min nbytes (len - at) in
      (out : Bytes) × (file_read fs inode at (some buf) nbytes ≡ (pos n, some out, at + n))
      × ((j : ℕ) → out j ≡ transferred fs inode at n (fill buf 0 0 nbytes) j)
      × (at + n ≤ len)
unfolding file_read
file_read-content fs inode at buf nbytes k l m = elim (ℕ_discrete (length_in_bytes fs inode) 0) [
  | yes e ↦ (
    fill buf 0 0 nbytes,
    ground (arith, read_data-empty fs inode at (fill buf 0 0 nbytes) nbytes e),
    λ j. ground arith,
    omega arith,
  )
  | no p ↦
      let r = read_data-content fs inode at (fill buf 0 0 nbytes) nbytes (omega arith) k l m in
      (
        (read_data fs inode at (fill buf 0 0 nbytes) nbytes).1,
        ground (arith, r.0),
        r.1,
        omega arith,
      )
]
