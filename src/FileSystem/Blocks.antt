-- ===== src/FileSystem/Blocks.antt =====
-- Where the bytes of a file stand, and that the copy loop of `read_data` walks along them.
use ece_391_linux_kernel_cla.Prelude.{
  ℕ, zero, suc, ◌+◌, ◌-◌, ◌*◌, ◌/◌, ◌%◌, ◌<◌, ◌≡◌, ap, ◌∙◌, ◌&&◌, Bytes, store, u32, ltb, leb,
  if◌then◌else◌, arith, sym, dec_lt, ℕ_discrete,
}
use ece_391_linux_kernel_cla.FileSystem.{
  block_size, inode_at, word_at, block_at, Cursor, refill, advance, data_loop, start,
}

-- Where the inode keeps the number of its data block `q`.
abbrev pub slot : ℕ → ℕ → ℕ
slot inode q = u32 (inode_at inode + 4 * (q + 1))

-- The byte of the file at position `k`: the byte at `k % 4096` of data block `k / 4096`.
unfoldable pub content : Bytes → ℕ → ℕ → ℕ
content fs inode k =
    fs (u32 (block_at fs (word_at fs (slot inode (k / block_size))) + k % block_size))

-- Once a used up block has been left, the loop is at byte `r` of the file's block `q`.
record IsAt (fs : Bytes) (inode q r : ℕ) (c : Cursor) : Type 0 where
  ptr : (refill fs c).data_block_ptr ≡ slot inode q
  addr : (refill fs c).block_addr ≡ u32 (block_at fs (word_at fs (slot inode q)) + r)
  counter : (refill fs c).block_size_counter ≡ block_size - r

start-IsAt :
    (fs : Bytes) (inode k : ℕ) → IsAt fs inode (k / block_size) (k % block_size) (start fs inode k)
unfolding start refill
start-IsAt fs inode k = record { ptr = ground arith; addr = ground arith; counter = ground arith }

module _ (fs : Bytes) (inode q r : ℕ) (d : Cursor) (ptr : d.data_block_ptr ≡ slot inode q) where
  same_block :
      d.block_addr ≡ u32 (block_at fs (word_at fs (slot inode q)) + r)
      → d.block_size_counter ≡ block_size - r
      → r + 1 < block_size
      → IsAt fs inode q (r + 1) (advance d)
  unfolding advance refill
  same_block a n h = record { ptr = ground arith; addr = ground arith; counter = ground arith }

  next_slot : u32 (d.data_block_ptr + 4) ≡ slot inode (q + 1)
  next_slot = omega arith

  next_block :
      d.block_size_counter ≡ block_size - r
      → r + 1 ≡ block_size
      → IsAt fs inode (q + 1) 0 (advance d)
  unfolding advance refill
  next_block n h = record {
    ptr = ground (arith, next_slot);
    addr = ground (arith, next_slot, ap (λ p. block_at fs (word_at fs p)) next_slot);
    counter = ground arith;
  }

content-split :
    (fs : Bytes) (inode k q r : ℕ)
    → k ≡ q * block_size + r
    → r < block_size
    → content fs inode k ≡ fs (u32 (block_at fs (word_at fs (slot inode q)) + r))
unfolding content
content-split fs inode k q r e h =
    let e1 : k / block_size ≡ q = omega arith in
    let e2 : k % block_size ≡ r = omega arith in rw (e1, e2)

-- A loop that has stored `bs k` at `i` and goes on with the next byte has stored all from `k` on.
pub stored_head :
    (bs buf : Bytes) (i j k n v : ℕ)
    → v ≡ bs k
    → (if leb (i + 1) j && ltb j (i + 1 + n) then bs (k + 1 + (j - (i + 1))) else store buf i v j)
      ≡ (if leb i j && ltb j (i + suc n) then bs (k + (j - i)) else buf j)
stored_head bs buf i j k n v e = elim (dec_lt i j) [
  | yes p ↦ let d : k + 1 + (j - (i + 1)) ≡ k + (j - i) = omega arith in rw d (ground arith)
  | no p ↦ elim (ℕ_discrete j i) [
    | yes q ↦ let d : k + (j - i) ≡ k = omega arith in rw d (ground arith)
    | no q ↦ ground arith
  ]
]

data_loop-content :
    (n : ℕ) (fs : Bytes) (inode k q r : ℕ) (c : Cursor) (i : ℕ) (buf : Bytes) (j : ℕ)
    → IsAt fs inode q r c
    → r < block_size
    → k ≡ q * block_size + r
    → data_loop n fs c i buf j
      ≡ (if leb i j && ltb j (i + n) then content fs inode (k + (j - i)) else buf j)
unfolding data_loop
data_loop-content zero fs inode k q r c i buf j at h e = ground arith
data_loop-content (suc n) fs inode k q r c i buf j at h e = elim (dec_lt (r + 1) block_size) [
  | yes p ↦
      data_loop-content n fs inode (k + 1) q (r + 1) (advance (refill fs c)) (i + 1) _ j
        (same_block fs inode q r (refill fs c) at.ptr at.addr at.counter p) p (omega arith)
      ∙ stored_head (content fs inode) buf i j k n _ here
  | no p ↦
      data_loop-content n fs inode (k + 1) (q + 1) 0 (advance (refill fs c)) (i + 1) _ j
        (next_block fs inode q r (refill fs c) at.ptr at.counter (omega arith)) (omega arith)
        (omega arith)
      ∙ stored_head (content fs inode) buf i j k n _ here
]
  where
    here : fs (refill fs c).block_addr ≡ content fs inode k
    here = rw at.addr (sym (content-split fs inode k q r e h))

-- The copy loop, started at `offset`, puts the file's bytes from there on into the first `n` cells
-- of the buffer, and writes no other cell.
pub data_loop-start :
    (n : ℕ) (fs : Bytes) (inode offset : ℕ) (buf : Bytes) (j : ℕ)
    → data_loop n fs (start fs inode offset) 0 buf j
      ≡ (if ltb j n then content fs inode (offset + j) else buf j)
data_loop-start n fs inode offset buf j =
    data_loop-content n fs inode offset (offset / block_size) (offset % block_size)
      (start fs inode offset) 0 buf j (start-IsAt fs inode offset) (omega arith) (omega arith)
    ∙ ground arith
