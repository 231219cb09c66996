-- ===== src/FileSystem/Listing.antt =====
-- `dir_read` of student-distrib/filesysobjs.c: one name for each call, then 0.
use ece_391_linux_kernel_cla.Prelude.{
  ℕ, zero, suc, ◌+◌, ◌*◌, ◌≤◌, ◌<◌, ◌≡◌, ◌≢◌, ◌∙◌, some, pos, Bytes, AreBytes, IsString, u32, word,
  word-lt, ltb, if◌then◌else◌, arith, ℕ_discrete,
}
use ece_391_linux_kernel_cla.Clib.{strncpy}
use ece_391_linux_kernel_cla.Clib.Memory.{fill}
use ece_391_linux_kernel_cla.Clib.Strings.{strlen-IsString}
use ece_391_linux_kernel_cla.Clib.Copies.{strncpy-padded}
use ece_391_linux_kernel_cla.FileSystem.{
  copy_dentry, entry, read_dentry_by_index, dentry_bytes, dir_read, size_buff,
}

-- The first NUL of a view that has one at `i + k`.
first_nul :
    (k i : ℕ) (p : Bytes)
    → p (i + k) ≡ 0
    → ((l : ℕ) → l < i → p l ≢ 0)
    → (n : ℕ) × (n ≤ i + k) × IsString p n
first_nul zero i p e live =
    (i, omega arith, record { body = live; stop = let z : i + 0 ≡ i = omega arith in rw z at e })
first_nul (suc k) i p e live = elim (ℕ_discrete (p i) 0) [
  | yes z ↦ (i, omega arith, record { body = live; stop = z })
  | no z ↦
      let shifted : i + 1 + k ≡ i + suc k = omega arith in
      let ih =
        first_nul k (i + 1) p (rw shifted e)
          (λ l lt. elim (ℕ_discrete l i) [ yes q ↦ rw q z | no q ↦ live l (omega arith) ]) in
      (ih.0, omega (arith, ih.1), ih.2)
]

-- `n` is the number of bytes of the entry's name: those before the first NUL, or all 32.
pub record IsName (p : Bytes) (n : ℕ) : Type 0 where
  pub body : (i : ℕ) → i < n → p i ≢ 0
  pub stop : n < size_buff → p n ≡ 0
  pub fits : n ≤ size_buff

module _ (fs stack : Bytes) (bs : AreBytes fs) (index : ℕ) where
  abbrev local : Bytes
  local = dentry_bytes (copy_dentry (entry fs index)) stack

  local-name : (j : ℕ) → j < size_buff → local j ≡ entry fs index j
  unfolding dentry_bytes copy_dentry
  local-name j h = ground arith

  local-stop : local 33 ≡ 0
  unfolding dentry_bytes copy_dentry
  local-stop = omega (arith, bs (u32 (64 + 64 * index + 32)))

  -- While the index is below the boot block's count, `dir_read` returns the number of bytes of the
  -- name of the entry at the index (at most 32, also if the name fills its field and has no NUL),
  -- those bytes, behind them zeros up to the 33rd cell of the buffer and nothing further, and the
  -- next index.
  pub dir_read-entry :
      (buf : Bytes)
      → index < word fs
      → (n : ℕ) × (out : Bytes) × (dir_read fs stack index buf ≡ some (pos n, out, index + 1))
        × IsName (entry fs index) n
        × ((j : ℕ) → out j ≡ (if ltb j n then entry fs index j else if ltb j 33 then 0 else buf j))
  unfolding dir_read read_dentry_by_index
  dir_read-entry buf h =
      let (len, le, string) = first_nul 33 0 local local-stop (λ l lt. absurd (omega arith)) in
      let n = if ltb size_buff len then size_buff else len in
      (
        n,
        strncpy (fill buf 0 0 (size_buff + 1)) local n,
        ground (arith, strlen-IsString local len string (omega arith), word-lt fs bs),
        record {
          body = λ i lt e. string.body i (ground arith) (local-name i (ground arith) ∙ e);
          stop = λ lt. ground (arith, string.stop, local-name len);
          fits = ground arith;
        },
        λ j.
            strncpy-padded (fill buf 0 0 (size_buff + 1)) local len n j string
            ∙ ground (arith, local-name j),
      )
