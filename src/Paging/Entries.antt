-- ===== src/Paging/Entries.antt =====
-- The entries that student-distrib/paging_handler.c writes, as numbers.
use ece_391_linux_kernel_cla.Prelude.{
  ℕ, zero, suc, ◌+◌, ◌-◌, ◌*◌, ◌/◌, ◌^◌, ◌≤◌, ◌<◌, ◌≡◌, refl, ◌∙◌, Bool, true, ◌&&◌, ltb, leb, ◌==◌,
  ==_iff, if◌then◌else◌, u32, u32_mod, bit_and, bit_and-high, bit_and-ones, bit_or-low,
  bit_or-three, all_below, all_below_sound, arith,
}
use ece_391_linux_kernel_cla.Paging.{
  Tables, put, fourkb_page_mask, table_vector, blank_table, blank_directory, present, table_entry,
  image_vector, enable_paging, video_idx, four_mb, eight_mb,
}

-- Bits below a page boundary are set by addition.
pub table_entry-page :
    (address bits : ℕ)
    → address < u32_mod
    → bits < 4096
    → table_entry address bits ≡ address / 4096 * 4096 + bits
unfolding table_entry
table_entry-page address bits h k =
    let masked : bit_and address fourkb_page_mask ≡ address / 4096 * 4096 =
      bit_and-high 12 (2 ^ 20 - 1) address ∙ omega (arith, bit_and-ones 20 (address / 2 ^ 12)) in
    rw masked (bit_or-low 12 (address / 4096) bits k)

pub table_vector-page : (i : ℕ) → i < 1024 → table_vector i ≡ i * 4096 + 2
unfolding table_vector
table_vector-page i h =
    let small : u32 (i * 4096) ≡ i * 4096 = omega arith in
    let masked : bit_and (i * 4096) fourkb_page_mask ≡ i * 4096 =
      bit_and-high 12 (2 ^ 20 - 1) (i * 4096)
      ∙ omega (arith, bit_and-ones 20 (i * 4096 / 2 ^ 12)) in
    rw (small, masked) (bit_or-low 12 i 2 (omega arith))

image : ℕ → Bool
image n = image_vector n == eight_mb + n * four_mb + 0x87

image_table : all_below 8 image ≡ true
unfolding all_below image image_vector
image_table = refl

pub image_vector-page : (n : ℕ) → n ≤ 7 → image_vector n ≡ eight_mb + n * four_mb + 0x87
unfolding image
image_vector-page n h = (==_iff _ _).0 (all_below_sound 8 image image_table n (omega arith))

pub blank_directory-all :
    (k i : ℕ) (entries : ℕ → ℕ) (j : ℕ)
    → blank_directory k i entries j ≡ (if leb i j && ltb j (i + k) then 2 else entries j)
unfolding blank_directory
blank_directory-all zero i entries j = ground arith
blank_directory-all (suc k) i entries j =
    ground (arith, blank_directory-all k (i + 1) (put entries i 2) j)

pub blank_table-all :
    (k i : ℕ) (entries : ℕ → ℕ) (j : ℕ)
    → blank_table k i entries j ≡ (if leb i j && ltb j (i + k) then table_vector j else entries j)
unfolding blank_table
blank_table-all zero i entries j = ground arith
blank_table-all (suc k) i entries j =
    ground (arith, blank_table-all k (i + 1) (put entries i (table_vector i)) j)

-- The pages of text-mode video memory.
abbrev pub is_video : ℕ → Bool
is_video i = leb video_idx i && ltb i (video_idx + 4)

pub present-page :
    (i : ℕ) (entries : ℕ → ℕ) (j : ℕ)
    → entries i ≡ i * 4096 + 2
    → present i entries j ≡ (if j == i then i * 4096 + 3 else entries j)
unfolding present
present-page i entries j e = ground (arith, bit_or-three (entries i))

-- The rows of the first table, with the first `n` pages of video memory present.
rows : (ℕ → ℕ) → ℕ → ℕ → ℕ
rows entries zero = blank_table 1024 0 entries
rows entries (suc n) = present (video_idx + n) (rows entries n)

rows-page :
    (entries : ℕ → ℕ) (n i : ℕ)
    → n ≤ 4
    → i < 1024
    → rows entries n i
      ≡ (if leb video_idx i && ltb i (video_idx + n) then i * 4096 + 3 else i * 4096 + 2)
unfolding rows
rows-page entries zero i h lt =
    ground (arith, blank_table-all 1024 0 entries i, table_vector-page i lt)
rows-page entries (suc n) i h lt = ground (
  arith,
  rows-page entries n i (omega arith) lt,
  present-page (video_idx + n) (rows entries n) i
      (rows-page entries n (video_idx + n) (omega arith) (omega arith) ∙ ground arith),
)

module _ (page_table : ℕ) (t : Tables) where
  pub enable_paging-table :
      (i : ℕ)
      → i < 1024
      → (enable_paging page_table t).table i ≡ (if is_video i then i * 4096 + 3 else i * 4096 + 2)
  unfolding enable_paging rows
  enable_paging-table i h = rows-page t.table 4 i (omega arith) h

  pub enable_paging-directory :
      (i : ℕ)
      → i < 1024
      → page_table < u32_mod
      → (enable_paging page_table t).directory i
        ≡ (if i == 1 then 0x00400083 else if i == 0 then page_table / 4096 * 4096 + 3 else 2)
  unfolding enable_paging
  enable_paging-directory i h k =
      ground (arith, blank_directory-all 1024 0 t.directory i, table_entry-page page_table 3 k)
