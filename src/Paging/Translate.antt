-- ===== src/Paging/Translate.antt =====
-- What the processor makes of the tables of student-distrib/paging_handler.c: the translation of an
-- address by a directory entry (a 4 MB page, or a table of 4 KB pages), as the IA-32 manual has it.
use ece_391_linux_kernel_cla.Prelude.{
  ℕ, ◌+◌, ◌*◌, ◌/◌, ◌%◌, ◌≤◌, ◌<◌, ◌≡◌, ◌≢◌, Bool, true, false, ◌&&◌, ◌||◌, not, ◌==◌,
  if◌then◌else◌, Option, none, some, u32_mod, arith,
}
use ece_391_linux_kernel_cla.Paging.{Tables, eight_mb, four_mb, enable_paging, load_new_process}
use ece_391_linux_kernel_cla.Paging.Entries.{
  image_vector-page, enable_paging-table, enable_paging-directory, is_video,
}

-- Who asks: code at user level is held to entries with the user bit.
abbrev allows : Bool → ℕ → Bool
allows user entry = (entry % 2 == 1) && (not user || (entry / 4 % 2 == 1))

-- The page of a table entry.
abbrev small_page : Bool → ℕ → ℕ → Option ℕ
small_page user pte va = if allows user pte then some (pte / 4096 * 4096 + va % 4096) else none

-- The physical address of `va`, or `none` for a page fault. `page_table` and `v_m_page_table` are
-- the addresses of the two tables; an entry that points elsewhere counts as a fault.
unfoldable pub translate : ℕ → ℕ → Bool → Tables → ℕ → Option ℕ
translate page_table v_m_page_table user t va =
    let pde = t.directory (va / four_mb) in
    if not (allows user pde)
    then none
    else if pde / 128 % 2 == 1
    then some (pde / four_mb * four_mb + va % four_mb)
    else if pde / 4096 * 4096 == page_table
    then small_page user (t.table (va / 4096 % 1024)) va
    else if pde / 4096 * 4096 == v_m_page_table
    then small_page user (t.video_table (va / 4096 % 1024)) va
    else none

-- Where the image of the running process and the page for video memory appear.
abbrev pub image_start : ℕ
image_start = 134217728

abbrev pub video_start : ℕ
video_start = 138412032

-- The two tables stand on pages of their own.
pub record IsPlaced (page_table v_m_page_table : ℕ) : Type 0 where
  pub first_page : page_table % 4096 ≡ 0
  pub second_page : v_m_page_table % 4096 ≡ 0
  pub first_fits : page_table < u32_mod
  pub second_fits : v_m_page_table < u32_mod
  pub apart : page_table ≢ v_m_page_table

-- What the directory holds once the image of process `n` is loaded.
abbrev pub loaded : ℕ → ℕ → ℕ → ℕ
loaded page_table n i =
    if i == 32
    then eight_mb + n * four_mb + 0x87
    else if i == 1
    then 0x00400083
    else if i == 0
    then page_table / 4096 * 4096 + 3
    else 2

module _ (page_table v_m_page_table : ℕ) (p : IsPlaced page_table v_m_page_table) (t : Tables) where
  -- The tables as `entry` and `execute` of process `n` leave them.
  abbrev running : ℕ → Tables
  running n = load_new_process n (enable_paging page_table t)

  directory-running : (n i : ℕ) → n ≤ 7 → i < 1024 → (running n).directory i ≡ loaded page_table n i
  unfolding load_new_process
  directory-running n i h k =
      ground (arith, image_vector-page n h, enable_paging-directory page_table t i k p.first_fits)

  table-running :
      (n i : ℕ)
      → i < 1024
      → (running n).table i ≡ (if is_video i then i * 4096 + 3 else i * 4096 + 2)
  unfolding load_new_process
  table-running n i k = ground (arith, enable_paging-table page_table t i k)

  -- After `enable_paging` and `load_new_process(n)`, `n` at most 7, the kernel sees text-mode
  -- video memory and its own 4 MB page at their physical addresses, the image of process `n` at
  -- 128 MB, and nothing else: any other address faults.
  pub translate-kernel :
      (n va : ℕ)
      → n ≤ 7
      → va < u32_mod
      → translate page_table v_m_page_table false (running n) va ≡ (
          if is_video (va / 4096) || (va / four_mb == 1)
          then some va
          else if va / four_mb == 32
          then some (eight_mb + n * four_mb + va % four_mb)
          else none)
  unfolding translate
  translate-kernel n va h k = ground (
    arith,
    directory-running n (va / four_mb) h (omega arith),
    table-running n (va / 4096 % 1024) (omega arith),
    p.first_page,
  )

  -- After `enable_paging` and `load_new_process(n)`, `n` at most 7, code at user level sees the 4
  -- MB of the image of process `n` at 128 MB, and nothing else: every other address faults.
  pub translate-user :
      (n va : ℕ)
      → n ≤ 7
      → va < u32_mod
      → translate page_table v_m_page_table true (running n) va
        ≡ (if va / four_mb == 32 then some (eight_mb + n * four_mb + va % four_mb) else none)
  unfolding translate
  translate-user n va h k = ground (arith, directory-running n (va / four_mb) h (omega arith))
