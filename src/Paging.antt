-- ===== src/Paging.antt =====
-- The page tables of student-distrib/paging_handler.c: the directory of process 0, the table of the
-- first 4 MB and the table for video memory. `page_table` and `v_m_page_table` are the addresses at
-- which the linker puts the two tables; the other seven directories are blanked and never used.
pub mod Entries
pub mod Translate
pub mod Reached
mod Tests
use ece_391_linux_kernel_cla.Prelude.{
  ℕ, zero, suc, ◌+◌, ◌*◌, Bool, ltb, ◌==◌, if◌then◌else◌, u32, bit_and, bit_or,
}

-- Entries by index. `loads` counts the writes to the control registers, which flush the processor's
-- copy of the tables.
pub record Tables : Type 0 where
  pub directory : ℕ → ℕ
  pub table : ℕ → ℕ
  pub video_table : ℕ → ℕ
  pub loads : ℕ

abbrev pub fourkb_page_mask : ℕ
fourkb_page_mask = 0xfffff000

abbrev pub fourmb_page_mask : ℕ
fourmb_page_mask = 0xffC00000

abbrev pub np_blank_vector : ℕ
np_blank_vector = 0x2

abbrev pub p_blank_vector : ℕ
p_blank_vector = 0x3

abbrev pub v_m_blank_vector : ℕ
v_m_blank_vector = 0x7

abbrev pub image_blank_vector : ℕ
image_blank_vector = 0x87

abbrev pub image_entry_idx : ℕ
image_entry_idx = 0x20

abbrev pub v_m_entry_idx : ℕ
v_m_entry_idx = 0x21

abbrev pub kernal_start_vector : ℕ
kernal_start_vector = 0x00400083

abbrev pub video : ℕ
video = 0xB8000

abbrev pub video_idx : ℕ
video_idx = 0xB8

abbrev pub four_mb : ℕ
four_mb = 4194304

abbrev pub eight_mb : ℕ
eight_mb = 8388608

-- `entries[i].vector = v`
abbrev pub put : (ℕ → ℕ) → ℕ → ℕ → ℕ → ℕ
put entries i v j = if j == i then v else entries j

-- With `init == 1` the registers are written twice: the second block follows the first.
pub set_control_registers : ℕ → Tables → Tables
set_control_registers init t = record t { loads = t.loads + (if init == 1 then 2 else 1) }

-- The loop that blanks a directory, with `k` entries left.
pub blank_directory : ℕ → ℕ → (ℕ → ℕ) → ℕ → ℕ
blank_directory zero pd_i entries = entries
blank_directory (suc k) pd_i entries =
    blank_directory k (pd_i + 1) (put entries pd_i np_blank_vector)

-- The entry for the page at `pt_i`.
pub table_vector : ℕ → ℕ
table_vector pt_i = bit_or (bit_and (u32 (pt_i * 4096)) fourkb_page_mask) np_blank_vector

-- The loop that fills the first table, with `k` entries left.
pub blank_table : ℕ → ℕ → (ℕ → ℕ) → ℕ → ℕ
unfolding table_vector
blank_table zero pt_i entries = entries
blank_table (suc k) pt_i entries = blank_table k (pt_i + 1) (put entries pt_i (table_vector pt_i))

-- `entries[i].vector |= P_BLANK_VECTOR`
pub present : ℕ → (ℕ → ℕ) → ℕ → ℕ
present i entries = put entries i (bit_or (entries i) p_blank_vector)

-- A directory entry for a page table at `address`.
pub table_entry : ℕ → ℕ → ℕ
table_entry address bits = bit_or (bit_and address fourkb_page_mask) bits

unfoldable pub enable_paging : ℕ → Tables → Tables
unfolding set_control_registers
enable_paging page_table t = set_control_registers 1 (record t {
  directory =
      put (put (blank_directory 1024 0 t.directory) 0 (table_entry page_table p_blank_vector)) 1
        kernal_start_vector;
  table = present (video_idx + 3) (
      present (video_idx + 2)
        (present (video_idx + 1) (present video_idx (blank_table 1024 0 t.table))));
})

-- The directory entry for the image of process `process_num`.
pub image_vector : ℕ → ℕ
image_vector process_num =
    bit_or (bit_and (u32 (eight_mb + process_num * four_mb)) fourmb_page_mask) image_blank_vector

-- A number above 7 prints a message and changes nothing.
unfoldable pub load_new_process : ℕ → Tables → Tables
unfolding set_control_registers
load_new_process process_num t =
    if ltb 7 process_num
    then t
    else set_control_registers 0
        (record t { directory = put t.directory image_entry_idx (image_vector process_num) })

unfoldable pub load_video_mem : ℕ → ℕ → Tables → Tables
unfolding set_control_registers
load_video_mem v_m_page_table terminal_num t = set_control_registers 0 (record t {
  video_table = put t.video_table 0 (bit_or video v_m_blank_vector);
  directory =
      put t.directory (u32 (v_m_entry_idx + terminal_num))
        (table_entry v_m_page_table v_m_blank_vector);
})
