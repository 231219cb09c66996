-- ===== src/Syscalls/Switch/Limits.antt =====
-- What `calc_processes` and `vidmap` of student-distrib/syscalls.c amount to.
use ece_391_linux_kernel_cla.Prelude.{
  ℕ, zero, suc, ◌+◌, ◌/◌, ◌%◌, ◌≤◌, ◌<◌, ◌≡◌, true, some, pos, u32, u32_mod, bit_and, bit_and-ones,
  ◌==◌, if◌then◌else◌, arith,
}
use ece_391_linux_kernel_cla.Paging.{load_video_mem, video}
use ece_391_linux_kernel_cla.Paging.Reached.{Reached, mapped, translate-Reached, load_video_mem-odd}
use ece_391_linux_kernel_cla.Paging.Translate.{translate, IsPlaced}
use ece_391_linux_kernel_cla.Syscalls.{Kernel}
use ece_391_linux_kernel_cla.Syscalls.Slots.{taken}
use ece_391_linux_kernel_cla.Syscalls.Switch.{
  calc_loop, calc_processes, vidmap, one_twenty_eight_mb, one_thirty_two_mb,
}

calc_loop-taken :
    (n processes count : ℕ)
    → count < u32_mod
    → calc_loop n processes count ≡ u32 (count + (if taken 0 processes then n else 0))
unfolding calc_loop
calc_loop-taken zero processes count h = ground arith
calc_loop-taken (suc n) processes count h =
    let small : bit_and processes 1 ≤ 1 = let e = bit_and-ones 1 processes in omega (arith, e) in
    ground (
      arith,
      calc_loop-taken n processes (u32 (count + 1)) (omega arith),
      calc_loop-taken n processes count h,
    )

-- `calc_processes` does not count the processes: it adds 6 to what its counter was before, modulo
-- 2^32, if slot 0 is taken, and nothing otherwise, whatever the other slots hold.
pub calc_processes-taken :
    (garbage processes : ℕ)
    → garbage < u32_mod
    → calc_processes garbage processes ≡ u32 (garbage + (if taken 0 processes then 6 else 0))
unfolding calc_processes
calc_processes-taken garbage processes h = calc_loop-taken 6 processes garbage h

-- `vidmap` of a place within the image, in a process whose image the tables show, stores the
-- address of the page for video memory there and returns it. At user level the 4 KB from that
-- address on are then those of the text-mode screen, and every other address leads where it led
-- before. The two page tables stand on pages of their own, and the tables are those that
-- `enable_paging`, with the entries of the table for video memory but the first not present, and
-- then any calls of `load_new_process` with a number up to 7 and of `load_video_mem(0)` have left.
pub vidmap-translate :
    (page_table v_m_page_table n screen_start : ℕ) (k : Kernel)
    → IsPlaced page_table v_m_page_table
    → Reached page_table v_m_page_table n k.tables
    → one_twenty_eight_mb ≤ screen_start
    → screen_start < one_thirty_two_mb
    → (k' : Kernel) × (vidmap v_m_page_table screen_start k
        ≡ (pos one_thirty_two_mb, some one_thirty_two_mb, k'))
      × ((va : ℕ)
          → va < u32_mod
          → translate page_table v_m_page_table true k'.tables va ≡ (
              if va / 4096 == one_thirty_two_mb / 4096
              then some (video + va % 4096)
              else translate page_table v_m_page_table true k.tables va))
unfolding vidmap
vidmap-translate page_table v_m_page_table n screen_start k p r lo hi =
    let t = load_video_mem v_m_page_table 0 (k.tables) in
    (
      record k { tables = t },
      ground (arith, lo, hi),
      λ va l.
          let now = translate-Reached page_table v_m_page_table p n va t (mapped r) l in
          let before = translate-Reached page_table v_m_page_table p n va (k.tables) r l in
          ground (arith, now, before, load_video_mem-odd page_table v_m_page_table p (k.tables)),
    )
