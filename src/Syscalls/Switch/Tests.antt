-- ===== src/Syscalls/Switch/Tests.antt =====
-- From terminal 0 to terminal 1 and back, and video memory for the process in slot 0.
use ece_391_linux_kernel_cla.Prelude.{
  ℕ, ◌/◌, ◌<◌, ◌%◌, ◌+◌, ◌≡◌, ◌==◌, if◌then◌else◌, refl, true, some, pos, u32_mod, arith,
}
use ece_391_linux_kernel_cla.Io.{Device}
use ece_391_linux_kernel_cla.Paging.{Tables, enable_paging, load_new_process, load_video_mem, video}
use ece_391_linux_kernel_cla.Paging.Reached.{Reached, booted, mapped}
use ece_391_linux_kernel_cla.Paging.Translate.{IsPlaced, translate}
use ece_391_linux_kernel_cla.Samples.{zeros}
use ece_391_linux_kernel_cla.Samples.Shell.{frame, busy_kernel}
use ece_391_linux_kernel_cla.Syscalls.{Kernel}
use ece_391_linux_kernel_cla.Syscalls.Execute.{resumed}
use ece_391_linux_kernel_cla.Syscalls.Switch.{switch_to_other_term, vidmap, one_thirty_two_mb}
use ece_391_linux_kernel_cla.Syscalls.Switch.Limits.{vidmap-translate}
use ece_391_linux_kernel_cla.Syscalls.Switch.Saved.{
  IsShown, IsSaved, IsBackIn, switch_to_other_term-IsShown, switch_to_other_term-back,
}

abbrev silent : Device
silent log port = 0

away :
    (k' : Kernel) × (switch_to_other_term silent frame 1 8000 8004 busy_kernel ≡ resumed 6000 0 k')
    × IsShown 1 1 busy_kernel k'
    × IsSaved 8000 8004 busy_kernel (k'.console.terms 0)
away = switch_to_other_term-IsShown silent frame 1 8000 8004 1 busy_kernel (omega arith) refl refl

switch_to_other_term-back_example :
    (k₃ : Kernel) × (switch_to_other_term silent frame 0 9000 9004 away.0 ≡ resumed 8000 8004 k₃)
    × IsBackIn 0 2 busy_kernel k₃
switch_to_other_term-back_example =
    switch_to_other_term-back silent frame frame 0 1 8000 8004 9000 9004 6000 0 2 1 busy_kernel
      away.0 away.0 refl (omega arith) refl refl refl refl away.1 away.2.current refl

abbrev blank_tables : Tables
blank_tables = record { directory = zeros; table = zeros; video_table = zeros; loads = 0 }

-- The first process, with its image, after a call of `vidmap`.
abbrev twice : Kernel
twice = record busy_kernel {
  tables = load_video_mem 0x501000 0 (load_new_process 0 (enable_paging 0x500000 blank_tables));
}

placed : IsPlaced 0x500000 0x501000
placed = record {
  first_page = refl;
  second_page = refl;
  first_fits = omega arith;
  second_fits = omega arith;
  apart = omega arith;
}

-- A process that calls `vidmap` again.
again :
    Reached 0x500000 0x501000 0
      (load_video_mem 0x501000 0 (load_new_process 0 (enable_paging 0x500000 blank_tables)))
again = mapped (booted blank_tables 0 (λ i l u. refl) (omega arith))

vidmap-translate_example :
    (k' : Kernel) × (vidmap 0x501000 0x8048100 twice
      ≡ (pos one_thirty_two_mb, some one_thirty_two_mb, k'))
    × ((va : ℕ)
        → va < u32_mod
        → translate 0x500000 0x501000 true k'.tables va ≡ (
            if va / 4096 == one_thirty_two_mb / 4096
            then some (video + va % 4096)
            else translate 0x500000 0x501000 true twice.tables va))
vidmap-translate_example =
    vidmap-translate 0x500000 0x501000 0 0x8048100 twice placed again (omega arith) (omega arith)
