-- ===== src/Paging/Tests.antt =====
-- Uses of the theorems on the page tables, with both tables at the addresses 0x500000 and 0x501000.
use ece_391_linux_kernel_cla.Prelude.{ℕ, ◌/◌, ◌%◌, ◌<◌, ◌≡◌, refl, true, some, arith}
use ece_391_linux_kernel_cla.Paging.{Tables, enable_paging, load_new_process, load_video_mem, video}
use ece_391_linux_kernel_cla.Paging.Translate.{translate, IsPlaced}
use ece_391_linux_kernel_cla.Paging.Reached.{
  Reached, booted, switched, mapped, translate-Reached, translate-apart, load_video_mem-odd,
}
use ece_391_linux_kernel_cla.Samples.{zeros}

abbrev tables : Tables
tables = record { directory = zeros; table = zeros; video_table = zeros; loads = 0 }

abbrev first : ℕ
first = 0x500000

abbrev second : ℕ
second = 0x501000

placed : IsPlaced first second
placed = record {
  first_page = refl;
  second_page = refl;
  first_fits = omega arith;
  second_fits = omega arith;
  apart = omega arith;
}

abbrev of_process : ℕ → Tables
of_process n = load_new_process n (enable_paging first tables)

blank : (i : ℕ) → 0 < i → i < 1024 → tables.video_table i % 2 ≡ 0
blank i l u = refl

-- Process 2 has called `vidmap`, and process 3 runs after it.
two : Reached first second 2 (load_video_mem second 0 (of_process 2))
two = mapped (booted tables 2 blank (omega arith))

three : Reached first second 3 (load_new_process 3 (load_video_mem second 0 (of_process 2)))
three = switched 3 (omega arith) two

test_two :
    translate first second true (load_video_mem second 0 (of_process 2)) 0x08400010 ≡ some 0xB8010
test_two =
    let e = translate-Reached first second placed 2 0x08400010 _ two (omega arith) in
    ground (arith, e, load_video_mem-odd first second placed (of_process 2))

test_three :
    translate first second true
      (load_new_process 3 (load_video_mem second 0 (of_process 2)))
      0x08400010
    ≡ some 0xB8010
unfolding load_new_process
test_three =
    let e = translate-Reached first second placed 3 0x08400010 _ three (omega arith) in
    ground (arith, e, load_video_mem-odd first second placed (of_process 2))

translate-apart_example : 0xB8010 / 4096 ≡ video / 4096
translate-apart_example =
    translate-apart first second placed 2 3 0x08400010 0x08400010 0xB8010
      (load_video_mem second 0 (of_process 2))
      (load_new_process 3 (load_video_mem second 0 (of_process 2))) two three (omega arith)
      (omega arith) (omega arith) test_two test_three
