-- ===== src/Printf/Tests.antt =====
-- "hello" as a format.
use ece_391_linux_kernel_cla.Prelude.{
  ℕ, ◌<◌, ◌≡◌, ◌≢◌, refl, true, ◌!=◌, Bool, all_below, all_below_sound, arith,
}
use ece_391_linux_kernel_cla.Console.{puts}
use ece_391_linux_kernel_cla.Printf.{percent, printf}
use ece_391_linux_kernel_cla.Printf.Plain.{printf-puts}
use ece_391_linux_kernel_cla.Samples.{hello, hello-IsString, zeros, blank}

abbrev plain_at : ℕ → Bool
plain_at i = hello i != percent

differs : (a b : ℕ) → (a != b) ≡ true → a ≢ b
differs a b h = ground arith

hello_plain : (i : ℕ) → i < 5 → hello i ≢ percent
unfolding all_below
hello_plain i lt = differs (hello i) percent (all_below_sound 5 plain_at refl i lt)

printf-puts_example : printf (λ i. 7) zeros zeros hello blank ≡ puts hello blank
printf-puts_example =
    printf-puts (λ i. 7) zeros zeros hello 5 hello-IsString hello_plain (omega arith) blank
