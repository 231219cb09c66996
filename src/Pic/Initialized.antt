-- ===== src/Pic/Initialized.antt =====
-- What `i8259_init` of student-distrib/i8259.c ends with.
use ece_391_linux_kernel_cla.Prelude.{
  ℕ, ◌<◌, ◌≡◌, ◌≢◌, refl, ◌∙◌, subst, true, Bool, ◌&&◌, ◌!=◌, some, Bytes, IsString, all_below,
  all_below_sound, arith,
}
use ece_391_linux_kernel_cla.Console.{Console}
use ece_391_linux_kernel_cla.Console.Kept.{KeepsTerms, KeptCount}
use ece_391_linux_kernel_cla.Console.Puts.{put_chars, puts-put_chars}
use ece_391_linux_kernel_cla.Pic.{Pic, send_words, initialized, i8259_init}
use ece_391_linux_kernel_cla.Printf.{percent, printf}
use ece_391_linux_kernel_cla.Printf.Kept.{printf-KeptCount}
use ece_391_linux_kernel_cla.Printf.Plain.{printf-puts}

abbrev message_ok : ℕ → Bool
message_ok i = (initialized i != 0) && (initialized i != percent)

message_ok-parts : (i : ℕ) → i < 17 → (initialized i ≢ 0) × (initialized i ≢ percent)
unfolding all_below
message_ok-parts i lt =
    let h : message_ok i ≡ true = all_below_sound 17 message_ok refl i lt in
    (ground (arith, h), ground (arith, h))

message-IsString : IsString initialized 17
message-IsString = record { body = λ i lt. (message_ok-parts i lt).0; stop = refl }

-- All lines are masked, and the terminals are as before.
pub record IsInitialized (c : Console) (s : Pic) (d : Console) : Type 0 where
  pub master : s.master_mask ≡ 0xFF
  pub slave : s.slave_mask ≡ 0xFF
  pub keeps : KeepsTerms c d

pub i8259_init-IsInitialized :
    (stack : ℕ → ℕ) (memory conv_buf : Bytes) (s : Pic) (c : Console)
    → (t : Pic) × (d : Console) × (i8259_init stack memory conv_buf s c ≡ some (t, d))
      × IsInitialized c t d
unfolding i8259_init send_words
i8259_init-IsInitialized stack memory conv_buf s c =
    let c₁ : Console = record c { io = (send_words s).io } in
    let d = put_chars 17 0 initialized c₁ in
    let out : printf stack memory conv_buf initialized c₁ ≡ some (17, d) =
      printf-puts stack memory conv_buf initialized 17 message-IsString
        (λ i lt. (message_ok-parts i lt).1) (omega arith) c₁
      ∙ puts-put_chars initialized 17 c₁ message-IsString (omega arith) in
    let kept : KeepsTerms c₁ d =
      subst (KeptCount c₁) out (printf-KeptCount stack memory conv_buf initialized c₁) in
    (
      record (send_words s) { io = d.io },
      d,
      rw (out, i8259_init) refl,
      record {
        master = refl;
        slave = refl;
        keeps = record { terms = kept.terms; current_terminal = kept.current_terminal };
      },
    )
