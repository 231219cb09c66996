-- ===== src/Printf/Kept.antt =====
-- `printf` of student-distrib/lib.c leaves the terminals alone.
use ece_391_linux_kernel_cla.Prelude.{
  ℕ, zero, suc, ◌+◌, ◌-◌, u8, u32, if◌then◌else◌, store, shift, inl, inr, Bool, true, false, Option,
  none, some, Bytes, ◌==◌, ltb, u32_mod, Bool-cases,
}
use ece_391_linux_kernel_cla.Console.{Console, puts}
use ece_391_linux_kernel_cla.Console.Kept.{
  KeepsTerms, KeepsTerms-refl, Kept, KeptCount, KeptCount-trans, putc-KeepsTerms, puts-KeptCount,
}
use ece_391_linux_kernel_cla.Clib.{itoa, strlen}
use ece_391_linux_kernel_cla.Printf.{
  Printing, pad, percent, put_all, print_hex, print_hex8, print_unsigned, print_signed,
  with_argument, convert_char, convert, print_char, printf_loop, printf,
}

module _ {A : Type 0} (c : Console) where
  with_value :
      (o : Option A) (f : A → Option Console)
      → ((a : A) → Kept c (f a))
      → Kept c (elim o [ none ↦ none | some a ↦ f a ])
  with_value none f h = record {}
  with_value (some a) f h = h a

put_all-Kept : (s : Bytes) (c : Console) → Kept c (put_all s c)
put_all-Kept s c = counted (puts s c) (puts-KeptCount s c)
  where
    counted :
        (o : Option (ℕ × Console))
        → KeptCount c o
        → Kept c (elim o [ none ↦ none | some (n, d) ↦ some d ])
    counted none h = h
    counted (some (n, d)) h = h

print_hex-Kept : (conv_buf : Bytes) (v : ℕ) (c : Console) → Kept c (print_hex conv_buf v c)
unfolding print_hex
print_hex-Kept conv_buf v c =
    with_value c (itoa v conv_buf 16) (λ b. put_all b c) (λ b. put_all-Kept b c)

print_hex8-Kept : (conv_buf : Bytes) (v : ℕ) (c : Console) → Kept c (print_hex8 conv_buf v c)
unfolding print_hex8
print_hex8-Kept conv_buf v c = with_value c (itoa v (shift conv_buf 8) 16) _ (λ out.
    with_value c (strlen out) (λ n. put_all (shift (pad conv_buf out n) n) c)
      (λ n. put_all-Kept _ c))

print_unsigned-Kept :
    (conv_buf : Bytes) (v : ℕ) (c : Console) → Kept c (print_unsigned conv_buf v c)
unfolding print_unsigned
print_unsigned-Kept conv_buf v c =
    with_value c (itoa v conv_buf 10) (λ b. put_all b c) (λ b. put_all-Kept b c)

print_signed-Kept : (conv_buf : Bytes) (v : ℕ) (c : Console) → Kept c (print_signed conv_buf v c)
unfolding print_signed
print_signed-Kept conv_buf v c = elim (Bool-cases (ltb v 2147483648)) [
  | inl h ↦ rw (h, Kept) (print_unsigned-Kept conv_buf v c)
  | inr h ↦
      rw (h, Kept)
        (with_value c (itoa (u32 (u32_mod - v)) (shift (store conv_buf 0 45) 1) 10) _
          (λ b. put_all-Kept _ c))
]

-- The same for a state of the scan.
abbrev KeptPrinting : Console → Option Printing → Type 0
KeptPrinting c none = Unit
KeptPrinting c (some q) = KeepsTerms c q.console

module _ (stack : ℕ → ℕ) (memory conv_buf : Bytes) where
  with_argument-Kept :
      (o : Option Console) (p : Printing)
      → Kept p.console o
      → KeptPrinting p.console (with_argument stack memory conv_buf o p)
  with_argument-Kept none p h = h
  with_argument-Kept (some d) p h = h

  hex-Kept :
      (alternate : Bool) (v : ℕ) (c : Console)
      → Kept c (if alternate then print_hex8 conv_buf v c else print_hex conv_buf v c)
  hex-Kept true v c = print_hex8-Kept conv_buf v c
  hex-Kept false v c = print_hex-Kept conv_buf v c

  convert_char-Kept :
      (alternate : Bool) (ch : ℕ) (p : Printing)
      → KeptPrinting p.console (convert_char stack memory conv_buf alternate ch p)
  unfolding convert_char
  convert_char-Kept alternate ch p =
      let c = p.console in
      let v = stack p.arg in
      elim (Bool-cases (ch == percent)) [
        | inl a ↦ rw (a, KeptPrinting) (putc-KeepsTerms percent c)
        | inr a ↦ elim (Bool-cases (ch == 120)) [
          | inl b ↦ rw (a, b, KeptPrinting) (with_argument-Kept _ p (hex-Kept alternate v c))
          | inr b ↦ elim (Bool-cases (ch == 117)) [
            | inl d ↦
                rw (a, b, d, KeptPrinting)
                  (with_argument-Kept _ p (print_unsigned-Kept conv_buf v c))
            | inr d ↦ elim (Bool-cases (ch == 100)) [
              | inl e ↦
                  rw (a, b, d, e, KeptPrinting)
                    (with_argument-Kept _ p (print_signed-Kept conv_buf v c))
              | inr e ↦ elim (Bool-cases (ch == 99)) [
                | inl f ↦ rw (a, b, d, e, f, KeptPrinting) (putc-KeepsTerms (u8 v) c)
                | inr f ↦ elim (Bool-cases (ch == 115)) [
                  | inl g ↦
                      rw (a, b, d, e, f, g, KeptPrinting)
                        (with_argument-Kept _ p (put_all-Kept (shift memory v) c))
                  | inr g ↦ rw (a, b, d, e, f, g, KeptPrinting) (KeepsTerms-refl c)
                ]
              ]
            ]
          ]
        ]
      ]

  convert-Kept :
      (fuel : ℕ) (format : Bytes) (alternate : Bool) (p : Printing)
      → KeptPrinting p.console (convert stack memory conv_buf fuel format alternate p)
  unfolding convert
  convert-Kept zero format alternate p = record {}
  convert-Kept (suc fuel) format alternate p = elim (Bool-cases (format p.at == 35)) [
    | inl h ↦ rw (h, KeptPrinting) (convert-Kept fuel format true (record p { at = p.at + 1 }))
    | inr h ↦ rw (h, KeptPrinting) (convert_char-Kept alternate (format p.at) p)
  ]

  print_char-Kept :
      (format : Bytes) (p : Printing)
      → KeptPrinting p.console (print_char stack memory conv_buf format p)
  unfolding print_char
  print_char-Kept format p = elim (Bool-cases (format p.at == percent)) [
    | inl h ↦ rw (h, KeptPrinting) (convert-Kept u32_mod format false (record p { at = p.at + 1 }))
    | inr h ↦ rw (h, KeptPrinting) (putc-KeepsTerms (format p.at) p.console)
  ]

  going_on :
      (fuel : ℕ) (format : Bytes) (c : Console) (o : Option Printing)
      → KeptPrinting c o
      → ((q : Printing) → KeptCount q.console (printf_loop stack memory conv_buf fuel format q))
      → KeptCount c (elim o [
        | none ↦ none
        | some q ↦ printf_loop stack memory conv_buf fuel format (record q { at = q.at + 1 })
      ])
  going_on fuel format c none h f = record {}
  going_on fuel format c (some q) h f =
      KeptCount-trans c q.console _ h (f (record q { at = q.at + 1 }))

  printf_loop-KeptCount :
      (fuel : ℕ) (format : Bytes) (p : Printing)
      → KeptCount p.console (printf_loop stack memory conv_buf fuel format p)
  unfolding printf_loop
  printf_loop-KeptCount zero format p = record {}
  printf_loop-KeptCount (suc fuel) format p = elim (Bool-cases (format p.at == 0)) [
    | inl h ↦ rw (h, KeptCount) (KeepsTerms-refl p.console)
    | inr h ↦
        rw (h, KeptCount)
          (going_on fuel format p.console (print_char stack memory conv_buf format p)
            (print_char-Kept format p) (λ q. printf_loop-KeptCount fuel format q))
  ]

  pub printf-KeptCount :
      (format : Bytes) (c : Console) → KeptCount c (printf stack memory conv_buf format c)
  unfolding printf
  printf-KeptCount format c =
      printf_loop-KeptCount u32_mod format (record { at = 0; arg = 0; console = c })
