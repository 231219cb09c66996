-- ===== src/Boot/Report.antt =====
-- The first half of `entry` of student-distrib/kernel.c: the report of what the boot loader has found,
-- with `start_fs` and `end_fs`, and `entry` as a whole. The structures of student-distrib/multiboot.h
-- are words in memory. What `printf` finds behind its arguments and in its buffer is a parameter.
pub mod Kept
use ece_391_linux_kernel_cla.Prelude.{
  ℕ, zero, suc, ◌+◌, ◌^◌, Bool, true, false, ◌&&◌, Option, none, some, List, [], ◌∷◌, pos, Bytes,
  literal, word, u32, s8, to_u32, get_or, ◌==◌, ◌!=◌, ltb, bit_and,
}
use ece_391_linux_kernel_cla.Boot.{Layout, Machine, SegDesc, start_system}
use ece_391_linux_kernel_cla.Console.{Console, clear}
use ece_391_linux_kernel_cla.Io.{Device}
use ece_391_linux_kernel_cla.Printf.{printf}
use ece_391_linux_kernel_cla.Syscalls.Execute.{Outcome, fault, returned, Frame}

-- What the report sets: the variables, and the screen.
pub record Report : Type 0 where
  pub start_fs : ℕ
  pub end_fs : ℕ
  pub console : Console

abbrev pub bootloader_magic : ℕ
bootloader_magic = 0x2BADB002

-- `CHECK_FLAG`
abbrev pub check_flag : ℕ → ℕ → Bool
check_flag flags bit = bit_and flags (2 ^ bit) != 0

unfoldable pub then_report : Option Report → (Report → Option Report) → Option Report
then_report none f = none
then_report (some r) f = f r

-- A part of the report that is made if a flag is set.
unfoldable pub if_flag : Bool → (Report → Option Report) → Report → Option Report
if_flag true f r = f r
if_flag false f r = some r

module _ (memory conv_buf : Bytes) (behind : ℕ → ℕ) where
  -- The word at an address.
  abbrev pub word_at : ℕ → ℕ
  word_at a = word (λ i. memory (u32 (a + i)))

  -- `printf` with these arguments.
  unfoldable pub print : Bytes → List ℕ → Report → Option Report
  print format args r =
      elim (printf (λ i. get_or args i (behind i)) memory conv_buf format r.console) [
        | none ↦ none
        | some (n, c) ↦ some (record r { console = c })
      ]

  -- `for(i = 0; i<16; i++)` with `k` rounds left. The bytes are signed.
  unfoldable pub bytes_loop : ℕ → ℕ → ℕ → Report → Option Report
  bytes_loop zero i mod_start r = some r
  bytes_loop (suc k) i mod_start r =
      then_report (print (literal "0x%x ") (to_u32 (s8 (memory (u32 (mod_start + i)))) ∷ []) r)
        (bytes_loop k (i + 1) mod_start)

  -- `while(mod_count < mbi->mods_count)` with `k` rounds left; `module_at` is the address of a `module_t`.
  unfoldable pub module_loop : ℕ → ℕ → ℕ → Report → Option Report
  module_loop zero mod_count module_at r = some r
  module_loop (suc k) mod_count module_at r =
      then_report
        (print (literal "Module %d loaded at address: 0x%#x\n") (mod_count ∷ word_at module_at ∷ [])
          r)
        (λ r₁.
          then_report
            (print (literal "Module %d ends at address: 0x%#x\n")
              (mod_count ∷ word_at (module_at + 4) ∷ []) r₁)
            (λ r₂. then_report (print (literal "First few bytes of module:\n") [] r₂) (λ r₃.
              then_report (bytes_loop 16 0 (word_at module_at) r₃) (λ r₄.
                then_report (print (literal "\n") [] r₄)
                  (module_loop k (mod_count + 1) (u32 (module_at + 16)))))))

  -- The file system is the first module.
  unfoldable pub report_modules : ℕ → Report → Option Report
  report_modules mbi r = module_loop (word_at (mbi + 20)) 0 (word_at (mbi + 24)) (record r {
    start_fs = word_at (word_at (mbi + 24));
    end_fs = word_at (word_at (mbi + 24) + 4);
  })

  -- The loop over the memory map, on fuel: an entry has its size before it.
  unfoldable pub mmap_loop : ℕ → ℕ → ℕ → Report → Option Report
  mmap_loop zero mmap end r = none
  mmap_loop (suc fuel) mmap end r = elim (ltb mmap end) [
    | false ↦ some r
    | true ↦
        then_report
          (print
            (literal
              " size = 0x%x,     base_addr = 0x%#x%#x\n     type = 0x%x,  length    = 0x%#x%#x\n")
            (word_at mmap
              ∷ word_at (mmap + 8)
              ∷ word_at (mmap + 4)
              ∷ word_at (mmap + 20)
              ∷ word_at (mmap + 16)
              ∷ word_at (mmap + 12)
              ∷ [])
            r)
          (mmap_loop fuel (u32 (mmap + word_at mmap + 4)) end)
  ]

  unfoldable pub report_mmap : ℕ → ℕ → Report → Option Report
  report_mmap fuel mbi r =
      then_report
        (print (literal "mmap_addr = 0x%#x, mmap_length = 0x%x\n")
          (word_at (mbi + 48) ∷ word_at (mbi + 44) ∷ []) r)
        (mmap_loop fuel (word_at (mbi + 48)) (u32 (word_at (mbi + 48) + word_at (mbi + 44))))

  -- What is printed up to the modules.
  unfoldable pub report_first : ℕ → Report → Option Report
  report_first mbi r =
      let flags = word_at mbi in
      then_report (print (literal "flags = 0x%#x\n") (flags ∷ []) r) (λ r₁.
        then_report
          (if_flag (check_flag flags 0)
            (print (literal "mem_lower = %uKB, mem_upper = %uKB\n")
              (word_at (mbi + 4) ∷ word_at (mbi + 8) ∷ []))
            r₁)
          (λ r₂.
            then_report
              (if_flag (check_flag flags 1)
                (print (literal "boot_device = 0x%#x\n") (word_at (mbi + 12) ∷ [])) r₂)
              (λ r₃.
                then_report
                  (if_flag (check_flag flags 2)
                    (print (literal "cmdline = %s\n") (word_at (mbi + 16) ∷ [])) r₃)
                  (if_flag (check_flag flags 3) (report_modules mbi)))))

  -- What is printed behind the check of bits 4 and 5.
  unfoldable pub report_last : ℕ → ℕ → Report → Option Report
  report_last fuel mbi r =
      let flags = word_at mbi in
      then_report
        (if_flag (check_flag flags 5)
          (print (literal "elf_sec: num = %u, size = 0x%#x, addr = 0x%#x, shndx = 0x%#x\n") (
            word_at (mbi + 28) ∷ word_at (mbi + 32) ∷ word_at (mbi + 36) ∷ word_at (mbi + 40) ∷ []))
          r)
        (if_flag (check_flag flags 6) (report_mmap fuel mbi))

  -- The report: whether `entry` goes on, and what is set.
  unfoldable pub print_report : ℕ → ℕ → ℕ → Report → Option (Bool × Report)
  print_report fuel magic addr r =
      let cleared = record r { console = clear (r.console) } in
      let flags = word_at addr in
      let stop : Report → Option (Bool × Report) = λ q. some (false, q) in
      elim (magic == bootloader_magic) [
        | false ↦ elim (print (literal "Invalid magic number: 0x%#x\n") (magic ∷ []) cleared) [
          | none ↦ none
          | some q ↦ stop q
        ]
        | true ↦ elim (report_first addr cleared) [
          | none ↦ none
          | some q ↦ elim (check_flag flags 4 && check_flag flags 5) [
            | true ↦ elim (print (literal "Both bits 4 and 5 are set.\n") [] q) [
              | none ↦ none
              | some q' ↦ stop q'
            ]
            | false ↦ elim (report_last fuel addr q) [ none ↦ none | some q' ↦ some (true, q') ]
          ]
        ]
      ]

  -- `entry`: the report, and then the rest. The disk is the memory from `start_fs` on.
  unfoldable pub entry :
      Device → Frame → Layout → SegDesc → SegDesc → ℕ → ℕ → ℕ → Machine → Machine × Outcome
  entry device fr l d e fuel magic addr m =
      elim (print_report fuel magic addr
        (record { start_fs = 0; end_fs = 0; console = m.kernel.console })) [
          | none ↦ (m, fault)
          | some (go_on, r) ↦
              let k = record (m.kernel) { console = r.console } in
              elim go_on [
                | false ↦ (m, returned (pos 0) k)
                | true ↦
                    start_system device fr behind memory conv_buf l d e
                      (record m { kernel = record k { fs = λ i. memory (u32 (r.start_fs + i)) } })
              ]
        ]
