-- ===== src/Programs/Cat/Printed.antt =====
-- What syscalls/ece391cat.c prints on the kernel of student-distrib/.
use ece_391_linux_kernel_cla.Prelude.{
  ℕ, zero, suc, ◌+◌, ◌-◌, ◌*◌, ◌≤◌, ◌<◌, ◌≡◌, ◌≢◌, refl, sym, ◌∙◌, ap, min, false, some, ℤ, pos,
  Bytes, ◌==◌, ℕ_discrete, arith,
}
use ece_391_linux_kernel_cla.Console.{Console}
use ece_391_linux_kernel_cla.FileSystem.{length_in_bytes}
use ece_391_linux_kernel_cla.FileSystem.Blocks.{content}
use ece_391_linux_kernel_cla.Terminal.{write_loop}
use ece_391_linux_kernel_cla.Terminal.Shown.{
  Shows, Shows-trans, write_loop-Shows, write_loop-moved, write_loop-append, write_loop-none,
}
use ece_391_linux_kernel_cla.Programs.{Calls, ◌>>=◌}
use ece_391_linux_kernel_cla.Programs.Cat.{cat_loop}
use ece_391_linux_kernel_cla.Programs.Kernel.{System, Surroundings, kernel_calls, kernel_read}
use ece_391_linux_kernel_cla.Programs.Kernel.Files.{
  IsReading, IsNext, IsShown-IsReading, kernel_read-file, kernel_write-screen,
}

-- The first part of a file and the rest, one after the other.
joined :
    (fs out : Bytes) (inode at n rest : ℕ) (c d e : Console)
    → ((j : ℕ) → j < n → out j ≡ content fs inode (at + j))
    → Shows (write_loop n 0 out c) d
    → Shows (write_loop rest (at + n) (content fs inode) d) e
    → Shows (write_loop (n + rest) at (content fs inode) c) e
joined fs out inode at n rest c d e cells first last =
    let moved : write_loop n 0 out c ≡ write_loop n at (content fs inode) c =
      write_loop-moved n 0 at out (content fs inode) c (λ l lt. ground (arith, cells l lt)) in
    rw (write_loop-append n rest at (content fs inode) c, sym moved)
      (Shows-trans _ _ e
        (write_loop-Shows rest (at + n) (content fs inode) (write_loop n 0 out c) d first) last)

write_loop-zero : (at : ℕ) (buf : Bytes) (c d : Console) → d ≡ c → Shows (write_loop 0 at buf c) d
write_loop-zero at buf c d e = rw e (write_loop-none at buf c)

-- A round of the loop, over any system calls.
module _ {S : Type 0} (calls : Calls S) (fuel : ℕ) (fd : ℤ) (buf out : Bytes) (m m₁ : S) where
  cat_loop-end :
      calls.ece391_read fd buf (pos 1024) m ≡ some ((pos 0, out), m₁)
      → cat_loop calls (suc fuel) fd buf m ≡ some (pos 0, m₁)
  unfolding cat_loop
  cat_loop-end e = rw (◌>>=◌, e) refl

  cat_loop-next :
      (n : ℕ) (m₂ : S)
      → calls.ece391_read fd buf (pos 1024) m ≡ some ((pos n, out), m₁)
      → n ≢ 0
      → calls.ece391_write (pos 1) out (pos n) m₁ ≡ some (pos 0, m₂)
      → cat_loop calls (suc fuel) fd buf m ≡ cat_loop calls fuel fd out m₂
  unfolding cat_loop
  cat_loop-next n m₂ e ne f = let z : (n == 0) ≡ false = ground arith in rw (◌>>=◌, e, z, f) refl

module _ (w : Surroundings) (fs : Bytes) (p fd inode : ℕ) where
  -- The next `left` bytes of the file are printed, in rounds of 1024 bytes.
  abbrev pub Prints : ℕ → ℕ → ℕ → Bytes → System → Type 0
  Prints fuel at left buf m =
      (m' : System) × (cat_loop (kernel_calls w) fuel (pos fd) buf m ≡ some (pos 0, m'))
      × Shows (write_loop left at (content fs inode) (m.kernel.console)) (m'.kernel.console)

  finish :
      (fuel at n : ℕ) (buf out : Bytes) (m m₁ : System)
      → n ≡ 0
      → kernel_read w (pos fd) buf (pos 1024) m ≡ some ((pos n, out), m₁)
      → IsNext p fd inode at n out m m₁
      → Prints (suc fuel) at 0 buf m
  finish fuel at n buf out m m₁ z e next = (
    m₁,
    cat_loop-end (kernel_calls w) fuel (pos fd) buf out m m₁ (rw (sym z) e),
    write_loop-zero at (content fs inode) (m.kernel.console) (m₁.kernel.console) (next.console),
  )

  go_on :
      (fuel at n rest : ℕ) (buf out : Bytes) (m m₁ : System)
      → n ≢ 0
      → n < 4294967296
      → m.kernel.fs ≡ fs
      → kernel_read w (pos fd) buf (pos 1024) m ≡ some ((pos n, out), m₁)
      → IsNext p fd inode at n out m m₁
      → ((m₂ : System)
          → IsReading p fd inode (at + n) (m₂.kernel)
          → m₂.kernel.fs ≡ fs
          → Prints fuel (at + n) rest out m₂)
      → Prints (suc fuel) at (n + rest) buf m
  go_on fuel at n rest buf out m m₁ ne lt disk e next ih =
      let r₁ = next.reading in
      let put = kernel_write-screen w p n out m₁ r₁.run r₁.screen r₁.screen_in_use lt in
      let m₂ = put.0 in
      let c = m.kernel.console in
      let last =
        ih m₂ (IsShown-IsReading p fd inode (at + n) n out (m₁.kernel) (m₂.kernel) put.2 r₁)
          (put.2.disk ∙ next.disk ∙ disk) in
      let shown : Shows (write_loop n 0 out c) (m₂.kernel.console) =
        rw (sym (next.console)) (put.2.shows) in
      (
        last.0,
        cat_loop-next (kernel_calls w) fuel (pos fd) buf out m m₁ n m₂ e ne put.1 ∙ last.1,
        joined fs out inode at n rest c (m₂.kernel.console) (last.0.kernel.console)
            (λ j l. rw (sym disk) (next.cells j l)) shown last.2,
      )

  module _ (small : length_in_bytes fs inode < 2147483648) where
    pub cat_loop-Prints :
        (fuel at : ℕ) (buf : Bytes) (m : System)
        → IsReading p fd inode at (m.kernel)
        → m.kernel.fs ≡ fs
        → at ≤ length_in_bytes fs inode
        → length_in_bytes fs inode - at + 1024 ≤ fuel * 1024
        → Prints fuel at (length_in_bytes fs inode - at) buf m
    cat_loop-Prints zero at buf m r disk inside enough = absurd (omega arith)
    cat_loop-Prints (suc fuel) at buf m r disk inside enough =
        let e : length_in_bytes (m.kernel.fs) inode ≡ length_in_bytes fs inode =
          ap (λ x. length_in_bytes x inode) disk in
        let got =
          kernel_read-file w p fd inode at m r 1024 buf (rw e small) (rw e inside) (omega arith) in
        let n = min 1024 (length_in_bytes (m.kernel.fs) inode - at) in
        let rest = length_in_bytes fs inode - (at + n) in
        elim (ℕ_discrete (length_in_bytes fs inode - at) 0) [
          | yes z ↦ rw z (finish fuel at n buf got.0 m got.1 (omega (arith, e, z)) got.2 got.3)
          | no ne ↦
              let split : length_in_bytes fs inode - at ≡ n + rest = omega (arith, e) in
              rw split (
                go_on fuel at n rest buf got.0 m got.1 (omega (arith, e, ne)) (omega arith) disk
                  got.2 got.3
                  (λ m₂ r₂ d.
                    cat_loop-Prints fuel (at + n) got.0 m₂ r₂ d (omega (arith, e))
                      (omega (arith, e, ne))))
        ]
