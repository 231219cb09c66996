-- ===== src/Programs/Cat/Whole.antt =====
-- The whole of syscalls/ece391cat.c on the kernel of student-distrib/.
use ece_391_linux_kernel_cla.Prelude.{
  ℕ, ◌+◌, ◌-◌, ◌*◌, Bool, ◌≤◌, ◌<◌, ◌≡◌, ◌≢◌, refl, ◌∙◌, inr, some, pos, Bytes, IsString, literal,
  u32_mod, arith,
}
use ece_391_linux_kernel_cla.FileSystem.{Dentry, length_in_bytes}
use ece_391_linux_kernel_cla.FileSystem.Blocks.{content}
use ece_391_linux_kernel_cla.FileSystem.Renamed.{
  AreSame, strncmp-AreSame, read_dentry_by_name-AreSame,
}
use ece_391_linux_kernel_cla.Terminal.{write_loop}
use ece_391_linux_kernel_cla.Terminal.Shown.{Shows}
use ece_391_linux_kernel_cla.Syscalls.{
  terminal_fops, file_fops, Kernel, running_pcb, fd_of, put_fd, fops_for, syscall_open,
}
use ece_391_linux_kernel_cla.Syscalls.Args.{getargs-copy}
use ece_391_linux_kernel_cla.Syscalls.Execute.{quieted}
use ece_391_linux_kernel_cla.Syscalls.Descriptors.{put_fd_self, put_fd-other}
use ece_391_linux_kernel_cla.Syscalls.Open.{IsFile, IsFirstFree}
use ece_391_linux_kernel_cla.Programs.{Calls, ◌>>=◌}
use ece_391_linux_kernel_cla.Programs.Cat.{cat_loop, cat_main}
use ece_391_linux_kernel_cla.Programs.Cat.Printed.{cat_loop-Prints}
use ece_391_linux_kernel_cla.Programs.Kernel.{
  System, Surroundings, iret, call_getargs, kernel_calls, kernel_getargs, kernel_open,
}
use ece_391_linux_kernel_cla.Programs.Kernel.Opening.{syscall_open-put_fd}
use ece_391_linux_kernel_cla.Programs.Kernel.Files.{IsReading, file_at, system_call-some}

IsFile-AreSame :
    (s s' : Bytes) (n : ℕ) (d : Dentry) (k : Kernel)
    → AreSame s s' n
    → n < u32_mod
    → 0 < n
    → IsFile s' d k
    → IsFile s d k
IsFile-AreSame s s' n d k same fits h f = record {
  not_stdin = rw (strncmp-AreSame s s' n same (literal "stdin") 5) f.not_stdin;
  not_stdout = rw (strncmp-AreSame s s' n same (literal "stdout") 6) f.not_stdout;
  entry = read_dentry_by_name-AreSame s s' n same fits h k.fs ∙ f.entry;
}

-- The two calls before the loop, over any system calls.
cat_main-calls :
    {S : Type 0} (calls : Calls S) (fuel fd : ℕ) (buf name : Bytes) (m m₁ m₂ : S)
    → calls.ece391_getargs buf (pos 1024) m ≡ some ((pos 0, name), m₁)
    → calls.ece391_open name m₁ ≡ some (pos fd, m₂)
    → cat_main calls fuel buf m ≡ cat_loop calls fuel (pos fd) name m₂
unfolding cat_main
cat_main-calls calls fuel fd buf name m m₁ m₂ e f = rw (cat_main, ◌>>=◌, e, f) refl

call_getargs-copy :
    (rodata buf : Bytes) (p n len : ℕ) (k : Kernel)
    → running_pcb k ≡ some p
    → IsString (k.pcbs p).args n
    → IsString buf len
    → 0 < n
    → n < 95
    → len < u32_mod
    → (name : Bytes) × (call_getargs rodata buf (pos 1024) k ≡ some ((pos 0, name), k))
      × AreSame name ((k.pcbs p).args) n
unfolding call_getargs
call_getargs-copy rodata buf p n len k run args string h lt fits =
    let g =
      getargs-copy rodata ((k.pcbs p).args) buf 1024 n len args string h lt fits (omega arith) in
    (
      g.0,
      rw (call_getargs, run, g.1) refl,
      record { first = g.2; second = args; cells = λ j l. ground (arith, g.3 j (omega arith)) },
    )

-- What `cat` needs: a process whose arguments name a file, with the screen as descriptor 1.
pub record IsRequest (p n fd : ℕ) (d : Dentry) (k : Kernel) : Type 0 where
  pub run : running_pcb k ≡ some p
  pub screen : (fd_of p 1 k).table ≡ terminal_fops
  pub screen_in_use : (fd_of p 1 k).in_use ≢ 0
  pub args : IsString (k.pcbs p).args n
  pub named : 0 < n
  pub short : n < 95
  pub file : IsFile ((k.pcbs p).args) d k
  pub typed : fops_for d.file_type ≡ some file_fops
  pub free : IsFirstFree ((k.pcbs p).fd_array) 2 fd
  pub room : fd < 8
  pub small : length_in_bytes k.fs d.inode_num < 2147483648

opened-IsReading :
    (p n fd : ℕ) (d : Dentry) (flag : Bool) (k : Kernel)
    → IsRequest p n fd d k
    → IsReading p fd d.inode_num 0 (iret flag (put_fd p fd (file_at d.inode_num 0) (quieted k)))
unfolding put_fd
opened-IsReading p n fd d flag k r =
    let o = put_fd-other p fd (file_at d.inode_num 0) k p 1 (inr (omega (arith, r.free.lower))) in
    record {
      run = r.run;
      screen = rw o r.screen;
      screen_in_use = rw o r.screen_in_use;
      file = put_fd_self p fd (file_at d.inode_num 0) k;
      fd_low = omega (arith, r.free.lower);
      fd_high = r.room;
    }

-- `cat`, in a process that runs with a file's name of fewer than 95 characters as its arguments, the
-- screen as descriptor 1 and a descriptor free, shows all bytes of the file in their order, as one
-- write of the whole file to the screen would, and returns 0. The file is shorter than 2^31 bytes;
-- a round of the loop for each 1024 bytes begun, and one more, are enough.
pub cat_main-content :
    (w : Surroundings) (p n fd len fuel : ℕ) (d : Dentry) (buf : Bytes) (m : System)
    → IsRequest p n fd d (m.kernel)
    → IsString buf len
    → len < u32_mod
    → length_in_bytes (m.kernel.fs) d.inode_num + 1024 ≤ fuel * 1024
    → (m' : System) × (cat_main (kernel_calls w) fuel buf m ≡ some (pos 0, m'))
      × Shows
          (write_loop
            (length_in_bytes (m.kernel.fs) d.inode_num)
            0
            (content (m.kernel.fs) d.inode_num)
            (m.kernel.console))
          (m'.kernel.console)
unfolding kernel_getargs kernel_open put_fd
cat_main-content w p n fd len fuel d buf m r string fits enough =
    let flag = m.kernel.console.io.interrupts in
    let k = quieted (m.kernel) in
    let g = call_getargs-copy w.rodata buf p n len k r.run r.args string r.named r.short fits in
    let m₁ : System = record { kernel = iret flag k; count = m.count + 1 } in
    let k₂ = put_fd p fd (file_at d.inode_num 0) k in
    let m₂ : System = record { kernel = iret flag k₂; count = m₁.count + 1 } in
    let file : IsFile g.0 d k =
      IsFile-AreSame g.0 ((m.kernel.pcbs p).args) n d k g.2 (omega (arith, r.short)) r.named
        (record {
          not_stdin = r.file.not_stdin;
          not_stdout = r.file.not_stdout;
          entry = r.file.entry;
        }) in
    let opens =
      syscall_open-put_fd ((w.outside m₁.count).device) g.0 d k p fd file r.run r.typed r.free
        r.room in
    let reading : IsReading p fd d.inode_num 0 (m₂.kernel) =
      opened-IsReading p n fd d flag (m.kernel) r in
    let loop =
      cat_loop-Prints w (m.kernel.fs) p fd d.inode_num r.small fuel 0 g.0 m₂ reading refl
        (omega arith) (omega (arith, enough)) in
    let same : length_in_bytes (m.kernel.fs) d.inode_num
        ≡ length_in_bytes (m.kernel.fs) d.inode_num - 0 =
      omega arith in
    (
      loop.0,
      cat_main-calls (kernel_calls w) fuel fd buf g.0 m m₁ m₂
            (system_call-some (call_getargs w.rodata buf (pos 1024)) m (pos 0, g.0) k g.1)
            (system_call-some (syscall_open ((w.outside m₁.count).device) g.0) m₁ (pos fd) k₂ opens)
          ∙ loop.1,
      rw same loop.2,
    )
