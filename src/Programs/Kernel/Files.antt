-- ===== src/Programs/Kernel/Files.antt =====
-- Reading a file and writing to the screen by the system calls of this kernel.
use ece_391_linux_kernel_cla.Prelude.{
  ℕ, ◌+◌, ◌-◌, ◌≤◌, ◌<◌, ◌≡◌, ◌≢◌, refl, ◌∙◌, ap, min, inr, Option, some, ℤ, pos, Bytes, to_u32,
  arith,
}
use ece_391_linux_kernel_cla.FileSystem.{length_in_bytes, file_read}
use ece_391_linux_kernel_cla.FileSystem.Blocks.{content}
use ece_391_linux_kernel_cla.FileSystem.Reading.{file_read-content}
use ece_391_linux_kernel_cla.Io.{Device}
use ece_391_linux_kernel_cla.Terminal.{terminal_write, write_loop, stdout}
use ece_391_linux_kernel_cla.Syscalls.Descriptors.{put_fd_self, put_fd-other}
use ece_391_linux_kernel_cla.Terminal.Shown.{
  Shows, Shows-trans, write_loop-Shows, terminal_write-Shows,
}
use ece_391_linux_kernel_cla.Syscalls.{
  terminal_fops, file_fops, FileData, Kernel, Outside, running_pcb, fd_of, put_fd, check, passed,
  read, write, table_write,
}
use ece_391_linux_kernel_cla.Syscalls.Execute.{quieted}
use ece_391_linux_kernel_cla.Programs.Kernel.{
  System, Surroundings, system_call, iret, call_read, kernel_read, kernel_write,
}

pub to_u32-pos : (n : ℕ) → n < 4294967296 → to_u32 (pos n) ≡ n
unfolding to_u32
to_u32-pos n h = omega arith

abbrev pub file_at : ℕ → ℕ → FileData
file_at inode at = record { table = file_fops; in_use = 1; file_pos = at; info = inode }

-- The process in slot `p` runs, has the screen as descriptor 1, and has `fd` open for a file.
pub record IsReading (p fd inode at : ℕ) (k : Kernel) : Type 0 where
  pub run : running_pcb k ≡ some p
  pub screen : (fd_of p 1 k).table ≡ terminal_fops
  pub screen_in_use : (fd_of p 1 k).in_use ≢ 0
  pub file : fd_of p fd k ≡ file_at inode at
  pub fd_low : 1 < fd
  pub fd_high : fd < 8

pub check-passed :
    (fd p : ℕ) (buf : Bytes) (k : Kernel)
    → running_pcb k ≡ some p
    → fd < 8
    → (fd_of p fd k).in_use ≢ 0
    → check fd (some buf) k ≡ passed p buf
unfolding check
check-passed fd p buf k run lt used = ground arith

pub system_call-some :
    {A : Type 0} (call : Kernel → Option (A × Kernel)) (m : System) (a : A) (k : Kernel)
    → call (quieted m.kernel) ≡ some (a, k)
    → system_call call m
      ≡ some (a, record { kernel = iret (m.kernel.console.io.interrupts) k; count = m.count + 1 })
unfolding system_call
system_call-some call m a k e = rw (e, system_call) refl

-- `read` of a file, as its table's operation does it.
read-file :
    (o : Outside) (p fd inode at nbytes : ℕ) (buf out : Bytes) (r : ℤ) (next : ℕ) (k : Kernel)
    → IsReading p fd inode at k
    → file_read k.fs inode at (some buf) nbytes ≡ (r, some out, next)
    → read o fd (some buf) nbytes k ≡ some (r, some out, put_fd p fd (file_at inode next) k)
unfolding read
read-file o p fd inode at nbytes buf out r next k h e =
    let c = check-passed fd p buf k h.run h.fd_high (rw h.file (omega arith)) in
    let f : (fd_of p fd k).table ≡ file_fops = ap (λ x. x.table) h.file in
    rw (read, c, f, h.file, e) refl

-- `write` to the screen.
write-screen :
    (device : Device) (p n : ℕ) (buf : Bytes) (k : Kernel)
    → running_pcb k ≡ some p
    → (fd_of p 1 k).table ≡ terminal_fops
    → (fd_of p 1 k).in_use ≢ 0
    → write device 1 (some buf) n k
      ≡ some (pos 0, record k { console = (terminal_write stdout buf n k.console).1 })
unfolding write table_write terminal_write
write-screen device p n buf k run table used =
    let c = check-passed 1 p buf k run (omega arith) used in rw (write, c, table) refl

-- The file's bytes at the position, as many as fit or are left, and the position behind them.
pub record IsNext (p fd inode at n : ℕ) (out : Bytes) (m m' : System) : Type 0 where
  pub cells : (j : ℕ) → j < n → out j ≡ content (m.kernel.fs) inode (at + j)
  pub reading : IsReading p fd inode (at + n) (m'.kernel)
  pub disk : m'.kernel.fs ≡ m.kernel.fs
  pub console : m'.kernel.console ≡ m.kernel.console

IsReading-put_fd :
    (p fd inode at next : ℕ) (k : Kernel)
    → IsReading p fd inode at k
    → IsReading p fd inode next (put_fd p fd (file_at inode next) k)
unfolding put_fd
IsReading-put_fd p fd inode at next k r =
    let o = put_fd-other p fd (file_at inode next) k p 1 (inr (omega (arith, r.fd_low))) in
    record {
      run = r.run;
      screen = rw o r.screen;
      screen_in_use = rw o r.screen_in_use;
      file = put_fd_self p fd (file_at inode next) k;
      fd_low = r.fd_low;
      fd_high = r.fd_high;
    }

module _ (w : Surroundings) (p fd inode at : ℕ) (m : System)
    (r : IsReading p fd inode at (m.kernel)) where
  pub kernel_read-file :
      (nbytes : ℕ) (buf : Bytes)
      → length_in_bytes (m.kernel.fs) inode < 2147483648
      → at ≤ length_in_bytes (m.kernel.fs) inode
      → nbytes < 2147483648
      → let n = min nbytes (length_in_bytes (m.kernel.fs) inode - at) in
        (out : Bytes) × (m' : System) × (kernel_read w (pos fd) buf (pos nbytes) m
          ≡ some ((pos n, out), m'))
        × IsNext p fd inode at n out m m'
  unfolding kernel_read call_read put_fd
  kernel_read-file nbytes buf small inside count =
      let c = file_read-content (m.kernel.fs) inode at buf nbytes small inside (omega arith) in
      let n = min nbytes (length_in_bytes (m.kernel.fs) inode - at) in
      let k = quieted (m.kernel) in
      let q : IsReading p fd inode at k = record {
        run = r.run;
        screen = r.screen;
        screen_in_use = r.screen_in_use;
        file = r.file;
        fd_low = r.fd_low;
        fd_high = r.fd_high;
      } in
      let k' = iret (m.kernel.console.io.interrupts) (put_fd p fd (file_at inode (at + n)) k) in
      let t = IsReading-put_fd p fd inode at (at + n) k q in
      let e =
        read-file (w.outside m.count) p fd inode at nbytes buf (c.0) (pos n) (at + n) k q (c.1) in
      (
        c.0,
        record { kernel = k'; count = m.count + 1 },
        rw (to_u32-pos fd (omega (arith, r.fd_high)), to_u32-pos nbytes (omega arith))
            (system_call-some (call_read (w.outside m.count) fd buf nbytes) m (pos n, c.0)
              (put_fd p fd (file_at inode (at + n)) k) (rw (call_read, e) refl)),
        record {
          cells = λ j lt. ground (arith, c.2 j);
          reading = record {
            run = t.run;
            screen = t.screen;
            screen_in_use = t.screen_in_use;
            file = t.file;
            fd_low = t.fd_low;
            fd_high = t.fd_high;
          };
          disk = refl;
          console = refl;
        },
      )

-- A write to the screen by the process that runs shows the bytes, and leaves its descriptors alone.
pub record IsShown (p : ℕ) (out : Bytes) (n : ℕ) (k k' : Kernel) : Type 0 where
  pub shows : Shows (write_loop n 0 out (k.console)) (k'.console)
  pub run : running_pcb k' ≡ some p
  pub disk : k'.fs ≡ k.fs
  pub blocks : k'.pcbs ≡ k.pcbs
  pub index : k'.directory_index ≡ k.directory_index

pub kernel_write-screen :
    (w : Surroundings) (p n : ℕ) (out : Bytes) (m : System)
    → running_pcb (m.kernel) ≡ some p
    → (fd_of p 1 (m.kernel)).table ≡ terminal_fops
    → (fd_of p 1 (m.kernel)).in_use ≢ 0
    → n < 4294967296
    → (m' : System) × (kernel_write w (pos 1) out (pos n) m ≡ some (pos 0, m'))
      × IsShown p out n (m.kernel) (m'.kernel)
unfolding kernel_write
kernel_write-screen w p n out m run table used lt =
    let k = quieted (m.kernel) in
    let s = terminal_write-Shows out n (k.console) in
    let k' = record k { console = (terminal_write stdout out n k.console).1 } in
    let same : Shows (m.kernel.console) (k.console) = record {
      video = refl;
      cursor_x = refl;
      cursor_y = refl;
    } in
    let shown =
      Shows-trans (write_loop n 0 out (m.kernel.console)) (write_loop n 0 out (k.console))
        (k'.console) (write_loop-Shows n 0 out (m.kernel.console) (k.console) same) s.1 in
    let e = write-screen ((w.outside m.count).device) p n out k run table used in
    (
      record { kernel = iret (m.kernel.console.io.interrupts) k'; count = m.count + 1 },
      rw (to_u32-pos 1 (omega arith), to_u32-pos n lt)
          (system_call-some (write ((w.outside m.count).device) 1 (some out) n) m (pos 0) k' e),
      record {
        shows = record {
          video = shown.video;
          cursor_x = shown.cursor_x;
          cursor_y = shown.cursor_y;
        };
        run = s.2 ∙ run;
        disk = refl;
        blocks = refl;
        index = refl;
      },
    )

pub IsShown-IsReading :
    (p fd inode at n : ℕ) (out : Bytes) (k k' : Kernel)
    → IsShown p out n k k'
    → IsReading p fd inode at k
    → IsReading p fd inode at k'
IsShown-IsReading p fd inode at n out k k' s r = record {
  run = s.run;
  screen = rw (s.blocks) r.screen;
  screen_in_use = rw (s.blocks) r.screen_in_use;
  file = rw (s.blocks) r.file;
  fd_low = r.fd_low;
  fd_high = r.fd_high;
}
