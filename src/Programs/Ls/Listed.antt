-- ===== src/Programs/Ls/Listed.antt =====
-- What syscalls/ece391ls.c prints on the kernel of student-distrib/.
use ece_391_linux_kernel_cla.Prelude.{
  ℕ, zero, suc, ◌+◌, ◌<◌, ◌≡◌, ◌≢◌, refl, sym, ◌∙◌, false, some, ℤ, pos, Bytes, AreBytes, word,
  store, literal, ◌==◌, arith,
}
use ece_391_linux_kernel_cla.Console.{Console, newline}
use ece_391_linux_kernel_cla.FileSystem.{Dentry, entry, dir_read, read_dentry_by_index}
use ece_391_linux_kernel_cla.FileSystem.Listing.{IsName, dir_read-entry}
use ece_391_linux_kernel_cla.Terminal.{write_loop, write_byte}
use ece_391_linux_kernel_cla.Terminal.Shown.{
  Shows, Shows-trans, write_loop-Shows, write_loop-moved, write_loop-append,
}
use ece_391_linux_kernel_cla.Syscalls.{Kernel, dir_fops, fops_for, put_fd, opened}
use ece_391_linux_kernel_cla.Syscalls.Open.{IsFile, IsFirstFree}
use ece_391_linux_kernel_cla.Programs.{Calls, ◌>>=◌}
use ece_391_linux_kernel_cla.Programs.Ls.{ls_loop, ls_main}
use ece_391_linux_kernel_cla.Programs.Kernel.{System, Surroundings, kernel_calls}
use ece_391_linux_kernel_cla.Programs.Kernel.Files.{IsShown, kernel_write-screen}
use ece_391_linux_kernel_cla.Programs.Kernel.Refusals.{IsUser}
use ece_391_linux_kernel_cla.Programs.Kernel.Directory.{
  IsListing, kernel_read-directory, kernel_open-directory, opened-IsListing,
}

-- `d` shows what `c` shows, and then the names of `k` entries from the one with the index `i` on, each
-- on a line.
pub ListsNames : Bytes → ℕ → ℕ → Console → Console → Type 0
ListsNames fs zero i c d = Shows c d
ListsNames fs (suc k) i c d =
    (n : ℕ) × IsName (entry fs i) n
    × ListsNames fs k (i + 1) (write_byte newline (write_loop n 0 (entry fs i) c)) d

-- From a console that looks the same.
ListsNames-Shows :
    (fs : Bytes) (k i : ℕ) (c c' d : Console)
    → Shows c c'
    → ListsNames fs k i c' d
    → ListsNames fs k i c d
unfolding ListsNames write_loop
ListsNames-Shows fs zero i c c' d s l = Shows-trans c c' d s l
ListsNames-Shows fs (suc k) i c c' d s (n, name, l) = (
  n,
  name,
  ListsNames-Shows fs k (i + 1) _ _ d
      (write_loop-Shows 1 0 (λ j. newline) _ _ (write_loop-Shows n 0 (entry fs i) c c' s)) l,
)

-- A name with its newline.
line-shown :
    (name out : Bytes) (n : ℕ) (c : Console)
    → ((j : ℕ) → j < n → out j ≡ name j)
    → write_loop (n + 1) 0 (store out n newline) c ≡ write_byte newline (write_loop n 0 name c)
unfolding write_loop
line-shown name out n c cells =
    let moved : write_loop n 0 (store out n newline) c ≡ write_loop n 0 name c =
      write_loop-moved n 0 0 (store out n newline) name c (λ l lt. ground (arith, cells l lt)) in
    let last : store out n newline (0 + n) ≡ newline = ground arith in
    write_loop-append n 1 0 (store out n newline) c ∙ (rw (moved, last) refl)

dir_read-end :
    (fs stack buf : Bytes) (i : ℕ) → i ≡ word fs → dir_read fs stack i buf ≡ some (pos 0, buf, 0)
unfolding dir_read read_dentry_by_index
dir_read-end fs stack buf i e = ground arith

dir_read-same :
    (fs fs' stack buf out : Bytes) (i j n next : ℕ)
    → fs' ≡ fs
    → j ≡ i
    → dir_read fs stack i buf ≡ some (pos n, out, next)
    → dir_read fs' stack j buf ≡ some (pos n, out, next)
dir_read-same fs fs' stack buf out i j n next disk at e = rw (disk, at) e

-- A round of the loop, over any system calls.
module _ {S : Type 0} (calls : Calls S) (fuel : ℕ) (fd : ℤ) (buf out : Bytes) (m m₁ : S) where
  ls_loop-end :
      calls.ece391_read fd buf (pos 32) m ≡ some ((pos 0, out), m₁)
      → ls_loop calls (suc fuel) fd buf m ≡ some (pos 0, m₁)
  unfolding ls_loop
  ls_loop-end e = rw (◌>>=◌, e) refl

  ls_loop-next :
      (n : ℕ) (m₂ : S)
      → calls.ece391_read fd buf (pos 32) m ≡ some ((pos n, out), m₁)
      → n ≢ 0
      → calls.ece391_write (pos 1) (store out n newline) (pos (n + 1)) m₁ ≡ some (pos 0, m₂)
      → ls_loop calls (suc fuel) fd buf m ≡ ls_loop calls fuel fd (store out n newline) m₂
  unfolding ls_loop
  ls_loop-next n m₂ e ne f = let z : (n == 0) ≡ false = ground arith in rw (◌>>=◌, e, z, f) refl

-- A disk all of whose entries have names.
pub record IsNamed (fs : Bytes) : Type 0 where
  pub bytes : AreBytes fs
  pub names : (i : ℕ) → i < word fs → entry fs i 0 ≢ 0

module _ (w : Surroundings) (fs : Bytes) (p fd : ℕ) (named : IsNamed fs) where
  abbrev Lists : ℕ → ℕ → ℕ → Bytes → System → Type 0
  Lists fuel k i buf m =
      (m' : System) × (ls_loop (kernel_calls w) fuel (pos fd) buf m ≡ some (pos 0, m'))
      × ListsNames fs k i (m.kernel.console) (m'.kernel.console)
      × (m'.kernel.directory_index ≡ 0)

  IsShown-IsListing :
      (n : ℕ) (out : Bytes) (k k' : Kernel)
      → IsShown p out n k k'
      → IsListing p fd k
      → IsListing p fd k'
  IsShown-IsListing n out k k' s l = record {
    user = record {
      run = s.run;
      screen = rw (s.blocks) l.user.screen;
      screen_in_use = rw (s.blocks) l.user.screen_in_use;
    };
    table = rw (s.blocks) l.table;
    in_use = rw (s.blocks) l.in_use;
    fd_high = l.fd_high;
  }

  ls_loop-Lists :
      (k fuel i : ℕ) (buf : Bytes) (m : System)
      → IsListing p fd (m.kernel)
      → m.kernel.fs ≡ fs
      → m.kernel.directory_index ≡ i
      → i + k ≡ word fs
      → k < fuel
      → Lists fuel k i buf m
  unfolding ListsNames
  ls_loop-Lists k zero i buf m l disk at all enough = absurd (omega arith)
  ls_loop-Lists zero (suc fuel) i buf m l disk at all enough =
      let e : dir_read (m.kernel.fs) ((w.outside m.count).stack) (m.kernel.directory_index) buf
          ≡ some (pos 0, buf, 0) =
        rw (disk, at) (dir_read-end fs ((w.outside m.count).stack) buf i (omega arith)) in
      let r = kernel_read-directory w p fd m l 0 0 buf buf e in
      (
        record { kernel = record (m.kernel) { directory_index = 0 }; count = m.count + 1 },
        ls_loop-end (kernel_calls w) fuel (pos fd) buf buf m _ r,
        record { video = refl; cursor_x = refl; cursor_y = refl },
        refl,
      )
  ls_loop-Lists (suc k) (suc fuel) i buf m l disk at all enough =
      let d =
        dir_read-entry fs ((w.outside m.count).stack) named.bytes i buf (omega (arith, all)) in
      let n = d.0 in
      let out = d.1 in
      let line = store out n newline in
      let e : dir_read (m.kernel.fs) ((w.outside m.count).stack) (m.kernel.directory_index) buf
          ≡ some (pos n, out, i + 1) =
        dir_read-same fs (m.kernel.fs) ((w.outside m.count).stack) buf out i
          (m.kernel.directory_index) n (i + 1) disk at d.2 in
      let m₁ : System = record {
        kernel = record (m.kernel) { directory_index = i + 1 };
        count = m.count + 1;
      } in
      let r = kernel_read-directory w p fd m l n (i + 1) buf out e in
      let name = d.3 in
      let ne : n ≢ 0 =
        λ z. named.names i (omega (arith, all)) (rw z at (name.stop (omega (arith, z)))) in
      let put =
        kernel_write-screen w p (n + 1) line m₁ l.user.run l.user.screen l.user.screen_in_use
          (omega (arith, name.fits)) in
      let l₁ : IsListing p fd (m₁.kernel) = record {
        user = record {
          run = l.user.run;
          screen = l.user.screen;
          screen_in_use = l.user.screen_in_use;
        };
        table = l.table;
        in_use = l.in_use;
        fd_high = l.fd_high;
      } in
      let l₂ = IsShown-IsListing (n + 1) line (m₁.kernel) (put.0.kernel) put.2 l₁ in
      let ih =
        ls_loop-Lists k fuel (i + 1) line put.0 l₂ (put.2.disk ∙ disk) put.2.index
          (omega (arith, all)) (omega arith) in
      let shown : Shows (write_byte newline (write_loop n 0 (entry fs i) (m.kernel.console)))
          (put.0.kernel.console) =
        rw (sym (line-shown (entry fs i) out n (m.kernel.console) (λ j lt. ground (arith, d.4 j))))
          (put.2.shows) in
      (
        ih.0,
        ls_loop-next (kernel_calls w) fuel (pos fd) buf out m m₁ n put.0 r ne put.1 ∙ ih.1,
        (
          n,
          name,
          ListsNames-Shows fs k (i + 1) _ (put.0.kernel.console) (ih.0.kernel.console) shown ih.2,
        ),
        ih.3,
      )

-- `ls` on a disk all of whose entries have names, one of them found under "." and a directory, in a
-- process with the screen as descriptor 1 and another descriptor free, where no listing has been
-- broken off: it shows the names of all entries in their order, each on a line, returns 0, and the
-- next listing starts at the first entry again. A round for each entry and one more are enough.
pub ls_main-ListsNames :
    (w : Surroundings) (p fd fuel : ℕ) (d : Dentry) (buf : Bytes) (m : System)
    → IsNamed (m.kernel.fs)
    → IsUser p (m.kernel)
    → IsFile (literal ".") d (m.kernel)
    → fops_for d.file_type ≡ some dir_fops
    → IsFirstFree ((m.kernel.pcbs p).fd_array) 2 fd
    → fd < 8
    → m.kernel.directory_index ≡ 0
    → word (m.kernel.fs) < fuel
    → (m' : System) × (ls_main (kernel_calls w) fuel buf m ≡ some (pos 0, m'))
      × ListsNames (m.kernel.fs) (word (m.kernel.fs)) 0 (m.kernel.console) (m'.kernel.console)
      × (m'.kernel.directory_index ≡ 0)
unfolding ls_main put_fd
ls_main-ListsNames w p fd fuel d buf m named u file typed f lt at enough =
    let k₁ = put_fd p fd (opened dir_fops d.inode_num) (m.kernel) in
    let m₁ : System = record { kernel = k₁; count = m.count + 1 } in
    let e = kernel_open-directory w (literal ".") d m p fd file u.run typed f lt in
    let l = opened-IsListing p fd d.inode_num (m.kernel) u (omega (arith, f.lower)) lt in
    let r =
      ls_loop-Lists w (m.kernel.fs) p fd named (word (m.kernel.fs)) fuel 0 buf m₁ l refl at
        (omega arith) enough in
    (r.0, rw (◌>>=◌, e) r.1, r.2, r.3)
