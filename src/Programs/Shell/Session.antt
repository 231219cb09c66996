-- ===== src/Programs/Shell/Session.antt =====
-- What a user who types lines at the shell of syscalls/ece391shell.c gets, over any system calls.
use ece_391_linux_kernel_cla.Prelude.{
  ℕ, zero, suc, ◌+◌, ◌-◌, ◌≤◌, ◌<◌, ◌≡◌, ◌≢◌, inl, inr, refl, ◌∙◌, true, false, some, ℤ, pos,
  is_zero, Bytes, IsString, store, literal, ◌==◌, ltb, Bool-cases, all_below, all_below_sound, ◌!=◌,
  arith,
}
use ece_391_linux_kernel_cla.Support.{ece391_strcmp}
use ece_391_linux_kernel_cla.Support.Compare.{ece391_strcmp-IsString}
use ece_391_linux_kernel_cla.Programs.{Calls, ◌>>=◌, ece391_fdputs}
use ece_391_linux_kernel_cla.Programs.Shell.{trim, report, shell_loop}

abbrev exit : Bytes
exit = literal "exit"

-- A line of `n` characters and its newline.
pub record IsLine (out : Bytes) (n : ℕ) : Type 0 where
  pub body : (i : ℕ) → i < n → out i ≢ 0
  pub stop : out n ≡ 10
  pub short : n < 1023

-- The characters are those of "exit".
abbrev pub IsExit : Bytes → ℕ → Type 0
IsExit out n = (n ≡ 4) × ((j : ℕ) → 0 ≤ j → j < n → out j ≡ exit j)

nonzero : (a : ℕ) → (a != 0) ≡ true → a ≢ 0
nonzero a h = ground arith

exit-IsString : IsString exit 4
unfolding all_below
exit-IsString = record {
  body = λ i lt. nonzero (exit i) (all_below_sound 4 (λ j. exit j != 0) refl i lt);
  stop = refl;
}

-- The line as the shell goes on with it: the newline gives way to a NUL.
abbrev pub ended : Bytes → ℕ → Bytes
ended out n = store out n 0

ended-IsString : (out : Bytes) (n : ℕ) → IsLine out n → IsString (ended out n) n
ended-IsString out n l = record { body = λ i lt. ground (arith, l.body i lt); stop = ground arith }

trim-line : (out : Bytes) (n : ℕ) → IsLine out n → trim out (pos (n + 1)) ≡ pos n
unfolding trim
trim-line out n l =
    let e : n + 1 - 1 ≡ n = omega arith in
    let a : ltb 0 (n + 1) ≡ true = ground arith in
    let b : (out n == 10) ≡ true = ground (arith, l.stop) in rw (e, a, b) refl

module _ {S : Type 0} (calls : Calls S) where
  -- The prompt, and the line that is read then.
  pub record IsTyped (buf out : Bytes) (n : ℕ) (s s₂ : S) : Type 0 where
    pub between : S
    pub prompt : ece391_fdputs calls (pos 1) (literal "391OS> ") s ≡ some (tt, between)
    pub got : calls.ece391_read (pos 0) buf (pos 1023) between ≡ some ((pos (n + 1), out), s₂)
    pub line : IsLine out n

  -- A session: lines that are empty, or commands, which are executed one after the other with the
  -- shell's word on the result, and "exit" at the end.
  pub data Session : ℕ → Bytes → S → S → Type 0 where
    leave :
        {rounds : ℕ} {buf out : Bytes} {n : ℕ} {s s₂ : S}
        → IsTyped buf out n s s₂
        → IsExit out n
        → Session (suc rounds) buf s s₂
    nothing :
        {rounds : ℕ} {buf out : Bytes} {s s₂ s' : S}
        → IsTyped buf out 0 s s₂
        → Session rounds (ended out 0) s₂ s'
        → Session (suc rounds) buf s s'
    command :
        {rounds : ℕ} {buf out : Bytes} {n : ℕ} {rval : ℤ} {s s₂ s₃ s₄ s' : S}
        → IsTyped buf out n s s₂
        → 0 < n
        → ¬ IsExit out n
        → calls.ece391_execute (ended out n) s₂ ≡ some (rval, s₃)
        → report calls rval s₃ ≡ some (tt, s₄)
        → Session rounds (ended out n) s₄ s'
        → Session (suc rounds) buf s s'

  -- The comparison with "exit" ends, and tells an exit from any other line.
  compared :
      (out : Bytes) (n : ℕ)
      → IsLine out n
      → (r : ℤ) × (ece391_strcmp (ended out n) exit ≡ some r)
        × (IsExit out n → is_zero r ≡ true)
        × (¬ IsExit out n → is_zero r ≡ false)
  compared out n l =
      let c =
        ece391_strcmp-IsString (ended out n) exit n 4 (ended-IsString out n l) exit-IsString
          (omega (arith, l.short)) in
      (
        c.0,
        c.1,
        λ (four, h). c.2.1 (four, λ j a b. ground (arith, h j a b)),
        λ ne. elim (Bool-cases (is_zero c.0)) [
          | inl z ↦ absurd (ne ((c.2.0 z).0, λ j a b. ground (arith, (c.2.0 z).1 j a b)))
          | inr z ↦ z
        ],
      )

  module _ (fuel n : ℕ) (buf out : Bytes) (s s₂ : S) (t : IsTyped buf out n s s₂) where
    shell_loop-leave : IsExit out n → shell_loop calls (suc fuel) buf s ≡ some (pos 0, s₂)
    unfolding shell_loop
    shell_loop-leave h =
        let c = compared out n t.line in
        rw (◌>>=◌, t.prompt, t.got, trim-line out n t.line, c.1, c.2 h) refl

    shell_loop-nothing :
        n ≡ 0 → shell_loop calls (suc fuel) buf s ≡ shell_loop calls fuel (ended out n) s₂
    unfolding shell_loop
    shell_loop-nothing z =
        let c = compared out n t.line in
        let first : (ended out n 0 == 0) ≡ true = ground arith in
        rw
          (
            ◌>>=◌,
            t.prompt,
            t.got,
            trim-line out n t.line,
            c.1,
            c.3 (λ h. omega (arith, z, h.0)),
            trim-line out n t.line,
            first,
            trim-line out n t.line,
          )
          refl

    shell_loop-command :
        (rval : ℤ) (s₃ s₄ : S)
        → 0 < n
        → ¬ IsExit out n
        → calls.ece391_execute (ended out n) s₂ ≡ some (rval, s₃)
        → report calls rval s₃ ≡ some (tt, s₄)
        → shell_loop calls (suc fuel) buf s ≡ shell_loop calls fuel (ended out n) s₄
    unfolding shell_loop
    shell_loop-command rval s₃ s₄ some_text ne e f =
        let c = compared out n t.line in
        let first : (ended out n 0 == 0) ≡ false = ground (arith, t.line.body 0 some_text) in
        rw
          (
            ◌>>=◌,
            t.prompt,
            t.got,
            trim-line out n t.line,
            c.1,
            c.3 ne,
            trim-line out n t.line,
            first,
            trim-line out n t.line,
            e,
            f,
            trim-line out n t.line,
          )
          refl

  -- The shell carries out a session: it executes the commands of the lines in their order, each as a
  -- C string without its newline, passes over empty lines, and returns 0 after "exit". As many rounds
  -- of its loop as there are lines are enough, "exit" included.
  pub shell_loop-Session :
      (rounds : ℕ) (buf : Bytes) (s s' : S)
      → Session rounds buf s s'
      → shell_loop calls rounds buf s ≡ some (pos 0, s')
  shell_loop-Session zero buf s s' x = elim x [ ]
  shell_loop-Session (suc rounds) buf s s' (leave {out = out} {n = n} t h) =
      shell_loop-leave rounds n buf out s s' t h
  shell_loop-Session (suc rounds) buf s s' (nothing {out = out} {s₂ = s₂} t rest) =
      shell_loop-nothing rounds 0 buf out s s₂ t refl
      ∙ shell_loop-Session rounds (ended out 0) s₂ s' rest
  shell_loop-Session (suc rounds) buf s s'
        (command {out = out} {n = n} {rval = rval} {s₂ = s₂} {s₃ = s₃} {s₄ = s₄} t some_text ne e f
          rest) =
      shell_loop-command rounds n buf out s s₂ t rval s₃ s₄ some_text ne e f
      ∙ shell_loop-Session rounds (ended out n) s₄ s' rest
