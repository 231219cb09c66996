-- ===== src/Programs/Emulate/Entries.antt =====
-- What a read of the directory delivers in syscalls/ece391emulate.c.
use ece_391_linux_kernel_cla.Prelude.{
  ℕ, zero, suc, ◌+◌, ◌-◌, ◌≤◌, ◌<◌, ◌≡◌, ◌∙◌, ap, refl, min, ◌&&◌, some, Bytes, IsString, store,
  ltb, leb, if◌then◌else◌, true, false, ℕ_discrete, dec_lt, arith,
}
use ece_391_linux_kernel_cla.Programs.Emulate.{name_copy, pad_name, read_name}

pad_name-cells :
    (k nbytes copied : ℕ) (to : Bytes) (j : ℕ)
    → ((pad_name k nbytes to copied).1
        ≡ (if ltb copied (min nbytes (copied + k)) then min nbytes (copied + k) else copied))
      × ((pad_name k nbytes to copied).0 j
          ≡ (if leb copied j && ltb j (min nbytes (copied + k)) then 0 else to j))
unfolding pad_name
pad_name-cells zero nbytes copied to j = (ground arith, ground arith)
pad_name-cells (suc k) nbytes copied to j =
    let ih = pad_name-cells k nbytes (copied + 1) (store to copied 0) j in
    (ground (arith, ih.0), ground (arith, ih.1))

name_copy-cells :
    (fuel i nbytes len : ℕ) (from to : Bytes)
    → IsString from len
    → i ≤ len
    → i < min nbytes 32
    → 32 < fuel + i
    → (out : Bytes) × (name_copy fuel from nbytes to i
        ≡ some (ltb len (min nbytes 32), out, min len (min nbytes 32)))
      × ((j : ℕ) → out j ≡ (if leb i j && ltb j (min len (min nbytes 32)) then from j else to j))
unfolding name_copy
name_copy-cells zero i nbytes len from to s le lt enough = absurd (omega arith)
name_copy-cells (suc fuel) i nbytes len from to s le lt enough = elim (ℕ_discrete i len) [
  | yes e ↦ (to, ground (arith, s.stop), λ j. ground arith)
  | no ne ↦
      let live = s.body i (omega (arith, ne)) in
      elim (ℕ_discrete (i + 1) (min nbytes 32)) [
        | yes last ↦ (store to i (from i), ground (arith, live), λ j. ground (arith, ne))
        | no more ↦
            let ih =
              name_copy-cells fuel (i + 1) nbytes len from (store to i (from i)) s
                (omega (arith, ne)) (omega (arith, more)) (omega arith) in
            (ih.0, ground (arith, live, ih.1), λ j. ground (arith, ih.2 j, ne))
      ]
]

read_name-ended :
    (nbytes n : ℕ) (from buf to : Bytes)
    → name_copy 33 from nbytes buf 0 ≡ some (true, to, n)
    → read_name from buf nbytes
      ≡ some ((pad_name (32 - n) nbytes to n).1, (pad_name (32 - n) nbytes to n).0)
unfolding read_name
read_name-ended nbytes n from buf to e = rw (read_name, e) refl

read_name-cut :
    (nbytes n : ℕ) (from buf to : Bytes)
    → name_copy 33 from nbytes buf 0 ≡ some (false, to, n)
    → read_name from buf nbytes ≡ some (n, to)
unfolding read_name
read_name-cut nbytes n from buf to e = rw (read_name, e) refl

padded-count :
    (nbytes len : ℕ) (to : Bytes)
    → len < min nbytes 32
    → (pad_name (32 - len) nbytes to len).1 ≡ min nbytes 32
padded-count nbytes len to short =
    let p : min nbytes (len + (32 - len)) ≡ min nbytes 32 = omega (arith, short) in
    let t : ltb len (min nbytes (len + (32 - len))) ≡ true = rw p (ground (arith, short)) in
    (pad_name-cells (32 - len) nbytes len to 0).0 ∙ (rw (t, p) refl)

-- A read of at least one byte of the emulated directory delivers the first 32 bytes of the entry's
-- name, or as many as asked for, filled up with zeros behind a shorter name, and returns the count
-- with the zeros, where the kernel's `dir_read` returns the length of the name. It writes no cell
-- behind these.
pub read_name-cells :
    (nbytes len : ℕ) (from buf : Bytes)
    → IsString from len
    → 0 < nbytes
    → let n = min nbytes 32 in
      (out : Bytes) × (read_name from buf nbytes ≡ some (n, out))
      × ((j : ℕ) → out j ≡ (if ltb j (min len n) then from j else if ltb j n then 0 else buf j))
read_name-cells nbytes len from buf s h =
    let c = name_copy-cells 33 0 nbytes len from buf s (omega arith) (omega arith) (omega arith) in
    let pad = pad_name-cells (32 - len) nbytes len c.0 in
    elim (dec_lt len (min nbytes 32)) [
      | yes short ↦
          let m : min len (min nbytes 32) ≡ len = omega (arith, short) in
          let t : ltb len (min nbytes 32) ≡ true = ground (arith, short) in
          let p : min nbytes (len + (32 - len)) ≡ min nbytes 32 = omega (arith, short) in
          (
            (pad_name (32 - len) nbytes c.0 len).0,
            read_name-ended nbytes len from buf c.0 (c.1 ∙ (rw (t, m) refl))
                ∙ ap (λ n. some (n, (pad_name (32 - len) nbytes c.0 len).0))
                    (padded-count nbytes len c.0 short),
            λ j. (pad j).1 ∙ rw p (ground (arith, c.2 j, m)),
          )
      | no long ↦
          let m : min len (min nbytes 32) ≡ min nbytes 32 = omega (arith, long) in
          let t : ltb len (min nbytes 32) ≡ false = ground (arith, long) in
          (
            c.0,
            read_name-cut nbytes (min nbytes 32) from buf c.0 (c.1 ∙ (rw (t, m) refl)),
            λ j. ground (arith, c.2 j, m),
          )
    ]
