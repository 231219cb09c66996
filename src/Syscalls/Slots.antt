-- ===== src/Syscalls/Slots.antt =====
-- The bitmap `processes` of student-distrib/syscalls.c: how `execute` takes a slot and how `halt`
-- gives it back.
use ece_391_linux_kernel_cla.Prelude.{
  ℕ, zero, suc, ◌+◌, ◌*◌, ◌<◌, ◌≤◌, ◌≡◌, ◌≢◌, refl, sym, Bool, true, false, ◌&&◌, not, ltb, leb,
  ◌!=◌, arith, [], ◌∷◌, Option, none, some, u8, ◌==◌, get_or, if◌then◌else◌, bit_and, bit_or,
  all_below, all_below_sound,
}

abbrev pub max_processes : ℕ
max_processes = 0x3F

abbrev pub max_processes_dec : ℕ
max_processes_dec = 6

-- The bit of slot `p`, which `p_mask` has after `p` shifts.
abbrev pub slot_bit : ℕ → ℕ
slot_bit zero = 1
slot_bit (suc p) = 2 * slot_bit p

-- The loop over `p_i` with `k` rounds left: the slot, and the bitmap with its bit set. With every
-- slot taken the loop ends at 6.
unfoldable pub slot_loop : ℕ → ℕ → ℕ → ℕ → ℕ × ℕ
slot_loop zero p_i p_mask processes = (p_i, processes)
slot_loop (suc k) p_i p_mask processes =
    let rest = slot_loop k (p_i + 1) (u8 (p_mask * 2)) processes in
    if bit_and processes p_mask == 0 then (p_i, bit_or processes p_mask) else rest

-- `execute` refuses (there with -10) when all six slots are taken.
unfoldable pub take_slot : ℕ → Option (ℕ × ℕ)
unfolding slot_loop
take_slot processes =
    if max_processes == processes then none else some (slot_loop max_processes_dec 0 1 processes)

-- `processes &= process_clear_bitmasks[p_i]`. Behind the six masks, where no process number points,
-- the mask counts as 0.
unfoldable pub clear_slot : ℕ → ℕ → ℕ
clear_slot p_i processes =
    bit_and processes (get_or (0x3e ∷ 0x3d ∷ 0x3b ∷ 0x37 ∷ 0x2f ∷ 0x1f ∷ []) p_i 0)

-- Is the slot taken?
abbrev pub taken : ℕ → ℕ → Bool
taken p processes = bit_and processes (slot_bit p) != 0

-- Slot `p` was the lowest free one, and taking it changes nothing else; clearing it undoes it.
pub record IsTaking (processes p after : ℕ) : Type 0 where
  pub bound : p < max_processes_dec
  pub free : taken p processes ≡ false
  pub lower : (q : ℕ) → q < p → taken q processes ≡ true
  pub set : taken p after ≡ true
  pub others : (q : ℕ) → q < 8 → q ≢ p → taken q after ≡ taken q processes
  pub undone : clear_slot p after ≡ processes
  pub small : after ≤ max_processes

abbrev same : Bool → Bool → Bool
same true b = b
same false b = not b

same-eq : (a b : Bool) → same a b ≡ true → a ≡ b
same-eq true b h = sym h
same-eq false false h = refl
same-eq false true h = h

-- The test at one slot `q`.
abbrev other_ok : ℕ → ℕ → ℕ → ℕ → Bool
other_ok processes p after q = if q == p then true else same (taken q after) (taken q processes)

abbrev lower_ok : ℕ → ℕ → ℕ → Bool
lower_ok processes p q = if ltb q p then taken q processes else true

-- The test at one bitmap.
unfoldable taking_ok : ℕ → ℕ → ℕ → Bool
taking_ok processes p after =
    ltb p max_processes_dec
    && not (taken p processes)
    && all_below 8 (lower_ok processes p)
    && taken p after
    && all_below 8 (other_ok processes p after)
    && (clear_slot p after == processes)
    && leb after max_processes

all_taking_ok : all_below 63 (λ b. taking_ok b (slot_loop 6 0 1 b).0 (slot_loop 6 0 1 b).1) ≡ true
unfolding all_below taking_ok slot_loop clear_slot
all_taking_ok = refl

taking_ok-IsTaking :
    (processes p after : ℕ) → taking_ok processes p after ≡ true → IsTaking processes p after
unfolding taking_ok
taking_ok-IsTaking processes p after h =
    let lo : all_below 8 (lower_ok processes p) ≡ true = ground arith in
    let ot : all_below 8 (other_ok processes p after) ≡ true = ground arith in
    let bound : p < max_processes_dec = ground arith in
    record {
      bound = bound;
      free = ground arith;
      lower = λ q lt.
          ground (arith, all_below_sound 8 (lower_ok processes p) lo q (omega (arith, bound)));
      set = ground arith;
      others = λ q lt ne.
          same-eq _ _ (ground (arith, all_below_sound 8 (other_ok processes p after) ot q lt));
      undone = ground arith;
      small = ground arith;
    }

pub slot_loop-IsTaking :
    (processes : ℕ)
    → processes < max_processes
    → IsTaking processes (slot_loop 6 0 1 processes).0 (slot_loop 6 0 1 processes).1
slot_loop-IsTaking processes h =
    taking_ok-IsTaking processes _ _ (all_below_sound 63 _ all_taking_ok processes h)

-- With one of the six slots free, taking a slot finds the lowest free one and sets its bit and no
-- other, and clearing the bit as `halt` does gives the bitmap before.
pub take_slot-IsTaking :
    (processes : ℕ)
    → processes < max_processes
    → (p : ℕ) × (after : ℕ) × (take_slot processes ≡ some (p, after)) × IsTaking processes p after
unfolding take_slot
take_slot-IsTaking processes h =
    let (p, after) = slot_loop 6 0 1 processes in
    (
      (slot_loop 6 0 1 processes).0,
      (slot_loop 6 0 1 processes).1,
      ground arith,
      slot_loop-IsTaking processes h,
    )

abbrev clear_ok : ℕ → ℕ → ℕ → Bool
clear_ok p b q = same (taken q (clear_slot p b)) (taken q b && (q != p))

all_clear_ok : all_below 6 (λ p. all_below 64 (λ b. all_below 6 (clear_ok p b))) ≡ true
unfolding all_below clear_slot
all_clear_ok = refl

all_clear_small : all_below 6 (λ p. all_below 64 (λ b. leb (clear_slot p b) max_processes)) ≡ true
unfolding all_below clear_slot
all_clear_small = refl

pub clear_slot-le :
    (p b : ℕ) → p < max_processes_dec → b ≤ max_processes → clear_slot p b ≤ max_processes
clear_slot-le p b hp hb =
    let e : leb (clear_slot p b) max_processes ≡ true =
      all_below_sound 64 (λ c. leb (clear_slot p c) max_processes)
        (all_below_sound 6 (λ r. all_below 64 (λ c. leb (clear_slot r c) max_processes))
          all_clear_small p hp)
        b (omega (arith, hb)) in
    ground (arith, e)

-- Clearing slot `p` as `halt` does frees that slot, and of the six slots no other.
pub clear_slot-taken :
    (p b q : ℕ)
    → p < max_processes_dec
    → b ≤ max_processes
    → q < max_processes_dec
    → taken q (clear_slot p b) ≡ (taken q b && (q != p))
clear_slot-taken p b q hp hb hq = same-eq _ _ (
    all_below_sound 6 (clear_ok p b)
      (all_below_sound 64 (λ c. all_below 6 (clear_ok p c))
        (all_below_sound 6 (λ r. all_below 64 (λ c. all_below 6 (clear_ok r c))) all_clear_ok p hp)
        b (omega (arith, hb)))
      q hq)
