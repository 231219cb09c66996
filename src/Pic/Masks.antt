-- ===== src/Pic/Masks.antt =====
-- What `enable_irq` of student-distrib/i8259.c does to the masks: it flips bits.
use ece_391_linux_kernel_cla.Prelude.{
  ℕ, ◌+◌, ◌-◌, ◌/◌, ◌%◌, ◌^◌, ◌≤◌, ◌<◌, ◌≡◌, refl, Bool, true, ◌==◌, ==_iff, if◌then◌else◌, u8,
  bit_xor, arith, all_below, all_below_sound,
}
use ece_391_linux_kernel_cla.Pic.{Pic, enable_irq}

-- Bit `n` of a mask: 1 if the line is masked.
abbrev pub bit : ℕ → ℕ → ℕ
bit n mask = mask / 2 ^ n % 2

flips : ℕ → ℕ → ℕ → Bool
flips n k m = bit k (u8 (bit_xor (2 ^ n) m)) == (if n == k then 1 - bit k m else bit k m)

flips_table : all_below 8 (λ n. all_below 8 (λ k. all_below 256 (λ m. flips n k m))) ≡ true
unfolding all_below flips
flips_table = refl

bit-xor :
    (n k m : ℕ)
    → n < 8
    → k < 8
    → m < 256
    → bit k (u8 (bit_xor (2 ^ n) m)) ≡ (if n == k then 1 - bit k m else bit k m)
unfolding flips
bit-xor n k m hn hk hm = (==_iff _ _).0 (
    all_below_sound 256 (λ x. flips n k x)
      (all_below_sound 8 (λ y. all_below 256 (λ x. flips n y x))
        (all_below_sound 8 (λ z. all_below 8 (λ y. all_below 256 (λ x. flips z y x))) flips_table n
          hn)
        k hk)
      m hm)

undo_table : all_below 256 (λ m. u8 (bit_xor 4 (u8 (bit_xor 4 m))) == m) ≡ true
unfolding all_below
undo_table = refl

-- For a line of the master chip `enable_irq` flips the line's bit of the master mask, whichever way
-- it stood, and keeps every other bit and the slave mask. So a masked line comes free, and a second
-- call masks it again.
pub enable_irq-master :
    (irq k : ℕ) (s : Pic)
    → irq < 8
    → k < 8
    → s.master_mask < 256
    → (bit k (enable_irq irq s).master_mask
        ≡ (if irq == k then 1 - bit k s.master_mask else bit k s.master_mask))
      × ((enable_irq irq s).slave_mask ≡ s.slave_mask)
unfolding enable_irq
enable_irq-master irq k s hi hk hm = ground (arith, bit-xor irq k s.master_mask hi hk hm)

-- For a line of the slave chip `enable_irq` flips the line's bit of the slave mask, whichever way
-- it stood, and the bit of the cascade line 2 in the master mask too, and keeps all other bits.
pub enable_irq-slave :
    (irq k : ℕ) (s : Pic)
    → 8 ≤ irq
    → irq < 16
    → k < 8
    → s.master_mask < 256
    → s.slave_mask < 256
    → (bit k (enable_irq irq s).slave_mask
        ≡ (if irq == k + 8 then 1 - bit k s.slave_mask else bit k s.slave_mask))
      × (bit k (enable_irq irq s).master_mask
          ≡ (if 2 == k then 1 - bit k s.master_mask else bit k s.master_mask))
unfolding enable_irq
enable_irq-slave irq k s hl hi hk hm hs = ground (
  arith,
  bit-xor (irq - 8) k s.slave_mask (omega arith) hk hs,
  bit-xor 2 k s.master_mask (omega arith) hk hm,
)

-- Enabling two lines of the slave chip, one after the other, leaves the master mask as it was
-- before both: if the cascade line was masked, it is masked again.
pub enable_irq-cascade :
    (a b : ℕ) (s : Pic)
    → 8 ≤ a
    → a < 16
    → 8 ≤ b
    → b < 16
    → s.master_mask < 256
    → (enable_irq b (enable_irq a s)).master_mask ≡ s.master_mask
unfolding enable_irq
enable_irq-cascade a b s la ha lb hb hm =
    ground (arith, (==_iff _ _).0 (all_below_sound 256 _ undo_table s.master_mask hm))
