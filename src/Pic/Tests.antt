-- ===== src/Pic/Tests.antt =====
-- Uses of the theorems on the interrupt masks: the clock and a second line of the slave chip.
use ece_391_linux_kernel_cla.Prelude.{◌-◌, ◌≡◌, ◌==◌, if◌then◌else◌, arith}
use ece_391_linux_kernel_cla.Pic.{Pic, enable_irq}
use ece_391_linux_kernel_cla.Pic.Masks.{bit, enable_irq-master}
use ece_391_linux_kernel_cla.Samples.{quiet}

abbrev masked : Pic
masked = record { master_mask = 255; slave_mask = 255; io = quiet }

test_master_line :
    (bit 1 (enable_irq 1 masked).master_mask
      ≡ (if 1 == 1 then 1 - bit 1 masked.master_mask else bit 1 masked.master_mask))
    × ((enable_irq 1 masked).slave_mask ≡ masked.slave_mask)
test_master_line = enable_irq-master 1 1 masked (omega arith) (omega arith) (omega arith)
