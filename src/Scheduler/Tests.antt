-- ===== src/Scheduler/Tests.antt =====
-- Two open terminals.
use ece_391_linux_kernel_cla.Prelude.{◌≡◌, refl, arith}
use ece_391_linux_kernel_cla.Samples.Shell.{frame, busy_kernel}
use ece_391_linux_kernel_cla.Scheduler.{switch_active_task, spins, quiet_tick, inter_pit}
use ece_391_linux_kernel_cla.Scheduler.Resumption.{
  resumption, switch_active_task-resumption, inter_pit-spins,
}
use ece_391_linux_kernel_cla.Syscalls.{Kernel}
use ece_391_linux_kernel_cla.Syscalls.Execute.{resumed}

-- In terminal 1, once left terminal 0.
abbrev away : Kernel
away = resumption 1 8000 8004 0 1 busy_kernel

left : switch_active_task 1 8000 8004 0 busy_kernel ≡ (1, resumed 6000 0 away)
left = switch_active_task-resumption 1 8000 8004 0 1 busy_kernel (omega arith) refl

test_inter_pit : inter_pit frame 0 busy_kernel ≡ spins 0 (quiet_tick busy_kernel)
test_inter_pit = inter_pit-spins frame 0 1 busy_kernel (omega arith) (omega arith) refl
