-- ===== src/Kernel/Lock.antt =====
-- Entering the scheduler, and the guards that lock and unlock the kernel: ar_kernel_enter_scheduler
-- of src/ar_kernel.cpp, `KernelGuard` of src/ar_internal.h, and ar_port_service_call of the port.
use argon_rtos.Prelude.{
  ◌+◌, ◌-◌, true, false, not, ◌&&◌, Option, some, ◌>>◌, ◌==◌, assert, if◌then◌else◌,
}
use argon_rtos.Kernel.{Kernel}

-- `ar_port_service_call`: PendSV becomes pending.
unfoldable pub service_call : Kernel → Kernel
service_call k = record k { port = record (k.port) { pend_sv = true } }

-- `ar_kernel_enter_scheduler`.
unfoldable pub enter_scheduler : Kernel → Kernel
unfolding service_call
enter_scheduler k =
    if not k.is_running
    then k
    else if k.lock_count == 0
    then service_call (record k { needs_reschedule = false })
    else record k { needs_reschedule = true }

-- The constructor of `KernelLock`.
unfoldable pub lock : Kernel → Kernel
lock k = record k { lock_count = k.lock_count + 1 }

-- The destructor of `KernelLock`.
unfoldable pub unlock : Kernel → Option Kernel
unfolding enter_scheduler
unlock k = do
  assert (not (k.lock_count == 0))
  let k = record k { lock_count = k.lock_count - 1 }
  some (
      if (k.lock_count == 0) && (k.needs_reschedule && not k.is_running_deferred)
      then enter_scheduler k
      else k)

-- The constructor of `KernelUnlock`.
unfoldable pub begin_unlock : Kernel → Option Kernel
begin_unlock k = do
  assert (not (k.lock_count == 0))
  some (record k { lock_count = k.lock_count - 1 })

-- The destructor of `KernelUnlock`.
unfoldable pub end_unlock : Kernel → Kernel
end_unlock k = record k { lock_count = k.lock_count + 1 }
