-- ===== src/Port/Handlers.antt =====
-- The exception handlers and the set-up of the processor, in src/cortex_m/ar_port.cpp. `fpu` is
-- whether the processor has a floating point unit, `__FPU_USED`.
use argon_rtos.Prelude.{ℕ, Bool, true, false, Option, none, some, ◌>>=◌, if◌then◌else◌, update}
use argon_rtos.Kernel.{Kernel, idle_thread}
use argon_rtos.Interrupt.{periodic_timer_isr, yield_isr}

-- `SysTick_Handler`.
unfoldable pub sys_tick_handler : Kernel → Option Kernel
sys_tick_handler k = periodic_timer_isr k

-- `_ar_thread_port_data` of every thread, and `g_ar_hasExtendedFrame`.
pub record PortData : Type 0 where
  pub thread_extended : ℕ → Bool
  pub has_extended_frame : Bool

-- Whether the current thread's frame is extended is saved, if there is a current thread.
unfoldable pub save_extended : Bool → Option ℕ → PortData → PortData
save_extended extended none d = d
save_extended extended (some t) d = record d {
  thread_extended = update d.thread_extended t extended;
}

-- `ar_port_yield_isr`: the stack pointer of the thread to run, and what the assembly code reads.
unfoldable pub port_yield_isr :
    (fpu : Bool) (fuel top_of_stack : ℕ) (extended : Bool)
    → PortData
    → Kernel
    → Option (ℕ × PortData × Kernel)
unfolding save_extended
port_yield_isr fpu fuel top_of_stack extended d k = do
  let d = if fpu then save_extended extended k.current_thread d else d
  (stack, k) ← yield_isr fuel top_of_stack k
  elim fpu [
    | true ↦ do
      t ← k.current_thread
      some (stack, record d { has_extended_frame = d.thread_extended t }, k)
    | false ↦ some (stack, d, k)
  ]

-- The exceptions of the kernel.
pub data Exception : Type 0 where
  sv_call pend_sv sys_tick : Exception

-- What ar_port_init_system sets: the access to the coprocessors, the bits ASPEN and LSPEN of the
-- floating point unit, the process stack pointer, and the priorities.
pub record System : Type 0 where
  pub coprocessor_access : Bool
  pub automatic_save : Bool
  pub lazy_save : Bool
  pub psp : ℕ
  pub priority : Exception → ℕ

-- `kHandlerPriority`.
abbrev pub handler_priority : ℕ
handler_priority = 0xff

-- The floating point unit is enabled, without lazy saving.
unfoldable pub enable_fpu : System → System
enable_fpu s = record s { coprocessor_access = true; automatic_save = true; lazy_save = false }

-- `ar_port_init_system`.
unfoldable pub init_system : (fpu : Bool) → Kernel → System → System
unfolding enable_fpu
init_system fpu k s =
    let s = if fpu then enable_fpu s else s in
    record s {
      psp = (k.threads.thread idle_thread).stack_pointer;
      priority = λ e. handler_priority;
    }
