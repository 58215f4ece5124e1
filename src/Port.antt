-- ===== src/Port.antt =====
-- The port to the Cortex-M processors, of src/cortex_m/ar_port.cpp, as far as it is not part of the
-- kernel's state: the SysTick timer, and the atomic operations of processors that lack them.
pub mod SysTick
pub mod Atomics
pub mod Handlers
pub mod Trace
