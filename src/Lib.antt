-- ===== src/Lib.antt =====
-- Verification of the Argon RTOS kernel: the lists, the time, the scheduler, the interrupt handlers,
-- the threads and the objects of the kernel, and its C++ classes, of src/*.cpp, src/cortex_m and
-- include/argon.
--
-- The parts of the program and their files:
-- - ArList (ArList.antt): the intrusive, circular, doubly linked lists, `_ar_list` and
--   `_ar_list_node` of src/ar_kernel.cpp. ArList/Nodes.antt is the pointer program, on links by
--   address, and ArList/Nodes/Check.antt its check of the links; ArList/Seq.antt is the sequence of the nodes, which all other parts compute with.
-- - Ring.antt: ring buffers in general. Message queues, the deferred actions and the functions of a
--   run loop are the three that the kernel has.
-- - Types.antt: the structures and enumerations of include/argon/ar_kernel.h.
-- - Kernel (Kernel.antt): `g_ar` of src/ar_internal.h, as a record that also holds the threads, the
--   objects by address, and what the port keeps of the processor. Kernel/Lists.antt has the three
--   thread lists, Kernel/Lock.antt the guards `KernelLock` and `KernelUnlock` and
--   ar_kernel_enter_scheduler, Kernel/Tick.antt the tick count and the threads that it wakes,
--   Kernel/Scheduler.antt ar_kernel_scheduler.
-- - Deferred.antt: the queue of the actions that interrupt handlers defer. Deferred/Concurrent.antt is
--   ar_kernel_atomic_queue_insert access by access, for callers that interrupt one another.
-- - Interrupt.antt: ar_kernel_periodic_timer_isr, ar_kernel_yield_isr,
--   ar_kernel_run_deferred_actions with the deferred action functions, and ar_kernel_run. The handler
--   yield_isr is composed of the tick, the deferred actions and the scheduler as the code does it.
-- - Thread (Thread.antt): ar_thread_resume, _suspend and _delete of src/ar_thread.cpp;
--   Thread/Create.antt ar_thread_create and ar_port_prepare_stack; Thread/Run.antt priorities, sleep
--   and the end of a thread; Thread/Report.antt the getters and the report.
--   Thread/Consistent.antt is the invariant of the thread lists.
-- - Block.antt: `_ar_thread::block` and `_ar_thread::unblockWithStatus`, and what the objects share.
-- - Semaphore.antt, Mutex.antt, Queue.antt and Channel.antt: src/ar_sem.cpp, src/ar_mutex.cpp,
--   src/ar_queue.cpp and src/ar_channel.cpp.
-- - Timer.antt and Timer/Fire.antt: src/ar_timer.cpp. RunLoop.antt and RunLoop/Run.antt:
--   src/ar_runloop.cpp. A timer belongs to a run loop, which runs it and which starting or stopping
--   it wakes; a queue makes itself pending at its run loop.
-- - Port.antt: of src/cortex_m/ar_port.cpp, the SysTick timer on its registers (Port/SysTick.antt),
--   the atomic operations that disable interrupts (Port/Atomics.antt), the exception handlers and the
--   set-up of the processor (Port/Handlers.antt), and the trace (Port/Trace.antt).
-- - Classes.antt: the C++ classes of include/argon/ar_classes.h, a module for each. Their methods pass
--   their arguments on to the operations above; Classes/Thread.antt is also the end of
--   src/ar_thread.cpp, with the stack that a `Thread` allocates and the entry points of its members.
-- - Main.antt: src/cortex_m/ar_main_thread.cpp, which creates the main thread with such an object and
--   starts the kernel with ar_kernel_run.
-- - Tests.antt: runs at concrete inputs, on the kernel of Tests/Sample.antt.
--
-- Operations take the kernel and return the kernel. An operation that can fail an assertion, halt
-- the processor, divide by zero or use a NULL pointer returns an Option, and `none` is that
-- failure. One use of NULL is not: ar_thread_resume and `unblockWithStatus` compare with the
-- priority of the current thread when there is none, up to the first run of the scheduler. The
-- processor reads a byte near address 0 there, which is a parameter (`null_priority` of
-- Kernel.antt). Removing a node from a list that it is not on is `none` too: what the links would
-- be is not followed. A pointer is a number, and an optional one where it may be NULL. A memcpy
-- of areas that overlap is `none` as well. Words of 32 bits wrap, written `u32`.
--
-- A call that blocks is split in two where the scheduler takes over: the first part returns an
-- `Outcome` that waits, and the second one runs when the scheduler comes back to the thread.
--
-- Code of the application is a parameter: the callbacks of the timers, and for ar_runloop_run the
-- functions, the handlers of the queues, and what the other threads do while its thread sleeps. So
-- are the entry points of the threads, and the heap behind `new` and `delete`, an `Allocator` of
-- Classes.antt: a block that is allocated was not in use, and freeing one leaves the others alone.
--
-- Bounds: the loops of ArList/Nodes.antt run on fuel, for which the length of the list is enough; the
-- check of a list has no fuel, but the room of its array. The loop that wakes threads runs on the
-- length of the sleeping list, and the loop that unblocks all threads of an object on one more than
-- the length of its blocked list; each round removes one node. The loop over the deferred actions
-- runs on fuel, for which one more than the number of entries is enough if no action posts another
-- one. The loops over the timers and of a run loop run on fuel without a bound, since a callback can
-- start a timer again, and so does the wait for a port of the trace, which the hardware ends.
--
-- The build is the default one for a release: tickless idle, system load, no global lists of
-- objects, no fill pattern. The trace and the check of the lists, which it leaves out, are modelled
-- by themselves. Operations but the insertion into a queue and the atomic operations of
-- Port/Atomics.antt, between whose accesses interrupt handlers run, run one at a time: an interrupt
-- between two steps of one operation is not modelled. The kernel takes the time since the timer was set as a
-- field of its state; how the registers of the timer give it is in Port/SysTick.antt.
--
-- Not modelled: the atomic operations and the exception handlers in assembly, each of which is one
-- step here; what the C library does before the main thread is created; the lists of all objects for
-- the debugger; the tests.
pub mod Prelude
pub mod ArList
pub mod Types
pub mod Kernel
pub mod Deferred
pub mod Thread
pub mod Block
pub mod Semaphore
pub mod Mutex
pub mod Ring
pub mod RunLoop
pub mod Timer
pub mod Queue
pub mod Channel
pub mod Interrupt
pub mod Port
pub mod Classes
pub mod Main
pub mod Tests
