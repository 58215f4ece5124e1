-- ===== src/Thread/Consistent.antt =====
-- The invariant of the kernel's thread lists: each thread is on the list that its state names, on
-- no other one, and the ready and the sleeping list are sorted.
pub mod Moves
pub mod Puts
pub mod Steps
pub mod Create
pub mod Created
pub mod Delete
pub mod Leave
pub mod Ops
pub mod Priority
pub mod Resume
pub mod Suspend
use argon_rtos.Prelude.{ℕ, ◌≡◌, Bool, true, false, not, ◌&&◌, ◌==◌, has, Distinct, arith, refl}
use argon_rtos.Types.{
  Thread, ThreadState, unknown, suspended, ready, running, blocked, sleeping, done,
}
use argon_rtos.Kernel.{Threads}
use argon_rtos.Kernel.Lists.{sort_by_priority, sort_by_wakeup}
use argon_rtos.ArList.Seq.Sorted.{IsSorted, IsStrictWeak}

-- The states of the threads on the ready list.
abbrev pub is_ready : ThreadState → Bool
is_ready ready = true
is_ready running = true
is_ready _ = false

abbrev pub is_suspended : ThreadState → Bool
is_suspended suspended = true
is_suspended _ = false

-- The states of the threads on the sleeping list. A blocked thread is there if it has a timeout.
abbrev pub is_waiting : ThreadState → Bool
is_waiting blocked = true
is_waiting sleeping = true
is_waiting _ = false

abbrev pub is_sleeping : ThreadState → Bool
is_sleeping sleeping = true
is_sleeping _ = false

-- The shape of the lists, whatever the states are.
pub record IsShaped (l : Threads) : Type 0 where
  pub distinct_ready : Distinct l.ready_list
  pub distinct_suspended : Distinct l.suspended_list
  pub distinct_sleeping : Distinct l.sleeping_list
  pub sorted_ready : IsSorted (sort_by_priority l.thread) l.ready_list
  pub sorted_sleeping : IsSorted (sort_by_wakeup l.thread) l.sleeping_list

pub record IsConsistent (l : Threads) : Type 0 where
  pub shaped : IsShaped l
  pub ready_iff : (t : ℕ) → has t l.ready_list ≡ is_ready (l.thread t).state
  pub suspended_iff : (t : ℕ) → has t l.suspended_list ≡ is_suspended (l.thread t).state
  pub sleeping_waits : (t : ℕ) → has t l.sleeping_list ≡ true → is_waiting (l.thread t).state ≡ true
  pub sleeping_listed :
      (t : ℕ) → is_sleeping (l.thread t).state ≡ true → has t l.sleeping_list ≡ true

-- Thread `t` is on none of the lists, and every other one is where its state says.
pub record IsOff (t : ℕ) (l : Threads) : Type 0 where
  pub shaped : IsShaped l
  pub ready_off : has t l.ready_list ≡ false
  pub suspended_off : has t l.suspended_list ≡ false
  pub sleeping_off : has t l.sleeping_list ≡ false
  pub ready_iff : (u : ℕ) → (u == t) ≡ false → has u l.ready_list ≡ is_ready (l.thread u).state
  pub suspended_iff :
      (u : ℕ) → (u == t) ≡ false → has u l.suspended_list ≡ is_suspended (l.thread u).state
  pub sleeping_waits :
      (u : ℕ)
      → (u == t) ≡ false
      → has u l.sleeping_list ≡ true
      → is_waiting (l.thread u).state ≡ true
  pub sleeping_listed :
      (u : ℕ)
      → (u == t) ≡ false
      → is_sleeping (l.thread u).state ≡ true
      → has u l.sleeping_list ≡ true

pub sort_by_priority-IsStrictWeak : (thread : ℕ → Thread) → IsStrictWeak (sort_by_priority thread)
unfolding sort_by_priority
sort_by_priority-IsStrictWeak thread = record {
  asymm = λ a b h. ground arith;
  trans = λ a b c h k. ground arith;
}

pub sort_by_wakeup-IsStrictWeak : (thread : ℕ → Thread) → IsStrictWeak (sort_by_wakeup thread)
unfolding sort_by_wakeup
sort_by_wakeup-IsStrictWeak thread = record {
  asymm = λ a b h. ground arith;
  trans = λ a b c h k. ground arith;
}
