-- ===== src/Kernel/Tick/Wake.antt =====
-- Waking one thread in ar_kernel_increment_tick_count.
use argon_rtos.Prelude.{
  ℕ, ◌≡◌, ◌≢◌, refl, true, some, ◌>>=◌, arith, ap, if◌then◌else◌, has, Returns,
}
use argon_rtos.Types.{timeout_error, ThreadState, ready, blocked, sleeping}
use argon_rtos.Kernel.{Kernel, Threads}
use argon_rtos.Kernel.Lists.{set_state, set_unblock_status, sort_by_priority}
use argon_rtos.Kernel.Tick.{time_out, wake}
use argon_rtos.Thread.{set_threads}
use argon_rtos.Thread.Consistent.{is_waiting, IsConsistent, IsOff}
use argon_rtos.Thread.Consistent.Moves.{drop_sleeping, put_ready, drop_sleeping-IsOff}
use argon_rtos.Thread.Consistent.Puts.{with_thread-IsOff, ready_add-put, sleeping_remove-drop}
use argon_rtos.Thread.Consistent.Steps.{head-add, round_robin_updated, update_round_robin-ok}
use argon_rtos.Thread.Consistent.Ops.{make_ready-IsConsistent}
use argon_rtos.Block.{is_blocked}
use argon_rtos.ArList.Seq

-- Thread `t` was woken: it is ready, off the sleeping list, and if it was blocked its call will
-- return the timeout error. Other threads and objects, and the time, are as before.
pub record Woken (t : ℕ) (k k' : Kernel) : Type 0 where
  pub consistent : IsConsistent k'.threads
  pub state : (k'.threads.thread t).state ≡ ready
  pub status : (k'.threads.thread t).unblock_status ≡ (
      if is_blocked (k.threads.thread t).state
      then timeout_error
      else (k.threads.thread t).unblock_status)
  pub asleep : k'.threads.sleeping_list ≡ Seq.remove t k.threads.sleeping_list
  pub others : (u : ℕ) → u ≢ t → k'.threads.thread u ≡ k.threads.thread u
  pub stack_pointer : (k'.threads.thread t).stack_pointer ≡ (k.threads.thread t).stack_pointer
  pub stack_bottom : (k'.threads.thread t).stack_bottom ≡ (k.threads.thread t).stack_bottom
  pub objects : k'.objects ≡ k.objects
  pub current_thread : k'.current_thread ≡ k.current_thread
  pub lock_count : k'.lock_count ≡ k.lock_count
  pub deferred_actions : k'.deferred_actions ≡ k.deferred_actions
  pub tick_count : k'.tick_count ≡ k.tick_count

-- The threads once `t` was taken off the sleeping list of `l` and made ready.
abbrev woken : ℕ → Threads → Threads
woken t l = put_ready t (set_state t ready (drop_sleeping t l))

wake-run :
    (t : ℕ) (k : Kernel) (l : Threads)
    → time_out t (k.threads.thread t).state k.threads ≡ some l
    → has t l.sleeping_list ≡ true
    → IsOff t (drop_sleeping t l)
    → wake t k ≡ some (round_robin_updated (set_threads (woken t l) k))
unfolding wake set_state
wake-run t k l e m o =
    let d = drop_sleeping t l in
    let s = set_state t ready d in
    let (h, eh) = head-add (sort_by_priority s.thread) t s.ready_list in
    let off = with_thread-IsOff t (record (d.thread t) { state = ready }) d o in
    rw (e, ◌>>=◌, sleeping_remove-drop t l m, ◌>>=◌, ready_add-put t s off, ◌>>=◌)
      (update_round_robin-ok (set_threads (woken t l) k) h eh)

module _ (t : ℕ) (k : Kernel) (c : IsConsistent k.threads)
    (m : has t k.threads.sleeping_list ≡ true) where
  asleep-Woken : (k.threads.thread t).state ≡ sleeping → Returns (Woken t k) (wake t k)
  unfolding time_out set_state round_robin_updated
  asleep-Woken e =
      let o = drop_sleeping-IsOff t k.threads c m in
      rw (wake-run t k k.threads (ap (λ s. time_out t s k.threads) e) m o) (record {
        consistent = make_ready-IsConsistent t (drop_sleeping t k.threads) o;
        state = ground arith;
        status = ground arith;
        asleep = refl;
        others = λ u n. ground arith;
        stack_pointer = ground arith;
        stack_bottom = ground arith;
        objects = refl;
        current_thread = refl;
        lock_count = refl;
        deferred_actions = refl;
        tick_count = refl;
      })

  timed_out-Woken : (k.threads.thread t).state ≡ blocked → Returns (Woken t k) (wake t k)
  unfolding time_out set_state set_unblock_status round_robin_updated
  timed_out-Woken e =
      let o =
        with_thread-IsOff t (record (k.threads.thread t) { unblock_status = timeout_error })
          (drop_sleeping t k.threads) (drop_sleeping-IsOff t k.threads c m) in
      let l = set_unblock_status t timeout_error k.threads in
      rw (wake-run t k l (ap (λ s. time_out t s k.threads) e) m o) (record {
        consistent = make_ready-IsConsistent t (drop_sleeping t l) o;
        state = ground arith;
        status = ground arith;
        asleep = refl;
        others = λ u n. ground arith;
        stack_pointer = ground arith;
        stack_bottom = ground arith;
        objects = refl;
        current_thread = refl;
        lock_count = refl;
        deferred_actions = refl;
        tick_count = refl;
      })

  wake-in :
      (s : ThreadState)
      → (k.threads.thread t).state ≡ s
      → is_waiting s ≡ true
      → Returns (Woken t k) (wake t k)
  wake-in sleeping e w = asleep-Woken e
  wake-in blocked e w = timed_out-Woken e
  wake-in _ e w = cc

  -- On consistent lists a sleeping thread is woken without a halt.
  pub wake-Woken : Returns (Woken t k) (wake t k)
  wake-Woken = wake-in (k.threads.thread t).state refl (c.sleeping_waits t m)
