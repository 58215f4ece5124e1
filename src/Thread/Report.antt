-- ===== src/Thread/Report.antt =====
-- What src/ar_thread.cpp tells about threads: the getters, ar_thread_get_stack_used and
-- ar_thread_get_report. `memory` is by byte address, with a word at each.
pub mod Prefix
use argon_rtos.Prelude.{
  ℕ, zero, suc, ◌+◌, ◌-◌, ◌*◌, not, Option, none, some, List, [], ◌∷◌, ◌++◌, ◌==◌, ltb,
  if◌then◌else◌, sub32, length,
}
use argon_rtos.Types.{Thread, ThreadState, unknown}
use argon_rtos.Kernel.{Kernel}
use argon_rtos.Kernel.Scheduler.{stack_check_value}

-- `ar_thread_get_state`, `ar_thread_get_priority`, `ar_thread_get_runloop` and `ar_thread_get_load`.
unfoldable pub get_state : Option ℕ → Kernel → ThreadState
get_state none k = unknown
get_state (some t) k = (k.threads.thread t).state

unfoldable pub get_priority : Option ℕ → Kernel → ℕ
get_priority none k = 0
get_priority (some t) k = (k.threads.thread t).priority

unfoldable pub get_run_loop : Option ℕ → Kernel → Option ℕ
get_run_loop none k = none
get_run_loop (some t) k = (k.threads.thread t).run_loop

unfoldable pub get_load : Option ℕ → Kernel → ℕ
get_load none k = 0
get_load (some t) k = (k.threads.thread t).permille_cpu

-- `kStackFillValue`.
abbrev pub stack_fill_value : ℕ
stack_fill_value = 0xbaba_baba

-- The loop of ar_thread_get_stack_used from address `at` on: the words that hold the fill value.
unfoldable pub count_unused : ℕ → (ℕ → ℕ) → (at top : ℕ) → ℕ
count_unused zero memory at top = 0
count_unused (suc fuel) memory at top =
    let rest = suc (count_unused fuel memory (at + 4) top) in
    if not (ltb at top) then 0 else if memory at == stack_fill_value then rest else 0

-- `ar_thread_get_stack_used` of a thread. The loop has a round for each word of the stack at most.
unfoldable pub stack_used : Thread → (ℕ → ℕ) → ℕ
stack_used x memory =
    if not (memory x.stack_bottom == stack_check_value)
    then 0
    else let stack = x.stack_bottom + 4 in
      let skips = memory (stack + 8) == stack_fill_value in
      let first = if skips then stack + 8 else stack in
      let unused =
        (if skips then 3 else 1)
        + count_unused (x.stack_top - x.stack_bottom) memory first x.stack_top in
      sub32 (sub32 x.stack_top x.stack_bottom) (unused * 4)

-- `ar_thread_status_t`.
pub record ThreadStatus : Type 0 where
  pub thread : ℕ
  pub name : ℕ
  pub unique_id : ℕ
  pub cpu : ℕ
  pub state : ThreadState
  pub max_stack_used : ℕ
  pub stack_size : ℕ

unfoldable pub thread_status : Kernel → ℕ → ThreadStatus
thread_status k t =
    let x = k.threads.thread t in
    record {
      thread = t;
      name = x.name;
      unique_id = x.unique_id;
      cpu = x.permille_cpu;
      state = x.state;
      max_stack_used = stack_used x k.objects.memory;
      stack_size = sub32 x.stack_top x.stack_bottom;
    }

-- The entries of one list, for at most `room` threads.
unfoldable pub report_list : Kernel → (room : ℕ) → List ℕ → List ThreadStatus
report_list k zero xs = []
report_list k (suc room) [] = []
report_list k (suc room) (t ∷ xs) = thread_status k t ∷ report_list k room xs

-- The entries of some lists.
unfoldable pub report_lists : Kernel → (room : ℕ) → List (List ℕ) → List ThreadStatus
report_lists k room [] = []
report_lists k room (xs ∷ rest) =
    let entries = report_list k room xs in entries ++ report_lists k (room - length entries) rest

-- `ar_thread_get_report` into an array of `max_entries`: the entries that it writes, as many as it
-- returns.
unfoldable pub get_report : (max_entries : ℕ) → Kernel → List ThreadStatus
get_report max_entries k =
    let l = k.threads in
    report_lists k max_entries (l.ready_list ∷ l.suspended_list ∷ l.sleeping_list ∷ [])

-- `ar_thread_get_name` and `ar_thread_get_current`.
unfoldable pub get_name : Option ℕ → Kernel → Option ℕ
get_name none k = none
get_name (some t) k = some (k.threads.thread t).name

unfoldable pub get_current : Kernel → Option ℕ
get_current k = k.current_thread
