-- ===== src/Timer/Fire.antt =====
-- ar_kernel_run_timers of src/ar_timer.cpp: the callbacks of the timers whose time has come.
use argon_rtos.Prelude.{
  ℕ, zero, suc, ◌+◌, ◌*◌, ◌/◌, Bool, true, false, Option, none, some, ◌>>=◌, List, [], ◌∷◌, ◌==◌,
  ltb, if◌then◌else◌, u32, sub32,
}
use argon_rtos.Types.{TimerMode, one_shot, periodic}
use argon_rtos.Kernel.{Kernel}
use argon_rtos.Timer.{set_timer, start_internal, stop}
use argon_rtos.ArList.Seq

-- The delay from wakeup time `w` to the next one that is aligned to the period `d`. A division by
-- zero, which C++ leaves undefined, is `none`.
unfoldable pub aligned_delta : (w d tick : ℕ) → Option ℕ
aligned_delta w d tick =
    if d == 0 then none else some (u32 (sub32 (u32 (sub32 tick w + d)) 1 / d * d))

-- The next wakeup time of a periodic timer with wakeup time `w` and delay `d`.
unfoldable pub reschedule : (w d tick : ℕ) → Option ℕ
reschedule w d tick =
    let next = u32 (w + d) in
    if next == tick
    then some (u32 (next + d))
    else if ltb next tick
    then (aligned_delta w d tick >>= λ delta. some (u32 (w + delta)))
    else some next

-- What follows the callback of an active timer.
unfoldable pub after_callback : TimerMode → ℕ → Kernel → Option Kernel
after_callback one_shot t k = stop (some t) k >>= λ r. some r.1
after_callback periodic t k = do
  let x = k.objects.timer t
  wakeup ← reschedule x.wakeup_time x.delay k.tick_count
  r ← start_internal t wakeup k
  some r.1

abbrev pub set_running : Bool → ℕ → Kernel → Kernel
set_running b t k = set_timer t (record (k.objects.timer t) { is_running = b }) k

-- Whether the next node is the head of the list, both of which may be NULL.
abbrev pub is_head : Option ℕ → List ℕ → Bool
is_head none [] = true
is_head none (x ∷ xs) = false
is_head (some t) [] = false
is_head (some t) (x ∷ xs) = t == x

-- `call f t p` is the effect of the callback at address `f`, on timer `t` with parameter `p`.
module _ (call : (f t p : ℕ) → Kernel → Option Kernel) where
  -- One timer whose time has come.
  unfoldable pub fire : ℕ → Kernel → Option Kernel
  fire t k = do
    f ← (k.objects.timer t).callback
    k ← call f t (k.objects.timer t).param (set_running true t k)
    let k = set_running false t k
    if (k.objects.timer t).is_active then after_callback (k.objects.timer t).mode t k else some k

  -- The loop of ar_kernel_run_timers at a node, on the timers of run loop `r`.
  unfoldable pub run_timers_from : ℕ → ℕ → Option ℕ → Kernel → Option Kernel
  run_timers_from zero r at k = none
  run_timers_from (suc fuel) r at k = do
    t ← at
    elim (ltb k.tick_count (k.objects.timer t).wakeup_time) [
      | true ↦ some k
      | false ↦ do
        k ← fire t k
        let following = Seq.next t (k.objects.run_loop r).timers
        elim (is_head following (k.objects.run_loop r).timers) [
          | true ↦ some k
          | false ↦ run_timers_from fuel r following k
        ]
    ]

  -- `ar_kernel_run_timers`.
  unfoldable pub run_timers : ℕ → ℕ → Kernel → Option Kernel
  unfolding run_timers_from
  run_timers fuel r k = elim (k.objects.run_loop r).timers [
    | [] ↦ some k
    | x ∷ xs ↦ run_timers_from fuel r (some x) k
  ]
