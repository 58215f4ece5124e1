-- ===== src/Interrupt/Commands.antt =====
-- The deferred action queue of src/ar_kernel.cpp as a list of commands.
use argon_rtos.Prelude.{
  ℕ, zero, suc, ◌-◌, ◌≡◌, ◌<◌, ◌∙◌, refl, sym, ap, Bool, true, false, Option, some, ◌>>=◌, List, [],
  ◌∷◌, ◌++◌, ◌==◌, if◌then◌else◌, get_elem?, arith, subst,
}
use argon_rtos.Kernel.{
  Kernel, Action, ActionQueue, ActionEntry, action_extra_value, deferred_resume, deferred_suspend,
  deferred_semaphore_get, deferred_semaphore_put, deferred_mutex_get, deferred_mutex_put,
  deferred_queue_send, deferred_channel_send, deferred_timer_start, deferred_timer_stop,
}
use argon_rtos.Deferred.{deferred_action_queue_size, next_index}
use argon_rtos.Deferred.Contents.{actions, IsActions, entry, step}
use argon_rtos.Interrupt.{run_action, drop_entry}
use argon_rtos.Ring
use argon_rtos.Ring.{next-bound, behind, behind-suc, get_elem?-some}

-- A call that an interrupt handler has deferred.
pub record Command : Type 0 where
  pub action : Action
  pub object : ℕ
  pub arg : ℕ

-- Whether a call of the action was posted with an argument.
unfoldable pub takes_argument : Action → Bool
takes_argument deferred_queue_send = true
takes_argument deferred_channel_send = true
takes_argument deferred_timer_start = true
takes_argument _ = false

-- The entries that a post of the command appends.
unfoldable pub entries_of : Command → List (Option ActionEntry)
entries_of c =
    if takes_argument c.action
    then some (entry c.action c.object) ∷ some (entry action_extra_value c.arg) ∷ []
    else some (entry c.action c.object) ∷ []

unfoldable pub all_entries : List Command → List (Option ActionEntry)
all_entries [] = []
all_entries (c ∷ cs) = entries_of c ++ all_entries cs

-- The front entry leaves the queue.
abbrev pub dropped : Kernel → Kernel
dropped k = record k {
  deferred_actions = drop_entry (next_index k.deferred_actions.first) k.deferred_actions;
}

-- The entries of a command leave the queue.
unfoldable pub behind_command : Command → Kernel → Kernel
behind_command c k = if takes_argument c.action then dropped (dropped k) else dropped k

-- The commands run one after another. The entries of each leave the queue behind its call.
unfoldable pub run_commands : List Command → Kernel → Option Kernel
run_commands [] k = some k
run_commands (c ∷ cs) k = do
  k ← run_action c.action c.object c.arg k
  run_commands cs (behind_command c k)

pub unused_argument :
    (a : Action) (object x y : ℕ) (k : Kernel)
    → takes_argument a ≡ false
    → run_action a object x k ≡ run_action a object y k
unfolding run_action takes_argument
unused_argument deferred_resume o x y k e = refl
unused_argument deferred_suspend o x y k e = refl
unused_argument deferred_semaphore_get o x y k e = refl
unused_argument deferred_semaphore_put o x y k e = refl
unused_argument deferred_mutex_get o x y k e = refl
unused_argument deferred_mutex_put o x y k e = refl
unused_argument deferred_queue_send o x y k e = cc
unused_argument deferred_channel_send o x y k e = cc
unused_argument deferred_timer_start o x y k e = cc
unused_argument deferred_timer_stop o x y k e = refl
unused_argument action_extra_value o x y k e = refl

-- The queue has a front entry `e`, and `rest` behind it.
pub record IsFront (e : ActionEntry) (rest : List (Option ActionEntry)) (q : ActionQueue)
    : Type 0 where
  pub more : (q.count == 0) ≡ false
  pub at_first : get_elem? q.entries q.first ≡ some e
  pub behind_it : actions (drop_entry (next_index q.first) q) ≡ rest
  pub remains : IsActions (drop_entry (next_index q.first) q)

pub values-IsFront :
    (e : ActionEntry) (rest : List (Option ActionEntry)) (q : ActionQueue) (n : ℕ)
    → IsActions q
    → q.count ≡ n
    → Ring.values next_index q.entries q.first n ≡ some e ∷ rest
    → IsFront e rest q
unfolding drop_entry
values-IsFront e rest q zero w c h = cc
values-IsFront e rest q (suc n) w c h =
    let less : q.count - 1 ≡ n = omega arith in
    record {
      more = ground arith;
      at_first = cc;
      behind_it = rw less cc;
      remains = record {
        storage = w.storage;
        first = next-bound deferred_action_queue_size next_index step q.first w.first;
        count = omega (arith, w.count);
        last =
            w.last
            ∙ (ap (λ m. behind deferred_action_queue_size q.first m) c
                ∙ (sym (
                      behind-suc deferred_action_queue_size next_index step q.first n w.first
                        (omega (arith, w.count)))
                    ∙ ap (λ m. behind deferred_action_queue_size (next_index q.first) m)
                        (sym less)));
      };
    }

-- There is an entry at the index behind the first one.
pub second-some :
    (q : ActionQueue)
    → IsActions q
    → (x : ActionEntry) × (get_elem? q.entries (next_index q.first) ≡ some x)
second-some q w = get_elem?-some q.entries (next_index q.first) (
    subst (λ n. next_index q.first < n) (sym w.storage)
      (next-bound deferred_action_queue_size next_index step q.first w.first))
