-- ===== src/Deferred/Contents.antt =====
-- The entries of the deferred action queue, in their order.
use mathlib.Core.List.{append_assoc}
use argon_rtos.Prelude.{
  ℕ, suc, ◌+◌, ◌%◌, ◌≡◌, ◌≤◌, ◌<◌, ◌∙◌, refl, ap, sym, subst, false, Option, none, some, ◌>>=◌,
  List, [], ◌∷◌, ◌++◌, ltb, not, ◌&&◌, ◌||◌, ◌==◌, if◌then◌else◌, set, length, length-set, arith,
  Returns,
}
use argon_rtos.Types.{success}
use argon_rtos.Kernel.{Kernel, Action, ActionQueue, ActionEntry, action_extra_value}
use argon_rtos.Kernel.Lock.{enter_scheduler, service_call}
use argon_rtos.Deferred.{
  deferred_action_queue_size, atomic_queue_insert, insert, write_entry, post, next_index, post_with,
}
use argon_rtos.Ring.{behind, values, values-set, next-behind}

-- The entries of a queue, first in first out.
abbrev pub actions : ActionQueue → List (Option ActionEntry)
actions q = values next_index q.entries q.first q.count

-- The queue has its size, the indices are inside, and the last one is behind the entries.
pub record IsActions (q : ActionQueue) : Type 0 where
  pub storage : length q.entries ≡ deferred_action_queue_size
  pub first : q.first < deferred_action_queue_size
  pub count : q.count ≤ deferred_action_queue_size
  pub last : q.last ≡ behind deferred_action_queue_size q.first q.count

pub step :
    (i : ℕ) → i < deferred_action_queue_size → next_index i ≡ behind deferred_action_queue_size i 1
unfolding next_index
step i l = ground arith

abbrev pub entry : Action → ℕ → ActionEntry
entry action object = record { action = action; object = object }

-- The queue with an entry more behind the others.
abbrev pub pushed : ActionEntry → ActionQueue → ActionQueue
pushed e q = record q {
  count = suc q.count;
  last = next_index q.last;
  entries = set q.entries q.last e;
}

module _ (e : ActionEntry) (q : ActionQueue) (w : IsActions q)
    (room : q.count < deferred_action_queue_size) where
  pub pushed-actions : actions (pushed e q) ≡ actions q ++ (some e ∷ [])
  pushed-actions =
      ap (λ j. values next_index (set q.entries j e) q.first (suc q.count)) w.last
      ∙ values-set deferred_action_queue_size next_index step e q.entries q.first q.count w.storage
          w.first room

  pub pushed-IsActions : IsActions (pushed e q)
  pushed-IsActions = record {
    storage = length-set q.entries q.last e ∙ w.storage;
    first = w.first;
    count = room;
    last =
        ap next_index w.last
        ∙ next-behind deferred_action_queue_size next_index step q.first q.count w.first room;
  }

-- The kernel with a queue that has changed, and a request to run it.
abbrev pub requested : ActionQueue → Kernel → Kernel
requested q k = enter_scheduler (record k { deferred_actions = q })

requested-queue : (q : ActionQueue) (k : Kernel) → (requested q k).deferred_actions ≡ q
unfolding enter_scheduler service_call
requested-queue q k = ground arith

-- The scheduler is asked to run, if the kernel runs: PendSV is pending if the kernel is not locked,
-- and otherwise the unlocking is to enter the scheduler. The threads and objects are as before.
pub record Requested (k k' : Kernel) : Type 0 where
  pub pend_sv : k'.port.pend_sv ≡ ((k.is_running && (k.lock_count == 0)) || k.port.pend_sv)
  pub needs_reschedule :
      k'.needs_reschedule ≡ (if k.is_running then not (k.lock_count == 0) else k.needs_reschedule)
  pub threads : k'.threads ≡ k.threads
  pub objects : k'.objects ≡ k.objects

requested-Requested : (q : ActionQueue) (k : Kernel) → Requested k (requested q k)
unfolding enter_scheduler service_call
requested-Requested q k = record {
  pend_sv = ground arith;
  needs_reschedule = ground arith;
  threads = ground arith;
  objects = ground arith;
}

insert-run :
    (n : ℕ) (q : ActionQueue)
    → q.count + n ≤ deferred_action_queue_size
    → insert n q
      ≡ some (
        q.last,
        record q { count = q.count + n; last = (q.last + n) % deferred_action_queue_size },
      )
unfolding insert atomic_queue_insert
insert-run n q room =
    let fits : ltb deferred_action_queue_size (q.count + n) ≡ false = ground arith in rw fits refl

module _ (q : ActionQueue) (w : IsActions q) where
  pub last-bound : q.last < deferred_action_queue_size
  last-bound = ground (arith, w.last, w.first, w.count)

  pub last-next : (q.last + 1) % deferred_action_queue_size ≡ next_index q.last
  unfolding next_index
  last-next = ground (arith, last-bound)

  last-next_next : (q.last + 2) % deferred_action_queue_size ≡ next_index (next_index q.last)
  unfolding next_index
  last-next_next = ground (arith, last-bound)

module _ (action : Action) (object arg : ℕ) (k : Kernel) where
  abbrev posted : ActionQueue
  posted = pushed (entry action object) k.deferred_actions

  abbrev posted_with : ActionQueue
  posted_with = pushed (entry action_extra_value arg) posted

  module _ (w : IsActions k.deferred_actions) where
    post-run :
        k.deferred_actions.count < deferred_action_queue_size
        → post action object k ≡ some (success, requested posted k)
    unfolding post write_entry
    post-run room =
        let up : k.deferred_actions.count + 1 ≡ suc k.deferred_actions.count = omega arith in
        simp
          (up, insert-run 1 k.deferred_actions (omega arith), ◌>>=◌, last-next k.deferred_actions w)

    post_with-run :
        k.deferred_actions.count + 2 ≤ deferred_action_queue_size
        → post_with action object arg k ≡ some (success, requested posted_with k)
    unfolding post_with write_entry
    post_with-run room =
        let up : k.deferred_actions.count + 2 ≡ suc (suc k.deferred_actions.count) = omega arith in
        simp (up, insert-run 2 k.deferred_actions room, ◌>>=◌, last-next_next k.deferred_actions w)

    -- A post of an action from an interrupt handler succeeds if the queue has room: the action and its
    -- object are behind the entries of the queue, in their order, and the queue stays well formed. If
    -- the kernel runs, the scheduler is asked to run: PendSV is pending if the kernel is not locked,
    -- and otherwise the unlocking is to enter the scheduler. No thread and no object changes.
    pub post-appends :
        k.deferred_actions.count < deferred_action_queue_size
        → Returns
            (λ r.
              (r.0 ≡ success)
              × (actions r.1.deferred_actions
                  ≡ actions k.deferred_actions ++ (some (entry action object) ∷ []))
              × IsActions r.1.deferred_actions
              × Requested k r.1)
            (post action object k)
    post-appends room =
        let same = requested-queue posted k in
        rw (post-run room) (
          refl,
          ap (λ q. actions q) same ∙ pushed-actions (entry action object) k.deferred_actions w room,
          subst (λ q. IsActions q) (sym same)
              (pushed-IsActions (entry action object) k.deferred_actions w room),
          requested-Requested posted k,
        )

    -- A post of an action and its argument takes two places.
    pub post_with-appends :
        k.deferred_actions.count + 2 ≤ deferred_action_queue_size
        → Returns
            (λ r.
              (r.0 ≡ success)
              × (actions r.1.deferred_actions
                  ≡ actions k.deferred_actions
                    ++ (some (entry action object) ∷ some (entry action_extra_value arg) ∷ []))
              × IsActions r.1.deferred_actions)
            (post_with action object arg k)
    post_with-appends room =
        let q = k.deferred_actions in
        let one : q.count < deferred_action_queue_size = omega arith in
        let two : posted.count < deferred_action_queue_size = omega arith in
        let extra = entry action_extra_value arg in
        let w' = pushed-IsActions (entry action object) q w one in
        let first = pushed-actions (entry action object) q w one in
        rw (post_with-run room, requested-queue posted_with k)
          (
            refl,
            pushed-actions extra posted w' two
                ∙ (ap (λ xs. xs ++ (some extra ∷ [])) first
                    ∙ append_assoc (actions q) (some (entry action object) ∷ []) (some extra ∷ [])),
            pushed-IsActions extra posted w' two,
          )

    -- A queue without room for the entry halts the processor.
    pub post-halts :
        k.deferred_actions.count ≡ deferred_action_queue_size → post action object k ≡ none
    unfolding post insert atomic_queue_insert
    post-halts full = rw full
