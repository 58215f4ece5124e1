-- ===== src/Interrupt/Deferral.antt =====
-- The loop of ar_kernel_run_deferred_actions in src/ar_kernel.cpp, command by command.
use argon_rtos.Prelude.{
  ℕ, suc, ◌≡◌, ◌∙◌, refl, sym, ap, ap₂, false, Option, none, some, ◌>>=◌, List, ◌∷◌, get_elem?,
  subst, May, May-some,
}
use argon_rtos.Kernel.{Kernel, ActionQueue, ActionEntry, action_extra_value}
use argon_rtos.Deferred.{next_index}
use argon_rtos.Deferred.Contents.{actions, IsActions, entry}
use argon_rtos.Interrupt.{run_action, run_entry, drop_entry, run_entries}
use argon_rtos.Interrupt.Commands.{
  Command, takes_argument, dropped, unused_argument, IsFront, values-IsFront, second-some,
}

-- One round of the loop.
entries-step :
    (fuel : ℕ) (e x : ActionEntry) (rest : List (Option ActionEntry)) (k : Kernel)
    → IsFront e rest k.deferred_actions
    → get_elem? k.deferred_actions.entries (next_index k.deferred_actions.first) ≡ some x
    → run_entries (suc fuel) k.deferred_actions.first k ≡ (
        run_action e.action e.object x.object k >>= λ k'.
        run_entries fuel (next_index k.deferred_actions.first) (record k' {
          deferred_actions = drop_entry (next_index k.deferred_actions.first) k'.deferred_actions;
        }))
unfolding run_entries run_entry
entries-step fuel e x rest k f s =
    rw (run_entries, f.more, run_entry, f.at_first, ◌>>=◌, s, ◌>>=◌) refl

-- The call of a command from a kernel leaves the queue of deferred actions as it is, if it returns.
unfoldable pub QuietFrom : Kernel → Command → Type 0
QuietFrom k c =
    May (λ (k' : Kernel). k'.deferred_actions ≡ k.deferred_actions)
      (run_action c.action c.object c.arg k)

quiet-same :
    (c : Command) (k k' : Kernel)
    → QuietFrom k c
    → run_action c.action c.object c.arg k ≡ some k'
    → k'.deferred_actions ≡ k.deferred_actions
unfolding QuietFrom
quiet-same c k k' q e = May-some (run_action c.action c.object c.arg k) _ k' q e

pub bind-cong :
    (o : Option Kernel) (f g : Kernel → Option Kernel)
    → ((k : Kernel) → o ≡ some k → f k ≡ g k)
    → (o >>= f) ≡ (o >>= g)
bind-cong none f g h = refl
bind-cong (some k) f g h = h k refl

-- The front entry is dropped from a kernel with the same queue.
drop_same :
    (k k' : Kernel)
    → k'.deferred_actions ≡ k.deferred_actions
    → (record k' {
      deferred_actions = drop_entry (next_index k.deferred_actions.first) k'.deferred_actions;
    })
      ≡ dropped k'
drop_same k k' e =
    ap
      (λ (q : ActionQueue). record k' {
        deferred_actions = drop_entry (next_index q.first) k'.deferred_actions;
      })
      (sym e)

module _ (c : Command) (k : Kernel) (w : IsActions k.deferred_actions) (quiet : QuietFrom k c)
    (fuel : ℕ) (rest : List (Option ActionEntry)) where
  pub plain-round :
      takes_argument c.action ≡ false
      → actions k.deferred_actions ≡ some (entry c.action c.object) ∷ rest
      → run_entries (suc fuel) k.deferred_actions.first k ≡ (
          run_action c.action c.object c.arg k >>= λ k'.
          run_entries fuel (dropped k').deferred_actions.first (dropped k'))
  unfolding drop_entry
  plain-round p h =
      let f =
        values-IsFront (entry c.action c.object) rest k.deferred_actions k.deferred_actions.count w
          refl h in
      let (x, s) = second-some k.deferred_actions w in
      entries-step fuel (entry c.action c.object) x rest k f s
      ∙ (ap
            (λ o. o >>= λ k'. run_entries fuel (next_index k.deferred_actions.first) (record k' {
              deferred_actions =
                  drop_entry (next_index k.deferred_actions.first) k'.deferred_actions;
            }))
            (unused_argument c.action c.object x.object c.arg k p)
          ∙ bind-cong (run_action c.action c.object c.arg k) _ _ (λ k' e.
            let same = quiet-same c k k' quiet e in
            ap₂ (λ i m. run_entries fuel i m)
              (ap (λ (q : ActionQueue). next_index q.first) (sym same)) (drop_same k k' same)))

-- An extra entry is skipped.
skip-round :
    (k : Kernel) (fuel arg : ℕ) (rest : List (Option ActionEntry))
    → IsFront (entry action_extra_value arg) rest k.deferred_actions
    → IsActions k.deferred_actions
    → run_entries (suc fuel) k.deferred_actions.first k
      ≡ run_entries fuel (dropped k).deferred_actions.first (dropped k)
unfolding run_action drop_entry
skip-round k fuel arg rest f w =
    let (x, s) = second-some k.deferred_actions w in
    entries-step fuel (entry action_extra_value arg) x rest k f s

module _ (c : Command) (k : Kernel) (w : IsActions k.deferred_actions) (quiet : QuietFrom k c)
    (fuel : ℕ) (rest : List (Option ActionEntry)) where
  pub argument-round :
      actions k.deferred_actions
        ≡ some (entry c.action c.object) ∷ some (entry action_extra_value c.arg) ∷ rest
      → run_entries (suc (suc fuel)) k.deferred_actions.first k ≡ (
          run_action c.action c.object c.arg k >>= λ k'.
          run_entries fuel (dropped (dropped k')).deferred_actions.first (dropped (dropped k')))
  unfolding drop_entry
  argument-round h =
      let x = entry action_extra_value c.arg in
      let q = k.deferred_actions in
      let f = values-IsFront (entry c.action c.object) (some x ∷ rest) q q.count w refl h in
      let d = drop_entry (next_index q.first) q in
      let g = values-IsFront x rest d d.count f.remains refl f.behind_it in
      entries-step (suc fuel) (entry c.action c.object) x (some x ∷ rest) k f g.at_first
      ∙ bind-cong (run_action c.action c.object c.arg k) _ _ (λ k' e.
        let same = quiet-same c k k' quiet e in
        let d' : (dropped k').deferred_actions ≡ d =
          ap (λ (q : ActionQueue). drop_entry (next_index q.first) q) same in
        ap₂ (λ i m. run_entries (suc fuel) i m)
          (ap (λ (q : ActionQueue). next_index q.first) (sym same)) (drop_same k k' same)
        ∙ skip-round (dropped k') fuel c.arg rest (subst (λ q. IsFront x rest q) (sym d') g)
            (subst (λ q. IsActions q) (sym d') f.remains))
