-- ===== src/Interrupt/Drain.antt =====
-- ar_kernel_run_deferred_actions of src/ar_kernel.cpp against the commands that were posted.
use argon_rtos.Prelude.{
  ℕ, zero, suc, ◌+◌, ◌-◌, ◌≡◌, ◌<◌, ◌∙◌, refl, sym, ap, Bool, true, false, Option, none, some,
  ◌>>=◌, List, [], ◌∷◌, ◌++◌, ◌==◌, if◌then◌else◌, length, arith, subst, May, May-some, May-mono,
  Bool-cases, inl, inr,
}
use argon_rtos.Kernel.{Kernel, ActionQueue, ActionEntry, action_extra_value}
use argon_rtos.Deferred.{next_index}
use argon_rtos.Deferred.Contents.{actions, IsActions, entry}
use argon_rtos.Interrupt.{run_action, drop_entry, run_entries, run_deferred_actions}
use argon_rtos.Ring
use argon_rtos.Ring.{next-bound, behind, behind-suc, get_elem?-some}
use argon_rtos.Interrupt.Commands.{
  Command, takes_argument, entries_of, all_entries, behind_command, run_commands, values-IsFront,
}
use argon_rtos.Interrupt.Deferral.{QuietFrom, plain-round, argument-round, bind-cong}

-- Behind a quiet command, the queue holds the entries of the commands that follow.
behind_command-actions :
    (c : Command) (rest : List (Option ActionEntry)) (k : Kernel)
    → IsActions k.deferred_actions
    → actions k.deferred_actions ≡ entries_of c ++ rest
    → IsActions (behind_command c k).deferred_actions
      × (actions (behind_command c k).deferred_actions ≡ rest)
unfolding behind_command entries_of
behind_command-actions c rest k w h = elim (Bool-cases (takes_argument c.action)) [
  | inl p ↦
      let q = k.deferred_actions in
      let x = entry action_extra_value c.arg in
      let f =
        values-IsFront (entry c.action c.object) (some x ∷ rest) q q.count w refl (simp (p) at h) in
      let d = drop_entry (next_index q.first) q in
      let g = values-IsFront x rest d d.count f.remains refl f.behind_it in
      rw p (g.remains, g.behind_it)
  | inr p ↦
      let q = k.deferred_actions in
      let f = values-IsFront (entry c.action c.object) rest q q.count w refl (simp (p) at h) in
      rw p (f.remains, f.behind_it)
]

-- The rounds that the commands take, `m` rounds after which are left over.
unfoldable rounds : List Command → ℕ → ℕ
rounds [] m = suc m
rounds (c ∷ cs) m =
    let rest = rounds cs m in if takes_argument c.action then suc (suc rest) else suc rest

rounds-length : (cs : List Command) (m : ℕ) → rounds cs m ≡ length (all_entries cs) + suc m
unfolding rounds all_entries entries_of
rounds-length [] m = omega arith
rounds-length (c ∷ cs) m =
    let rest = rounds-length cs m in
    elim (Bool-cases (takes_argument c.action)) [
      | inl p ↦ rw p (omega arith)
      | inr p ↦ rw p (omega arith)
    ]

empty-count :
    (q : ActionQueue) (n : ℕ)
    → q.count ≡ n
    → Ring.values next_index q.entries q.first n ≡ []
    → (q.count == 0) ≡ true
empty-count q zero e h = ground arith
empty-count q (suc n) e h = cc

-- One command more.
command-round :
    (c : Command) (cs : List Command) (k : Kernel) (m : ℕ) (rest : List (Option ActionEntry))
    → IsActions k.deferred_actions
    → QuietFrom k c
    → actions k.deferred_actions ≡ entries_of c ++ rest
    → run_entries (rounds (c ∷ cs) m) k.deferred_actions.first k ≡ (
        run_action c.action c.object c.arg k >>= λ k'.
        run_entries
          (rounds cs m)
          (behind_command c k').deferred_actions.first
          (behind_command c k'))
unfolding rounds entries_of behind_command
command-round c cs k m rest w quiet h = elim (Bool-cases (takes_argument c.action)) [
  | inl p ↦
      let h' : actions k.deferred_actions
          ≡ some (entry c.action c.object) ∷ some (entry action_extra_value c.arg) ∷ rest =
        simp (p) at h in
      simp (p) (argument-round c k w quiet (rounds cs m) rest h')
  | inr p ↦
      let h' : actions k.deferred_actions ≡ some (entry c.action c.object) ∷ rest = simp (p) at h in
      simp (p) (plain-round c k w quiet (rounds cs m) rest p h')
]

-- No call posts an action itself, when the commands run one after another from a kernel.
unfoldable pub RunsQuietly : List Command → Kernel → Type 0
RunsQuietly [] k = Unit {0}
RunsQuietly (c ∷ cs) k =
    May
      (λ (k' : Kernel).
        (k'.deferred_actions ≡ k.deferred_actions) × RunsQuietly cs (behind_command c k'))
      (run_action c.action c.object c.arg k)

module _ (c : Command) (cs : List Command) (k k' : Kernel) (quiet : RunsQuietly (c ∷ cs) k)
    (e : run_action c.action c.object c.arg k ≡ some k') where
  quiet-now : k'.deferred_actions ≡ k.deferred_actions
  unfolding RunsQuietly
  quiet-now = (May-some (run_action c.action c.object c.arg k) _ k' quiet e).0

  quiet-next : RunsQuietly cs (behind_command c k')
  unfolding RunsQuietly
  quiet-next = (May-some (run_action c.action c.object c.arg k) _ k' quiet e).1

quiet-first :
    (c : Command) (cs : List Command) (k : Kernel) → RunsQuietly (c ∷ cs) k → QuietFrom k c
unfolding RunsQuietly QuietFrom
quiet-first c cs k quiet = May-mono (run_action c.action c.object c.arg k) _ _ quiet (λ k' h. h.0)

-- The loop runs the commands.
entries-commands :
    (cs : List Command) (k : Kernel) (m : ℕ)
    → RunsQuietly cs k
    → IsActions k.deferred_actions
    → actions k.deferred_actions ≡ all_entries cs
    → run_entries (rounds cs m) k.deferred_actions.first k ≡ run_commands cs k
unfolding rounds all_entries run_entries run_commands
entries-commands [] k m quiet w h =
    rw (run_entries, empty-count k.deferred_actions k.deferred_actions.count refl h) refl
entries-commands (c ∷ cs) k m quiet w h =
    command-round c cs k m (all_entries cs) w (quiet-first c cs k quiet) h
    ∙ bind-cong (run_action c.action c.object c.arg k) _ _ (λ k' e.
      let same = quiet-now c cs k k' quiet e in
      let (w', h') =
        behind_command-actions c (all_entries cs) k' (subst (λ q. IsActions q) (sym same) w)
          (ap (λ q. actions q) same ∙ h) in
      entries-commands cs (behind_command c k') m (quiet-next c cs k k' quiet e) w' h')

bind-some :
    (o : Option Kernel) (f : Kernel → Option Kernel) (b : Kernel)
    → (o >>= f) ≡ some b
    → (a : Kernel) × (o ≡ some a) × (f a ≡ some b)
bind-some none f b h = cc
bind-some (some a) f b h = (a, refl, h)

run_commands-empty :
    (cs : List Command) (k k' : Kernel)
    → RunsQuietly cs k
    → IsActions k.deferred_actions
    → actions k.deferred_actions ≡ all_entries cs
    → run_commands cs k ≡ some k'
    → actions k'.deferred_actions ≡ []
unfolding run_commands all_entries
run_commands-empty [] k k' quiet w h e =
    let same : k ≡ k' = cc in ap (λ (k : Kernel). actions k.deferred_actions) (sym same) ∙ h
run_commands-empty (c ∷ cs) k k' quiet w h e =
    let (m, e1, e2) =
      bind-some (run_action c.action c.object c.arg k) (λ k. run_commands cs (behind_command c k))
        k' e in
    let same = quiet-now c cs k m quiet e1 in
    let (w', h') =
      behind_command-actions c (all_entries cs) m (subst (λ q. IsActions q) (sym same) w)
        (ap (λ q. actions q) same ∙ h) in
    run_commands-empty cs (behind_command c m) k' (quiet-next c cs k m quiet e1) w' h' e2

abbrev pub set_deferred : Bool → Kernel → Kernel
set_deferred b k = record k { is_running_deferred = b }

-- On a kernel that is not locked, with fuel for the entries of the queue, the deferred actions run one
-- after another in the order of their posts, each with its object and its argument, if no call in
-- this run posts an action itself. The queue is empty when they have returned.
pub run_deferred_actions-commands :
    (cs : List Command) (fuel : ℕ) (k : Kernel)
    → (k.lock_count == 0) ≡ true
    → RunsQuietly cs (set_deferred true k)
    → IsActions k.deferred_actions
    → actions k.deferred_actions ≡ all_entries cs
    → length (all_entries cs) < fuel
    → (run_deferred_actions fuel k
        ≡ (run_commands cs (set_deferred true k) >>= λ k. some (set_deferred false k)))
      × ((k' : Kernel)
          → run_commands cs (set_deferred true k) ≡ some k'
          → actions k'.deferred_actions ≡ [])
unfolding run_deferred_actions
run_deferred_actions-commands cs fuel k free quiet w h room =
    let m = fuel - suc (length (all_entries cs)) in
    let f : fuel ≡ rounds cs m = omega (arith, rounds-length cs m) in
    let run = entries-commands cs (set_deferred true k) m quiet w h in
    (
      rw (free, f) (ap (λ (o : Option Kernel). o >>= λ k. some (set_deferred false k)) run),
      λ k' e. run_commands-empty cs (set_deferred true k) k' quiet w h e,
    )
