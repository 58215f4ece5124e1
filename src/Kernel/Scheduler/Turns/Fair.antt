-- ===== src/Kernel/Scheduler/Turns/Fair.antt =====
-- Within one round of ar_kernel_scheduler every thread of the highest priority has had its turn.
use argon_rtos.Prelude.{
  ℕ, zero, suc, ◌+◌, ◌<◌, ◌≡◌, ◌≢◌, refl, ◌∙◌, sym, ap, subst, true, Option, none, some, ◌>>=◌,
  List, [], ◌∷◌, ◌++◌, ◌==◌, has, has-append, Distinct, arith, Bool-cases, inl, inr, Returns,
  Returns-bind, length, length-append, ◌||◌,
}
use mathlib.Core.List.{append_assoc}
use argon_rtos.Kernel.{Kernel}
use argon_rtos.Kernel.Scheduler.{scheduler}
use argon_rtos.Kernel.Scheduler.Turns.{turns}
use argon_rtos.Kernel.Scheduler.Turns.Rotation.{InGroup, forward, wrap, head_or}

-- A place of a list where `u` is.
split-has :
    (u : ℕ) (xs : List ℕ) → has u xs ≡ true → (us : List ℕ) × (bs : List ℕ) × (xs ≡ us ++ (u ∷ bs))
split-has u [] m = cc
split-has u (x ∷ xs) m = elim (Bool-cases (u == x)) [
  | inl e ↦ let e' : x ≡ u = ground arith in ([], xs, ap (λ y. y ∷ xs) e')
  | inr n ↦ let (us, bs, e) = split-has u xs (ground arith) in (x ∷ us, bs, ap (λ ys. x ∷ ys) e)
]

-- A step under one more call.
bind-Returns :
    (o : Option Kernel) (f g : Kernel → Option Kernel) (P Q : Kernel → Type 0)
    → Returns Q (o >>= f)
    → ((k : Kernel) → Returns Q (f k) → Returns P (g k))
    → Returns P (o >>= g)
bind-Returns none f g P Q r next = r
bind-Returns (some k) f g P Q r next = next k r

-- Some turns and then some more.
turns_add :
    (P : Kernel → Type 0) (m n : ℕ) (k : Kernel) (Q : Kernel → Type 0)
    → Returns Q (turns m k)
    → ((k' : Kernel) → Q k' → Returns P (turns n k'))
    → Returns P (turns (m + n) k)
unfolding turns
turns_add P zero n k Q r next =
    let e : n ≡ zero + n = omega arith in subst (λ i. Returns P (turns i k)) e (next k r)
turns_add P (suc m) n k Q r next =
    let e : suc (m + n) ≡ suc m + n = omega arith in
    subst (λ i. Returns P (turns i k)) e
      (bind-Returns (scheduler k) (turns m) (turns (m + n)) P Q r
        (λ k' r'. turns_add P m n k' Q r' next))

head_or-append : (xs : List ℕ) (c y : ℕ) → head_or (xs ++ (c ∷ [])) y ≡ head_or xs c
head_or-append [] c y = refl
head_or-append (x ∷ xs) c y = refl

module _ (p : ℕ) (ps : List ℕ) (d : Distinct ps) where
  one_turn :
      (k : Kernel) (c : ℕ)
      → Returns (InGroup p ps c) (scheduler k)
      → Returns (InGroup p ps c) (turns 1 k)
  unfolding turns
  one_turn k c r = Returns-bind (scheduler k) _ (InGroup p ps c) (InGroup p ps c) r (λ k' i. i)

  -- The processor reaches a thread behind `c`.
  reach :
      (us bs xs : List ℕ) (c u : ℕ) (k : Kernel)
      → ps ≡ xs ++ (c ∷ (us ++ (u ∷ bs)))
      → InGroup p ps c k
      → Returns (InGroup p ps u) (turns (suc (length us)) k)
  reach [] bs xs c u k e i = one_turn k u (forward p ps k xs bs c u d e i)
  reach (a ∷ us) bs xs c u k e i =
      let one : 1 + suc (length us) ≡ suc (suc (length us)) = omega arith in
      subst (λ n. Returns (InGroup p ps u) (turns n k)) one
        (turns_add (InGroup p ps u) 1 (suc (length us)) k (InGroup p ps a)
          (one_turn k a (forward p ps k xs (us ++ (u ∷ bs)) c a d e i))
          (λ k' i'.
            reach us bs (xs ++ (c ∷ [])) a u k'
              (e ∙ sym (append_assoc xs (c ∷ []) (a ∷ (us ++ (u ∷ bs))))) i'))

  -- It goes on to the first of the group in as many turns as there are threads from `c` on.
  first_again :
      (ys xs : List ℕ) (c : ℕ) (k : Kernel)
      → ps ≡ xs ++ (c ∷ ys)
      → InGroup p ps c k
      → Returns (InGroup p ps (head_or xs c)) (turns (suc (length ys)) k)
  first_again [] xs c k e i = one_turn k (head_or xs c) (wrap p ps k xs c d e i)
  first_again (y ∷ ys) xs c k e i =
      let one : 1 + suc (length ys) ≡ suc (suc (length ys)) = omega arith in
      subst (λ n. Returns (InGroup p ps (head_or xs c)) (turns n k)) one
        (turns_add (InGroup p ps (head_or xs c)) 1 (suc (length ys)) k (InGroup p ps y)
          (one_turn k y (forward p ps k xs ys c y d e i))
          (λ k' i'.
            subst (λ h. Returns (InGroup p ps h) (turns (suc (length ys)) k'))
              (head_or-append xs c y)
              (first_again ys (xs ++ (c ∷ [])) y k' (e ∙ sym (append_assoc xs (c ∷ []) (y ∷ ys)))
                i')))

  -- From the first of the group to a thread.
  from_first :
      (us bs ys xs : List ℕ) (c u : ℕ) (k : Kernel)
      → xs ≡ us ++ (u ∷ bs)
      → ps ≡ xs ++ (c ∷ ys)
      → InGroup p ps (head_or xs c) k
      → Returns (InGroup p ps u) (turns (length us) k)
  unfolding turns
  from_first [] bs ys xs c u k s e i = subst (λ h. InGroup p ps h k) (ap (λ xs. head_or xs c) s) i
  from_first (a ∷ us) bs ys xs c u k s e i =
      reach us (bs ++ (c ∷ ys)) [] a u k
        (e ∙ (ap (λ xs. xs ++ (c ∷ ys)) s ∙ append_assoc (a ∷ us) (u ∷ bs) (c ∷ ys)))
        (subst (λ h. InGroup p ps h k) (ap (λ xs. head_or xs c) s) i)

  module _ (c u : ℕ) (k : Kernel) (i : InGroup p ps c k) where
    -- The turns of a thread behind `c`, and of one in front of it.
    behind-fair :
        (xs ys : List ℕ)
        → ps ≡ xs ++ (c ∷ ys)
        → has u ys ≡ true
        → (n : ℕ) × (n < length ps) × Returns (InGroup p ps u) (turns n k)
    behind-fair xs ys e m =
        let (us, bs, s) = split-has u ys m in
        let e' : ps ≡ xs ++ (c ∷ (us ++ (u ∷ bs))) = e ∙ ap (λ ys. xs ++ (c ∷ ys)) s in
        let long = ap length e' ∙ length-append xs (c ∷ (us ++ (u ∷ bs))) in
        let rest = length-append us (u ∷ bs) in
        (suc (length us), omega (arith, long, rest), reach us bs xs c u k e' i)

    before-fair :
        (xs ys : List ℕ)
        → ps ≡ xs ++ (c ∷ ys)
        → has u xs ≡ true
        → (n : ℕ) × (n < length ps) × Returns (InGroup p ps u) (turns n k)
    before-fair xs ys e m =
        let (us, bs, s) = split-has u xs m in
        let long = ap length e ∙ length-append xs (c ∷ ys) in
        let front = ap length s ∙ length-append us (u ∷ bs) in
        (
          suc (length ys) + length us,
          omega (arith, long, front),
          turns_add (InGroup p ps u) (suc (length ys)) (length us) k (InGroup p ps (head_or xs c))
              (first_again ys xs c k e i) (λ k' i'. from_first us bs ys xs c u k' s e i'),
        )

    -- Round robin: if a thread of the group of the highest priority runs, and nothing happens but runs
    -- of the scheduler, which do not halt, every other thread of the group runs after less of them
    -- than the group has threads.
    pub scheduler-fair :
        has c ps ≡ true
        → has u ps ≡ true
        → u ≢ c
        → (n : ℕ) × (n < length ps) × Returns (InGroup p ps u) (turns n k)
    scheduler-fair mc mu ne =
        let (xs, ys, e) = split-has c ps mc in
        let m : (has u xs || ((u == c) || has u ys)) ≡ true =
          sym (has-append u xs (c ∷ ys)) ∙ (ap (has u) (sym e) ∙ mu) in
        elim (Bool-cases (has u xs)) [
          | inl b ↦ before-fair xs ys e b
          | inr b ↦ behind-fair xs ys e (ground arith)
        ]
