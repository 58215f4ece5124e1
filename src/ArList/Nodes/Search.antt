-- ===== src/ArList/Nodes/Search.antt =====
-- The insertion loop of `add`, from a node in the middle of the ring.
use mathlib.Core.List.{append_assoc}
use argon_rtos.Prelude.{
  ℕ, zero, suc, ◌<◌, ◌≡◌, ◌∙◌, inl, inr, Bool, true, false, ◌||◌, some, ◌>>=◌, List, [], ◌∷◌, ◌++◌,
  ◌==◌, arith, has, has-append, Distinct, if◌then◌else◌, length, Bool-cases,
}
use argon_rtos.ArList.Nodes.{Links, insert_before, add_from}
use argon_rtos.ArList.Nodes.Ring.{Chain, Chain-append, Chain-frame, Chain-prev, Chain-last}
use argon_rtos.ArList.Nodes.Insert.{inserted, insert_before-inserted, Chain-inserted}
use argon_rtos.ArList.Seq.{insert_sorted, last_of}

-- No link changes but those of `item` and of the nodes of `xs`.
abbrev pub SameOutside : ℕ → List ℕ → Links → Links → Type 0
SameOutside item xs h g =
    (c : ℕ) → has c (item ∷ xs) ≡ false → (g.next c ≡ h.next c) × (g.prev c ≡ h.prev c)

pub Distinct-append :
    (xs ys : List ℕ)
    → Distinct (xs ++ ys)
    → Distinct xs × Distinct ys × ((c : ℕ) → has c xs ≡ true → has c ys ≡ false)
Distinct-append [] ys d = (tt, d, λ c m. cc)
Distinct-append (x ∷ xs) ys d =
    let r = Distinct-append xs ys d.1 in
    (
      (ground (arith, has-append x xs ys), r.0),
      r.1,
      λ c m. ground (arith, has-append x xs ys, r.2 c),
    )

-- Insertion between two parts of a ring that starts at `a`.
pub insert_between :
    (h : Links) (a : ℕ) (xs : List ℕ) (y : ℕ) (ys : List ℕ) (item last : ℕ)
    → Chain h a xs y
    → Chain h y ys a
    → h.prev y ≡ some last
    → Distinct ((a ∷ xs) ++ (y ∷ ys))
    → has item ((a ∷ xs) ++ (y ∷ ys)) ≡ false
    → Chain (inserted item y last h) a (xs ++ (item ∷ y ∷ ys)) a
insert_between h a xs y ys item last c d e dist out =
    let r = Distinct-append (a ∷ xs) (y ∷ ys) dist in
    let l : has last (a ∷ xs) ≡ true = Chain-last h a xs y last c e in
    let o : (has item (a ∷ xs) || has item (y ∷ ys)) ≡ false =
      rw (has-append item (a ∷ xs) (y ∷ ys)) at out in
    let front =
      Chain-inserted h a xs item y last c e r.0 (ground arith) (ground (arith, r.2 y))
        (ground arith) in
    let back =
      Chain-frame h (inserted item y last h) y ys a d (λ k m. ground (arith, r.2 last))
        (λ k m. ground (arith, r.2 a)) in
    rw (append_assoc xs (item ∷ []) (y ∷ ys)) at
      (Chain-append (inserted item y last h) a (xs ++ (item ∷ [])) y ys a front back)

-- What `insertBefore` leaves alone, where `node` and `last` are on the list `xs`.
pub inserted-SameOutside :
    (item node last : ℕ) (xs : List ℕ) (h : Links)
    → has node xs ≡ true
    → has last xs ≡ true
    → SameOutside item xs h (inserted item node last h)
inserted-SameOutside item node last xs h n l c o = (ground arith, ground arith)

-- What the loop returns from `y`.
abbrev pub Inserts : ℕ → (ℕ → ℕ → Bool) → Links → (item a : ℕ) → List ℕ → ℕ → List ℕ → Type 0
Inserts fuel p h item a xs y ys =
    (g : Links) × (add_from fuel p item a y h ≡ some (a, g))
    × Chain g a (xs ++ insert_sorted p item (y ∷ ys)) a
    × SameOutside item ((a ∷ xs) ++ (y ∷ ys)) h g

module _ (p : ℕ → ℕ → Bool) (h : Links) (item a : ℕ) where
  pub add_from-hit :
      (fuel y : ℕ) (g : Links)
      → p item y ≡ true
      → insert_before item y h ≡ some g
      → add_from (suc fuel) p item a y h ≡ some (if y == a then item else a, g)
  unfolding add_from
  add_from-hit fuel y g t e = rw (t, add_from, e)

  pub add_from-miss :
      (fuel y z : ℕ)
      → p item y ≡ false
      → h.next y ≡ some z
      → (z == a) ≡ false
      → add_from (suc fuel) p item a y h ≡ add_from fuel p item a z h
  unfolding add_from
  add_from-miss fuel y z f e n = rw (f, add_from, e, ◌>>=◌, n)

  Inserts-here :
      (fuel : ℕ) (xs : List ℕ) (y : ℕ) (ys : List ℕ)
      → Chain h a xs y
      → Chain h y ys a
      → Distinct ((a ∷ xs) ++ (y ∷ ys))
      → has item ((a ∷ xs) ++ (y ∷ ys)) ≡ false
      → p item y ≡ true
      → Inserts (suc fuel) p h item a xs y ys
  unfolding add_from insert_sorted
  Inserts-here fuel xs y ys c d dist out t =
      let (l, e) = Chain-prev h a xs y c in
      let outside = has-append item (a ∷ xs) (y ∷ ys) in
      (
        inserted item y l h,
        add_from-hit fuel y _ t (insert_before-inserted item y l h e (ground arith))
            ∙ ground (arith, (Distinct-append (a ∷ xs) (y ∷ ys) dist).2 a),
        rw t (insert_between h a xs y ys item l c d e dist out),
        inserted-SameOutside item y l ((a ∷ xs) ++ (y ∷ ys)) h
            (ground (arith, has-append y (a ∷ xs) (y ∷ ys)))
            (ground (arith, has-append l (a ∷ xs) (y ∷ ys), Chain-last h a xs y l c e)),
      )

  -- From `y` the loop inserts the item before the first node that it sorts before, if it sorts
  -- before the last one.
  pub add_from-Inserts :
      (fuel : ℕ) (xs : List ℕ) (y : ℕ) (ys : List ℕ)
      → Chain h a xs y
      → Chain h y ys a
      → Distinct ((a ∷ xs) ++ (y ∷ ys))
      → has item ((a ∷ xs) ++ (y ∷ ys)) ≡ false
      → p item (last_of y ys) ≡ true
      → length ys < fuel
      → Inserts fuel p h item a xs y ys
  unfolding add_from insert_sorted
  add_from-Inserts zero xs y ys c d dist out last lt = absurd (omega arith)
  add_from-Inserts (suc fuel) xs y [] c d dist out last lt =
      Inserts-here fuel xs y [] c d dist out last
  add_from-Inserts (suc fuel) xs y (z ∷ ys) c d dist out last lt = elim (Bool-cases (p item y)) [
    | inl t ↦ Inserts-here fuel xs y (z ∷ ys) c d dist out t
    | inr f ↦
        let move = append_assoc xs (y ∷ []) (z ∷ ys) in
        let step = append_assoc xs (y ∷ []) (insert_sorted p item (z ∷ ys)) in
        let (g, run, chain, same) =
          add_from-Inserts fuel (xs ++ (y ∷ [])) z ys (Chain-append h a xs y [] z c d.0) d.1
            (rw move dist) (rw move out) last (omega arith) in
        (
          g,
          add_from-miss fuel y z f d.0.0
                (ground (arith, (Distinct-append (a ∷ xs) (y ∷ z ∷ ys) dist).2 a))
              ∙ run,
          rw f (rw step at chain),
          rw move at same,
        )
  ]
