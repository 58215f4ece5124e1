-- ===== src/ArList/Nodes/Remove.antt =====
-- `_ar_list::remove` on pointers, and `remove` on sequences.
use mathlib.Core.List.{append-nil}
use argon_rtos.Prelude.{
  ℕ, ◌≡◌, refl, ◌≢◌, ◌∙◌, inl, inr, true, false, Option, some, List, [], ◌∷◌, ◌++◌, ◌==◌, arith,
  has, has-append, Distinct, Bool-cases,
}
use argon_rtos.ArList.Nodes.{Links, ArList, remove, head_after}
use argon_rtos.ArList.Nodes.Ring.{
  Chain, Chain-append, Chain-split, Chain-frame, Chain-prev, Chain-last, IsRing, IsFree,
}
use argon_rtos.ArList.Nodes.Bypass.{bypassed, remove-bypassed, Chain-bypassed}
use argon_rtos.ArList.Nodes.Search.{Distinct-append}
use argon_rtos.ArList.Seq
use argon_rtos.ArList.Seq.Order.{remove-append, remove_not_mem, Distinct-remove}

-- A node of a list splits it.
pub has-split :
    (item : ℕ) (xs : List ℕ)
    → has item xs ≡ true
    → (ys : List ℕ) × (zs : List ℕ) × (xs ≡ ys ++ (item ∷ zs))
has-split item [] m = cc
has-split item (x ∷ xs) m = elim (Bool-cases (item == x)) [
  | inl e ↦ ([], xs, ground arith)
  | inr n ↦ let (ys, zs, e) = has-split item xs (ground arith) in (x ∷ ys, zs, ground arith)
]

-- The outcome of removing `item`: the list `ys` in place of `xs`.
abbrev pub Removes : ArList → Links → ℕ → (xs ys : List ℕ) → Option (ArList × Links) → Type 0
Removes l h item xs ys r =
    (l' : ArList) × (g : Links) × (r ≡ some (l', g))
    × IsRing g l'.head ys
    × (l'.predicate ≡ l.predicate)
    × IsFree g item
    × ((c : ℕ) → has c xs ≡ false → (g.next c ≡ h.next c) × (g.prev c ≡ h.prev c))

module _ (l : ArList) (h : Links) (item : ℕ) where
  Removes-only :
      l.head ≡ some item → Chain h item [] item → Removes l h item (item ∷ []) [] (remove l item h)
  unfolding head_after
  Removes-only e c = (
    record l { head = head_after item item item },
    bypassed item item item h,
    remove-bypassed l item item item item h e c.0 c.1,
    ground arith,
    refl,
    ground arith,
    ground arith,
  )

  Removes-head :
      (y : ℕ) (ys : List ℕ)
      → l.head ≡ some item
      → Distinct (item ∷ y ∷ ys)
      → Chain h item (y ∷ ys) item
      → Removes l h item (item ∷ y ∷ ys) (y ∷ ys) (remove l item h)
  unfolding head_after
  Removes-head y ys e d c =
      let (before, eb) = Chain-prev h y ys item c.1 in
      let m = Chain-last h y ys item before c.1 eb in
      (
        record l { head = head_after item item y },
        bypassed item before y h,
        remove-bypassed l item item before y h e c.0.0 eb,
        (
          ground arith,
          d.1,
          Chain-bypassed h y ys item before y c.1 eb d.1 d.0 d.1.0 (ground arith),
        ),
        refl,
        ground arith,
        ground arith,
      )

-- The item is not the head: the nodes before and after it are linked with one another.
remove-split :
    (item : ℕ) (xs zs : List ℕ)
    → Distinct (xs ++ (item ∷ zs))
    → Seq.remove item (xs ++ (item ∷ zs)) ≡ xs ++ zs
unfolding Seq.remove
remove-split item xs zs d =
    let (dx, dz, apart) = Distinct-append xs (item ∷ zs) d in
    let front : Seq.remove item xs ≡ xs =
      remove_not_mem item xs (ground (arith, Bool-cases (has item xs), apart item)) in
    let back : Seq.remove item (item ∷ zs) ≡ zs = ground (arith, remove_not_mem item zs) in
    remove-append item xs (item ∷ zs) ∙ rw (front, back)

module _ (l : ArList) (h : Links) (item x : ℕ) (xs zs : List ℕ) (e : l.head ≡ some x)
    (d : Distinct ((x ∷ xs) ++ (item ∷ zs))) (c : Chain h x xs item) where
  Removes-between :
      (after : ℕ)
      → h.next item ≡ some after
      → has after xs ≡ false
      → item ≢ after
      → ((g : Links)
          → Chain g x xs after
          → ((b : ℕ) → b ≢ item → has b (x ∷ xs) ≡ false → g.next b ≡ h.next b)
          → ((b : ℕ) → b ≢ item → b ≢ after → g.prev b ≡ h.prev b)
          → Chain g x (xs ++ zs) x)
      → (has after (x ∷ zs) ≡ true)
      → Removes l h item
          ((x ∷ xs) ++ (item ∷ zs))
          (Seq.remove item ((x ∷ xs) ++ (item ∷ zs)))
          (remove l item h)
  unfolding head_after
  Removes-between after en na ne close ma =
      let (before, eb) = Chain-prev h x xs item c in
      let m : has before (x ∷ xs) ≡ true = Chain-last h x xs item before c eb in
      let (dx, dz, apart) = Distinct-append (x ∷ xs) (item ∷ zs) d in
      let out : has item (x ∷ xs) ≡ false =
        ground (arith, Bool-cases (has item (x ∷ xs)), apart item) in
      let chain = Chain-bypassed h x xs item before after c eb dx out na ne in
      let g = bypassed item before after h in
      (
        record l { head = head_after item x after },
        g,
        remove-bypassed l item x before after h e en eb,
        rw (remove-split item (x ∷ xs) zs d) (
          ground arith,
          rw (remove-split item (x ∷ xs) zs d) at
              (Distinct-remove item ((x ∷ xs) ++ (item ∷ zs)) d),
          close g chain (λ b n1 n2. ground arith) (λ b n1 n2. ground arith),
        ),
        refl,
        ground arith,
        λ b o. ground (arith, has-append b (x ∷ xs) (item ∷ zs)),
      )

Removes-at :
    (l : ArList) (h : Links) (item : ℕ) (ys zs : List ℕ)
    → IsRing h l.head (ys ++ (item ∷ zs))
    → Removes l h item (ys ++ (item ∷ zs)) (Seq.remove item (ys ++ (item ∷ zs))) (remove l item h)
Removes-at l h item [] [] r = rw (remove-split item [] [] r.1) (Removes-only l h item r.0 r.2)
Removes-at l h item [] (z ∷ zs) r =
    rw (remove-split item [] (z ∷ zs) r.1) (Removes-head l h item z zs r.0 r.1 r.2)
Removes-at l h item (x ∷ xs) [] r =
    let (front, back) = Chain-split h x xs item [] x r.2 in
    let (dx, dz, apart) = Distinct-append (x ∷ xs) (item ∷ []) r.1 in
    Removes-between l h item x xs [] r.0 r.1 front x back.0 dx.0 (ground (arith, apart x))
      (λ g chain n p. rw append-nil chain) (ground arith)
Removes-at l h item (x ∷ xs) (z ∷ zs) r =
    let (front, back) = Chain-split h x xs item (z ∷ zs) x r.2 in
    let (dx, dz, apart) = Distinct-append (x ∷ xs) (item ∷ z ∷ zs) r.1 in
    Removes-between l h item x xs (z ∷ zs) r.0 r.1 front z back.0.0
      (ground (arith, Bool-cases (has z xs), apart z)) (ground arith)
      (λ g chain n p. Chain-append g x xs z zs x chain (
        Chain-frame h g z zs x back.1
          (λ b m. n b (ground arith) (ground (arith, Bool-cases (has b (x ∷ xs)), apart b)))
          (λ b m. p b (ground (arith, apart x)) (ground (arith, apart x)))))
      (ground arith)

-- On a ring of the nodes `xs`, `remove` of one of them succeeds: it leaves a ring of the others in
-- the same order, keeps the predicate, clears the links of the node, and writes no link of a node
-- outside the list.
pub remove_refines :
    (l : ArList) (item : ℕ) (xs : List ℕ) (h : Links)
    → IsRing h l.head xs
    → has item xs ≡ true
    → (l' : ArList) × (g : Links) × (remove l item h ≡ some (l', g))
      × IsRing g l'.head (Seq.remove item xs)
      × (l'.predicate ≡ l.predicate)
      × IsFree g item
      × ((c : ℕ) → has c xs ≡ false → (g.next c ≡ h.next c) × (g.prev c ≡ h.prev c))
remove_refines l item xs h r m =
    let (ys, zs, e) = has-split item xs m in rw e (Removes-at l h item ys zs (rw e at r))
