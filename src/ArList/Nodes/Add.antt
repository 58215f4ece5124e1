-- ===== src/ArList/Nodes/Add.antt =====
-- `_ar_list::add` on pointers, and `add` on sequences.
use argon_rtos.Prelude.{
  ℕ, zero, suc, ◌≤◌, ◌≡◌, refl, ◌≢◌, ◌∙◌, inl, inr, Bool, true, false, Option, none, some, ◌>>=◌,
  List, [], ◌∷◌, ◌++◌, arith, has, Distinct, length, Bool-cases,
}
use argon_rtos.ArList.Nodes.{
  Links, ArList, insert_before, add_from, add_to, add, set_next, set_prev,
}
use argon_rtos.ArList.Nodes.Ring.{Chain, Chain-split, IsRing, IsFree}
use argon_rtos.ArList.Nodes.Insert.{inserted, insert_before-inserted, Chain-inserted}
use argon_rtos.ArList.Nodes.Search.{
  SameOutside, inserted-SameOutside, add_from-Inserts, add_from-hit, add_from-miss,
}
use argon_rtos.ArList.Seq
use argon_rtos.ArList.Seq.{insert_sorted, last_of, sorts_before}
use argon_rtos.ArList.Seq.Order.{
  Distinct-insert_sorted, Distinct-snoc, insert_sorted-hit, insert_sorted-miss, add-end, add-search,
  add-nil,
}

-- Every node of a ring has its two links.
pub Chain-has :
    (h : Links) (a : ℕ) (xs : List ℕ) (b c : ℕ)
    → Chain h a xs b
    → has c (a ∷ xs) ≡ true
    → h.next c ≢ none
Chain-has h a [] b c d m e = ground arith
Chain-has h a (x ∷ xs) b c d m e = ground (arith, Chain-has h x xs b c d.1)

pub IsFree-not-mem :
    (h : Links) (head : Option ℕ) (xs : List ℕ) (item : ℕ)
    → IsRing h head xs
    → IsFree h item
    → has item xs ≡ false
IsFree-not-mem h head [] item r f = refl
IsFree-not-mem h head (x ∷ xs) item r f = ground (arith, Chain-has h x xs x item r.2)

pub Chain-last_of :
    (h : Links) (a : ℕ) (xs : List ℕ) (b : ℕ) → Chain h a xs b → h.prev b ≡ some (last_of a xs)
Chain-last_of h a [] b c = c.1
Chain-last_of h a (x ∷ xs) b c = Chain-last_of h x xs b c.1

last_of-has : (a : ℕ) (xs : List ℕ) → has (last_of a xs) (a ∷ xs) ≡ true
last_of-has a [] = ground arith
last_of-has a (x ∷ xs) = ground (arith, last_of-has x xs)

-- The outcome of adding `item`: the list `ys` in place of `xs`.
abbrev pub Adds : ArList → Links → ℕ → (xs ys : List ℕ) → Option (ArList × Links) → Type 0
Adds l h item xs ys r =
    (l' : ArList) × (g : Links) × (r ≡ some (l', g))
    × IsRing g l'.head ys
    × (l'.predicate ≡ l.predicate)
    × SameOutside item xs h g

module _ (h : Links) (item x : ℕ) (xs : List ℕ) (r : Chain h x xs x) (d : Distinct (x ∷ xs))
    (out : has item (x ∷ xs) ≡ false) where
  -- Insertion before the head: the item is the new last node, or the new head.
  round : Chain (inserted item x (last_of x xs) h) x (xs ++ (item ∷ [])) x
  round =
      Chain-inserted h x xs item x (last_of x xs) r (Chain-last_of h x xs x r) d out d.0
        (ground arith)

  runs : insert_before item x h ≡ some (inserted item x (last_of x xs) h)
  runs = insert_before-inserted item x (last_of x xs) h (Chain-last_of h x xs x r) (ground arith)

  same : SameOutside item (x ∷ xs) h (inserted item x (last_of x xs) h)
  same = inserted-SameOutside item x (last_of x xs) (x ∷ xs) h (ground arith) (last_of-has x xs)

-- Where the new node goes at the end of the list.
abbrev Ends : Links → ℕ → (xs ys : List ℕ) → Option (ℕ × Links) → Type 0
Ends h item xs ys r =
    (head : ℕ) × (g : Links) × (r ≡ some (head, g))
    × IsRing g (some head) ys
    × SameOutside item xs h g

module _ (h : Links) (item x : ℕ) (xs : List ℕ) (r : Chain h x xs x) (d : Distinct (x ∷ xs))
    (out : has item (x ∷ xs) ≡ false) where
  Ends-first :
      (fuel : ℕ) (p : ℕ → ℕ → Bool)
      → p item x ≡ true
      → Ends h item (x ∷ xs) (insert_sorted p item (x ∷ xs)) (add_from (suc fuel) p item x x h)
  Ends-first fuel p t =
      let g = inserted item x (last_of x xs) h in
      let parts = Chain-split g x xs item [] x (round h item x xs r d out) in
      (
        item,
        g,
        add_from-hit p h item x fuel x g t (runs h item x xs r d out) ∙ ground arith,
        rw (insert_sorted-hit p item x xs t) (refl, (out, d), (parts.1, parts.0)),
        same h item x xs r d out,
      )

  Ends-last :
      Ends h item (x ∷ xs) (x ∷ (xs ++ (item ∷ []))) (insert_before item x h >>= λ g. some (x, g))
  Ends-last = (
    x,
    inserted item x (last_of x xs) h,
    rw (runs h item x xs r d out, ◌>>=◌),
    (refl, Distinct-snoc item (x ∷ xs) d out, round h item x xs r d out),
    same h item x xs r d out,
  )

add_from-Ends :
    (fuel : ℕ) (p : ℕ → ℕ → Bool) (h : Links) (item x : ℕ) (xs : List ℕ)
    → Chain h x xs x
    → Distinct (x ∷ xs)
    → has item (x ∷ xs) ≡ false
    → p item (last_of x xs) ≡ true
    → length (x ∷ xs) ≤ fuel
    → Ends h item (x ∷ xs) (insert_sorted p item (x ∷ xs)) (add_from fuel p item x x h)
add_from-Ends zero p h item x xs r d out last le = absurd (omega arith)
add_from-Ends (suc fuel) p h item x [] r d out last le = Ends-first h item x [] r d out fuel p last
add_from-Ends (suc fuel) p h item x (y ∷ ys) r d out last le = elim (Bool-cases (p item x)) [
  | inl t ↦ Ends-first h item x (y ∷ ys) r d out fuel p t
  | inr f ↦
      let (g, run, chain, same) =
        add_from-Inserts p h item x fuel [] y ys r.0 r.1 d out last (omega arith) in
      (
        x,
        g,
        add_from-miss p h item x fuel x y f r.0.0 (ground arith) ∙ run,
        rw (insert_sorted-miss p item x (y ∷ ys) f) (
          refl,
          rw (insert_sorted-miss p item x (y ∷ ys) f) at
              (Distinct-insert_sorted p item (x ∷ y ∷ ys) d out),
          chain,
        ),
        same,
      )
]

add_to-last :
    (fuel : ℕ) (predicate : Option (ℕ → ℕ → Bool)) (h : Links) (item x last : ℕ)
    → h.prev x ≡ some last
    → sorts_before predicate item last ≡ false
    → add_to fuel predicate item x h ≡ (insert_before item x h >>= λ g. some (x, g))
unfolding add_to
add_to-last fuel predicate h item x last e f = rw (e, ◌>>=◌, f)

add_to-search :
    (fuel : ℕ) (p : ℕ → ℕ → Bool) (h : Links) (item x last : ℕ)
    → h.prev x ≡ some last
    → p item last ≡ true
    → add_to fuel (some p) item x h ≡ add_from fuel p item x x h
unfolding add_to
add_to-search fuel p h item x last e t = rw (e, ◌>>=◌, t)

add_to-Ends :
    (fuel : ℕ) (predicate : Option (ℕ → ℕ → Bool)) (h : Links) (item x : ℕ) (xs : List ℕ)
    → Chain h x xs x
    → Distinct (x ∷ xs)
    → has item (x ∷ xs) ≡ false
    → length (x ∷ xs) ≤ fuel
    → Ends h item (x ∷ xs) (Seq.add predicate item (x ∷ xs)) (add_to fuel predicate item x h)
add_to-Ends fuel none h item x xs r d out le =
    rw
      (
        add_to-last fuel none h item x _ (Chain-last_of h x xs x r) refl,
        add-end none item x xs refl,
      )
      (Ends-last h item x xs r d out)
add_to-Ends fuel (some p) h item x xs r d out le = elim (Bool-cases (p item (last_of x xs))) [
  | inl t ↦
      rw (add_to-search fuel p h item x _ (Chain-last_of h x xs x r) t, add-search p item x xs t)
        (add_from-Ends fuel p h item x xs r d out t le)
  | inr f ↦
      rw
        (
          add_to-last fuel (some p) h item x _ (Chain-last_of h x xs x r) f,
          add-end (some p) item x xs f,
        )
        (Ends-last h item x xs r d out)
]

add-empty :
    (fuel : ℕ) (l : ArList) (item : ℕ) (h : Links)
    → l.head ≡ none
    → IsFree h item
    → add fuel l item h
      ≡ some
          (record l { head = some item }, set_prev item (some item) (set_next item (some item) h))
unfolding add
add-empty fuel l item h e f = rw (f.0, f.1, e)

add-full :
    (fuel : ℕ) (l : ArList) (item x head : ℕ) (h g : Links)
    → l.head ≡ some x
    → IsFree h item
    → add_to fuel l.predicate item x h ≡ some (head, g)
    → add fuel l item h ≡ some (record l { head = some head }, g)
unfolding add
add-full fuel l item x head h g e f run = rw (f.0, f.1, e, run)

-- On a ring of the nodes `xs`, with fuel for each of them, `add` of a node that is on no list
-- succeeds: it leaves a ring of the nodes that `Seq.add` gives, keeps the predicate, and writes
-- no link of a node outside the list.
pub add_refines :
    (fuel : ℕ) (l : ArList) (item : ℕ) (xs : List ℕ) (h : Links)
    → IsRing h l.head xs
    → IsFree h item
    → length xs ≤ fuel
    → (l' : ArList) × (g : Links) × (add fuel l item h ≡ some (l', g))
      × IsRing g l'.head (Seq.add l.predicate item xs)
      × (l'.predicate ≡ l.predicate)
      × SameOutside item xs h g
unfolding set_next set_prev
add_refines fuel l item [] h r f le = (
  record l { head = some item },
  set_prev item (some item) (set_next item (some item) h),
  add-empty fuel l item h r f,
  rw (add-nil l.predicate item) (refl, (refl, tt), ground arith),
  refl,
  ground arith,
)
add_refines fuel l item (x ∷ xs) h r f le =
    let (head, g, run, ring, same) =
      add_to-Ends fuel l.predicate h item x xs r.2 r.1 (IsFree-not-mem h l.head (x ∷ xs) item r f)
        le in
    (record l { head = some head }, g, add-full fuel l item x head h g r.0 f run, ring, refl, same)
