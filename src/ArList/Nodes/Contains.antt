-- ===== src/ArList/Nodes/Contains.antt =====
-- `_ar_list::contains` on pointers, and membership in the sequence.
use argon_rtos.Prelude.{
  ℕ, zero, suc, ◌≤◌, ◌≡◌, ◌≢◌, ◌∙◌, inl, inr, true, false, none, some, ◌>>=◌, ◌⊎◌, List, [], ◌∷◌,
  ◌==◌, arith, has, length, Bool-cases,
}
use argon_rtos.ArList.Nodes.{Links, ArList, contains, contains_from}
use argon_rtos.ArList.Nodes.Ring.{Chain, IsRing}
use argon_rtos.ArList.Nodes.Add.{Chain-has}

contains_from-next :
    (fuel item a y z : ℕ) (h : Links)
    → (y == item) ≡ false
    → h.next y ≡ some z
    → (z == a) ≡ false
    → contains_from (suc fuel) item a y h ≡ contains_from fuel item a z h
unfolding contains_from
contains_from-next fuel item a y z h n e m = rw (n, contains_from, e, ◌>>=◌, m)

contains_from-end :
    (fuel item a y : ℕ) (h : Links)
    → (y == item) ≡ false
    → h.next y ≡ some a
    → contains_from (suc fuel) item a y h ≡ some false
unfolding contains_from
contains_from-end fuel item a y h n e =
    let s : (a == a) ≡ true = ground arith in rw (n, contains_from, e, ◌>>=◌, s)

contains_from-hit :
    (fuel item a y : ℕ) (h : Links)
    → (y == item) ≡ true
    → contains_from (suc fuel) item a y h ≡ some true
unfolding contains_from
contains_from-hit fuel item a y h t = rw (t, contains_from)

contains_from-has :
    (fuel item a y : ℕ) (ys : List ℕ) (h : Links)
    → Chain h y ys a
    → has a ys ≡ false
    → length (y ∷ ys) ≤ fuel
    → contains_from fuel item a y h ≡ some (has item (y ∷ ys))
contains_from-has zero item a y ys h c n le = absurd (omega arith)
contains_from-has (suc fuel) item a y [] h c n le = elim (Bool-cases (y == item)) [
  | inl t ↦ contains_from-hit fuel item a y h t ∙ ground arith
  | inr f ↦ contains_from-end fuel item a y h f c.0 ∙ ground arith
]
contains_from-has (suc fuel) item a y (z ∷ zs) h c n le = elim (Bool-cases (y == item)) [
  | inl t ↦ contains_from-hit fuel item a y h t ∙ ground arith
  | inr f ↦
      contains_from-next fuel item a y z h f c.0.0 (ground arith)
      ∙ contains_from-has fuel item a z zs h c.1 (ground arith) (omega arith)
      ∙ ground arith
]

Chain-has_prev :
    (h : Links) (a : ℕ) (xs : List ℕ) (b c : ℕ)
    → Chain h a xs b
    → has c (b ∷ xs) ≡ true
    → h.prev c ≢ none
Chain-has_prev h a [] b c d m e = ground arith
Chain-has_prev h a (x ∷ xs) b c d m e = ground (arith, Chain-has_prev h x xs b c d.1)

contains-cases :
    (fuel : ℕ) (l : ArList) (item x : ℕ) (h : Links)
    → l.head ≡ some x
    → (contains fuel l item h ≡ contains_from fuel item x x h)
      ⊎ ((contains fuel l item h ≡ some false) × (h.next item ≡ none))
      ⊎ ((contains fuel l item h ≡ some false) × (h.prev item ≡ none))
unfolding contains
contains-cases fuel l item x h e = ground arith

contains-empty :
    (fuel : ℕ) (l : ArList) (item : ℕ) (h : Links)
    → l.head ≡ none
    → contains fuel l item h ≡ some false
unfolding contains
contains-empty fuel l item h e = ground arith

-- On a ring of the nodes `xs`, with fuel for each of them, `contains` tells whether a node is
-- one of them, whatever links the node has.
contains_refines :
    (fuel : ℕ) (l : ArList) (item : ℕ) (xs : List ℕ) (h : Links)
    → IsRing h l.head xs
    → length xs ≤ fuel
    → contains fuel l item h ≡ some (has item xs)
contains_refines fuel l item [] h r le = contains-empty fuel l item h r
contains_refines fuel l item (x ∷ xs) h r le = ground (
  arith,
  contains-cases fuel l item x h r.0,
  contains_from-has fuel item x x xs h r.2 r.1.0 le,
  Chain-has h x xs x item r.2,
  Chain-has_prev h x xs x item r.2,
  Bool-cases (has item (x ∷ xs)),
)
