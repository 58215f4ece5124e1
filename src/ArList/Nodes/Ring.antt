-- ===== src/ArList/Nodes/Ring.antt =====
-- What it means that the nodes of a list are linked in a ring, with the lemmas on chains of links.
use argon_rtos.Prelude.{ℕ, ◌≡◌, true, Option, none, some, List, [], ◌∷◌, ◌++◌, arith, has, Distinct}
use argon_rtos.ArList.Nodes.{Links}

-- `b` follows `a`.
abbrev pub Linked : Links → ℕ → ℕ → Type 0
Linked h a b = (h.next a ≡ some b) × (h.prev b ≡ some a)

-- From `a` the links lead through `xs` to `b`.
abbrev pub Chain : Links → ℕ → List ℕ → ℕ → Type 0
Chain h a [] b = Linked h a b
Chain h a (x ∷ xs) b = Linked h a x × Chain h x xs b

-- The nodes of a list are distinct, and linked from the head through the others back to the head.
abbrev pub IsRing : Links → Option ℕ → List ℕ → Type 0
IsRing h head [] = head ≡ none
IsRing h head (x ∷ xs) = (head ≡ some x) × Distinct (x ∷ xs) × Chain h x xs x

-- A node that is on no list.
abbrev pub IsFree : Links → ℕ → Type 0
IsFree h a = (h.next a ≡ none) × (h.prev a ≡ none)

pub Chain-append :
    (h : Links) (a : ℕ) (xs : List ℕ) (y : ℕ) (ys : List ℕ) (b : ℕ)
    → Chain h a xs y
    → Chain h y ys b
    → Chain h a (xs ++ (y ∷ ys)) b
Chain-append h a [] y ys b c d = (c, d)
Chain-append h a (x ∷ xs) y ys b c d = (c.0, Chain-append h x xs y ys b c.1 d)

pub Chain-split :
    (h : Links) (a : ℕ) (xs : List ℕ) (y : ℕ) (ys : List ℕ) (b : ℕ)
    → Chain h a (xs ++ (y ∷ ys)) b
    → Chain h a xs y × Chain h y ys b
Chain-split h a [] y ys b c = (c.0, c.1)
Chain-split h a (x ∷ xs) y ys b c = let r = Chain-split h x xs y ys b c.1 in ((c.0, r.0), r.1)

-- A chain survives a change of the links that spares its own.
pub Chain-frame :
    (h g : Links) (a : ℕ) (xs : List ℕ) (b : ℕ)
    → Chain h a xs b
    → ((c : ℕ) → has c (a ∷ xs) ≡ true → g.next c ≡ h.next c)
    → ((c : ℕ) → has c (b ∷ xs) ≡ true → g.prev c ≡ h.prev c)
    → Chain g a xs b
Chain-frame h g a [] b c n p = ground (arith, n a, p b)
Chain-frame h g a (x ∷ xs) b c n p = (
  ground (arith, n a, p x),
  Chain-frame h g x xs b c.1 (λ d m. n d (ground arith)) (λ d m. p d (ground arith)),
)

-- The node before the end of a chain is its start, or one of the nodes between.
pub Chain-last :
    (h : Links) (a : ℕ) (xs : List ℕ) (b l : ℕ)
    → Chain h a xs b
    → h.prev b ≡ some l
    → has l (a ∷ xs) ≡ true
Chain-last h a [] b l c e = ground arith
Chain-last h a (x ∷ xs) b l c e = ground (arith, Chain-last h x xs b l c.1 e)

-- The end of a chain has a node before it.
pub Chain-prev :
    (h : Links) (a : ℕ) (xs : List ℕ) (b : ℕ) → Chain h a xs b → (l : ℕ) × (h.prev b ≡ some l)
Chain-prev h a [] b c = (a, c.1)
Chain-prev h a (x ∷ xs) b c = Chain-prev h x xs b c.1

-- The start of a chain has a node after it.
pub Chain-next :
    (h : Links) (a : ℕ) (xs : List ℕ) (b : ℕ) → Chain h a xs b → (n : ℕ) × (h.next a ≡ some n)
Chain-next h a [] b c = (b, c.0)
Chain-next h a (x ∷ xs) b c = (x, c.0.0)
