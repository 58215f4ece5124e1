-- ===== src/ArList/Nodes/Check/Loops.antt =====
-- The two loops of `_ar_list::check`: what the first one saves, and when the links match it.
use argon_rtos.Prelude.{
  ℕ, zero, suc, ◌≤◌, ◌≡◌, refl, true, false, Option, some, ◌>>=◌, List, [], ◌∷◌, ◌==◌, arith, has,
  length, Distinct, Bool-cases, inl, inr, May, May-bind, May-any,
}
use argon_rtos.ArList.Nodes.{Links, is_node}
use argon_rtos.ArList.Nodes.Ring.{Chain}
use argon_rtos.ArList.Seq
use argon_rtos.ArList.Seq.{last_of}
use argon_rtos.ArList.Nodes.Check.{collect, links_match}

is_node-some : (p : Option ℕ) (a : ℕ) → is_node p a ≡ true → p ≡ some a
is_node-some p a e = ground arith

-- What the first loop saves: distinct nodes, that begin with `node` and were not seen before.
abbrev pub Saved : (seen : List ℕ) → (node : ℕ) → List ℕ → Type 0
Saved seen node nodes =
    Distinct nodes
    × ((c : ℕ) → has c nodes ≡ true → has c seen ≡ false)
    × (Seq.head? nodes ≡ some node)

pub collect-Saved :
    (room : ℕ) (seen : List ℕ) (node : ℕ) (h : Links)
    → has node seen ≡ false
    → May (Saved seen node) (collect room seen node h)
unfolding collect
collect-Saved zero seen node h n = tt
collect-Saved (suc room) seen node h n =
    May-bind (h.next node) _ (λ f. Unit) _ (May-any (h.next node))
      (λ f u. elim (Bool-cases (has f (node ∷ seen))) [
        | inl m ↦ rw m (((refl, tt), (λ c e. ground arith), refl))
        | inr m ↦ rw m (
            May-bind (collect room (node ∷ seen) f h) _ (Saved (node ∷ seen) f) _
              (collect-Saved room (node ∷ seen) f h m)
              (λ nodes s. (
                (ground (arith, s.1 node, Bool-cases (has node nodes)), s.0),
                (λ c e. ground (arith, s.1 c, Bool-cases (has c nodes))),
                refl,
              )))
      ])

pub collect-length :
    (room : ℕ) (seen : List ℕ) (node : ℕ) (h : Links)
    → May (λ nodes. length nodes ≤ room) (collect room seen node h)
unfolding collect
collect-length zero seen node h = tt
collect-length (suc room) seen node h =
    May-bind (h.next node) _ (λ f. Unit) _ (May-any (h.next node))
      (λ f u. elim (Bool-cases (has f (node ∷ seen))) [
        | inl m ↦ rw m (omega arith)
        | inr m ↦ rw m (
            May-bind (collect room (node ∷ seen) f h) _ (λ nodes. length nodes ≤ room) _
              (collect-length room (node ∷ seen) f h) (λ nodes s. omega (arith, s)))
      ])

-- Links that match the nodes are a chain back to the first node, whose link back is the last node.
pub links_match-Chain :
    (first before x : ℕ) (xs : List ℕ) (h : Links)
    → links_match first before (x ∷ xs) h ≡ true
    → h.prev first ≡ some (last_of x xs)
    → Chain h x xs first × (h.prev x ≡ some before)
unfolding links_match
links_match-Chain first before x [] h m p = (
  (is_node-some (h.next x) first (ground arith), p),
  is_node-some (h.prev x) before (ground arith),
)
links_match-Chain first before x (y ∷ ys) h m p =
    let c = links_match-Chain first x y ys h (ground arith) p in
    (
      ((is_node-some (h.next x) y (ground arith), c.1), c.0),
      is_node-some (h.prev x) before (ground arith),
    )

pub links_match-prev :
    (first before x : ℕ) (xs : List ℕ) (h : Links)
    → links_match first before (x ∷ xs) h ≡ true
    → h.prev x ≡ some before
unfolding links_match
links_match-prev first before x [] h m = is_node-some (h.prev x) before (ground arith)
links_match-prev first before x (y ∷ ys) h m = is_node-some (h.prev x) before (ground arith)

pub Chain-links_match :
    (first before x : ℕ) (xs : List ℕ) (h : Links)
    → Chain h x xs first
    → h.prev x ≡ some before
    → links_match first before (x ∷ xs) h ≡ true
unfolding links_match
Chain-links_match first before x [] h c p = ground arith
Chain-links_match first before x (y ∷ ys) h c p =
    ground (arith, Chain-links_match first x y ys h c.1 c.0.1)

-- On a ring the first loop saves the nodes that are left.
pub collect-Chain :
    (room : ℕ) (seen : List ℕ) (a x : ℕ) (xs : List ℕ) (h : Links)
    → Chain h x xs a
    → has a (x ∷ seen) ≡ true
    → Distinct (x ∷ xs)
    → ((c : ℕ) → has c xs ≡ true → has c seen ≡ false)
    → suc (length xs) ≤ room
    → collect room seen x h ≡ some (x ∷ xs)
unfolding collect
collect-Chain zero seen a x xs h c m d n l = absurd (omega (arith, l))
collect-Chain (suc room) seen a x [] h c m d n l = rw (c.0, ◌>>=◌, m) refl
collect-Chain (suc room) seen a x (y ∷ ys) h c m d n l =
    let fresh : has y (x ∷ seen) ≡ false = ground (arith, n y) in
    let rest : collect room (x ∷ seen) y h ≡ some (y ∷ ys) =
      collect-Chain room (x ∷ seen) a y ys h c.1 (ground arith) d.1
        (λ e q. ground (arith, n e, d.0, Bool-cases (e == x))) (omega (arith, l)) in
    rw (c.0.0, ◌>>=◌, fresh, rest, ◌>>=◌) refl
