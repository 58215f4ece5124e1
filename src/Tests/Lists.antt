-- ===== src/Tests/Lists.antt =====
-- Runs of the operations on the intrusive lists at a concrete ring.
use argon_rtos.Prelude.{
  ℕ, ◌≡◌, ◌≤◌, ◌↔◌, List, length, refl, false, none, some, [], ◌∷◌, ◌==◌, has, arith, ltb,
  if◌then◌else◌,
}
use argon_rtos.ArList.Nodes
use argon_rtos.ArList.Nodes.{Links, ArList}
use argon_rtos.ArList.Nodes.Ring.{IsRing, IsFree}
use argon_rtos.ArList.Nodes.Search.{SameOutside}
use argon_rtos.ArList.Nodes.Add.{add_refines}
use argon_rtos.ArList.Nodes.Remove.{remove_refines}
use argon_rtos.ArList.Nodes.Check.{most_nodes, check}
use argon_rtos.ArList.Nodes.Check.Exact.{check_iff}
use argon_rtos.ArList.Seq

-- The nodes 1 and 2 in a ring.
abbrev ring : Links
ring = record {
  next = λ a. if a == 1 then some 2 else if a == 2 then some 1 else none;
  prev = λ a. if a == 1 then some 2 else if a == 2 then some 1 else none;
}

abbrev ring_list : ArList
ring_list = record { head = some 1; predicate = some (λ a b. ltb a b) }

ring-IsRing : IsRing ring (some 1) (1 ∷ 2 ∷ [])
ring-IsRing = (refl, (refl, (refl, tt)), ((refl, refl), (refl, refl)))

add_refines_example :
    (l : ArList) × (g : Links) × (Nodes.add 2 ring_list 0 ring ≡ some (l, g))
    × IsRing g l.head (Seq.add (some (λ a b. ltb a b)) 0 (1 ∷ 2 ∷ []))
    × (l.predicate ≡ some (λ a b. ltb a b))
    × SameOutside 0 (1 ∷ 2 ∷ []) ring g
add_refines_example =
    add_refines 2 ring_list 0 (1 ∷ 2 ∷ []) ring ring-IsRing (refl, refl) (omega arith)

remove_refines_example :
    (l : ArList) × (g : Links) × (Nodes.remove ring_list 1 ring ≡ some (l, g))
    × IsRing g l.head (Seq.remove 1 (1 ∷ 2 ∷ []))
    × (l.predicate ≡ some (λ a b. ltb a b))
    × IsFree g 1
    × ((c : ℕ) → has c (1 ∷ 2 ∷ []) ≡ false → (g.next c ≡ ring.next c) × (g.prev c ≡ ring.prev c))
remove_refines_example = remove_refines ring_list 1 (1 ∷ 2 ∷ []) ring ring-IsRing refl

check_iff_example :
    (check ring_list ring ≡ some tt)
    ↔ ((xs : List ℕ) × (IsRing ring (some 1) xs × (length xs ≤ most_nodes)))
check_iff_example = check_iff ring_list ring
