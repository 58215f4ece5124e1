-- ===== src/ArList/Nodes/Check.antt =====
-- `_ar_list::check` of src/ar_kernel.cpp, which is compiled with the list checks. `none` is a halt, or a
-- use of a NULL pointer.
pub mod Loops
pub mod Exact
use argon_rtos.Prelude.{
  ℕ, zero, suc, ◌≤◌, ◌≡◌, ◌≢◌, ◌∙◌, ap, sym, subst, refl, Bool, true, false, ◌&&◌, Option, none,
  some, ◌>>=◌, ◌>>◌, ◌↔◌, List, [], ◌∷◌, ◌==◌, arith, has, length, Distinct, assert, Bool-cases,
  inl, inr, May, May-some, May-bind, May-any, Option-cases,
}
use argon_rtos.ArList.Nodes.{Links, ArList, deref, is_node}
use argon_rtos.ArList.Seq.{last_of}

-- `kNumNodes - 2`: the check halts when it has saved one node more.
abbrev pub most_nodes : ℕ
most_nodes = 18

-- The loop that saves the nodes, at `node`, with room for a number of nodes before it halts. `seen`
-- are the nodes that were saved. The result is the nodes from this one on.
unfoldable pub collect : ℕ → (seen : List ℕ) → (node : ℕ) → Links → Option (List ℕ)
collect zero seen node h = none
collect (suc room) seen node h = do
  following ← deref (h.next node)
  elim (has following (node ∷ seen)) [
    | true ↦ some (node ∷ [])
    | false ↦ (collect room (node ∷ seen) following h >>= λ nodes. some (node ∷ nodes))
  ]

-- The loop that compares the links with the nodes. `before` is the node in front of the first one
-- that is left, and the last node is followed by `first`.
unfoldable pub links_match : (first before : ℕ) → List ℕ → Links → Bool
links_match first before [] h = true
links_match first before (x ∷ []) h = is_node (h.next x) first && is_node (h.prev x) before
links_match first before (x ∷ y ∷ xs) h =
    (is_node (h.next x) y && is_node (h.prev x) before) && links_match first x (y ∷ xs) h

-- The last of a list of nodes; `first` if there is none.
abbrev pub last_node : (first : ℕ) → List ℕ → ℕ
last_node first [] = first
last_node first (x ∷ xs) = last_of x xs

-- `_ar_list::check`.
unfoldable pub check : ArList → Links → Option (Unit {0})
unfolding collect links_match
check l h = elim l.head [
  | none ↦ some tt
  | some x ↦ do
    nodes ← collect most_nodes [] x h
    assert (links_match x (last_node x nodes) nodes h)
]
