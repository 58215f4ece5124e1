-- ===== src/ArList/Nodes.antt =====
-- `_ar_list_node` and `_ar_list`: insertBefore, contains, add and remove of src/ar_kernel.cpp, on
-- pointers. A node is its address. `none` is a failed assertion, or a loop that runs out of fuel.
pub mod Ring
pub mod Insert
pub mod Bypass
pub mod Search
pub mod Add
pub mod Remove
pub mod Contains
pub mod Check
use argon_rtos.ArList.Seq.{sorts_before}
use argon_rtos.Prelude.{
  ℕ, zero, suc, Bool, true, false, ◌&&◌, Option, none, some, ◌==◌, if◌then◌else◌, ◌>>=◌, ◌>>◌,
  assert, update,
}

-- The links of every node, by address. `none` is NULL.
pub record Links : Type 0 where
  pub next : ℕ → Option ℕ
  pub prev : ℕ → Option ℕ

-- `_ar_list`: the head, and the sort predicate if there is one.
pub record ArList : Type 0 where
  pub head : Option ℕ
  pub predicate : Option (ℕ → ℕ → Bool)

abbrev pub is_none : Option ℕ → Bool
is_none none = true
is_none (some _) = false

abbrev pub is_node : Option ℕ → ℕ → Bool
is_node none a = false
is_node (some b) a = b == a

-- A use of a pointer.
abbrev pub deref : Option ℕ → Option ℕ
deref p = p

pub set_next : ℕ → Option ℕ → Links → Links
set_next a p h = record h { next = update h.next a p }

pub set_prev : ℕ → Option ℕ → Links → Links
set_prev a p h = record h { prev = update h.prev a p }

-- `_ar_list_node::insertBefore`.
pub insert_before : (item node : ℕ) → Links → Option Links
unfolding set_next set_prev
insert_before item node h = do
  let h = set_next item (some node) h
  let h = set_prev item (h.prev node) h
  before ← deref (h.prev node)
  let h = set_next before (some item) h
  some (set_prev node (some item) h)

-- The search loop of `contains`, at `node`.
pub contains_from : ℕ → (item head node : ℕ) → Links → Option Bool
contains_from zero item head node h = none
contains_from (suc fuel) item head node h = elim (node == item) [
  | true ↦ some true
  | false ↦ do
    following ← deref (h.next node)
    elim (following == head) [
      | true ↦ some false
      | false ↦ contains_from fuel item head following h
    ]
]

-- `_ar_list::contains`.
pub contains : ℕ → ArList → ℕ → Links → Option Bool
unfolding contains_from
contains fuel l item h = elim (h.next item) [
  | none ↦ some false
  | some _ ↦ elim (h.prev item) [
    | none ↦ some false
    | some _ ↦ elim l.head [ none ↦ some false | some head ↦ contains_from fuel item head head h ]
  ]
]

-- The insertion loop of `add`, at `node`. The result is the new head, and the links.
pub add_from : ℕ → (ℕ → ℕ → Bool) → (item head node : ℕ) → Links → Option (ℕ × Links)
add_from zero predicate item head node h = none
add_from (suc fuel) predicate item head node h = elim (predicate item node) [
  | true ↦ do h' ← insert_before item node h; some (if node == head then item else head, h')
  | false ↦ do
    following ← deref (h.next node)
    elim (following == head) [
      | true ↦ some (head, h)
      | false ↦ add_from fuel predicate item head following h
    ]
]

-- The branches of `add` on a list that is not empty.
pub add_to : ℕ → Option (ℕ → ℕ → Bool) → (item head : ℕ) → Links → Option (ℕ × Links)
unfolding add_from
add_to fuel sorting item head h = do
  last ← deref (h.prev head)
  elim (sorts_before sorting item last) [
    | false ↦ do h' ← insert_before item head h; some (head, h')
    | true ↦ do predicate ← sorting; add_from fuel predicate item head head h
  ]

-- `_ar_list::add`.
pub add : ℕ → ArList → ℕ → Links → Option (ArList × Links)
unfolding add_to insert_before set_next set_prev
add fuel l item h = do
  assert (is_none (h.next item) && is_none (h.prev item))
  elim l.head [
    | none ↦
        some
          (record l { head = some item }, set_prev item (some item) (set_next item (some item) h))
    | some head ↦ do
      (head', h') ← add_to fuel l.predicate item head h
      some (record l { head = some head' }, h')
  ]

-- The head of a list from which `item`, followed by `after`, goes.
pub head_after : (item head after : ℕ) → Option ℕ
head_after item head after =
    if head == item then (if after == head then none else some after) else some head

-- `_ar_list::remove`.
pub remove : ArList → ℕ → Links → Option (ArList × Links)
unfolding head_after set_next set_prev
remove l item h = do
  head ← l.head
  after ← h.next item
  before ← h.prev item
  let h = set_next before (some after) h
  let h = set_prev after (some before) h
  some (record l { head = head_after item head after }, set_prev item none (set_next item none h))
