-- ===== src/ArList/Nodes/Check/Exact.antt =====
-- `_ar_list::check` finds exactly the lists that are rings.
use argon_rtos.Prelude.{
  ℕ, ◌≤◌, ◌≡◌, ◌≢◌, ◌∙◌, ap, sym, subst, refl, Bool, true, false, Option, none, some, ◌>>=◌, ◌↔◌,
  List, [], ◌∷◌, arith, length, assert, inl, inr, May-some, Option-cases,
}
use argon_rtos.ArList.Nodes.{Links, ArList}
use argon_rtos.ArList.Nodes.Ring.{IsRing}
use argon_rtos.ArList.Nodes.Add.{Chain-last_of}
use argon_rtos.ArList.Seq.{last_of}
use argon_rtos.ArList.Nodes.Check.{most_nodes, collect, links_match, last_node, check}
use argon_rtos.ArList.Nodes.Check.Loops.{
  Saved, collect-Saved, links_match-Chain, links_match-prev, Chain-links_match, collect-Chain,
  collect-length,
}

halts : (o : Option (Unit {0})) → o ≡ none → o ≢ some tt
halts o n e = cc

asserted : (b : Bool) → assert b ≡ some tt → b ≡ true
asserted true e = refl
asserted false e = cc

module _ (l : ArList) (h : Links) where
  -- The check at a head.
  check-run :
      (x : ℕ) (nodes : List ℕ)
      → l.head ≡ some x
      → collect most_nodes [] x h ≡ some nodes
      → check l h ≡ assert (links_match x (last_node x nodes) nodes h)
  unfolding check
  check-run x nodes e c = rw (check, e, c, ◌>>=◌) refl

  check-accepts : (xs : List ℕ) → IsRing h l.head xs → length xs ≤ most_nodes → check l h ≡ some tt
  unfolding check
  check-accepts [] r n = rw r refl
  check-accepts (x ∷ xs) r n =
      let saved : collect most_nodes [] x h ≡ some (x ∷ xs) =
        collect-Chain most_nodes [] x x xs h r.2 (ground arith) r.1 (λ c m. refl) n in
      let matches : links_match x (last_of x xs) (x ∷ xs) h ≡ true =
        Chain-links_match x (last_of x xs) x xs h r.2 (Chain-last_of h x xs x r.2) in
      check-run x (x ∷ xs) r.0 saved ∙ ap assert matches

  -- A list that the check accepts, of nodes that it has saved.
  Saved-IsRing :
      (x : ℕ) (nodes : List ℕ)
      → l.head ≡ some x
      → Saved [] x nodes
      → length nodes ≤ most_nodes
      → links_match x (last_node x nodes) nodes h ≡ true
      → (xs : List ℕ) × (IsRing h l.head xs × (length xs ≤ most_nodes))
  Saved-IsRing x [] e s n m = cc
  Saved-IsRing x (y ∷ ys) e s n m =
      let same : y ≡ x = ground (arith, s.2) in
      let m' : links_match y (last_of y ys) (y ∷ ys) h ≡ true =
        subst (λ z. links_match z (last_of y ys) (y ∷ ys) h ≡ true) (sym same) m in
      let c =
        links_match-Chain y (last_of y ys) y ys h m'
          (links_match-prev y (last_of y ys) y ys h m') in
      (y ∷ ys, ((e ∙ ap some (sym same), s.0, c.0), n))

  check-IsRing :
      check l h ≡ some tt → (xs : List ℕ) × (IsRing h l.head xs × (length xs ≤ most_nodes))
  unfolding check
  check-IsRing ok = elim (Option-cases l.head) [
    | inl e ↦ ([], (e, omega arith))
    | inr head ↦
        let (x, e) = head in
        elim (Option-cases (collect most_nodes [] x h)) [
          | inl halted ↦
              let stops : check l h ≡ none = rw (check, e, halted, ◌>>=◌) refl in
              absurd (halts (check l h) stops ok)
          | inr found ↦
              let (nodes, saved) = found in
              Saved-IsRing x nodes e
                (May-some (collect most_nodes [] x h) (Saved [] x) nodes
                  (collect-Saved most_nodes [] x h refl) saved)
                (May-some (collect most_nodes [] x h) (λ nodes. length nodes ≤ most_nodes) nodes
                  (collect-length most_nodes [] x h) saved)
                (asserted _ (sym (check-run x nodes e saved) ∙ ok))
        ]
  ]

  -- The check of a list comes to an end without a halt if and only if its links make a ring of at
  -- most 18 nodes from its head on, which is then the list.
  pub check_iff :
      (check l h ≡ some tt) ↔ ((xs : List ℕ) × (IsRing h l.head xs × (length xs ≤ most_nodes)))
  check_iff = (check-IsRing, λ r. check-accepts r.0 r.1.0 r.1.1)
