-- ===== src/Thread/Report/Prefix.antt =====
-- ar_thread_get_report of src/ar_thread.cpp against the list of all threads.
use argon_rtos.Prelude.{
  ℕ, zero, suc, ◌-◌, ◌≤◌, ◌≡◌, refl, ◌∙◌, ap, ap₂, sym, subst, List, [], ◌∷◌, ◌++◌, length, arith,
}
use argon_rtos.Kernel.{Kernel}
use argon_rtos.Thread.Report.{ThreadStatus, thread_status, report_list, report_lists, get_report}

-- The first `n` elements.
unfoldable pub take : ℕ → List ThreadStatus → List ThreadStatus
take zero xs = []
take (suc n) [] = []
take (suc n) (x ∷ xs) = x ∷ take n xs

-- What a report may tell about some threads.
unfoldable pub statuses : Kernel → List ℕ → List ThreadStatus
statuses k [] = []
statuses k (t ∷ xs) = thread_status k t ∷ statuses k xs

take-nil : (n : ℕ) → take n [] ≡ []
unfolding take
take-nil zero = refl
take-nil (suc n) = refl

length-take : (n : ℕ) (xs : List ThreadStatus) → length (take n xs) ≤ n
unfolding take
length-take zero xs = omega arith
length-take (suc n) [] = omega arith
length-take (suc n) (x ∷ xs) = omega (arith, length-take n xs)

take-append :
    (n : ℕ) (xs ys : List ThreadStatus)
    → take n (xs ++ ys) ≡ take n xs ++ take (n - length (take n xs)) ys
unfolding take
take-append zero xs ys = refl
take-append (suc n) [] ys = let e : suc n ≡ suc n - 0 = omega arith in ap (λ m. take m ys) e
take-append (suc n) (x ∷ xs) ys =
    let rest : suc n - suc (length (take n xs)) ≡ n - length (take n xs) = omega arith in
    ap (λ zs. x ∷ zs) (take-append n xs ys ∙ ap (λ m. take n xs ++ take m ys) (sym rest))

statuses-append :
    (k : Kernel) (xs ys : List ℕ) → statuses k (xs ++ ys) ≡ statuses k xs ++ statuses k ys
unfolding statuses
statuses-append k [] ys = refl
statuses-append k (x ∷ xs) ys = ap (λ zs. thread_status k x ∷ zs) (statuses-append k xs ys)

report_list-take : (k : Kernel) (n : ℕ) (xs : List ℕ) → report_list k n xs ≡ take n (statuses k xs)
unfolding report_list take statuses
report_list-take k zero xs = refl
report_list-take k (suc n) [] = refl
report_list-take k (suc n) (x ∷ xs) = ap (λ zs. thread_status k x ∷ zs) (report_list-take k n xs)

-- The report goes on with the next list in the room that is left.
report_lists-cons :
    (k : Kernel) (n : ℕ) (xs all : List ℕ) (rest : List (List ℕ))
    → ((m : ℕ) → report_lists k m rest ≡ take m (statuses k all))
    → report_lists k n (xs ∷ rest) ≡ take n (statuses k (xs ++ all))
unfolding report_lists
report_lists-cons k n xs all rest h =
    ap₂ (λ ys m. ys ++ m) (report_list-take k n xs)
      (h (n - length (report_list k n xs))
        ∙ ap (λ ys. take (n - length ys) (statuses k all)) (report_list-take k n xs))
    ∙ (sym (take-append n (statuses k xs) (statuses k all))
        ∙ ap (take n) (sym (statuses-append k xs all)))

nothing : (k : Kernel) (m : ℕ) → report_lists k m [] ≡ take m (statuses k [])
unfolding report_lists statuses
nothing k m = sym (take-nil m)

-- A report into an array of `max_entries` tells of the first threads of the ready list, the suspended
-- list and the sleeping list in a row, as many as there is room for, and of no more than that.
get_report-take :
    (max_entries : ℕ) (k : Kernel)
    → let l = k.threads in
      (get_report max_entries k
        ≡ take max_entries
            (statuses k (l.ready_list ++ (l.suspended_list ++ (l.sleeping_list ++ [])))))
      × (length (get_report max_entries k) ≤ max_entries)
unfolding get_report
get_report-take n k =
    let l = k.threads in
    let all =
      report_lists-cons k n l.ready_list (l.suspended_list ++ (l.sleeping_list ++ [])) _ (λ m.
        report_lists-cons k m l.suspended_list (l.sleeping_list ++ []) _
          (λ m. report_lists-cons k m l.sleeping_list [] [] (λ m. nothing k m))) in
    (all, subst (λ xs. length xs ≤ n) (sym all) (length-take n _))
