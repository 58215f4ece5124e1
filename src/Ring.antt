-- ===== src/Ring.antt =====
-- Ring buffers in general: the values from an index on, where `next` is the step of the index that
-- the code of the buffer has.
use argon_rtos.Prelude.{
  ℕ, zero, suc, ◌+◌, ◌-◌, ◌≡◌, ◌≤◌, ◌<◌, refl, false, Option, some, List, [], ◌∷◌, ◌++◌, ◌==◌, ltb,
  if◌then◌else◌, set, get_elem?, length, arith, ap₂, subst,
}

-- The index that is `n` places behind `i`, for `n` up to the capacity.
abbrev pub behind : (capacity i n : ℕ) → ℕ
behind c i n = if ltb (i + n) c then i + n else i + n - c

pub behind-bound : (c i n : ℕ) → i < c → n ≤ c → behind c i n < c
behind-bound c i n li ln = ground arith

-- The `n` values from index `i` on. `none` is an index outside of the storage.
abbrev pub values {ℓ} : {A : Type ℓ} → (ℕ → ℕ) → List A → (i n : ℕ) → List (Option A)
values next xs i zero = []
values next xs i (suc n) = get_elem? xs i ∷ values next xs (next i) n

module _ {ℓ} {A : Type ℓ} where
  pub get_elem?-set :
      (xs : List A) (i j : ℕ) (v : A)
      → j < length xs
      → get_elem? (set xs j v) i ≡ (if i == j then some v else get_elem? xs i)
  get_elem?-set [] i j v l = absurd (omega (arith, l))
  get_elem?-set (x ∷ xs) zero zero v l = refl
  get_elem?-set (x ∷ xs) zero (suc j) v l = ground arith
  get_elem?-set (x ∷ xs) (suc i) zero v l = ground arith
  get_elem?-set (x ∷ xs) (suc i) (suc j) v l = ground (arith, get_elem?-set xs i j v)

  pub get_elem?-some : (xs : List A) (i : ℕ) → i < length xs → (v : A) × (get_elem? xs i ≡ some v)
  get_elem?-some [] i l = absurd (omega (arith, l))
  get_elem?-some (x ∷ xs) zero l = (x, refl)
  get_elem?-some (x ∷ xs) (suc i) l = get_elem?-some xs i (omega (arith, l))

-- A ring of `c` places, whose code steps from one to the next.
module _ (c : ℕ) (next : ℕ → ℕ) (step : (i : ℕ) → i < c → next i ≡ behind c i 1) where
  pub next-bound : (i : ℕ) → i < c → next i < c
  next-bound i li = ground (arith, step i li)

  pub behind-suc : (i n : ℕ) → i < c → suc n ≤ c → behind c (next i) n ≡ behind c i (suc n)
  behind-suc i n li ln = ground (arith, step i li)

  pub next-behind : (i n : ℕ) → i < c → n < c → next (behind c i n) ≡ behind c i (suc n)
  next-behind i n li ln =
      let b = behind-bound c i n li (omega (arith, ln)) in ground (arith, step (behind c i n) b)

  module _ {ℓ} {A : Type ℓ} (v : A) where
    -- A write behind the last of `n` values is one value more at the end.
    pub values-set :
        (xs : List A) (i n : ℕ)
        → length xs ≡ c
        → i < c
        → n < c
        → values next (set xs (behind c i n) v) i (suc n) ≡ values next xs i n ++ (some v ∷ [])
    values-set xs i zero s li ln =
        let at : behind c i 0 ≡ i = ground arith in
        ground (arith, get_elem?-set xs i (behind c i 0) v)
    values-set xs i (suc n) s li ln =
        let other : (i == behind c i (suc n)) ≡ false = ground arith in
        let first : get_elem? (set xs (behind c i (suc n)) v) i ≡ get_elem? xs i =
          ground (arith, get_elem?-set xs i (behind c i (suc n)) v, behind-bound c i (suc n) li) in
        let rest = values-set xs (next i) n s (next-bound i li) (omega (arith, ln)) in
        let rest' =
          subst
            (λ j.
              values next (set xs j v) (next i) (suc n)
              ≡ values next xs (next i) n ++ (some v ∷ []))
            (behind-suc i n li (omega (arith, ln))) rest in
        ap₂ (λ x ys. x ∷ ys) first rest'
