-- ===== src/Prelude.antt =====
-- The names that the other modules share: the libraries', passed on, and those of two children.
pub mod Tests
pub mod Lists
pub use Tests.*
pub use Lists.*
pub use Prim.Native.Nat.{ℕ, zero, suc, ◌+◌, ◌-◌, ◌*◌, ◌/◌, ◌%◌, ◌^◌, ◌≤◌, ◌<◌}
pub use mathlib.Core.Path.{◌≡◌, refl, sym, ap, ap₂, subst, ◌∙◌, fun_ext}
pub use mathlib.Core.Logic.{◌≢◌, ◌↔◌, ◌⊎◌, inl, inr}
pub use mathlib.Core.Bool.{Bool, true, false, not, ◌&&◌, ◌||◌}
pub use mathlib.Core.Option.{Option, none, some}
pub use mathlib.Core.List.{List, [], ◌∷◌, ◌++◌}
pub use native.Mathlib.Omega.{arith}
unfoldable pub use native.Mathlib.Decide.{dec_lt, dec_le, ℕ_discrete}

-- Failure is `none`: a failed assertion, a halt, or a use of a null pointer.
infixl 5 ◌>>=◌ ◌>>◌
abbrev pub ◌>>=◌ {ℓ κ} : {A : Type ℓ} {B : Type κ} → Option A → (A → Option B) → Option B
none >>= f = none
some a >>= f = f a

abbrev pub ◌>>◌ {ℓ} : {B : Type ℓ} → Option (Unit {0}) → Option B → Option B
m >> k = m >>= λ _. k

-- `assert(b)`.
abbrev pub assert : Bool → Option (Unit {0})
assert true = some tt
assert false = none

-- A finite map from addresses, changed at one of them.
abbrev pub update {ℓ} : {A : Type ℓ} → (ℕ → A) → ℕ → A → ℕ → A
update f p v q = if p == q then v else f q

pub update-same {ℓ} : {A : Type ℓ} (f : ℕ → A) (p : ℕ) (v : A) → update f p v p ≡ v
update-same f p v = let e : (p == p) ≡ true = ground arith in rw e refl

-- A word of 32 bits.
abbrev pub u32 : ℕ → ℕ
u32 n = n % 2 ^ 32

-- 32-bit subtraction wraps.
abbrev pub sub32 : ℕ → ℕ → ℕ
sub32 a b = (a + 2 ^ 32 - b) % 2 ^ 32

-- The computation succeeds, with a result that satisfies the predicate.
abbrev pub Returns {ℓ} : {A : Type ℓ} → (A → Type 0) → Option A → Type 0
Returns P none = ⊥
Returns P (some a) = P a

pub Returns-bind {ℓ κ} :
    {A : Type ℓ} {B : Type κ} (o : Option A) (f : A → Option B) (P : A → Type 0) (Q : B → Type 0)
    → Returns P o
    → ((a : A) → P a → Returns Q (f a))
    → Returns Q (o >>= f)
Returns-bind none f P Q r next = absurd r
Returns-bind (some a) f P Q r next = next a r

pub Returns-mono {ℓ} :
    {A : Type ℓ} (o : Option A) (P Q : A → Type 0)
    → Returns P o
    → ((a : A) → P a → Q a)
    → Returns Q o
Returns-mono none P Q r weaken = r
Returns-mono (some a) P Q r weaken = weaken a r

-- The computation fails, or its result satisfies the predicate.
abbrev pub May {ℓ} : {A : Type ℓ} → (A → Type 0) → Option A → Type 0
May P none = Unit {0}
May P (some a) = P a

pub May-bind {ℓ κ} :
    {A : Type ℓ} {B : Type κ} (o : Option A) (f : A → Option B) (P : A → Type 0) (Q : B → Type 0)
    → May P o
    → ((a : A) → P a → May Q (f a))
    → May Q (o >>= f)
May-bind none f P Q m next = tt
May-bind (some a) f P Q m next = next a m

pub May-any {ℓ} : {A : Type ℓ} (o : Option A) → May (λ a. Unit {0}) o
May-any none = tt
May-any (some a) = tt

pub May-some {ℓ} : {A : Type ℓ} (o : Option A) (P : A → Type 0) (a : A) → May P o → o ≡ some a → P a
May-some none P a m e = cc
May-some (some b) P a m e = subst (λ o. May P o) e m

pub May-mono {ℓ} :
    {A : Type ℓ} (o : Option A) (P Q : A → Type 0) → May P o → ((a : A) → P a → Q a) → May Q o
May-mono none P Q m weaken = tt
May-mono (some a) P Q m weaken = weaken a m

pub Returns-May {ℓ} :
    {A : Type ℓ} (o : Option A) (P Q : A → Type 0)
    → Returns P o
    → May Q o
    → Returns (λ a. P a × Q a) o
Returns-May none P Q r m = r
Returns-May (some a) P Q r m = (r, m)
