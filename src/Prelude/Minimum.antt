-- ===== src/Prelude/Minimum.antt =====
-- Python's `min(xs, key=f)`: the first element with the least key.
use Prim.Native.Nat.{ℕ, ◌≤◌}
use mathlib.Core.Path.{◌≡◌, refl, ap}
use mathlib.Core.Logic.{◌≢◌, inl, inr}
use mathlib.Core.Option.{some}
use mathlib.Core.List.{List, [], ◌∷◌}
use native.Mathlib.Omega.{arith}
use rns_icn.Prelude.Tests.{ltb, ltb→lt, ltb-false→le, if◌then◌else◌, Bool-cases}
use rns_icn.Prelude.Lists.{All}
use rns_icn.Prelude.Equality.{HasEq}
use rns_icn.Prelude.Dicts.{Dict, get, Distinct}

-- The element stands in the list.
pub data In {ℓ} {A : Type ℓ} (a : A) : List A → Type ℓ where
  here : {x : A} {xs : List A} → a ≡ x → In a (x ∷ xs)
  there : {x : A} {xs : List A} → In a xs → In a (x ∷ xs)

module _ {ℓ} {A : Type ℓ} where
  -- `best` is the least so far.
  unfoldable pub min_by : (A → ℕ) → A → List A → A
  min_by f best [] = best
  min_by f best (x ∷ xs) = min_by f (if ltb (f x) (f best) then x else best) xs

  min_by-le_best : (f : A → ℕ) (best : A) (xs : List A) → f (min_by f best xs) ≤ f best
  unfolding min_by
  min_by-le_best f best [] = omega arith
  min_by-le_best f best (x ∷ xs) = elim (Bool-cases (ltb (f x) (f best))) [
    | inl t ↦ rw t (omega (arith, min_by-le_best f x xs, ltb→lt (f x) (f best) t))
    | inr t ↦ rw t (min_by-le_best f best xs)
  ]

  least_lem :
      (f : A → ℕ) (best : A) (xs : List A) (m : A)
      → m ≡ min_by f best xs
      → All (λ x. f m ≤ f x) (best ∷ xs)
  unfolding min_by
  least_lem f best [] m e = (omega (arith, ap f e), tt)
  least_lem f best (x ∷ xs) m e = elim (Bool-cases (ltb (f x) (f best))) [
    | inl t ↦
        let below = least_lem f x xs m (rw t at e) in
        (omega (arith, below.0, ltb→lt (f x) (f best) t), below)
    | inr t ↦
        let below = least_lem f best xs m (rw t at e) in
        (below.0, (omega (arith, below.0, ltb-false→le (f x) (f best) t), below.1))
  ]

  -- Its key is at most that of every element.
  pub min_by-All :
      (f : A → ℕ) (best : A) (xs : List A) → All (λ x. f (min_by f best xs) ≤ f x) (best ∷ xs)
  min_by-All f best xs = least_lem f best xs (min_by f best xs) refl

  -- It stands in the list.
  pub min_by-In : (f : A → ℕ) (best : A) (xs : List A) → In (min_by f best xs) (best ∷ xs)
  unfolding min_by
  min_by-In f best [] = here refl
  min_by-In f best (x ∷ xs) = elim (Bool-cases (ltb (f x) (f best))) [
    | inl t ↦ rw t (there (min_by-In f x xs))
    | inr t ↦ rw t (skip (min_by-In f best xs))
  ]
    where
      skip : {a : A} → In a (best ∷ xs) → In a (best ∷ x ∷ xs)
      skip (here e) = here e
      skip (there m) = there (there m)

  pub All-In {κ} : (P : A → Type κ) (a : A) (xs : List A) → All P xs → In a xs → P a
  All-In P a [] h m = elim m [ ]
  All-In P a (x ∷ xs) (hx, h) (here e) = rw e hx
  All-In P a (x ∷ xs) (hx, h) (there m) = All-In P a xs h m

module _ {ℓ κ} {K : Type ℓ} {V : Type κ} ⦃e : HasEq K⦄ where
  -- A pair of a dictionary with distinct keys is what its key is bound to.
  pub get-In : (k : K) (v : V) (d : Dict K V) → Distinct d → In (k, v) d → get k d ≡ some v
  unfolding get
  get-In k v [] h m = elim m [ ]
  get-In k v ((j, w) ∷ d) (fresh, h) (here p) = ground (arith, e.agrees j k)
  get-In k v ((j, w) ∷ d) (fresh, h) (there m) =
      let n = All-In (λ q. q.0 ≢ j) (k, v) d fresh m in
      ground (arith, e.agrees j k, get-In k v d h m)
