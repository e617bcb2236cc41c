-- ===== src/Prelude/Sorting.antt =====
-- Python's stable `sorted` and SQL's ORDER BY: insertion sort by a test.
use Prim.Native.Nat.{suc}
use mathlib.Core.Path.{◌≡◌, refl, ap, ◌∙◌}
use mathlib.Core.Logic.{inl, inr}
use mathlib.Core.Bool.{Bool, true, false}
use mathlib.Core.List.{List, [], ◌∷◌}
use rns_icn.Prelude.Tests.{if◌then◌else◌, Bool-cases}
use rns_icn.Prelude.Lists.{All, length}

module _ {ℓ} {A : Type ℓ} where
  -- A relation to all that come later, if it is symmetric, survives sorting.
  abbrev pub Pairwise {κ} : (A → A → Type κ) → List A → Type κ
  Pairwise R [] = Unit
  Pairwise R (x ∷ xs) = All (R x) xs × Pairwise R xs

  All-flip {κ} :
      (R : A → A → Type κ) (s : (a b : A) → R a b → R b a) (x : A) (xs : List A)
      → All (R x) xs
      → All (λ y. R y x) xs
  All-flip R s x [] h = tt
  All-flip R s x (y ∷ ys) (p, h) = (s x y p, All-flip R s x ys h)

  All-trans {κ} :
      (R : A → A → Type κ) (trans : (a b c : A) → R a b → R b c → R a c) (x y : A) (zs : List A)
      → R x y
      → All (R y) zs
      → All (R x) zs
  All-trans R trans x y [] p h = tt
  All-trans R trans x y (z ∷ zs) p (q, h) = (trans x y z p q, All-trans R trans x y zs p h)

module _ {ℓ} {A : Type ℓ} (before : A → A → Bool) where
  -- `x` stands before the first element that it is to come before.
  unfoldable pub insert_sorted : A → List A → List A
  insert_sorted x [] = x ∷ []
  insert_sorted x (y ∷ ys) = if before x y then x ∷ y ∷ ys else y ∷ insert_sorted x ys

  unfoldable pub sort : List A → List A
  unfolding insert_sorted
  sort [] = []
  sort (x ∷ xs) = insert_sorted x (sort xs)

  length-insert_sorted : (x : A) (xs : List A) → length (insert_sorted x xs) ≡ suc (length xs)
  unfolding insert_sorted
  length-insert_sorted x [] = refl
  length-insert_sorted x (y ∷ ys) = elim (Bool-cases (before x y)) [
    | inl t ↦ rw t refl
    | inr t ↦ rw t (ap suc (length-insert_sorted x ys))
  ]

  pub length-sort : (xs : List A) → length (sort xs) ≡ length xs
  unfolding sort
  length-sort [] = refl
  length-sort (x ∷ xs) = length-insert_sorted x (sort xs) ∙ ap suc (length-sort xs)

  All-insert_sorted {κ} :
      (P : A → Type κ) (x : A) (xs : List A) → P x → All P xs → All P (insert_sorted x xs)
  unfolding insert_sorted
  All-insert_sorted P x [] p h = (p, tt)
  All-insert_sorted P x (y ∷ ys) p (q, h) = elim (Bool-cases (before x y)) [
    | inl t ↦ rw t (p, (q, h))
    | inr t ↦ rw t (q, All-insert_sorted P x ys p h)
  ]

  pub All-sort {κ} : (P : A → Type κ) (xs : List A) → All P xs → All P (sort xs)
  unfolding sort
  All-sort P [] h = tt
  All-sort P (x ∷ xs) (p, h) = All-insert_sorted P x (sort xs) p (All-sort P xs h)

  Pairwise-insert_sorted {κ} :
      (R : A → A → Type κ) (s : (a b : A) → R a b → R b a) (x : A) (xs : List A)
      → All (R x) xs
      → Pairwise R xs
      → Pairwise R (insert_sorted x xs)
  unfolding insert_sorted
  Pairwise-insert_sorted R s x [] h k = (tt, tt)
  Pairwise-insert_sorted R s x (y ∷ ys) (p, h) (q, k) = elim (Bool-cases (before x y)) [
    | inl t ↦ rw t ((p, h), (q, k))
    | inr t ↦ rw t (All-insert_sorted (R y) x ys (s x y p) q, Pairwise-insert_sorted R s x ys h k)
  ]

  pub Pairwise-sort {κ} :
      (R : A → A → Type κ) (s : (a b : A) → R a b → R b a) (xs : List A)
      → Pairwise R xs
      → Pairwise R (sort xs)
  unfolding sort
  Pairwise-sort R s [] h = tt
  Pairwise-sort R s (x ∷ xs) (h, k) =
      Pairwise-insert_sorted R s x (sort xs) (All-sort (R x) xs h) (Pairwise-sort R s xs k)

  insert_sorted-Pairwise {κ} :
      (R : A → A → Type κ) (here_ : (a b : A) → before a b ≡ true → R a b)
      (after_ : (a b : A) → before a b ≡ false → R b a)
      (trans : (a b c : A) → R a b → R b c → R a c) (x : A) (xs : List A)
      → Pairwise R xs
      → Pairwise R (insert_sorted x xs)
  unfolding insert_sorted
  insert_sorted-Pairwise R here_ after_ trans x [] k = (tt, tt)
  insert_sorted-Pairwise R here_ after_ trans x (y ∷ ys) (q, k) = elim (Bool-cases (before x y)) [
    | inl t ↦ rw t ((here_ x y t, All-trans R trans x y ys (here_ x y t) q), (q, k))
    | inr t ↦ rw t (
      All-insert_sorted (R y) x ys (after_ x y t) q,
      insert_sorted-Pairwise R here_ after_ trans x ys k,
    )
  ]

  -- What the test decides, if it is transitive, holds throughout the sorted list.
  pub sort-Pairwise {κ} :
      (R : A → A → Type κ) (here_ : (a b : A) → before a b ≡ true → R a b)
      (after_ : (a b : A) → before a b ≡ false → R b a)
      (trans : (a b c : A) → R a b → R b c → R a c) (xs : List A)
      → Pairwise R (sort xs)
  unfolding sort
  sort-Pairwise R here_ after_ trans [] = tt
  sort-Pairwise R here_ after_ trans (x ∷ xs) =
      insert_sorted-Pairwise R here_ after_ trans x (sort xs)
        (sort-Pairwise R here_ after_ trans xs)
