-- ===== src/Name/Longest.antt =====
-- The loop for the longest matching prefix, `if name.starts_with(x.prefix) and (best is None or
-- x.prefix.len() > best.prefix.len()): best = x`, over any items with a prefix.
use rns_icn.Prelude.{◌≤◌, ◌<◌, ◌≡◌, Bool, true, false, ◌&&◌, Option, none, some, arith}
use rns_icn.Prelude.{List, [], ◌∷◌, length, All, In, here, there, ltb, ltb→lt, ltb-false→le}
use rns_icn.Prelude.{if◌then◌else◌, Bool-cases, inl, inr, refl}
use rns_icn.Name.{Name, starts_with}

module _ {A : Type 0} (prefix_of : A → Name) where
  abbrev pub is_longer : A → Option A → Bool
  is_longer x none = true
  is_longer x (some best) =
      ltb (length (prefix_of best).components) (length (prefix_of x).components)

  unfoldable pub longest_match : Name → Option A → List A → Option A
  unfolding starts_with
  longest_match name best [] = best
  longest_match name best (x ∷ xs) =
      longest_match name
        (if starts_with name (prefix_of x) && is_longer x best then some x else best) xs

  -- Every matching item has a prefix at most as long as this one's.
  abbrev pub Longest : Name → A → List A → Type 0
  Longest name r = All (λ x.
      starts_with name (prefix_of x) ≡ true
      → length (prefix_of x).components ≤ length (prefix_of r).components)

  -- What the loop gives from a best item so far: it, or an item of the list, no shorter than it
  -- and than every match of the list.
  abbrev Best : Name → A → List A → Option A → Type 0
  Best name b xs none = ⊥
  Best name b xs (some r) =
      In r (b ∷ xs)
      × (starts_with name (prefix_of r) ≡ true)
      × (length (prefix_of b).components ≤ length (prefix_of r).components)
      × Longest name r xs

  weaken : {r b x : A} {xs : List A} → In r (b ∷ xs) → In r (b ∷ x ∷ xs)
  weaken (here p) = here p
  weaken (there m) = there (there m)

  Best-take :
      (name : Name) (b x : A) (xs : List A) (o : Option A)
      → length (prefix_of b).components < length (prefix_of x).components
      → Best name x xs o
      → Best name b (x ∷ xs) o
  Best-take name b x xs none lt h = h
  Best-take name b x xs (some r) lt (m, match, le, longest) =
      (there m, match, omega arith, ((λ _. le), longest))

  Best-skip :
      (name : Name) (b x : A) (xs : List A) (o : Option A)
      → (starts_with name (prefix_of x) ≡ true
          → length (prefix_of x).components ≤ length (prefix_of b).components)
      → Best name b xs o
      → Best name b (x ∷ xs) o
  Best-skip name b x xs none short h = h
  Best-skip name b x xs (some r) short (m, match, le, longest) =
      (weaken m, match, le, ((λ t. omega (arith, short t)), longest))

  Best-some :
      (name : Name) (b : A) (xs : List A)
      → starts_with name (prefix_of b) ≡ true
      → Best name b xs (longest_match name (some b) xs)
  unfolding longest_match
  Best-some name b [] h = (here refl, h, omega arith, tt)
  Best-some name b (x ∷ xs) h = elim (Bool-cases (starts_with name (prefix_of x))) [
    | inl t ↦
        elim (Bool-cases
          (ltb (length (prefix_of b).components) (length (prefix_of x).components))) [
            | inl longer ↦
                rw (t, longer)
                  (Best-take name b x xs _
                    (ltb→lt (length (prefix_of b).components) (length (prefix_of x).components)
                      longer)
                    (Best-some name x xs t))
            | inr other ↦
                rw (t, other)
                  (Best-skip name b x xs _
                    (λ _.
                      ltb-false→le (length (prefix_of b).components)
                        (length (prefix_of x).components) other)
                    (Best-some name b xs h))
          ]
    | inr f ↦ rw f (Best-skip name b x xs _ (λ t. cc) (Best-some name b xs h))
  ]

  -- No item's prefix is one of the name.
  abbrev pub NoMatch : Name → List A → Type 0
  NoMatch name = All (λ x. starts_with name (prefix_of x) ≡ false)

  -- Nothing if no item's prefix is one of the name, and otherwise an item of the list whose prefix
  -- is one of the name, of which there is none longer.
  abbrev pub Found : Name → List A → Option A → Type 0
  Found name xs none = NoMatch name xs
  Found name xs (some r) = In r xs × (starts_with name (prefix_of r) ≡ true) × Longest name r xs

  Found-take :
      (name : Name) (x : A) (xs : List A) (o : Option A) → Best name x xs o → Found name (x ∷ xs) o
  Found-take name x xs none h = absurd h
  Found-take name x xs (some r) (m, match, le, longest) = (m, match, ((λ _. le), longest))

  Found-skip :
      (name : Name) (x : A) (xs : List A) (o : Option A)
      → starts_with name (prefix_of x) ≡ false
      → Found name xs o
      → Found name (x ∷ xs) o
  Found-skip name x xs none f h = (f, h)
  Found-skip name x xs (some r) f (m, match, longest) = (there m, match, ((λ t. cc), longest))

  pub longest_match-Found : (name : Name) (xs : List A) → Found name xs (longest_match name none xs)
  unfolding longest_match
  longest_match-Found name [] = tt
  longest_match-Found name (x ∷ xs) = elim (Bool-cases (starts_with name (prefix_of x))) [
    | inl t ↦ rw t (Found-take name x xs _ (Best-some name x xs t))
    | inr f ↦ rw f (Found-skip name x xs _ f (longest_match-Found name xs))
  ]
