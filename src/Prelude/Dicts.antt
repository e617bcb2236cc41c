-- ===== src/Prelude/Dicts.antt =====
-- Python's `dict`: an association list in the order in which its keys were first stored.
use Prim.Native.Nat.{suc, ◌+◌}
use mathlib.Core.Path.{◌≡◌, refl, sym}
use mathlib.Core.Logic.{◌≢◌, inl, inr}
use mathlib.Core.Bool.{Bool}
use mathlib.Core.Option.{Option, none, some}
use mathlib.Core.List.{List, [], ◌∷◌}
use native.Mathlib.Omega.{arith}
use rns_icn.Prelude.Tests.{if◌then◌else◌, is_some, Bool-cases}
use rns_icn.Prelude.Lists.{filter, length, All}
use rns_icn.Prelude.Equality.{HasEq, ◌==◌}

abbrev pub Dict {ℓ κ} : Type ℓ → Type κ → Type (ℓ ⊔ κ)
Dict K V = List (K × V)

module _ {ℓ κ} {K : Type ℓ} {V : Type κ} ⦃e : HasEq K⦄ where
  -- `d.get(k)`
  unfoldable pub get : K → Dict K V → Option V
  get k [] = none
  get k ((j, v) ∷ d) = if j == k then some v else get k d

  -- `d[k] = v`: a key that is there keeps its place
  unfoldable pub put : K → V → Dict K V → Dict K V
  put k v [] = (k, v) ∷ []
  put k v ((j, w) ∷ d) = if j == k then (j, v) ∷ d else (j, w) ∷ put k v d

  -- `d.pop(k, None)`, the dictionary that is left
  unfoldable pub erase : K → Dict K V → Dict K V
  erase k [] = []
  erase k ((j, w) ∷ d) = if j == k then d else (j, w) ∷ erase k d

  -- no key equals `k`
  abbrev pub Fresh : K → Dict K V → Type ℓ
  Fresh k = All (λ p. p.0 ≢ k)

  -- the keys are distinct
  abbrev pub Distinct : Dict K V → Type ℓ
  Distinct [] = Unit
  Distinct ((k, v) ∷ d) = Fresh k d × Distinct d

  pub get-put :
      (k j : K) (v : V) (d : Dict K V) → get j (put k v d) ≡ (if k == j then some v else get j d)
  unfolding get put
  get-put k j v [] = refl
  get-put k j v ((i, w) ∷ d) =
      ground (arith, e.agrees k j, e.agrees i k, e.agrees i j, get-put k j v d)

  pub get-Fresh : (k : K) (d : Dict K V) → Fresh k d → get k d ≡ none
  unfolding get
  get-Fresh k [] h = refl
  get-Fresh k ((j, w) ∷ d) (hj, h) = ground (arith, e.agrees j k, get-Fresh k d h)

  pub Fresh-get : (k : K) (d : Dict K V) → get k d ≡ none → Fresh k d
  unfolding get
  Fresh-get k [] h = tt
  Fresh-get k ((j, w) ∷ d) h = ground (arith, e.agrees j k, Fresh-get k d)

  pub Fresh-put : (k j : K) (v : V) (d : Dict K V) → k ≢ j → Fresh j d → Fresh j (put k v d)
  unfolding put
  Fresh-put k j v [] n h = (n, tt)
  Fresh-put k j v ((i, w) ∷ d) n (hi, h) = ground (arith, Fresh-put k j v d n h)

  pub Fresh-erase : (k j : K) (d : Dict K V) → Fresh j d → Fresh j (erase k d)
  unfolding erase
  Fresh-erase k j [] h = tt
  Fresh-erase k j ((i, w) ∷ d) (hi, h) = ground (arith, Fresh-erase k j d h)

  pub Distinct-put : (k : K) (v : V) (d : Dict K V) → Distinct d → Distinct (put k v d)
  unfolding put
  Distinct-put k v [] h = (tt, tt)
  Distinct-put k v ((j, w) ∷ d) (hj, h) = elim (Bool-cases (j == k)) [
    | inl same ↦ rw same (hj, h)
    | inr other ↦
        rw other (Fresh-put k j v d (λ p. cc ((e.agrees j k).1 (sym p))) hj, Distinct-put k v d h)
  ]

  pub Distinct-erase : (k : K) (d : Dict K V) → Distinct d → Distinct (erase k d)
  unfolding erase
  Distinct-erase k [] h = tt
  Distinct-erase k ((j, w) ∷ d) (hj, h) = ground (arith, Fresh-erase k j d hj, Distinct-erase k d h)

  pub get-erase :
      (k j : K) (d : Dict K V) → Distinct d → get j (erase k d) ≡ (if k == j then none else get j d)
  unfolding get erase
  get-erase k j [] h = ground arith
  get-erase k j ((i, w) ∷ d) (hi, h) =
      ground (arith, e.agrees k j, e.agrees i k, e.agrees i j, get-erase k j d h, get-Fresh i d hi)

  pub length-put :
      (k : K) (v : V) (d : Dict K V)
      → length (put k v d) ≡ (if is_some (get k d) then length d else suc (length d))
  unfolding get put
  length-put k v [] = refl
  length-put k v ((j, w) ∷ d) = ground (arith, length-put k v d)

  pub length-erase :
      (k : K) (d : Dict K V) → length (erase k d) + (if is_some (get k d) then 1 else 0) ≡ length d
  unfolding get erase
  length-erase k [] = refl
  length-erase k ((j, w) ∷ d) = ground (arith, length-erase k d)

  pub Fresh-filter : (k : K) (p : K × V → Bool) (d : Dict K V) → Fresh k d → Fresh k (filter p d)
  Fresh-filter k p [] h = tt
  Fresh-filter k p (x ∷ d) (hx, h) = ground (arith, Fresh-filter k p d h)

  pub Distinct-filter : (p : K × V → Bool) (d : Dict K V) → Distinct d → Distinct (filter p d)
  Distinct-filter p [] h = tt
  Distinct-filter p ((k, v) ∷ d) (hk, h) =
      ground (arith, Fresh-filter k p d hk, Distinct-filter p d h)
