-- ===== src/Fib/Faces.antt =====
-- The faces of an entry: distinct, in the order of their costs.
use rns_icn.Prelude.{ℕ, ◌≤◌, ◌≡◌, ◌≢◌, refl, sym, ◌∙◌, none, some, arith}
use rns_icn.Prelude.{
  [], ◌∷◌, All, leb, leb→le, ◌==◌, nat_eq, nat_beq_iff, if◌then◌else◌, Bool-cases, inl, inr,
}
use rns_icn.Prelude.{get, Fresh, Distinct}
use rns_icn.Pit.{FaceId}
use rns_icn.Fib.{Faces, insert_by_cost, sort_faces, without_face}

-- The costs do not fall.
abbrev pub ByCost : Faces → Type 0
ByCost [] = Unit
ByCost (x ∷ xs) = All (λ y. x.1 ≤ y.1) xs × ByCost xs

Fresh-insert_by_cost :
    (k : FaceId) (x : FaceId × ℕ) (d : Faces) → x.0 ≢ k → Fresh k d → Fresh k (insert_by_cost x d)
unfolding insert_by_cost
Fresh-insert_by_cost k x [] n h = (n, tt)
Fresh-insert_by_cost k x (y ∷ d) n (hy, h) = ground (arith, Fresh-insert_by_cost k x d n h)

Fresh-sort_faces : (k : FaceId) (d : Faces) → Fresh k d → Fresh k (sort_faces d)
unfolding sort_faces
Fresh-sort_faces k [] h = tt
Fresh-sort_faces k (x ∷ d) (hx, h) =
    Fresh-insert_by_cost k x (sort_faces d) hx (Fresh-sort_faces k d h)

Distinct-insert_by_cost :
    (x : FaceId × ℕ) (d : Faces) → Fresh (x.0) d → Distinct d → Distinct (insert_by_cost x d)
unfolding insert_by_cost
Distinct-insert_by_cost x [] f h = (tt, tt)
Distinct-insert_by_cost x (y ∷ d) (fy, f) (hy, h) = elim (Bool-cases (leb x.1 y.1)) [
  | inl t ↦ rw t ((fy, f), (hy, h))
  | inr t ↦
      rw t (Fresh-insert_by_cost (y.0) x d (λ p. fy (sym p)) hy, Distinct-insert_by_cost x d f h)
]

pub Distinct-sort_faces : (d : Faces) → Distinct d → Distinct (sort_faces d)
unfolding sort_faces
Distinct-sort_faces [] h = tt
Distinct-sort_faces (x ∷ d) (hx, h) =
    Distinct-insert_by_cost x (sort_faces d) (Fresh-sort_faces (x.0) d hx) (Distinct-sort_faces d h)

get-insert_by_cost :
    (g : FaceId) (x : FaceId × ℕ) (d : Faces)
    → Fresh (x.0) d
    → get g (insert_by_cost x d) ≡ (if x.0 == g then some x.1 else get g d)
unfolding insert_by_cost get
get-insert_by_cost g x [] f = refl
get-insert_by_cost g x (y ∷ d) (fy, f) =
    ground (arith, nat_beq_iff (x.0) g, nat_beq_iff (y.0) g, get-insert_by_cost g x d f)

-- Sorting does not change what a face costs.
pub get-sort_faces : (g : FaceId) (d : Faces) → Distinct d → get g (sort_faces d) ≡ get g d
unfolding sort_faces get
get-sort_faces g [] h = refl
get-sort_faces g (x ∷ d) (hx, h) =
    get-insert_by_cost g x (sort_faces d) (Fresh-sort_faces (x.0) d hx) ∙ rw (get-sort_faces g d h)

All-le_trans : (a b : ℕ) (d : Faces) → a ≤ b → All (λ y. b ≤ y.1) d → All (λ y. a ≤ y.1) d
All-le_trans a b [] h k = tt
All-le_trans a b (y ∷ d) h (ky, k) = (omega arith, All-le_trans a b d h k)

All-insert_by_cost :
    (a : ℕ) (x : FaceId × ℕ) (d : Faces)
    → a ≤ x.1
    → All (λ y. a ≤ y.1) d
    → All (λ y. a ≤ y.1) (insert_by_cost x d)
unfolding insert_by_cost
All-insert_by_cost a x [] h k = (h, tt)
All-insert_by_cost a x (y ∷ d) h (ky, k) = ground (arith, All-insert_by_cost a x d h k)

ByCost-insert_by_cost : (x : FaceId × ℕ) (d : Faces) → ByCost d → ByCost (insert_by_cost x d)
unfolding insert_by_cost
ByCost-insert_by_cost x [] h = (tt, tt)
ByCost-insert_by_cost x (y ∷ d) (hy, h) = elim (Bool-cases (leb x.1 y.1)) [
  | inl t ↦ let le = leb→le (x.1) (y.1) t in rw t ((le, All-le_trans (x.1) (y.1) d le hy), (hy, h))
  | inr t ↦ rw t (All-insert_by_cost (y.1) x d (ground arith) hy, ByCost-insert_by_cost x d h)
]

pub ByCost-sort_faces : (d : Faces) → ByCost (sort_faces d)
unfolding sort_faces
ByCost-sort_faces [] = tt
ByCost-sort_faces (x ∷ d) = ByCost-insert_by_cost x (sort_faces d) (ByCost-sort_faces d)

pub get-without_face :
    (f g : FaceId) (d : Faces) → get g (without_face f d) ≡ (if f == g then none else get g d)
unfolding without_face get
get-without_face f g [] = ground arith
get-without_face f g ((k, c) ∷ d) =
    ground (arith, nat_beq_iff k f, nat_beq_iff k g, nat_beq_iff f g, get-without_face f g d)

All-without_face :
    (a : ℕ) (f : FaceId) (d : Faces) → All (λ y. a ≤ y.1) d → All (λ y. a ≤ y.1) (without_face f d)
unfolding without_face
All-without_face a f [] h = tt
All-without_face a f ((k, c) ∷ d) (hk, h) = ground (arith, All-without_face a f d h)

pub ByCost-without_face : (f : FaceId) (d : Faces) → ByCost d → ByCost (without_face f d)
unfolding without_face
ByCost-without_face f [] h = tt
ByCost-without_face f ((k, c) ∷ d) (hk, h) =
    ground (arith, All-without_face c f d hk, ByCost-without_face f d h)

Fresh-without_face : (k f : FaceId) (d : Faces) → Fresh k d → Fresh k (without_face f d)
unfolding without_face
Fresh-without_face k f [] h = tt
Fresh-without_face k f ((j, c) ∷ d) (hj, h) = ground (arith, Fresh-without_face k f d h)

pub Distinct-without_face : (f : FaceId) (d : Faces) → Distinct d → Distinct (without_face f d)
unfolding without_face
Distinct-without_face f [] h = tt
Distinct-without_face f ((k, c) ∷ d) (hk, h) =
    ground (arith, Fresh-without_face k f d hk, Distinct-without_face f d h)
