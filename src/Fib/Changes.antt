-- ===== src/Fib/Changes.antt =====
-- The well-formedness of the FIB, and that every change keeps it.
use rns_icn.Prelude.{ℕ, ◌≢◌, sym, Bool, arith}
use rns_icn.Prelude.{List, [], ◌∷◌, All, filter, leb, ◌==◌, nat_eq, Bool-cases, inl, inr}
use rns_icn.Prelude.{put, Fresh, Distinct, Distinct-put, Distinct-filter}
use mathlib.Core.List.{foldl}
use rns_icn.Name.{Name, name_eq, name_beq_iff}
use rns_icn.Pit.{FaceId}
use rns_icn.Fib.{
  Fib, Faces, sort_faces, insert_by_cost, insert, without_face, keep_entry, related, remove_face,
  remove_prefix, remove_all_for_face,
}
use rns_icn.Fib.Faces.{
  ByCost, Distinct-sort_faces, ByCost-sort_faces, ByCost-without_face, Distinct-without_face,
}

-- The faces of an entry are distinct and in the order of their costs, and there is one at least.
abbrev pub ValidFaces : Faces → Type 0
ValidFaces fs = Distinct fs × ByCost fs × (fs ≢ [])

-- The prefixes are distinct, and so on.
abbrev pub IsValid : Fib → Type 0
IsValid fib = Distinct fib × All (λ e. ValidFaces (e.1)) fib

insert_by_cost-ne-nil : (x : FaceId × ℕ) (d : Faces) → insert_by_cost x d ≢ []
unfolding insert_by_cost
insert_by_cost-ne-nil x [] = λ e. cc
insert_by_cost-ne-nil x (y ∷ d) = elim (Bool-cases (leb x.1 y.1)) [
  | inl t ↦ rw t (λ e. cc)
  | inr t ↦ rw t (λ e. cc)
]

put-ne-nil : (f : FaceId) (c : ℕ) (d : Faces) → sort_faces (put f c d) ≢ []
unfolding sort_faces put
put-ne-nil f c [] = insert_by_cost-ne-nil (f, c) []
put-ne-nil f c ((g, b) ∷ d) = elim (Bool-cases (g == f)) [
  | inl t ↦ rw t (insert_by_cost-ne-nil (g, c) (sort_faces d))
  | inr t ↦ rw t (insert_by_cost-ne-nil (g, b) (sort_faces (put f c d)))
]

Fresh-insert :
    (k p : Name) (f : FaceId) (c : ℕ) (fib : Fib) → p ≢ k → Fresh k fib → Fresh k (insert p f c fib)
unfolding insert
Fresh-insert k p f c [] n h = (n, tt)
Fresh-insert k p f c ((r, faces) ∷ es) n (hr, h) = ground (arith, Fresh-insert k p f c es n h)

pub insert-IsValid :
    (p : Name) (f : FaceId) (c : ℕ) (fib : Fib) → IsValid fib → IsValid (insert p f c fib)
unfolding insert
insert-IsValid p f c [] h = ((tt, tt), ((((tt, tt), (tt, tt), λ e. cc)), tt))
insert-IsValid p f c ((r, faces) ∷ es) ((fr, h), ((dist, by, n), k)) = elim (Bool-cases (r == p)) [
  | inl t ↦ rw t (
    (fr, h),
    (
      (
        Distinct-sort_faces (put f c faces) (Distinct-put f c faces dist),
        ByCost-sort_faces (put f c faces),
        put-ne-nil f c faces,
      ),
      k,
    ),
  )
  | inr t ↦
      let (d', k') = insert-IsValid p f c es (h, k) in
      rw t (
        (Fresh-insert r p f c es (λ e. cc ((name_beq_iff r p).1 (sym e))) fr, d'),
        ((dist, by, n), k'),
      )
]

pub Fresh-keep_entry :
    (k q : Name) (faces : Faces) (es : Fib) → q ≢ k → Fresh k es → Fresh k (keep_entry q faces es)
unfolding keep_entry
Fresh-keep_entry k q [] es n h = h
Fresh-keep_entry k q (x ∷ faces) es n h = (n, h)

pub Fresh-remove_face :
    (k p : Name) (f : FaceId) (fib : Fib) → Fresh k fib → Fresh k (remove_face p f fib)
unfolding remove_face
Fresh-remove_face k p f [] h = tt
Fresh-remove_face k p f ((q, faces) ∷ es) (hq, h) =
    let rest = Fresh-remove_face k p f es h in
    elim (Bool-cases (related p q)) [
      | inl t ↦ rw t (Fresh-keep_entry k q (without_face f faces) (remove_face p f es) hq rest)
      | inr t ↦ rw t (hq, rest)
    ]

pub Fresh-remove_all_for_face :
    (k : Name) (f : FaceId) (fib : Fib) → Fresh k fib → Fresh k (remove_all_for_face f fib).0
unfolding remove_all_for_face
Fresh-remove_all_for_face k f [] h = tt
Fresh-remove_all_for_face k f ((q, faces) ∷ es) (hq, h) =
    Fresh-keep_entry k q (without_face f faces) (remove_all_for_face f es).0 hq
      (Fresh-remove_all_for_face k f es h)

keep_entry-IsValid :
    (q : Name) (faces : Faces) (es : Fib)
    → Distinct faces × ByCost faces
    → Fresh q es
    → IsValid es
    → IsValid (keep_entry q faces es)
unfolding keep_entry
keep_entry-IsValid q [] es h fr k = k
keep_entry-IsValid q (x ∷ faces) es (d, b) fr (h, k) = ((fr, h), ((d, b, λ e. cc), k))

pub remove_all_for_face-IsValid :
    (f : FaceId) (fib : Fib) → IsValid fib → IsValid (remove_all_for_face f fib).0
unfolding remove_all_for_face
remove_all_for_face-IsValid f [] h = h
remove_all_for_face-IsValid f ((q, faces) ∷ es) ((fr, h), ((d, b, n), k)) =
    keep_entry-IsValid q (without_face f faces) (remove_all_for_face f es).0
      (Distinct-without_face f faces d, ByCost-without_face f faces b)
      (Fresh-remove_all_for_face q f es fr) (remove_all_for_face-IsValid f es (h, k))

pub remove_face-IsValid :
    (p : Name) (f : FaceId) (fib : Fib) → IsValid fib → IsValid (remove_face p f fib)
unfolding remove_face
remove_face-IsValid p f [] h = h
remove_face-IsValid p f ((q, faces) ∷ es) ((fr, h), ((d, b, n), k)) =
    let ih = remove_face-IsValid p f es (h, k) in
    let fresh = Fresh-remove_face q p f es fr in
    elim (Bool-cases (related p q)) [
      | inl t ↦ rw t (
          keep_entry-IsValid q (without_face f faces) (remove_face p f es)
            (Distinct-without_face f faces d, ByCost-without_face f faces b) fresh ih)
      | inr t ↦ rw t ((fresh, ih.0), ((d, b, n), ih.1))
    ]

All-filter {ℓ κ} :
    {A : Type ℓ} (P : A → Type κ) (p : A → Bool) (xs : List A) → All P xs → All P (filter p xs)
All-filter P p [] h = tt
All-filter P p (x ∷ xs) (hx, h) = elim (Bool-cases (p x)) [
  | inl t ↦ rw t (hx, All-filter P p xs h)
  | inr t ↦ rw t (All-filter P p xs h)
]

pub remove_prefix-IsValid : (p : Name) (fib : Fib) → IsValid fib → IsValid (remove_prefix p fib)
unfolding remove_prefix
remove_prefix-IsValid p fib (d, k) =
    (Distinct-filter _ fib d, All-filter (λ e. ValidFaces (e.1)) _ fib k)

-- The calls that change the table.
pub data Change : Type 0 where
  add : Name → FaceId → ℕ → Change
  drop_face : Name → FaceId → Change
  drop_prefix : Name → Change
  withdraw : FaceId → Change

pub apply : Change → Fib → Fib
apply (add p f c) fib = insert p f c fib
apply (drop_face p f) fib = remove_face p f fib
apply (drop_prefix p) fib = remove_prefix p fib
apply (withdraw f) fib = (remove_all_for_face f fib).0

apply-IsValid : (c : Change) (fib : Fib) → IsValid fib → IsValid (apply c fib)
unfolding apply
apply-IsValid (add p f c) fib h = insert-IsValid p f c fib h
apply-IsValid (drop_face p f) fib h = remove_face-IsValid p f fib h
apply-IsValid (drop_prefix p) fib h = remove_prefix-IsValid p fib h
apply-IsValid (withdraw f) fib h = remove_all_for_face-IsValid f fib h

-- After any sequence of changes to an empty table the prefixes are distinct, and every entry has
-- at least one face, its faces distinct and in the order of their costs.
pub changes-IsValid : (cs : List Change) → IsValid (foldl (λ fib c. apply c fib) [] cs)
changes-IsValid cs = keeps cs [] (tt, tt)
  where
    keeps :
        (cs : List Change) (fib : Fib) → IsValid fib → IsValid (foldl (λ fib c. apply c fib) fib cs)
    keeps [] fib h = h
    keeps (c ∷ cs) fib h = keeps cs (apply c fib) (apply-IsValid c fib h)
