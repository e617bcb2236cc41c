-- ===== src/Fib/Routes.antt =====
-- The FIB as a table of routes: what each operation does to the cost of a face under a prefix.
use rns_icn.Prelude.{ℕ, ◌≡◌, refl, ◌&&◌, Option, none, some, arith}
use rns_icn.Prelude.{[], ◌∷◌, ◌==◌, nat_eq, if◌then◌else◌}
use rns_icn.Prelude.{get, put, Fresh, get-put, Distinct-put}
use mathlib.Core.Path.{subst}
use rns_icn.Name.{Name, name_eq, name_beq_iff, starts_with}
use rns_icn.Pit.{FaceId}
use rns_icn.Fib.{
  Fib, Faces, insert, without_face, keep_entry, related, remove_face, remove_prefix,
  remove_all_for_face,
}
use rns_icn.Fib.Changes.{IsValid, Fresh-remove_face, Fresh-remove_all_for_face}
use rns_icn.Fib.Faces.{get-sort_faces, get-without_face}

-- The specification: the cost of a face under a prefix, if there is such a route.
pub route : Name → FaceId → Fib → Option ℕ
route q g [] = none
route q g ((p, faces) ∷ es) = if p == q then get g faces else route q g es

-- In a valid table `insert` sets the cost of one face under one prefix, and no other route.
pub route-insert :
    (p : Name) (f : FaceId) (c : ℕ) (fib : Fib) (q : Name) (g : FaceId)
    → IsValid fib
    → route q g (insert p f c fib) ≡ (if p == q && f == g then some c else route q g fib)
unfolding route insert
route-insert p f c [] q g h = unfold get in ground arith
route-insert p f c ((r, faces) ∷ es) q g ((fr, h), ((dist, by, n), k)) =
    let sorted = get-sort_faces g (put f c faces) (Distinct-put f c faces dist) in
    ground (
      arith,
      name_beq_iff r p,
      name_beq_iff r q,
      name_beq_iff p q,
      sorted,
      get-put f g c faces,
      route-insert p f c es q g (h, k),
    )

route-keep_entry :
    (q p : Name) (g : FaceId) (faces : Faces) (es : Fib)
    → (faces ≡ [] → p ≡ q → route q g es ≡ none)
    → route q g (keep_entry p faces es) ≡ (if p == q then get g faces else route q g es)
unfolding route keep_entry
route-keep_entry q p g [] es h = unfold get in ground (arith, name_beq_iff p q)
route-keep_entry q p g (x ∷ faces) es h = refl

route-Fresh : (q : Name) (g : FaceId) (fib : Fib) → Fresh q fib → route q g fib ≡ none
unfolding route
route-Fresh q g [] h = refl
route-Fresh q g ((p, faces) ∷ es) (hp, h) = ground (arith, name_beq_iff p q, route-Fresh q g es h)

-- In a valid table `remove_face` drops the routes over the face under every prefix that extends the
-- given one and under every prefix of it, and no other route.
pub route-remove_face :
    (p : Name) (f : FaceId) (fib : Fib) (q : Name) (g : FaceId)
    → IsValid fib
    → route q g (remove_face p f fib) ≡ (if f == g && related p q then none else route q g fib)
unfolding route remove_face
route-remove_face p f [] q g h = ground arith
route-remove_face p f ((r, faces) ∷ es) q g ((fr, h), (hf, k)) =
    let rest = Fresh-remove_face r p f es fr in
    ground (
      arith,
      name_beq_iff r q,
      route-remove_face p f es q g (h, k),
      get-without_face f g faces,
      route-keep_entry q r g (without_face f faces) (remove_face p f es) (λ _ e.
          route-Fresh q g (remove_face p f es) (subst (λ n. Fresh n (remove_face p f es)) e rest)),
    )

-- In a valid table `remove_prefix` drops the routes under every prefix that starts with the given
-- one, and no other route.
pub route-remove_prefix :
    (p : Name) (fib : Fib) (q : Name) (g : FaceId)
    → IsValid fib
    → route q g (remove_prefix p fib) ≡ (if starts_with q p then none else route q g fib)
unfolding route remove_prefix
route-remove_prefix p [] q g h = ground arith
route-remove_prefix p ((r, faces) ∷ es) q g ((fr, h), (hf, k)) =
    ground (arith, name_beq_iff r q, route-remove_prefix p es q g (h, k))

-- In a valid table `remove_all_for_face` drops every route over the face, and no other route.
pub route-remove_all_for_face :
    (f : FaceId) (fib : Fib) (q : Name) (g : FaceId)
    → IsValid fib
    → route q g (remove_all_for_face f fib).0 ≡ (if f == g then none else route q g fib)
unfolding route remove_all_for_face
route-remove_all_for_face f [] q g h = ground arith
route-remove_all_for_face f ((r, faces) ∷ es) q g ((fr, h), (hf, k)) =
    let rest = Fresh-remove_all_for_face r f es fr in
    ground (
      arith,
      name_beq_iff r q,
      route-remove_all_for_face f es q g (h, k),
      get-without_face f g faces,
      route-keep_entry q r g (without_face f faces) (remove_all_for_face f es).0 (λ _ e.
          route-Fresh q g (remove_all_for_face f es).0
            (subst (λ n. Fresh n (remove_all_for_face f es).0) e rest)),
    )
