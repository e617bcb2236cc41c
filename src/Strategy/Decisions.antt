-- ===== src/Strategy/Decisions.antt =====
-- What each decision of `BestRoute` says of the state in which it was taken.
use rns_icn.Prelude.{ℕ, ◌≡◌, refl, ap, true, false, ◌&&◌, not, Option, none, some, arith}
use rns_icn.Prelude.{List, [], ◌∷◌, ◌++◌, All, Bool-cases, if-ind, inl, inr}
use rns_icn.Pit.{FaceId, PitEntry}
use rns_icn.Fib.{Faces}
use rns_icn.Packet.Interest.{Interest}
use rns_icn.Packet.Data.{Data}
use rns_icn.Strategy.{
  BestRoute, StrategyDecision, serve_from_cache, serve_stale_revalidate, suppress_aggregate,
  forward_to, no_route, is_in_backoff, selector_satisfied, first_usable_face, usable_faces,
  within_swr_window, serve, route, forward_or_join, decide,
}

module _ (now : ℕ) (s : BestRoute) where
  -- Every face of the list is in backoff.
  abbrev pub AllInBackoff : Faces → Type 0
  AllInBackoff = All (λ x. is_in_backoff now s (x.0) ≡ true)

  -- The face is the first of the list that is not in backoff.
  abbrev pub FirstUsable : Faces → FaceId → Type 0
  FirstUsable faces face =
      (before after : Faces) × (cost : ℕ) × (faces ≡ before ++ ((face, cost) ∷ after))
      × AllInBackoff before
      × (is_in_backoff now s face ≡ false)

  -- What the first usable face is, if there is one.
  abbrev pub Usable : Faces → Option FaceId → Type 0
  Usable faces none = AllInBackoff faces
  Usable faces (some face) = FirstUsable faces face

  Usable-cons :
      (f : FaceId) (c : ℕ) (faces : Faces) (o : Option FaceId)
      → is_in_backoff now s f ≡ true
      → Usable faces o
      → Usable ((f, c) ∷ faces) o
  Usable-cons f c faces none t h = (t, h)
  Usable-cons f c faces (some face) t (before, after, cost, e, off, usable) =
      ((f, c) ∷ before, after, cost, ap (◌∷◌ (f, c)) e, (t, off), usable)

  pub first_usable_face-Usable : (faces : Faces) → Usable faces (first_usable_face now s faces)
  unfolding first_usable_face
  first_usable_face-Usable [] = tt
  first_usable_face-Usable ((f, c) ∷ faces) = elim (Bool-cases (is_in_backoff now s f)) [
    | inl t ↦ rw t (Usable-cons f c faces _ t (first_usable_face-Usable faces))
    | inr u ↦ rw u ([], faces, c, refl, tt, u)
  ]

abbrev pub head? : List FaceId → Option FaceId
head? [] = none
head? (f ∷ fs) = some f

-- The face that the strategy forwards to is the first candidate for failover.
pub head-usable_faces :
    (now : ℕ) (s : BestRoute) (faces : Faces)
    → head? (usable_faces now s faces) ≡ first_usable_face now s faces
unfolding usable_faces first_usable_face
head-usable_faces now s [] = refl
head-usable_faces now s ((f, c) ∷ faces) = ground (arith, head-usable_faces now s faces)

-- There is no cached Data that the Interest accepts.
abbrev pub CacheUseless : Interest → Option Data → Type 0
CacheUseless i none = Unit
CacheUseless i (some d) = selector_satisfied i d ≡ false

-- There is no Interest for the name that waits for an answer.
abbrev pub NotPending : Option PitEntry → Type 0
NotPending none = Unit
NotPending (some e) = e.satisfied ≡ true

abbrev pub Pending : Option PitEntry → Type 0
Pending none = ⊥
Pending (some e) = e.satisfied ≡ false

-- Served from the cache.
abbrev pub Accepted : Interest → Option Data → Type 0
Accepted i none = ⊥
Accepted i (some d) = selector_satisfied i d ≡ true

abbrev pub StaleInWindow : BestRoute → Option Data → Type 0
StaleInWindow s none = ⊥
StaleInWindow s (some d) = (d.metadata.freshness.fresh ≡ false) × (within_swr_window s d ≡ true)

module _ (now : ℕ) (s : BestRoute) (i : Interest) (faces : Faces) (pit : Option PitEntry)
    (cs : Option Data) where
  -- The circumstances of each decision with its face.
  abbrev pub Explains : StrategyDecision × Option FaceId → Type 0
  Explains (serve_from_cache, none) = Accepted i cs
  Explains (serve_stale_revalidate, some f) =
      Accepted i cs × StaleInWindow s cs × FirstUsable now s faces f
  Explains (suppress_aggregate, none) = CacheUseless i cs × Pending pit
  Explains (forward_to, some f) = CacheUseless i cs × NotPending pit × FirstUsable now s faces f
  Explains (no_route, none) = CacheUseless i cs × NotPending pit × AllInBackoff now s faces
  Explains _ = ⊥

  route-Explains :
      (o : Option FaceId)
      → Usable now s faces o
      → CacheUseless i cs
      → NotPending pit
      → Explains (route o)
  unfolding route
  route-Explains none u c p = (c, p, u)
  route-Explains (some f) u c p = (c, p, u)

serve-Explains :
    (now : ℕ) (s : BestRoute) (i : Interest) (faces : Faces) (pit : Option PitEntry) (d : Data)
    (o : Option FaceId)
    → Usable now s faces o
    → selector_satisfied i d ≡ true
    → Explains now s i faces pit (some d) (serve s d o)
unfolding serve
serve-Explains now s i faces pit d none u a = a
serve-Explains now s i faces pit d (some f) u a =
    elim (Bool-cases (not d.metadata.freshness.fresh && within_swr_window s d)) [
      | inl t ↦ rw t (a, (ground arith, ground arith), u)
      | inr t ↦ rw t a
    ]

forward_or_join-Explains :
    (now : ℕ) (s : BestRoute) (i : Interest) (faces : Faces) (pit : Option PitEntry)
    (cs : Option Data) (o : Option FaceId)
    → Usable now s faces o
    → CacheUseless i cs
    → Explains now s i faces pit cs (forward_or_join pit o)
unfolding forward_or_join
forward_or_join-Explains now s i faces none cs o u c = route-Explains now s i faces none cs o u c tt
forward_or_join-Explains now s i faces (some e) cs o u c =
    if-ind (Explains now s i faces (some e) cs) e.satisfied (route o) (suppress_aggregate, none)
      (λ t. route-Explains now s i faces (some e) cs o u c t) (λ t. (c, t))

-- Every decision of `decide` is taken in its circumstances, and comes with a face exactly when it
-- sends something: Data is served from the cache only if the Interest accepts it, and revalidated
-- only if it is stale and inside the window; an Interest is joined to one that waits, forwarded to
-- the first face that is not in backoff, or has no route because every face is in backoff, only if
-- the cache has nothing that it accepts (and, for the last two, nothing waits).
pub decide-Explains :
    (now : ℕ) (s : BestRoute) (i : Interest) (faces : Faces) (pit : Option PitEntry)
    (cs : Option Data)
    → Explains now s i faces pit cs (decide now s i faces pit cs)
unfolding decide
decide-Explains now s i faces pit none =
    forward_or_join-Explains now s i faces pit none _ (first_usable_face-Usable now s faces) tt
decide-Explains now s i faces pit (some d) =
    let u = first_usable_face-Usable now s faces in
    elim (Bool-cases (selector_satisfied i d)) [
      | inl t ↦ rw t (serve-Explains now s i faces pit d _ u t)
      | inr t ↦ rw t (forward_or_join-Explains now s i faces pit (some d) _ u t)
    ]
