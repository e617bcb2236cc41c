-- ===== src/Forwarder/Loops.antt =====
-- Loop detection over a whole `express`, and the sequence-walk rule.
use rns_icn.Prelude.{ℕ, ◌-◌, ◌≡◌, refl, ap, ◌∙◌, true, not, Option, none, some, is_some}
use rns_icn.Prelude.{
  List, [], ◌∷◌, any, ◌==◌, nat_eq, list_eq, option_eq, pair_eq, if-ind, Bool-cases, Option-cases,
  inl, inr, eq_of_beq, get,
}
use rns_icn.Wire.{IfOk}
use rns_icn.Wire.Readers.{Result-ind, >>=-IfOk, IfOk-true}
use rns_icn.Name.{Name, name_eq}
use rns_icn.Packet.Selector.{InterestSelector, oldest}
use rns_icn.Packet.Interest
use rns_icn.Packet.Interest.{Interest}
use rns_icn.Packet.Data.{Data}
use rns_icn.Pit
use rns_icn.Pit.{
  Pit, FaceId, find, check_loop, record_nonce, is_full, evict_nearest_expiry, make_room, insert_new,
  insert_or_aggregate, set_out_face,
}
use rns_icn.Pit.Valid
use rns_icn.Pit.Valid.{evict_from-rest}
use rns_icn.Pit.Shrinking.{record_nonce-IsValid}
use rns_icn.Pit.Behaviour.{check_loop-record_nonce_self}
use rns_icn.Fib.{Faces}
use rns_icn.Strategy.{
  StrategyDecision, serve_from_cache, serve_stale_revalidate, suppress_aggregate, forward_to,
  no_route,
}
use rns_icn.ContentStore.{ContentStore}
use rns_icn.ContentStore.Operations.{get_prefix}
use rns_icn.ContentStore.Queries.{IfSome}
use rns_icn.Forwarder.{
  Forwarder, Outcome, returns, is_registered, pit_key, forget, enter_pit, new_future, send_and_wait,
  try_faces, forward, schedule_revalidation, failover_candidates, off_floor, walk_rule, check_cs,
  act, route_or_serve, after_nonce, express,
}

make_room-tracker : (name : Name) (p : Pit) → (make_room name p).nonce_tracker ≡ p.nonce_tracker
unfolding make_room evict_nearest_expiry
make_room-tracker name p =
    if-ind (λ (q : Pit). q.nonce_tracker ≡ p.nonce_tracker) (not (is_some (find name p))) _ _
      (λ _.
        if-ind (λ (q : Pit). q.nonce_tracker ≡ p.nonce_tracker) (is_full p) _ _
          (λ _. (evict_from-rest p.entries p).2) (λ _. refl))
      (λ _. refl)

insert_or_aggregate-tracker :
    (now : ℕ) (name : Name) (face : FaceId) (i : Interest) (timeout_ms : ℕ) (p : Pit)
    → (insert_or_aggregate now name face i timeout_ms p).0.nonce_tracker ≡ p.nonce_tracker
unfolding insert_or_aggregate insert_new
insert_or_aggregate-tracker now name face i timeout_ms p = elim (Option-cases (find name p)) [
  | inl e ↦ rw (e, insert_or_aggregate) (make_room-tracker name p)
  | inr (old, e) ↦ elim (Bool-cases old.satisfied) [
    | inl t ↦ rw (e, t, insert_or_aggregate) (make_room-tracker name p)
    | inr t ↦ rw (e, t, insert_or_aggregate) refl
  ]
]

set_out_face-tracker :
    (name : Name) (face : FaceId) (p : Pit)
    → (set_out_face name face p).nonce_tracker ≡ p.nonce_tracker
unfolding set_out_face
set_out_face-tracker name face p = elim (Option-cases (find name p)) [
  | inl e ↦ rw (e, set_out_face) refl
  | inr (old, e) ↦ rw (e, set_out_face) refl
]

-- The nonces of the first are those of the second.
abbrev SameNonces : Forwarder → Forwarder → Type 0
SameNonces f g = g.pit.nonce_tracker ≡ f.pit.nonce_tracker

enter_pit-SameNonces :
    (now : ℕ) (i : Interest) (in_face face : FaceId) (f : Forwarder)
    → SameNonces f (enter_pit now i in_face face f)
unfolding enter_pit
enter_pit-SameNonces now i in_face face f =
    set_out_face-tracker (pit_key i.name) face _
    ∙ insert_or_aggregate-tracker now (pit_key i.name) in_face i i.lifetime_ms f.pit

try_faces-SameNonces :
    (now : ℕ) (i : Interest) (in_face : FaceId) (faces : List FaceId) (f : Forwarder)
    → SameNonces f (try_faces now i in_face faces f).0
unfolding try_faces send_and_wait new_future Pit.remove
try_faces-SameNonces now i in_face [] f = refl
try_faces-SameNonces now i in_face (face ∷ rest) f =
    let entered = enter_pit now i in_face face f in
    let same = enter_pit-SameNonces now i in_face face f in
    if-ind (λ (r : Forwarder × Outcome). SameNonces f r.0) (is_registered face f) _ _
      (λ _.
        Result-ind (λ (r : Forwarder × Outcome). SameNonces f r.0) (Interest.to_bytes i) _ _
          (λ _ _. same) (λ _ _. same))
      (λ _. try_faces-SameNonces now i in_face rest (forget (pit_key i.name) entered) ∙ same)

forward-SameNonces :
    (now : ℕ) (i : Interest) (in_face : FaceId) (faces : List FaceId) (f : Forwarder)
    → SameNonces f (forward now i in_face faces f).0
unfolding forward
forward-SameNonces now i in_face faces f =
    if-ind (λ (r : Forwarder × Outcome). SameNonces f r.0) (i.hop_limit == 0) _ _ (λ _. refl)
      (λ _. try_faces-SameNonces now (record i { hop_limit = i.hop_limit - 1 }) in_face faces f)

module _ (blake2b : List ℕ → List ℕ) where
  act-SameNonces :
      (now : ℕ) (nonce : List ℕ) (i : Interest) (in_face : FaceId) (fib_faces : Faces)
      (cs_hit : Option Data) (decision : StrategyDecision × Option FaceId) (f : Forwarder)
      → SameNonces f (act blake2b now nonce i in_face fib_faces cs_hit decision f).0
  unfolding act new_future schedule_revalidation
  act-SameNonces now nonce i in_face fib_faces cs_hit (serve_from_cache, face) f = refl
  act-SameNonces now nonce i in_face fib_faces cs_hit (serve_stale_revalidate, none) f = refl
  act-SameNonces now nonce i in_face fib_faces cs_hit (serve_stale_revalidate, some face) f =
      if-ind (SameNonces f) (any (λ n. n == i.name) f.revalidating) _ _ (λ _. refl) (λ _. refl)
  act-SameNonces now nonce i in_face fib_faces cs_hit (suppress_aggregate, face) f = refl
  act-SameNonces now nonce i in_face fib_faces cs_hit (forward_to, face) f =
      forward-SameNonces now i in_face (failover_candidates now fib_faces face f) f
  act-SameNonces now nonce i in_face fib_faces cs_hit (no_route, face) f = refl

  abbrev Seen : FaceId → List ℕ → Forwarder × Outcome → Type 0
  Seen face nonce r = check_loop face nonce r.0.pit ≡ true

  express-Seen :
      (now clock : ℕ) (fresh : List ℕ) (i : Interest) (face : FaceId) (f : Forwarder)
      → Pit.Valid.IsValid f.pit
      → Seen face i.nonce (express blake2b now clock fresh i face f)
  unfolding express after_nonce route_or_serve check_loop
  express-Seen now clock fresh i face f v =
      if-ind (Seen face i.nonce) (check_loop face i.nonce f.pit) _ _ (λ t. t)
        (λ _.
          let (q, made, valid) = record_nonce-IsValid now face i.nonce f.pit v in
          let seen = check_loop-record_nonce_self now face i.nonce f.pit q made in
          rw made (
            Result-ind (Seen face i.nonce) (check_cs blake2b clock i f.cs) _ _
              (λ (cs, hit) e.
                ap (λ t. is_some (get (face, i.nonce) t))
                  (act-SameNonces now fresh i face _ hit _ (record f { pit = q; cs = cs }))
                ∙ seen)
              (λ _ _. seen)))

  -- An Interest that comes back with the same nonce over the same face is dropped: whatever the first
  -- `express` of an Interest did, on a forwarder whose table of pending Interests is well-formed, a
  -- second one with its nonce and face, at any time, returns none and changes nothing.
  pub express_twice :
      (now clock : ℕ) (fresh : List ℕ) (i : Interest) (face : FaceId) (f : Forwarder)
      (later clock' : ℕ) (fresh' : List ℕ) (j : Interest)
      → Pit.Valid.IsValid f.pit
      → j.nonce ≡ i.nonce
      → express blake2b later clock' fresh' j face (express blake2b now clock fresh i face f).0
        ≡ ((express blake2b now clock fresh i face f).0, returns none)
  express_twice now clock fresh i face f later clock' fresh' j v same =
      dropped (express blake2b now clock fresh i face f).0
        (rw same (express-Seen now clock fresh i face f v))
    where
      dropped :
          (g : Forwarder)
          → check_loop face j.nonce g.pit ≡ true
          → express blake2b later clock' fresh' j face g ≡ (g, returns none)
      dropped g t = unfold express in rw t refl

  walk_rule-floor :
      (sel : InterestSelector) (m : ℕ) (o : Option Data)
      → sel.child ≡ oldest
      → sel.min_sequence ≡ some m
      → IfSome (λ d. d.metadata.sequence ≡ some m) (walk_rule (some sel) o)
  unfolding walk_rule off_floor
  walk_rule-floor sel m none child floor = tt
  walk_rule-floor sel m (some d) child floor =
      rw (child, floor)
        (elim (Bool-cases (d.metadata.sequence == some m)) [
          | inl t ↦ rw t (eq_of_beq d.metadata.sequence (some m) t)
          | inr t ↦ rw t tt
        ])

  -- The sequence walk: for a prefix Interest that selects the oldest Data at or above a floor, the
  -- cache's answer in `express`, if there is one, stands exactly at the floor.
  pub check_cs-floor :
      (clock : ℕ) (i : Interest) (cs : ContentStore) (sel : InterestSelector) (m : ℕ)
      → i.can_be_prefix ≡ true
      → i.selector ≡ some sel
      → sel.child ≡ oldest
      → sel.min_sequence ≡ some m
      → IfOk (λ r. IfSome (λ d. d.metadata.sequence ≡ some m) r.1) (check_cs blake2b clock i cs)
  unfolding check_cs
  check_cs-floor clock i cs sel m prefix selector child floor =
      rw (prefix, selector)
        (>>=-IfOk _ (get_prefix blake2b clock i.name sel.child sel.min_sequence cs) _ (IfOk-true _)
          (λ r _. walk_rule-floor sel m r.1 child floor))
