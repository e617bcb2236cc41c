-- ===== src/Propagation/Peers.antt =====
-- Downstream faces are peers, and Data is not sent back to where it came from.
use rns_icn.Prelude.{ℕ, ◌≡◌, refl, ap, ◌∙◌, ◌&&◌, not, Bool, true, none, some, arith}
use rns_icn.Prelude.{
  List, [], ◌∷◌, map, filter, replicate, All, All-append, ◌==◌, nat_eq, option_eq, if-ind,
  Bool-cases, inl, inr, eq_refl, eq_of_beq, ne_beq,
}
use rns_icn.Prelude.{
  Dict, get, put, erase, Distinct, Fresh, Distinct-put, Distinct-erase, get-put, get-erase,
}
use rns_icn.Wire.{Result, ok, ◌>>=◌}
use rns_icn.Name
use rns_icn.Name.{name_eq}
use mathlib.Core.Path.{subst}
use rns_icn.Packet.Data.{Data}
use rns_icn.Pit.{FaceId}
use rns_icn.OfflineQueue.{Network}
use rns_icn.ContentStore.Rows.{Holds, Holds-erase, All-filter, All-imp, apart}
use rns_icn.Propagation.{
  Propagation, empty, add_peer, remove_peer, is_peer, is_downstream, mark_downstream, mark_upstream,
  discard_face, producer_name_for_face, propagate_to, propagate,
}

-- The faces of the peers are distinct, and every downstream face is a peer's.
pub record IsValid (p : Propagation) : Type 0 where
  pub faces : Distinct p.peers
  pub downstream : All (Holds p.peers) p.downstream_peers

-- the calls that change the peers
pub data Change : Type 0 where
  adds : FaceId → List ℕ → Change
  removes marks_downstream marks_upstream : FaceId → Change

unfoldable pub apply : Change → Propagation → Result Propagation
unfolding add_peer remove_peer mark_downstream mark_upstream
apply (adds face addr) p = ok (add_peer face addr p)
apply (removes face) p = remove_peer face p
apply (marks_downstream face) p = ok (mark_downstream face p)
apply (marks_upstream face) p = ok (mark_upstream face p)

unfoldable pub apply_all : List Change → Propagation → Result Propagation
unfolding apply
apply_all [] p = ok p
apply_all (c ∷ cs) p = apply c p >>= apply_all cs

-- `remove_peer` never raises, since the peer's own address is not read.
unfoldable pub removed : FaceId → Propagation → Propagation
removed face p = record p {
  peers = erase face p.peers;
  downstream_peers = discard_face face p.downstream_peers;
  synced_producers =
      filter (λ n. not (n == record { components = replicate 16 0 ∷ []; content_hash = none }))
        p.synced_producers;
}

producer_name_for_face-absent :
    (face : FaceId) (p : Propagation)
    → get face p.peers ≡ none
    → producer_name_for_face face p
      ≡ ok (record { components = replicate 16 0 ∷ []; content_hash = none })
unfolding producer_name_for_face Name.new
producer_name_for_face-absent face p h = rw (producer_name_for_face, h) refl

-- Removing a peer keeps every producer that was synced, but for the name of sixteen zero bytes.
pub remove_peer-synced :
    (face : FaceId) (p : Propagation) → Distinct p.peers → remove_peer face p ≡ ok (removed face p)
unfolding remove_peer removed
remove_peer-synced face p h =
    let gone : get face (erase face p.peers) ≡ none =
      rw (get-erase face face p.peers h, eq_refl face) refl in
    let left = record p {
      peers = erase face p.peers;
      downstream_peers = discard_face face p.downstream_peers;
    } in
    ap
      (λ r. r >>= (λ producer. ok (record left {
        synced_producers = filter (λ n. not (n == producer)) left.synced_producers;
      })))
      (producer_name_for_face-absent face left gone)

and_left : (a b : Bool) → a && b ≡ true → a ≡ true
and_left a b h = ground arith

held-put : (k j : FaceId) (v : List ℕ) (d : Dict FaceId (List ℕ)) → Holds d j → Holds (put k v d) j
held-put k j v d h = ground (arith, get-put k j v d)

apply-IsValid :
    (c : Change) (p : Propagation) → IsValid p → (q : Propagation) × (apply c p ≡ ok q) × IsValid q
unfolding apply add_peer mark_downstream mark_upstream is_peer
apply-IsValid (adds face addr) p v = (
  _,
  refl,
  record {
    faces = Distinct-put face addr p.peers v.faces;
    downstream = All-imp (λ f h. held-put face f addr p.peers h) p.downstream_peers v.downstream;
  },
)
apply-IsValid (removes face) p v = (
  removed face p,
  remove_peer-synced face p v.faces,
  unfold removed in
      record {
        faces = Distinct-erase face p.peers v.faces;
        downstream =
            All-imp (λ f (h, n). Holds-erase face f p.peers v.faces (apart f face n) h) _
              (All-filter (Holds p.peers) (λ f. not (f == face)) p.downstream_peers v.downstream);
      },
)
apply-IsValid (marks_downstream face) p v = (
  _,
  refl,
  if-ind IsValid (is_peer face p && not (is_downstream face p)) _ _
      (λ t. record {
        faces = v.faces;
        downstream =
            All-append (Holds p.peers) p.downstream_peers (face ∷ []) v.downstream
              ((and_left _ _ t), tt);
      })
      (λ _. v),
)
apply-IsValid (marks_upstream face) p v = (
  _,
  refl,
  record {
    faces = v.faces;
    downstream =
        All-imp (λ f (h, n). h) _
          (All-filter (Holds p.peers) (λ f. not (f == face)) p.downstream_peers v.downstream);
  },
)

-- After any changes to an empty manager (peers that come and go, marks as downstream and upstream)
-- none has raised, the faces of the peers are distinct, and every downstream face is a peer's.
pub apply_all-IsValid :
    (cs : List Change) → (q : Propagation) × (apply_all cs empty ≡ ok q) × IsValid q
unfolding apply_all
apply_all-IsValid cs = go cs empty (record { faces = tt; downstream = tt })
  where
    go :
        (cs : List Change) (p : Propagation)
        → IsValid p
        → (q : Propagation) × (apply_all cs p ≡ ok q) × IsValid q
    go [] p v = (p, refl, v)
    go (c ∷ cs) p v =
        let (q, applied, w) = apply-IsValid c p v in
        let (r, rest, x) = go cs q w in (r, rw applied rest, x)

discard_face-absent :
    (f : FaceId) (d : Dict FaceId (List ℕ))
    → Fresh f d
    → discard_face f (map (λ x. x.0) d) ≡ map (λ x. x.0) d
discard_face-absent f [] h = refl
discard_face-absent f ((g, a) ∷ d) (n, h) =
    rw (ne_beq g f n) (ap (◌∷◌ g) (discard_face-absent f d h))

discard_face-keys :
    (f : FaceId) (d : Dict FaceId (List ℕ))
    → Distinct d
    → discard_face f (map (λ x. x.0) d) ≡ map (λ x. x.0) (erase f d)
unfolding erase
discard_face-keys f [] h = refl
discard_face-keys f ((g, a) ∷ d) (n, h) = elim (Bool-cases (g == f)) [
  | inl t ↦ rw t (discard_face-absent f d (subst (λ k. Fresh k d) (eq_of_beq g f t) n))
  | inr t ↦ rw t (ap (◌∷◌ g) (discard_face-keys f d h))
]

module _ {W : Type 0} (net : Network W) (d : Data) where
  propagate_to-discard :
      (f : FaceId) (faces : List FaceId) (w : W)
      → propagate_to net d (some f) faces w ≡ propagate_to net d none (discard_face f faces) w
  unfolding propagate_to
  propagate_to-discard f [] w = refl
  propagate_to-discard f (g ∷ faces) w = elim (Bool-cases (g == f)) [
    | inl t ↦ rw t (propagate_to-discard f faces w)
    | inr t ↦ elim (Bool-cases (net.has_face g w)) [
      | inl u ↦ rw (t, u, propagate_to-discard f faces (net.send_data g d w).0) refl
      | inr u ↦ rw (t, u) (propagate_to-discard f faces w)
    ]
  ]

  -- Data is not echoed: in a manager whose peers have distinct faces, to propagate Data that came in over a
  -- face is to propagate it as if that face had no peer, in what is sent and in the number of peers
  -- it returns.
  pub propagate-erase :
      (f : FaceId) (p : Propagation) (w : W)
      → Distinct p.peers
      → propagate net d (some f) p w ≡ propagate net d none (record p { peers = erase f p.peers }) w
  unfolding propagate
  propagate-erase f p w h =
      propagate_to-discard f (map (λ x. x.0) p.peers) w
      ∙ ap (λ faces. propagate_to net d none faces w) (discard_face-keys f p.peers h)
