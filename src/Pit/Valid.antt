-- ===== src/Pit/Valid.antt =====
-- The well-formedness of the Pending Interest Table, and that every operation keeps it.
use rns_icn.Prelude.{ℕ, suc, ◌-◌, ◌≤◌, ◌<◌, ◌≡◌, refl, true, false, some, arith}
use rns_icn.Prelude.{
  [], ◌∷◌, length, leb, nat_eq, list_eq, pair_eq, Bool-cases, Option-cases, inl, inr,
}
use rns_icn.Prelude.{
  HasEq, Dict, get, put, erase, Distinct, Distinct-put, Distinct-erase, length-put, length-erase,
  min_by, min_by-In, get-In,
}
use rns_icn.Name.{Name, name_eq}
use rns_icn.Packet.Interest.{Interest}
use rns_icn.Pit.{
  Pit, PitEntry, FaceId, find, expiry, is_full, evict_from, evict_nearest_expiry, make_room,
  insert_new, fresh_entry, add_face, update, insert_or_aggregate, set_out_face, satisfy,
}

pub record IsValid (p : Pit) : Type 0 where
  pub names : Distinct p.entries
  pub nonces : Distinct p.nonce_tracker
  pub bounded : length p.entries ≤ p.max_entries
  pub bounded_nonces : length p.nonce_tracker ≤ p.max_nonces
  pub room : 0 < p.max_entries
  pub nonce_room : 0 < p.max_nonces

module _ {ℓ κ} {K : Type ℓ} {V : Type κ} ⦃e : HasEq K⦄ where
  pub length-put-le : (k : K) (v : V) (d : Dict K V) → length (put k v d) ≤ suc (length d)
  length-put-le k v d = ground (arith, length-put k v d)

  length-put_old :
      (k : K) (v : V) (d : Dict K V) {w : V} → get k d ≡ some w → length (put k v d) ≡ length d
  length-put_old k v d h = ground (arith, length-put k v d)

  -- Dropping the least entry of a dictionary with distinct keys makes it shorter.
  pub length-erase-min_by :
      (f : K × V → ℕ) (p : K × V) (d : Dict K V)
      → Distinct (p ∷ d)
      → length (erase ((min_by f p d).0) (p ∷ d)) ≡ length d
  length-erase-min_by f p d h =
      let m = min_by f p d in
      let found = get-In (m.0) (m.1) (p ∷ d) h (min_by-In f p d) in
      ground (arith, length-erase (m.0) (p ∷ d))

evict_from-Distinct :
    (d : Dict Name PitEntry) (p : Pit)
    → p.entries ≡ d
    → Distinct d
    → Distinct (evict_from d p).entries
unfolding evict_from
evict_from-Distinct [] p e h = rw e h
evict_from-Distinct (x ∷ d) p e h = Distinct-erase ((min_by expiry x d).0) (x ∷ d) h

length-evict_from :
    (d : Dict Name PitEntry) (p : Pit)
    → p.entries ≡ d
    → Distinct d
    → length (evict_from d p).entries ≡ length d - 1
unfolding evict_from
length-evict_from [] p e h = rw e
length-evict_from (x ∷ d) p e h = omega (arith, length-erase-min_by expiry x d h)

pub evict_from-rest :
    (d : Dict Name PitEntry) (p : Pit)
    → ((evict_from d p).max_entries ≡ p.max_entries)
      × ((evict_from d p).max_nonces ≡ p.max_nonces)
      × ((evict_from d p).nonce_tracker ≡ p.nonce_tracker)
unfolding evict_from
evict_from-rest [] p = (refl, refl, refl)
evict_from-rest (x ∷ d) p = (refl, refl, refl)

-- Making room leaves a table with a place for the name, and keeps its limits and its nonces.
make_room-room :
    (name : Name) (p : Pit)
    → IsValid p
    → Distinct (make_room name p).entries
      × ((v : PitEntry) → length (put name v (make_room name p).entries) ≤ p.max_entries)
      × ((make_room name p).max_entries ≡ p.max_entries)
      × ((make_room name p).max_nonces ≡ p.max_nonces)
      × ((make_room name p).nonce_tracker ≡ p.nonce_tracker)
unfolding make_room is_full evict_nearest_expiry
make_room-room name p h = elim (Option-cases (find name p)) [
  | inl new ↦ elim (Bool-cases (leb p.max_entries (length p.entries))) [
    | inl full ↦
        let (same_max, same_nonces, same_tracker) = evict_from-rest p.entries p in
        rw (new, full)
          (
            evict_from-Distinct p.entries p refl h.names,
            λ v. omega (
              arith,
              length-put-le name v (evict_from p.entries p).entries,
              length-evict_from p.entries p refl h.names,
              h.bounded,
              h.room,
            ),
            same_max,
            same_nonces,
            same_tracker,
          )
    | inr space ↦
        rw (new, space)
          (h.names, λ v. ground (arith, length-put-le name v p.entries), refl, refl, refl)
  ]
  | inr (old, found) ↦ rw found (
    h.names,
    λ v. omega (arith, length-put_old name v p.entries found, h.bounded),
    refl,
    refl,
    refl,
  )
]

insert_new-IsValid :
    (now : ℕ) (name : Name) (in_face : FaceId) (interest : Interest) (timeout_ms : ℕ) (p : Pit)
    → IsValid p
    → IsValid (insert_new now name in_face interest timeout_ms p)
unfolding insert_new
insert_new-IsValid now name in_face interest timeout_ms p h =
    let entry = fresh_entry now in_face interest timeout_ms in
    let (distinct, size, same_max, same_nonces, same_tracker) = make_room-room name p h in
    record {
      names = Distinct-put name entry (make_room name p).entries distinct;
      nonces = rw same_tracker h.nonces;
      bounded = rw same_max (size entry);
      bounded_nonces = rw (same_nonces, same_tracker) h.bounded_nonces;
      room = rw same_max h.room;
      nonce_room = rw same_nonces h.nonce_room;
    }

update-IsValid :
    (name : Name) (entry : PitEntry) (p : Pit) {old : PitEntry}
    → find name p ≡ some old
    → IsValid p
    → IsValid (update name entry p)
update-IsValid name entry p found h = record {
  names = Distinct-put name entry p.entries h.names;
  nonces = h.nonces;
  bounded = omega (arith, length-put_old name entry p.entries found, h.bounded);
  bounded_nonces = h.bounded_nonces;
  room = h.room;
  nonce_room = h.nonce_room;
}

pub insert_or_aggregate-IsValid :
    (now : ℕ) (name : Name) (in_face : FaceId) (interest : Interest) (timeout_ms : ℕ) (p : Pit)
    → IsValid p
    → IsValid (insert_or_aggregate now name in_face interest timeout_ms p).0
unfolding insert_or_aggregate
insert_or_aggregate-IsValid now name in_face interest timeout_ms p h =
    let fresh = insert_new-IsValid now name in_face interest timeout_ms p h in
    elim (Option-cases (find name p)) [
      | inl new ↦ rw (new, insert_or_aggregate) fresh
      | inr (old, found) ↦ elim (Bool-cases old.satisfied) [
        | inl done ↦ rw (found, done, insert_or_aggregate) fresh
        | inr open_ ↦
            rw (found, open_, insert_or_aggregate)
              (update-IsValid name
                (record old { in_faces = add_face in_face old.in_faces; satisfied = false }) p found
                h)
      ]
    ]

pub set_out_face-IsValid :
    (name : Name) (out_face : FaceId) (p : Pit) → IsValid p → IsValid (set_out_face name out_face p)
unfolding set_out_face
set_out_face-IsValid name out_face p h = elim (Option-cases (find name p)) [
  | inl new ↦ rw (new, set_out_face) h
  | inr (old, found) ↦
      rw (found, set_out_face)
        (update-IsValid name (record old { out_face = some out_face }) p found h)
]

pub satisfy-IsValid : (name : Name) (p : Pit) → IsValid p → IsValid (satisfy name p).0
unfolding satisfy
satisfy-IsValid name p h = elim (Option-cases (find name p)) [
  | inl new ↦ rw (new, satisfy) h
  | inr (old, found) ↦
      rw (found, satisfy) (update-IsValid name (record old { satisfied = true }) p found h)
]
