-- ===== src/Pit/Shrinking.antt =====
-- The calls that take entries away, and the nonces, keep the Pending Interest Table well-formed.
use rns_icn.Prelude.{ℕ, suc, ◌+◌, ◌≤◌, ◌<◌, ◌≡◌, refl, arith}
use rns_icn.Prelude.{
  List, [], ◌∷◌, map, length, filter, length-filter-le, leb, ltb, leb→le, nat_eq, list_eq, pair_eq,
  Bool-cases, inl, inr,
}
use rns_icn.Prelude.{
  Dict, put, erase, Distinct, Distinct-put, Distinct-erase, Distinct-filter, length-erase, min_by,
}
use rns_icn.Wire.{ok}
use rns_icn.Name.{Name, name_eq}
use rns_icn.Pit.{
  Pit, PitEntry, FaceId, remove, is_expired, pop_all, purge_expired, nonce_expiry, drop_oldest,
  make_nonce_room, record_nonce,
}
use rns_icn.Pit.Valid.{IsValid, length-erase-min_by, length-put-le}

-- A table with fewer entries and fewer nonces.
shrink-IsValid :
    (p : Pit) (entries : Dict Name PitEntry) (tracker : Dict (FaceId × List ℕ) ℕ)
    → IsValid p
    → Distinct entries
    → length entries ≤ length p.entries
    → Distinct tracker
    → length tracker ≤ length p.nonce_tracker
    → IsValid (record p { entries = entries; nonce_tracker = tracker })
shrink-IsValid p entries tracker h d le d' le' = record {
  names = d;
  nonces = d';
  bounded = omega (arith, h.bounded);
  bounded_nonces = omega (arith, h.bounded_nonces);
  room = h.room;
  nonce_room = h.nonce_room;
}

pub remove-IsValid : (name : Name) (p : Pit) → IsValid p → IsValid (remove name p).0
unfolding remove
remove-IsValid name p h =
    shrink-IsValid p (erase name p.entries) p.nonce_tracker h
      (Distinct-erase name p.entries h.names) (ground (arith, length-erase name p.entries)) h.nonces
      (omega arith)

pop_all-Distinct :
    (names : List Name) (d : Dict Name PitEntry)
    → Distinct d
    → Distinct (pop_all names d).1 × (length (pop_all names d).1 ≤ length d)
unfolding pop_all
pop_all-Distinct [] d h = (h, omega arith)
pop_all-Distinct (name ∷ names) d h =
    let (distinct, size) = pop_all-Distinct names (erase name d) (Distinct-erase name d h) in
    (distinct, ground (arith, length-erase name d))

pub purge_expired-IsValid : (now : ℕ) (p : Pit) → IsValid p → IsValid (purge_expired now p).0
unfolding purge_expired
purge_expired-IsValid now p h =
    let names = map (λ (e : Name × PitEntry). e.0) (filter (is_expired now) p.entries) in
    let (distinct, size) = pop_all-Distinct names p.entries h.names in
    shrink-IsValid p (pop_all names p.entries).1 (filter (λ e. ltb now e.1) p.nonce_tracker) h
      distinct size (Distinct-filter (λ e. ltb now e.1) p.nonce_tracker h.nonces)
      (length-filter-le (λ e. ltb now e.1) p.nonce_tracker)

drop_oldest-shorter :
    (d : Dict (FaceId × List ℕ) ℕ)
    → Distinct d
    → 0 < length d
    → (t : Dict (FaceId × List ℕ) ℕ) × (drop_oldest d ≡ ok t)
      × Distinct t
      × (suc (length t) ≡ length d)
unfolding drop_oldest
drop_oldest-shorter [] h pos = absurd (omega arith)
drop_oldest-shorter (x ∷ d) h pos = (
  erase ((min_by nonce_expiry x d).0) (x ∷ d),
  refl,
  Distinct-erase ((min_by nonce_expiry x d).0) (x ∷ d) h,
  omega (arith, length-erase-min_by nonce_expiry x d h),
)

make_nonce_room-room :
    (p : Pit)
    → IsValid p
    → (t : Dict (FaceId × List ℕ) ℕ) × (make_nonce_room p ≡ ok t)
      × Distinct t
      × (suc (length t) ≤ p.max_nonces)
unfolding make_nonce_room
make_nonce_room-room p h = elim (Bool-cases (leb p.max_nonces (length p.nonce_tracker))) [
  | inl full ↦
      let (t, dropped, distinct, size) =
        drop_oldest-shorter p.nonce_tracker h.nonces
          (omega (arith, leb→le p.max_nonces (length p.nonce_tracker) full, h.nonce_room)) in
      (t, rw full dropped, distinct, omega (arith, h.bounded_nonces))
  | inr space ↦ (p.nonce_tracker, rw space, h.nonces, ground arith)
]

-- `record_nonce` never raises on a valid table.
pub record_nonce-IsValid :
    (now : ℕ) (in_face : FaceId) (nonce : List ℕ) (p : Pit)
    → IsValid p
    → (q : Pit) × (record_nonce now in_face nonce p ≡ ok q) × IsValid q
unfolding record_nonce
record_nonce-IsValid now in_face nonce p h =
    let (t, made, distinct, size) = make_nonce_room-room p h in
    let tracker = put (in_face, nonce) (now + p.nonce_ttl) t in
    (
      record p { nonce_tracker = tracker },
      rw made,
      record {
        names = h.names;
        nonces = Distinct-put (in_face, nonce) (now + p.nonce_ttl) t distinct;
        bounded = h.bounded;
        bounded_nonces = omega (arith, length-put-le (in_face, nonce) (now + p.nonce_ttl) t);
        room = h.room;
        nonce_room = h.nonce_room;
      },
    )
