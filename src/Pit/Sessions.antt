-- ===== src/Pit/Sessions.antt =====
-- Sequences of calls on the Pending Interest Table.
use rns_icn.Prelude.{ℕ, ◌≤◌, ◌<◌, ◌≡◌, refl, ◌∙◌, arith}
use rns_icn.Prelude.{List, [], ◌∷◌, length}
use rns_icn.Prelude.{Distinct, nat_eq, list_eq, pair_eq}
use rns_icn.Wire.{Result, ok, ◌>>=◌, IfOk}
use rns_icn.Wire.Readers.{>>=-IfOk, IfOk-eq, IfOk-true}
use rns_icn.Name.{Name, name_eq}
use rns_icn.Packet.Interest.{Interest}
use rns_icn.Pit
use rns_icn.Pit.{
  Pit, FaceId, insert_or_aggregate, set_out_face, satisfy, remove, purge_expired, record_nonce,
  make_nonce_room, insert_new, make_room, evict_nearest_expiry,
}
use rns_icn.Pit.Valid.{
  IsValid, evict_from-rest, insert_or_aggregate-IsValid, set_out_face-IsValid, satisfy-IsValid,
}
use rns_icn.Pit.Shrinking.{remove-IsValid, purge_expired-IsValid, record_nonce-IsValid}

-- The calls that change the table.
pub data Call : Type 0 where
  insert : ℕ → Name → FaceId → Interest → ℕ → Call
  set_out : Name → FaceId → Call
  answer : Name → Call
  drop_entry : Name → Call
  purge : ℕ → Call
  nonce : ℕ → FaceId → List ℕ → Call

pub step : Call → Pit → Result Pit
step (insert now name in_face interest timeout_ms) p =
    ok (insert_or_aggregate now name in_face interest timeout_ms p).0
step (set_out name out_face) p = ok (set_out_face name out_face p)
step (answer name) p = ok (satisfy name p).0
step (drop_entry name) p = ok (remove name p).0
step (purge now) p = ok (purge_expired now p).0
step (nonce now in_face bytes) p = record_nonce now in_face bytes p

pub run : List Call → Pit → Result Pit
run [] p = ok p
run (c ∷ cs) p = step c p >>= run cs

pub step-IsValid : (c : Call) (p : Pit) → IsValid p → (q : Pit) × (step c p ≡ ok q) × IsValid q
unfolding step
step-IsValid (insert now name in_face interest timeout_ms) p h =
    (_, refl, insert_or_aggregate-IsValid now name in_face interest timeout_ms p h)
step-IsValid (set_out name out_face) p h = (_, refl, set_out_face-IsValid name out_face p h)
step-IsValid (answer name) p h = (_, refl, satisfy-IsValid name p h)
step-IsValid (drop_entry name) p h = (_, refl, remove-IsValid name p h)
step-IsValid (purge now) p h = (_, refl, purge_expired-IsValid now p h)
step-IsValid (nonce now in_face bytes) p h = record_nonce-IsValid now in_face bytes p h

-- The limits of a table are those of another.
abbrev SameLimits : Pit → Pit → Type 0
SameLimits p q = (q.max_entries ≡ p.max_entries) × (q.max_nonces ≡ p.max_nonces)

insert_or_aggregate-SameLimits :
    (now : ℕ) (name : Name) (in_face : FaceId) (interest : Interest) (timeout_ms : ℕ) (p : Pit)
    → SameLimits p (insert_or_aggregate now name in_face interest timeout_ms p).0
unfolding insert_or_aggregate insert_new make_room evict_nearest_expiry
insert_or_aggregate-SameLimits now name in_face interest timeout_ms p =
    ground (arith, evict_from-rest p.entries p)

step-SameLimits : (c : Call) (p : Pit) → IfOk (SameLimits p) (step c p)
unfolding step
step-SameLimits (insert now name in_face interest timeout_ms) p =
    insert_or_aggregate-SameLimits now name in_face interest timeout_ms p
step-SameLimits (set_out name out_face) p = unfold set_out_face in ground arith
step-SameLimits (answer name) p = unfold satisfy in ground arith
step-SameLimits (drop_entry name) p = unfold remove in (refl, refl)
step-SameLimits (purge now) p = unfold purge_expired in (refl, refl)
step-SameLimits (nonce now in_face bytes) p =
    unfold record_nonce in
    >>=-IfOk (SameLimits p) (make_nonce_room p) _ (IfOk-true (make_nonce_room p))
      λ t _. (refl, refl)

run-keeps :
    (cs : List Call) (p : Pit)
    → IsValid p
    → (q : Pit) × (run cs p ≡ ok q) × IsValid q × SameLimits p q
unfolding run
run-keeps [] p h = (p, refl, h, (refl, refl))
run-keeps (c ∷ cs) p h =
    let (q, stepped, valid) = step-IsValid c p h in
    let (r, ran, last, (e, n)) = run-keeps cs q valid in
    let (e', n') = IfOk-eq (SameLimits p) stepped (step-SameLimits c p) in
    (r, rw stepped ran, last, (e ∙ e', n ∙ n'))

-- Start from an empty table whose two limits are positive: no sequence of calls raises, and after
-- it the names and the nonces are distinct and within their limits.
pub run-IsValid :
    (nonce_ttl max_entries max_nonces : ℕ) (cs : List Call)
    → 0 < max_entries
    → 0 < max_nonces
    → (q : Pit) × (run cs (Pit.new nonce_ttl max_entries max_nonces) ≡ ok q)
      × Distinct q.entries
      × Distinct q.nonce_tracker
      × (length q.entries ≤ max_entries)
      × (length q.nonce_tracker ≤ max_nonces)
run-IsValid nonce_ttl max_entries max_nonces cs h k =
    let (q, ran, valid, (e, n)) = run-keeps cs (Pit.new nonce_ttl max_entries max_nonces) (record {
      names = tt;
      nonces = tt;
      bounded = omega arith;
      bounded_nonces = omega arith;
      room = h;
      nonce_room = k;
    }) in
    (
      q,
      ran,
      valid.names,
      valid.nonces,
      omega (arith, valid.bounded),
      omega (arith, valid.bounded_nonces),
    )
