-- ===== src/Pit/Behaviour.antt =====
-- What the Pending Interest Table promises of its entries and its nonces.
use rns_icn.Prelude.{
  ℕ, ◌+◌, ◌≤◌, ◌<◌, ◌≡◌, refl, ap, ◌∙◌, Bool, true, false, ◌||◌, Option, none, some, is_some, arith,
}
use rns_icn.Prelude.{
  List, [], ◌∷◌, ◌++◌, length, All, leb, ◌==◌, nat_eq, list_eq, pair_eq, nat_beq_iff, if◌then◌else◌,
  Option-cases, inl, inr,
}
use rns_icn.Prelude.{
  Dict, get, put, Distinct, get-put, get-erase, min_by, min_by-In, min_by-All, get-In, eq_refl,
  ◌&&◌,
}
use mathlib.Core.Path.{subst}
use rns_icn.Wire.Readers.{>>=-IfOk, IfOk-eq, IfOk-true}
use rns_icn.Wire.{ok}
use rns_icn.Name.{Name, name_eq}
use rns_icn.Packet.Interest.{Interest}
use rns_icn.Pit.{
  Pit, PitEntry, FaceId, inserted, aggregated, find, expiry, evict_from, evict_nearest_expiry,
  make_room, insert_new, fresh_entry, contains, add_face, update, insert_or_aggregate, check_loop,
  make_nonce_room, record_nonce,
}

pub contains-append :
    (fs : List FaceId) (f g : FaceId) → contains (fs ++ (f ∷ [])) g ≡ (contains fs g || f == g)
unfolding contains
contains-append [] f g = ground arith
contains-append (h ∷ fs) f g = ground (arith, contains-append fs f g)

pub contains-add_face :
    (f g : FaceId) (fs : List FaceId) → contains (add_face f fs) g ≡ (contains fs g || f == g)
unfolding add_face
contains-add_face f g fs = ground (arith, contains-append fs f g, nat_beq_iff f g)

is_some-if {ℓ} :
    {A : Type ℓ} (b : Bool) (v : A) (o : Option A)
    → is_some (if b then some v else o) ≡ (b || is_some o)
is_some-if true v o = refl
is_some-if false v o = refl

lt→leb-false : (a b : ℕ) → a < b → leb b a ≡ false
lt→leb-false a b h = ground arith

find-update :
    (name other : Name) (entry : PitEntry) (p : Pit)
    → find other (update name entry p) ≡ (if name == other then some entry else find other p)
find-update name other entry p = get-put name other entry p.entries

aggregate_lem :
    (now : ℕ) (name : Name) (in_face : FaceId) (i : Interest) (timeout_ms : ℕ) (p : Pit)
    (e : PitEntry)
    → find name p ≡ some e
    → e.satisfied ≡ false
    → insert_or_aggregate now name in_face i timeout_ms p
      ≡ (update name (record e { in_faces = add_face in_face e.in_faces }) p, aggregated)
unfolding insert_or_aggregate
aggregate_lem now name in_face i timeout_ms p e found pending =
    rw (found, insert_or_aggregate)
      (ap
        (λ b.
          if b
          then (insert_new now name in_face i timeout_ms p, inserted)
          else (update name (record e { in_faces = add_face in_face e.in_faces }) p, aggregated))
        pending)

-- A pending Interest for the name takes the face on, and nothing else changes: the entry keeps its
-- Interest, its other faces and its time of expiry, and every other name is bound as before.
pub insert_or_aggregate-pending :
    (now : ℕ) (name : Name) (in_face : FaceId) (i : Interest) (timeout_ms : ℕ) (p : Pit)
    (e : PitEntry)
    → find name p ≡ some e
    → e.satisfied ≡ false
    → ((insert_or_aggregate now name in_face i timeout_ms p).1 ≡ aggregated)
      × ((other : Name)
          → find other (insert_or_aggregate now name in_face i timeout_ms p).0 ≡ (
              if name == other
              then some (record e { in_faces = add_face in_face e.in_faces })
              else find other p))
      × ((g : FaceId)
          → contains (add_face in_face e.in_faces) g ≡ (contains e.in_faces g || in_face == g))
insert_or_aggregate-pending now name in_face i timeout_ms p e found pending =
    rw (aggregate_lem now name in_face i timeout_ms p e found pending)
      (refl, λ other. find-update name other _ p, λ g. contains-add_face in_face g e.in_faces)

-- The name whose entry expires first, the oldest such in the table.
abbrev victim : Name × PitEntry → Dict Name PitEntry → Name × PitEntry
victim = min_by expiry

-- A full table drops the entry that expires first: no entry of the table expires before it, every
-- other name is bound as before, and the drop is counted.
pub evict_nearest_expiry_lem :
    (p : Pit) (x : Name × PitEntry) (xs : Dict Name PitEntry)
    → p.entries ≡ x ∷ xs
    → Distinct p.entries
    → (name : Name) × (entry : PitEntry) × (find name p ≡ some entry)
      × All (λ y. entry.expires_at ≤ expiry y) p.entries
      × ((other : Name)
          → find other (evict_nearest_expiry p) ≡ (if name == other then none else find other p))
      × ((evict_nearest_expiry p).evictions ≡ p.evictions + 1)
unfolding evict_nearest_expiry evict_from
evict_nearest_expiry_lem p x xs e h =
    let d = subst (λ (l : Dict Name PitEntry). Distinct l) e h in
    let v = victim x xs in
    rw e (
      v.0,
      v.1,
      get-In (v.0) (v.1) (x ∷ xs) d (min_by-In expiry x xs),
      min_by-All expiry x xs,
      λ other. get-erase (v.0) other (x ∷ xs) d,
      refl,
    )

find-insert_new :
    (now : ℕ) (name : Name) (in_face : FaceId) (i : Interest) (timeout_ms : ℕ) (p : Pit)
    → find name (insert_new now name in_face i timeout_ms p)
      ≡ some (fresh_entry now in_face i timeout_ms)
unfolding insert_new
find-insert_new now name in_face i timeout_ms p =
    get-put name name (fresh_entry now in_face i timeout_ms) (make_room name p).entries
    ∙ rw (eq_refl name)

-- Where there is no pending Interest for the name, the entry is new: it has the one face, is not
-- satisfied, and expires after the timeout.
pub insert_or_aggregate-new :
    (now : ℕ) (name : Name) (in_face : FaceId) (i : Interest) (timeout_ms : ℕ) (p : Pit)
    → ((e : PitEntry) → find name p ≡ some e → e.satisfied ≡ true)
    → ((insert_or_aggregate now name in_face i timeout_ms p).1 ≡ inserted)
      × (find name (insert_or_aggregate now name in_face i timeout_ms p).0
          ≡ some (fresh_entry now in_face i timeout_ms))
unfolding insert_or_aggregate
insert_or_aggregate-new now name in_face i timeout_ms p done =
    let bound = find-insert_new now name in_face i timeout_ms p in
    elim (Option-cases (find name p)) [
      | inl new ↦ rw (new, insert_or_aggregate) (refl, bound)
      | inr (e, found) ↦ rw (found, done e found, insert_or_aggregate) (refl, bound)
    ]

-- The nonce came over the same face.
abbrev pub same_nonce : FaceId → List ℕ → FaceId → List ℕ → Bool
same_nonce f n g m = f == g && n == m

nonce-put :
    (f g : FaceId) (n m : List ℕ) (v : ℕ) (t : Dict (FaceId × List ℕ) ℕ)
    → is_some (get (g, m) (put (f, n) v t)) ≡ (same_nonce f n g m || is_some (get (g, m) t))
nonce-put f g n m v t =
    ap is_some (get-put (f, n) (g, m) v t) ∙ is_some-if (same_nonce f n g m) v (get (g, m) t)

-- Below the limit of nonces, recording one makes it a loop over its face, and a nonce is a loop
-- otherwise exactly if it was one before.
pub check_loop-record_nonce :
    (now : ℕ) (f g : FaceId) (n m : List ℕ) (p : Pit)
    → length p.nonce_tracker < p.max_nonces
    → (q : Pit) × (record_nonce now f n p ≡ ok q)
      × (check_loop g m q ≡ (same_nonce f n g m || check_loop g m p))
unfolding record_nonce make_nonce_room check_loop
check_loop-record_nonce now f g n m p space = (
  record p { nonce_tracker = put (f, n) (now + p.nonce_ttl) p.nonce_tracker },
  rw (lt→leb-false (length p.nonce_tracker) p.max_nonces space),
  nonce-put f g n m (now + p.nonce_ttl) p.nonce_tracker,
)

-- At the limit, too, the nonce that was just recorded is a loop.
pub check_loop-record_nonce_self :
    (now : ℕ) (f : FaceId) (n : List ℕ) (p q : Pit)
    → record_nonce now f n p ≡ ok q
    → check_loop f n q ≡ true
check_loop-record_nonce_self now f n p q e =
    IfOk-eq (λ r. check_loop f n r ≡ true) e
      (unfold record_nonce check_loop in
        >>=-IfOk (λ r. check_loop f n r ≡ true) (make_nonce_room p) _
          (IfOk-true (make_nonce_room p))
          λ t _. nonce-put f f n n (now + p.nonce_ttl) t ∙ rw (eq_refl f, eq_refl n))
