-- ===== src/Pit.antt =====
-- rns_icn/pit.py: the Pending Interest Table. The clock is the argument `now`, and all times are
-- whole milliseconds (the source has seconds as floats). A face is its number.
pub mod Valid
pub mod Shrinking
pub mod Sessions
pub mod Behaviour
pub mod Purge
mod Runs
use rns_icn.Prelude.{ℕ, ◌+◌, ◌≤◌, ◌≡◌, Bool, true, false, ◌||◌, not, Option, none, some, is_some}
use rns_icn.Prelude.{
  List, [], ◌∷◌, ◌++◌, map, length, filter, leb, ltb, ◌==◌, nat_eq, list_eq, pair_eq, if◌then◌else◌,
}
use rns_icn.Prelude.{Dict, get, put, erase, min_by}
use rns_icn.Wire.{Result, ok, raise, ◌>>=◌, value_error}
use rns_icn.Name.{Name, name_eq}
use rns_icn.Packet.Interest.{Interest}

abbrev pub FaceId : Type 0
FaceId = ℕ

pub record PitEntry : Type 0 where
  pub interest : Interest
  pub in_faces : List FaceId
  pub out_face : Option FaceId
  pub expires_at : ℕ
  pub satisfied : Bool

pub data PitOp : Type 0 where
  inserted aggregated : PitOp

pub record Pit : Type 0 where
  pub entries : Dict Name PitEntry
  pub nonce_tracker : Dict (FaceId × List ℕ) ℕ
  pub nonce_ttl : ℕ
  pub max_entries : ℕ
  pub max_nonces : ℕ
  pub evictions : ℕ

-- `Pit.__init__`
abbrev pub new : ℕ → ℕ → ℕ → Pit
new nonce_ttl max_entries max_nonces = record {
  entries = [];
  nonce_tracker = [];
  nonce_ttl = nonce_ttl;
  max_entries = max_entries;
  max_nonces = max_nonces;
  evictions = 0;
}

abbrev pub find : Name → Pit → Option PitEntry
find name p = get name p.entries

unfoldable pub is_full : Pit → Bool
is_full p = leb p.max_entries (length p.entries)

abbrev pub expiry : Name × PitEntry → ℕ
expiry (name, entry) = entry.expires_at

-- `_evict_nearest_expiry`, on the entries
unfoldable pub evict_from : Dict Name PitEntry → Pit → Pit
evict_from [] p = p
evict_from (e ∷ es) p = record p {
  entries = erase ((min_by expiry e es).0) (e ∷ es);
  evictions = p.evictions + 1;
}

unfoldable pub evict_nearest_expiry : Pit → Pit
unfolding evict_from
evict_nearest_expiry p = evict_from p.entries p

-- `face in faces`
unfoldable pub contains : List FaceId → FaceId → Bool
contains [] face = false
contains (f ∷ fs) face = f == face || contains fs face

unfoldable pub add_face : FaceId → List FaceId → List FaceId
unfolding contains
add_face face faces = if contains faces face then faces else faces ++ (face ∷ [])

abbrev pub fresh_entry : ℕ → FaceId → Interest → ℕ → PitEntry
fresh_entry now in_face interest timeout_ms = record {
  interest = interest;
  in_faces = in_face ∷ [];
  out_face = none;
  expires_at = now + timeout_ms;
  satisfied = false;
}

-- the cap: a new name makes room first
unfoldable pub make_room : Name → Pit → Pit
unfolding is_full evict_nearest_expiry
make_room name p =
    if not (is_some (find name p)) then (if is_full p then evict_nearest_expiry p else p) else p

unfoldable pub insert_new : ℕ → Name → FaceId → Interest → ℕ → Pit → Pit
unfolding make_room
insert_new now name in_face interest timeout_ms p =
    let q = make_room name p in
    record q { entries = put name (fresh_entry now in_face interest timeout_ms) q.entries }

-- `self._entries[name] = entry`, for an entry that was changed in place
abbrev pub update : Name → PitEntry → Pit → Pit
update name entry p = record p { entries = put name entry p.entries }

unfoldable pub insert_or_aggregate : ℕ → Name → FaceId → Interest → ℕ → Pit → Pit × PitOp
unfolding insert_new add_face
insert_or_aggregate now name in_face interest timeout_ms p = elim (find name p) [
  | none ↦ (insert_new now name in_face interest timeout_ms p, inserted)
  | some entry ↦
      if entry.satisfied
      then (insert_new now name in_face interest timeout_ms p, inserted)
      else (update name (record entry { in_faces = add_face in_face entry.in_faces }) p, aggregated)
]

unfoldable pub set_out_face : Name → FaceId → Pit → Pit
set_out_face name out_face p = elim (find name p) [
  | none ↦ p
  | some entry ↦ update name (record entry { out_face = some out_face }) p
]

unfoldable pub satisfy : Name → Pit → Pit × Option (List FaceId)
satisfy name p = elim (find name p) [
  | none ↦ (p, none)
  | some entry ↦ (update name (record entry { satisfied = true }) p, some entry.in_faces)
]

unfoldable pub remove : Name → Pit → Pit × Option PitEntry
remove name p = (record p { entries = erase name p.entries }, find name p)

abbrev pub is_expired : ℕ → Name × PitEntry → Bool
is_expired now (name, entry) = entry.satisfied || leb entry.expires_at now

abbrev pub cons_opt : Option PitEntry → List PitEntry → List PitEntry
cons_opt none es = es
cons_opt (some e) es = e ∷ es

-- `for name in expired: removed.append(self._entries.pop(name))`
unfoldable pub pop_all : List Name → Dict Name PitEntry → List PitEntry × Dict Name PitEntry
pop_all [] d = ([], d)
pop_all (name ∷ names) d =
    let rest = pop_all names (erase name d) in (cons_opt (get name d) rest.0, rest.1)

unfoldable pub purge_expired : ℕ → Pit → Pit × List PitEntry
unfolding pop_all
purge_expired now p =
    let names = map (λ e. e.0) (filter (is_expired now) p.entries) in
    let (removed, entries) = pop_all names p.entries in
    (
      record p { entries = entries; nonce_tracker = filter (λ e. ltb now e.1) p.nonce_tracker },
      removed,
    )

unfoldable pub check_loop : FaceId → List ℕ → Pit → Bool
check_loop in_face nonce p = is_some (get (in_face, nonce) p.nonce_tracker)

abbrev pub nonce_expiry : (FaceId × List ℕ) × ℕ → ℕ
nonce_expiry (key, expires_at) = expires_at

-- `del self._nonce_tracker[oldest]`: `min` of an empty dictionary raises ValueError
unfoldable pub drop_oldest : Dict (FaceId × List ℕ) ℕ → Result (Dict (FaceId × List ℕ) ℕ)
drop_oldest [] = raise value_error
drop_oldest (e ∷ es) = ok (erase ((min_by nonce_expiry e es).0) (e ∷ es))

-- the cap of the nonces
unfoldable pub make_nonce_room : Pit → Result (Dict (FaceId × List ℕ) ℕ)
unfolding drop_oldest
make_nonce_room p =
    if leb p.max_nonces (length p.nonce_tracker)
    then drop_oldest p.nonce_tracker
    else ok p.nonce_tracker

unfoldable pub record_nonce : ℕ → FaceId → List ℕ → Pit → Result Pit
unfolding make_nonce_room
record_nonce now in_face nonce p = do
  tracker ← make_nonce_room p
  ok (record p { nonce_tracker = put (in_face, nonce) (now + p.nonce_ttl) tracker })
