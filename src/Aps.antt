-- ===== src/Aps.antt =====
-- rns_icn/aps.py: who is subscribed to which stream, and the push of Data to them. A `set` of faces
-- is a list of distinct faces; the order of Python's sets is not defined, here it is insertion.
pub mod Subscriptions
pub mod Changes
pub mod Publish
mod Runs
use rns_icn.Prelude.{ℕ, ◌+◌, ◌≡◌, Bool, true, false, ◌&&◌, ◌||◌, not, Option, none, some}
use rns_icn.Prelude.{List, [], ◌∷◌, length, filter, ◌==◌, nat_eq, if◌then◌else◌}
use rns_icn.Prelude.{Dict, get, put, erase}
use rns_icn.Name.{Name, name_eq, starts_with}
use rns_icn.Packet.Data.{Data}
use rns_icn.Pit.{FaceId, contains, add_face}
use rns_icn.OfflineQueue.{OfflineQueue, Network, enqueue}

-- `_subscriptions`
abbrev pub Subscriptions : Type 0
Subscriptions = Dict Name (List FaceId)

abbrev pub faces_of : Option (List FaceId) → List FaceId
faces_of none = []
faces_of (some fs) = fs

abbrev pub subscribers : Name → Subscriptions → List FaceId
subscribers name subs = faces_of (get name subs)

unfoldable pub subscribe : Name → FaceId → Subscriptions → Subscriptions
unfolding add_face
subscribe name face_id subs = put name (add_face face_id (subscribers name subs)) subs

-- `subs.discard(face_id)`
unfoldable pub discard : FaceId → List FaceId → List FaceId
discard face_id [] = []
discard face_id (f ∷ fs) = if f == face_id then discard face_id fs else f ∷ discard face_id fs

-- `if not subs: del self._subscriptions[name]`
unfoldable pub store : Name → List FaceId → Subscriptions → Subscriptions
store name [] subs = erase name subs
store name (f ∷ fs) subs = put name (f ∷ fs) subs

-- `if subs:` fails for a name that is not there and for an empty set
unfoldable pub unsubscribe_from : Name → FaceId → List FaceId → Subscriptions → Subscriptions
unfolding store discard
unsubscribe_from name face_id [] subs = subs
unsubscribe_from name face_id (f ∷ fs) subs = store name (discard face_id (f ∷ fs)) subs

unfoldable pub unsubscribe : Name → FaceId → Subscriptions → Subscriptions
unfolding unsubscribe_from
unsubscribe name face_id subs = unsubscribe_from name face_id (subscribers name subs) subs

unfoldable pub keep_stream : Name → List FaceId → Subscriptions → Subscriptions
keep_stream name [] subs = subs
keep_stream name (f ∷ fs) subs = (name, f ∷ fs) ∷ subs

unfoldable pub unsubscribe_face : FaceId → Subscriptions → Subscriptions
unfolding keep_stream discard
unsubscribe_face face_id [] = []
unsubscribe_face face_id ((name, fs) ∷ subs) =
    keep_stream name (discard face_id fs) (unsubscribe_face face_id subs)

-- one of the names is a prefix of the other
abbrev pub matches : Name → Name → Bool
matches name stream_name = starts_with name stream_name || starts_with stream_name name

-- `result.update(faces)`
unfoldable pub update : List FaceId → List FaceId → List FaceId
unfolding add_face
update result [] = result
update result (f ∷ fs) = update (add_face f result) fs

-- the loop of `get_subscriber_faces`
unfoldable pub collect : Name → List FaceId → Subscriptions → List FaceId
unfolding update
collect name result [] = result
collect name result ((stream_name, fs) ∷ subs) =
    collect name (if matches name stream_name then update result fs else result) subs

unfoldable pub get_subscriber_faces : Name → Subscriptions → List FaceId
unfolding collect
get_subscriber_faces name subs = collect name [] subs

unfoldable pub is_subscribed : Name → FaceId → Subscriptions → Bool
unfolding contains
is_subscribed name face_id [] = false
is_subscribed name face_id ((stream_name, fs) ∷ subs) =
    (contains fs face_id && matches name stream_name) || is_subscribed name face_id subs

unfoldable pub subscription_count : Subscriptions → ℕ
subscription_count [] = 0
subscription_count ((name, fs) ∷ subs) = length fs + subscription_count subs

unfoldable pub stream_count : Subscriptions → ℕ
stream_count subs = length subs

-- `_enqueue_for_face`
unfoldable pub enqueue_for_face : ℕ → FaceId → Data → Subscriptions → OfflineQueue → OfflineQueue
unfolding contains enqueue
enqueue_for_face now face_id packet [] q = q
enqueue_for_face now face_id packet ((stream_name, fs) ∷ subs) q =
    enqueue_for_face now face_id packet subs (
      if contains fs face_id && matches packet.name stream_name
      then enqueue now stream_name packet q
      else q)

-- `if offline_queue is not None`
unfoldable pub queue_missed :
    ℕ → FaceId → Data → Subscriptions → Option OfflineQueue → Option OfflineQueue
unfolding enqueue_for_face
queue_missed now face_id packet subs none = none
queue_missed now face_id packet subs (some q) = some (enqueue_for_face now face_id packet subs q)

pub record Push (W : Type 0) : Type 0 where
  pub world : W
  pub offline_queue : Option OfflineQueue
  pub sent : ℕ

-- one turn of the loop of `publish`
unfoldable pub push : {W : Type 0} → Network W → ℕ → Data → Subscriptions → FaceId → Push W → Push W
unfolding queue_missed
push net now packet subs face_id p =
    let missed = queue_missed now face_id packet subs p.offline_queue in
    let (w, sent) = net.send_data face_id packet p.world in
    if net.has_face face_id p.world
    then (if sent
        then record p { world = w; sent = p.sent + 1 }
        else record p { world = w; offline_queue = missed })
    else record p { offline_queue = missed }

unfoldable pub push_all :
    {W : Type 0} → Network W → ℕ → Data → Subscriptions → List FaceId → Push W → Push W
unfolding push
push_all net now packet subs [] p = p
push_all net now packet subs (f ∷ fs) p =
    push_all net now packet subs fs (push net now packet subs f p)

-- The world and the queue that are left, and the number of subscribers served. Without a server
-- there is no world, and nothing is done.
unfoldable pub publish :
    {W : Type 0}
    → Network W
    → ℕ
    → Data
    → Subscriptions
    → Option OfflineQueue
    → Option W
    → Option W × Option OfflineQueue × ℕ
unfolding push_all get_subscriber_faces
publish net now packet subs queue none = (none, queue, 0)
publish net now packet subs queue (some w) =
    let p =
      push_all net now packet subs (get_subscriber_faces packet.name subs)
        (record { world = w; offline_queue = queue; sent = 0 }) in
    (some p.world, p.offline_queue, p.sent)
