-- ===== src/OfflineQueue.antt =====
-- rns_icn/offline_queue.py: what is kept for subscribers whose face is gone. The clock is the
-- argument `now`, in milliseconds; a `Network` stands for the faces of the server.
pub mod Items
pub mod Delivery
mod Runs
use rns_icn.Prelude.{ℕ, ◌+◌, ◌-◌, ◌≡◌, Bool, true, false, Option, none, some}
use rns_icn.Prelude.{List, [], ◌∷◌, ◌++◌, length, filter, ltb, if◌then◌else◌}
use rns_icn.Prelude.{Dict, get, put, erase}
use rns_icn.Name.{Name, name_eq}
use rns_icn.Packet.Data.{Data}
use rns_icn.Pit.{FaceId}

-- `(timestamp, data)`
abbrev pub Item : Type 0
Item = ℕ × Data

pub record OfflineQueue : Type 0 where
  pub queue : Dict Name (List Item)
  pub max_age : ℕ

abbrev pub new : ℕ → OfflineQueue
new max_age = record { queue = []; max_age = max_age }

-- The faces of a server, whose state is `W`: whether `_faces` has the face, and `send_data`, with
-- `false` for a call that raises.
pub record Network (W : Type 0) : Type 0 where
  pub has_face : FaceId → W → Bool
  pub send_data : FaceId → Data → W → W × Bool

abbrev items_of : Option (List Item) → List Item
items_of none = []
items_of (some xs) = xs

-- `self._queue.get(stream_name, [])`
abbrev pub items : Name → OfflineQueue → List Item
items stream_name q = items_of (get stream_name q.queue)

-- `put`
unfoldable pub enqueue : ℕ → Name → Data → OfflineQueue → OfflineQueue
enqueue now stream_name packet q = record q {
  queue = put stream_name (items stream_name q ++ ((now, packet) ∷ [])) q.queue;
}

-- the loop of `drain`: the world that is left, and the number of packets sent
unfoldable pub send_all : {W : Type 0} → Network W → FaceId → List Item → W → W × ℕ
send_all net face_id [] w = (w, 0)
send_all net face_id ((t, packet) ∷ xs) w =
    let (w1, sent) = net.send_data face_id packet w in
    let (w2, count) = send_all net face_id xs w1 in (w2, if sent then count + 1 else count)

-- the queue with the items back under their name, behind the other names
abbrev pub put_back : Name → List Item → OfflineQueue → OfflineQueue
put_back stream_name xs q = record q { queue = put stream_name xs (erase stream_name q.queue) }

abbrev pub popped : Name → OfflineQueue → OfflineQueue
popped stream_name q = record q { queue = erase stream_name q.queue }

-- `drain`, with the items at hand and the server's world; `none` is no server
unfoldable pub drain_items :
    {W : Type 0}
    → Network W
    → Name
    → FaceId
    → List Item
    → OfflineQueue
    → Option W
    → OfflineQueue × Option W × ℕ
unfolding send_all
drain_items net stream_name face_id [] q server = (popped stream_name q, server, 0)
drain_items net stream_name face_id (x ∷ xs) q none = (put_back stream_name (x ∷ xs) q, none, 0)
drain_items net stream_name face_id (x ∷ xs) q (some w) =
    if net.has_face face_id w
    then (
      popped stream_name q,
      some (send_all net face_id (x ∷ xs) w).0,
      (send_all net face_id (x ∷ xs) w).1,
    )
    else (put_back stream_name (x ∷ xs) q, some w, 0)

unfoldable pub drain :
    {W : Type 0} → Network W → Name → FaceId → OfflineQueue → Option W → OfflineQueue × Option W × ℕ
unfolding drain_items
drain net stream_name face_id q server =
    drain_items net stream_name face_id (items stream_name q) q server

unfoldable pub pending_count : Name → OfflineQueue → ℕ
pending_count stream_name q = length (items stream_name q)

unfoldable pub pending_in : Dict Name (List Item) → ℕ
pending_in [] = 0
pending_in ((name, xs) ∷ d) = length xs + pending_in d

unfoldable pub total_pending : OfflineQueue → ℕ
unfolding pending_in
total_pending q = pending_in q.queue

unfoldable pub stream_count : OfflineQueue → ℕ
stream_count q = length q.queue

-- `now - t < self._max_age`
abbrev pub is_fresh : ℕ → ℕ → Item → Bool
is_fresh now max_age (t, packet) = ltb now (t + max_age)

-- `if fresh: self._queue[stream_name] = fresh`, and otherwise the name goes
unfoldable pub keep_items : Name → List Item → Dict Name (List Item) → Dict Name (List Item)
keep_items name [] d = d
keep_items name (x ∷ xs) d = (name, x ∷ xs) ∷ d

-- the loop of `prune`: the queue that is left, and the number of items removed
unfoldable pub prune_queue : ℕ → ℕ → Dict Name (List Item) → Dict Name (List Item) × ℕ
unfolding keep_items
prune_queue now max_age [] = ([], 0)
prune_queue now max_age ((name, xs) ∷ d) =
    let (rest, removed) = prune_queue now max_age d in
    let fresh = filter (is_fresh now max_age) xs in
    (keep_items name fresh rest, (length xs - length fresh) + removed)

unfoldable pub prune : ℕ → OfflineQueue → OfflineQueue × ℕ
unfolding prune_queue
prune now q =
    let (rest, removed) = prune_queue now q.max_age q.queue in (record q { queue = rest }, removed)

-- the queue that is left, and the number of items removed
unfoldable pub cleanup : Name → OfflineQueue → OfflineQueue × ℕ
cleanup stream_name q = (popped stream_name q, length (items stream_name q))

unfoldable pub clear : OfflineQueue → OfflineQueue × ℕ
unfolding total_pending
clear q = (record q { queue = [] }, total_pending q)
