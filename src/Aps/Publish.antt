-- ===== src/Aps/Publish.antt =====
-- What `publish` does with the subscribers: each is served or its packet is queued.
use rns_icn.Prelude.{
  ℕ, ◌+◌, ◌≤◌, ◌≡◌, refl, sym, ap, ◌∙◌, true, ◌&&◌, Option, none, some, arith, inl, inr,
}
use rns_icn.Prelude.{List, [], ◌∷◌, All, length, if◌then◌else◌, nat_eq, nat_beq_iff, Bool-cases}
use rns_icn.Name.{Name, name_eq}
use rns_icn.Packet.Data.{Data}
use rns_icn.Pit.{FaceId, contains}
use rns_icn.OfflineQueue.{OfflineQueue, Network, enqueue, total_pending}
use rns_icn.OfflineQueue.Items.{enqueue_lem}
use rns_icn.Aps.{
  Subscriptions, matches, get_subscriber_faces, is_subscribed, enqueue_for_face, queue_missed, Push,
  push, push_all, publish,
}
use rns_icn.Aps.Subscriptions.{get_subscriber_faces-is_subscribed}

-- the items waiting, none without a queue
abbrev pub waiting : Option OfflineQueue → ℕ
waiting none = 0
waiting (some q) = total_pending q

-- The number of streams that a face is subscribed to and a name matches.
unfoldable pub streams_for : Name → FaceId → Subscriptions → ℕ
streams_for name f [] = 0
streams_for name f ((s, fs) ∷ subs) =
    if contains fs f && matches name s then streams_for name f subs + 1 else streams_for name f subs

total_pending-enqueue_for_face :
    (now : ℕ) (f : FaceId) (packet : Data) (subs : Subscriptions) (q : OfflineQueue)
    → total_pending (enqueue_for_face now f packet subs q)
      ≡ total_pending q + streams_for packet.name f subs
unfolding enqueue_for_face streams_for
total_pending-enqueue_for_face now f packet [] q = omega arith
total_pending-enqueue_for_face now f packet ((s, fs) ∷ subs) q =
    elim (Bool-cases (contains fs f && matches packet.name s)) [
      | inl t ↦ rw t (
          omega (
            arith,
            total_pending-enqueue_for_face now f packet subs (enqueue now s packet q),
            (enqueue_lem now s packet q).1,
          ))
      | inr t ↦ rw t (total_pending-enqueue_for_face now f packet subs q)
    ]

streams_for-pos :
    (name : Name) (f : FaceId) (subs : Subscriptions)
    → is_subscribed name f subs ≡ true
    → 1 ≤ streams_for name f subs
unfolding streams_for is_subscribed
streams_for-pos name f [] h = cc
streams_for-pos name f ((s, fs) ∷ subs) h = elim (Bool-cases (contains fs f && matches name s)) [
  | inl t ↦ rw t (omega arith)
  | inr t ↦ rw t (streams_for-pos name f subs (rw t at h))
]

-- what has been done: the packets sent, and the items waiting
abbrev done : {W : Type 0} → Push W → ℕ
done p = p.sent + waiting p.offline_queue

All-contains :
    (P : FaceId → Type 0) (fs : List FaceId)
    → ((f : FaceId) → contains fs f ≡ true → P f)
    → All P fs
unfolding contains
All-contains P [] h = tt
All-contains P (f ∷ fs) h =
    (h f (ground (arith, nat_beq_iff f f)), All-contains P fs (λ g e. h g (ground arith)))

pub subscribers_lem :
    (name : Name) (subs : Subscriptions)
    → All (λ f. is_subscribed name f subs ≡ true) (get_subscriber_faces name subs)
subscribers_lem name subs =
    All-contains (λ f. is_subscribed name f subs ≡ true) (get_subscriber_faces name subs)
      (λ f e. sym (get_subscriber_faces-is_subscribed name f subs) ∙ e)

module _ {W : Type 0} (net : Network W) (now : ℕ) (packet : Data) (subs : Subscriptions) where
  -- A turn of the loop with a queue: the packet is sent or waits, and the queue stays.
  abbrev Turn : Push W → Push W → ℕ → Type 0
  Turn p r n =
      (q : OfflineQueue) × (r.offline_queue ≡ some q)
      × (p.sent + waiting p.offline_queue + n ≤ r.sent + total_pending q)
      × (r.sent ≤ p.sent + n)

  push-Turn :
      (f : FaceId) (p : Push W) (q : OfflineQueue)
      → p.offline_queue ≡ some q
      → is_subscribed packet.name f subs ≡ true
      → Turn p (push net now packet subs f p) 1
  unfolding push queue_missed
  push-Turn f p q e sub =
      let waits = enqueue_for_face now f packet subs q in
      let more = total_pending-enqueue_for_face now f packet subs q in
      let had = ap waiting e in
      let pos = streams_for-pos packet.name f subs sub in
      elim (Bool-cases (net.has_face f p.world)) [
        | inl t ↦ elim (Bool-cases (net.send_data f packet p.world).1) [
          | inl u ↦ rw (t, u) (q, e, omega arith, omega arith)
          | inr u ↦
              rw (t, u) (waits, ap (queue_missed now f packet subs) e, omega arith, omega arith)
        ]
        | inr t ↦ rw t (waits, ap (queue_missed now f packet subs) e, omega arith, omega arith)
      ]

  push_all-Turn :
      (fs : List FaceId) (p : Push W) (q : OfflineQueue)
      → p.offline_queue ≡ some q
      → All (λ f. is_subscribed packet.name f subs ≡ true) fs
      → Turn p (push_all net now packet subs fs p) (length fs)
  unfolding push_all
  push_all-Turn [] p q e h = (q, e, omega (arith, ap waiting e), omega arith)
  push_all-Turn (f ∷ fs) p q e (hf, h) =
      let (q1, e1, more1, few1) = push-Turn f p q e hf in
      let (q2, e2, more2, few2) = push_all-Turn fs (push net now packet subs f p) q1 e1 h in
      (q2, e2, omega (arith, ap waiting e1), omega arith)

  -- With a server and an offline queue, `publish` loses no subscriber: the packets sent and the
  -- items then waiting are together at least the subscribers and the items that waited before,
  -- whichever faces are gone and whichever sendings raise; and no more are sent than there are
  -- subscribers.
  pub publish-accounts :
      (q : OfflineQueue) (w : W)
      → (q' : OfflineQueue) × ((publish net now packet subs (some q) (some w)).1 ≡ some q')
        × (total_pending q + length (get_subscriber_faces packet.name subs)
            ≤ (publish net now packet subs (some q) (some w)).2 + total_pending q')
        × ((publish net now packet subs (some q) (some w)).2
            ≤ length (get_subscriber_faces packet.name subs))
  unfolding publish
  publish-accounts q w =
      let start : Push W = record { world = w; offline_queue = some q; sent = 0 } in
      let (q', e, more, few) =
        push_all-Turn (get_subscriber_faces packet.name subs) start q refl
          (subscribers_lem packet.name subs) in
      (q', e, omega arith, omega arith)
