-- ===== src/Aps/Runs.antt =====
-- Concrete runs on the subscriptions.
use rns_icn.Prelude.{◌+◌, ◌≤◌, ◌≡◌, refl, some}
use rns_icn.Prelude.{[], ◌∷◌, length}
use rns_icn.Name.{name_eq, starts_with}
use rns_icn.Pit.{contains}
use rns_icn.OfflineQueue.{OfflineQueue, total_pending, enqueue}
use rns_icn.OfflineQueue
use rns_icn.Aps.{Subscriptions, get_subscriber_faces, publish}
use rns_icn.Aps.Publish.{publish-accounts}
use rns_icn.Samples.{alice, root, content, two_faces}

abbrev subs : Subscriptions
subs = (alice, 1 ∷ 2 ∷ []) ∷ (root, 3 ∷ []) ∷ []

-- Face 1 takes the packet, face 2 raises and face 3 is gone.
publish_content :
    (publish two_faces 100 content subs (some (OfflineQueue.new 1000)) (some (1 ∷ 2 ∷ []))).2 ≡ 1
unfolding publish contains enqueue starts_with
publish_content = refl

publish-accounts_example :
    (q' : OfflineQueue) × ((publish two_faces 100 content subs
        (some (OfflineQueue.new 1000))
        (some (1 ∷ 2 ∷ []))).1
      ≡ some q')
    × (total_pending (OfflineQueue.new 1000) + length (get_subscriber_faces content.name subs)
        ≤ (publish two_faces 100 content subs (some (OfflineQueue.new 1000)) (some (1 ∷ 2 ∷ []))).2
          + total_pending q')
    × ((publish two_faces 100 content subs (some (OfflineQueue.new 1000)) (some (1 ∷ 2 ∷ []))).2
        ≤ length (get_subscriber_faces content.name subs))
publish-accounts_example =
    publish-accounts two_faces 100 content subs (OfflineQueue.new 1000) (1 ∷ 2 ∷ [])
