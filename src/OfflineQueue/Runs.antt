-- ===== src/OfflineQueue/Runs.antt =====
-- Concrete runs on the offline queue.
use rns_icn.Prelude.{◌+◌, ◌≤◌, ◌≡◌, refl, some}
use rns_icn.Prelude.{[], ◌∷◌, if◌then◌else◌, ◌==◌}
use rns_icn.Prelude.{get}
use rns_icn.Name.{Name, name_eq}
use rns_icn.Pit.{contains}
use rns_icn.OfflineQueue
use rns_icn.OfflineQueue.{
  Item, OfflineQueue, Network, items, enqueue, is_fresh, prune, total_pending, pending_count, drain,
}
use rns_icn.OfflineQueue.Delivery.{delivered, drain-present}
use rns_icn.Samples.{alice, root, content, two_faces}

abbrev queue : OfflineQueue
queue = record (OfflineQueue.new 1000) {
  queue = (alice, (100, content) ∷ (900, content) ∷ []) ∷ (root, (50, content) ∷ []) ∷ [];
}

drain-alice : (drain two_faces alice 1 queue (some (1 ∷ 2 ∷ []))).2 ≡ 2
unfolding drain contains get
drain-alice = refl

drain-present_example :
    ((drain two_faces alice 1 queue (some (1 ∷ 2 ∷ []))).1
      ≡ some (delivered two_faces alice 1 (items alice queue) (1 ∷ 2 ∷ [])))
    × ((drain two_faces alice 1 queue (some (1 ∷ 2 ∷ []))).2 ≤ pending_count alice queue)
    × (total_pending (drain two_faces alice 1 queue (some (1 ∷ 2 ∷ []))).0
          + pending_count alice queue
        ≡ total_pending queue)
    × ((other : Name)
        → items other (drain two_faces alice 1 queue (some (1 ∷ 2 ∷ []))).0
          ≡ (if alice == other then [] else items other queue))
drain-present_example =
    drain-present two_faces alice 1 queue (1 ∷ 2 ∷ []) (((λ e. cc), tt), (tt, tt))
      (unfold contains in refl)
