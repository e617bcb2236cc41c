-- ===== src/OfflineQueue/Items.antt =====
-- What `put`, `prune` and `cleanup` do to the items of every stream, and to their number.
use rns_icn.Prelude.{ℕ, ◌+◌, ◌≡◌, ◌≢◌, refl, ◌∙◌, arith, inl, inr}
use rns_icn.Prelude.{
  List, [], ◌∷◌, ◌++◌, length, length-append, length-filter-le, filter, if◌then◌else◌, ◌==◌,
  Bool-cases,
}
use rns_icn.Prelude.{Dict, get, put, erase, Fresh, Distinct, get-put, get-Fresh}
use rns_icn.Name.{Name, name_eq, name_beq_iff}
use rns_icn.Packet.Data.{Data}
use rns_icn.OfflineQueue.{
  Item, OfflineQueue, items, items_of, enqueue, is_fresh, keep_items, prune_queue, prune,
  pending_in, total_pending,
}

-- Storing a list under a name changes the number of items by the difference.
pub pending_in-put :
    (k : Name) (xs : List Item) (d : Dict Name (List Item))
    → pending_in (put k xs d) + length (items_of (get k d)) ≡ length xs + pending_in d
unfolding pending_in put get
pending_in-put k xs [] = omega arith
pending_in-put k xs ((j, ys) ∷ d) = ground (arith, pending_in-put k xs d)

-- Dropping a name drops its items.
pub pending_in-erase :
    (k : Name) (d : Dict Name (List Item))
    → pending_in (erase k d) + length (items_of (get k d)) ≡ pending_in d
unfolding pending_in erase get
pending_in-erase k [] = refl
pending_in-erase k ((j, ys) ∷ d) = ground (arith, pending_in-erase k d)

-- `put` appends the packet to its stream, with the time; every other stream keeps its items, and
-- the total grows by one.
pub enqueue_lem :
    (now : ℕ) (name : Name) (packet : Data) (q : OfflineQueue)
    → ((other : Name)
        → items other (enqueue now name packet q)
          ≡ (if name == other then items name q ++ ((now, packet) ∷ []) else items other q))
      × (total_pending (enqueue now name packet q) ≡ total_pending q + 1)
unfolding enqueue total_pending
enqueue_lem now name packet q =
    let more = items name q ++ ((now, packet) ∷ []) in
    (
      λ other. ground (arith, get-put name other more q.queue),
      omega (
        arith,
        pending_in-put name more q.queue,
        length-append (items name q) ((now, packet) ∷ []),
      ),
    )

Fresh-keep_items :
    (k name : Name) (xs : List Item) (d : Dict Name (List Item))
    → name ≢ k
    → Fresh k d
    → Fresh k (keep_items name xs d)
unfolding keep_items
Fresh-keep_items k name [] d n h = h
Fresh-keep_items k name (x ∷ xs) d n h = (n, h)

Fresh-prune_queue :
    (k : Name) (now max_age : ℕ) (d : Dict Name (List Item))
    → Fresh k d
    → Fresh k (prune_queue now max_age d).0
unfolding prune_queue
Fresh-prune_queue k now max_age [] h = tt
Fresh-prune_queue k now max_age ((name, xs) ∷ d) (n, h) =
    Fresh-keep_items k name (filter (is_fresh now max_age) xs) (prune_queue now max_age d).0 n
      (Fresh-prune_queue k now max_age d h)

items-keep_items :
    (k name : Name) (xs : List Item) (d : Dict Name (List Item))
    → Fresh name d
    → items_of (get k (keep_items name xs d)) ≡ (if name == k then xs else items_of (get k d))
unfolding keep_items get
items-keep_items k name [] d h = ground (arith, name_beq_iff name k, get-Fresh name d h)
items-keep_items k name (x ∷ xs) d h = ground arith

pending_in-keep_items :
    (name : Name) (xs : List Item) (d : Dict Name (List Item))
    → pending_in (keep_items name xs d) ≡ length xs + pending_in d
unfolding keep_items pending_in
pending_in-keep_items name [] d = omega arith
pending_in-keep_items name (x ∷ xs) d = refl

prune_queue-items :
    (now max_age : ℕ) (d : Dict Name (List Item)) (k : Name)
    → Distinct d
    → items_of (get k (prune_queue now max_age d).0)
      ≡ filter (is_fresh now max_age) (items_of (get k d))
unfolding prune_queue get
prune_queue-items now max_age [] k h = refl
prune_queue-items now max_age ((name, xs) ∷ d) k (fresh, h) =
    let left = filter (is_fresh now max_age) xs in
    let rest = (prune_queue now max_age d).0 in
    items-keep_items k name left rest (Fresh-prune_queue name now max_age d fresh)
    ∙ (elim (Bool-cases (name == k)) [
      | inl t ↦ rw t refl
      | inr t ↦ rw t (prune_queue-items now max_age d k h)
    ])

prune_queue-total :
    (now max_age : ℕ) (d : Dict Name (List Item))
    → (prune_queue now max_age d).1 + pending_in (prune_queue now max_age d).0 ≡ pending_in d
unfolding prune_queue pending_in
prune_queue-total now max_age [] = refl
prune_queue-total now max_age ((name, xs) ∷ d) =
    let left = filter (is_fresh now max_age) xs in
    omega (
      arith,
      pending_in-keep_items name left (prune_queue now max_age d).0,
      prune_queue-total now max_age d,
      length-filter-le (is_fresh now max_age) xs,
    )

-- In a queue with distinct names `prune` leaves of every stream the items younger than the maximum
-- age, in their order, and the number it returns is the number of items that went.
pub prune_lem :
    (now : ℕ) (q : OfflineQueue)
    → Distinct q.queue
    → ((name : Name) → items name (prune now q).0 ≡ filter (is_fresh now q.max_age) (items name q))
      × ((prune now q).1 + total_pending (prune now q).0 ≡ total_pending q)
unfolding prune total_pending
prune_lem now q h = (
  λ name. prune_queue-items now q.max_age q.queue name h,
  prune_queue-total now q.max_age q.queue,
)
