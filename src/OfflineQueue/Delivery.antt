-- ===== src/OfflineQueue/Delivery.antt =====
-- What `drain` sends, and what it leaves.
use rns_icn.Prelude.{◌+◌, ◌≤◌, ◌≡◌, refl, ap, true, false, Option, none, some, arith}
use rns_icn.Prelude.{List, [], ◌∷◌, length, if◌then◌else◌, ◌==◌}
use rns_icn.Prelude.{erase, Distinct, get-put, get-erase}
use mathlib.Core.List.{foldl}
use rns_icn.Name.{Name, name_eq, name_beq_iff}
use rns_icn.Pit.{FaceId}
use rns_icn.OfflineQueue.{
  Item, OfflineQueue, Network, items, put_back, popped, send_all, drain_items, drain, total_pending,
  pending_count,
}
use rns_icn.OfflineQueue.Items.{pending_in-erase}

module _ {W : Type 0} (net : Network W) (name : Name) (face_id : FaceId) where
  -- The specification: the packets are sent one after the other.
  abbrev pub delivered : List Item → W → W
  delivered xs w = foldl (λ v x. (net.send_data face_id x.1 v).0) w xs

  send_all-world : (xs : List Item) (w : W) → (send_all net face_id xs w).0 ≡ delivered xs w
  unfolding send_all
  send_all-world [] w = refl
  send_all-world ((t, p) ∷ xs) w = send_all-world xs (net.send_data face_id p w).0

  send_all-count : (xs : List Item) (w : W) → (send_all net face_id xs w).1 ≤ length xs
  unfolding send_all
  send_all-count [] w = omega arith
  send_all-count ((t, p) ∷ xs) w = ground (arith, send_all-count xs (net.send_data face_id p w).0)

  -- With a face that is there, `drain` sends the items of the stream in the order in which they
  -- were queued, at most that many are counted as sent, and none of them stays in the queue,
  -- whether its sending raised or not; the other streams keep their items.
  pub drain-present :
      (q : OfflineQueue) (w : W)
      → Distinct q.queue
      → net.has_face face_id w ≡ true
      → ((drain net name face_id q (some w)).1 ≡ some (delivered (items name q) w))
        × ((drain net name face_id q (some w)).2 ≤ pending_count name q)
        × (total_pending (drain net name face_id q (some w)).0 + pending_count name q
            ≡ total_pending q)
        × ((other : Name)
            → items other (drain net name face_id q (some w)).0
              ≡ (if name == other then [] else items other q))
  unfolding drain drain_items pending_count total_pending
  drain-present q w h there = go (items name q) refl
    where
      left :
          (other : Name)
          → items other (popped name q) ≡ (if name == other then [] else items other q)
      left other = ground (arith, get-erase name other q.queue h)

      go :
          (xs : List Item)
          → items name q ≡ xs
          → ((drain_items net name face_id xs q (some w)).1 ≡ some (delivered xs w))
            × ((drain_items net name face_id xs q (some w)).2 ≤ length xs)
            × (total_pending (drain_items net name face_id xs q (some w)).0 + length xs
                ≡ total_pending q)
            × ((other : Name)
                → items other (drain_items net name face_id xs q (some w)).0
                  ≡ (if name == other then [] else items other q))
      go [] e = (refl, omega arith, omega (arith, pending_in-erase name q.queue, ap length e), left)
      go (x ∷ xs) e = rw there (
        ap some (send_all-world (x ∷ xs) w),
        send_all-count (x ∷ xs) w,
        omega (arith, pending_in-erase name q.queue, ap length e),
        left,
      )

  -- Without a server, or when the face is gone, `drain` sends nothing, and every stream has the
  -- items it had.
  pub drain-absent :
      (q : OfflineQueue) (server : Option W)
      → Distinct q.queue
      → ((w : W) → server ≡ some w → net.has_face face_id w ≡ false)
      → ((drain net name face_id q server).1 ≡ server)
        × ((drain net name face_id q server).2 ≡ 0)
        × ((other : Name) → items other (drain net name face_id q server).0 ≡ items other q)
  unfolding drain drain_items
  drain-absent q server h gone = go (items name q) refl server gone
    where
      back :
          (xs : List Item)
          → items name q ≡ xs
          → (other : Name) → items other (put_back name xs q) ≡ items other q
      back xs e other = ground (
        arith,
        name_beq_iff name other,
        get-put name other xs (erase name q.queue),
        get-erase name other q.queue h,
      )

      nothing : items name q ≡ [] → (other : Name) → items other (popped name q) ≡ items other q
      nothing e other = ground (arith, name_beq_iff name other, get-erase name other q.queue h)

      go :
          (xs : List Item)
          → items name q ≡ xs
          → (server : Option W) → ((w : W) → server ≡ some w → net.has_face face_id w ≡ false)
          → ((drain_items net name face_id xs q server).1 ≡ server)
            × ((drain_items net name face_id xs q server).2 ≡ 0)
            × ((other : Name)
                → items other (drain_items net name face_id xs q server).0 ≡ items other q)
      go [] e server gone = (refl, refl, nothing e)
      go (x ∷ xs) e none gone = (refl, refl, back (x ∷ xs) e)
      go (x ∷ xs) e (some w) gone = rw (gone w refl) (refl, refl, back (x ∷ xs) e)
