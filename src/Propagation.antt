-- ===== src/Propagation.antt =====
-- rns_icn/propagation.py: the peers of a server and the replication of Data to them. The faces of
-- the server are a `Network`, as in rns_icn/offline_queue.py, and the server is there. What a peer's
-- manifest lists is an argument, and so is whether a face is there for an APS subscription.
pub mod Peers
mod Runs
use rns_icn.Prelude.{ℕ, ◌+◌, ◌&&◌, Bool, true, false, not, Option, none, some, is_some}
use rns_icn.Prelude.{
  List, [], ◌∷◌, ◌++◌, map, length, filter, any, replicate, ◌==◌, nat_eq, option_eq, if◌then◌else◌,
}
use rns_icn.Prelude.{Dict, get, put, erase}
use rns_icn.Wire.{Error, Result, ok, raise, ◌>>=◌, propagation_error}
use rns_icn.Name
use rns_icn.Name.{Name, name_eq, without_content_hash}
use rns_icn.Packet.Data.{Data}
use rns_icn.Packet.Subscribe
use rns_icn.Packet.Peers.{PropPeer}
use rns_icn.Pit.{FaceId}
use rns_icn.OfflineQueue.{Network}
use rns_icn.Forwarder.{Forwarder, add_route}
use rns_icn.Forwarder.Receive.{receive_data}

-- the two sets are lists of distinct elements
pub record Propagation : Type 0 where
  pub peers : Dict FaceId (List ℕ)
  pub synced_producers : List Name
  pub downstream_peers : List FaceId

abbrev pub empty : Propagation
empty = record { peers = []; synced_producers = []; downstream_peers = [] }

unfoldable pub add_peer : FaceId → List ℕ → Propagation → Propagation
add_peer face rns_addr p = record p { peers = put face rns_addr p.peers }

-- `Name(addr)`
abbrev pub root_name : List ℕ → Result Name
root_name addr = Name.new addr [] none

-- `_producer_name_for_face`
unfoldable pub producer_name_for_face : FaceId → Propagation → Result Name
unfolding Name.new
producer_name_for_face face p = elim (get face p.peers) [
  | none ↦ root_name (replicate 16 0)
  | some addr ↦ root_name addr
]

abbrev pub discard_face : FaceId → List FaceId → List FaceId
discard_face face = filter (λ f. not (f == face))

-- The name of the producer is computed when the peer is gone already.
unfoldable pub remove_peer : FaceId → Propagation → Result Propagation
unfolding producer_name_for_face
remove_peer face p = do
  let left = record p {
    peers = erase face p.peers;
    downstream_peers = discard_face face p.downstream_peers;
  }
  producer ← producer_name_for_face face left
  ok (record left { synced_producers = filter (λ n. not (n == producer)) left.synced_producers })

unfoldable pub is_peer : FaceId → Propagation → Bool
is_peer face p = is_some (get face p.peers)

abbrev pub peer_count : Propagation → ℕ
peer_count p = length p.peers

unfoldable pub root_names : List (FaceId × List ℕ) → Result (List Name)
unfolding Name.new
root_names [] = ok []
root_names ((face, addr) ∷ peers) = do
  name ← root_name addr
  names ← root_names peers
  ok (name ∷ names)

abbrev pub peer_prefixes : Propagation → Result (List Name)
peer_prefixes p = root_names p.peers

-- `face in self._downstream_peers`
unfoldable pub is_downstream : FaceId → Propagation → Bool
is_downstream face p = any (λ f. f == face) p.downstream_peers

unfoldable pub mark_downstream : FaceId → Propagation → Propagation
unfolding is_peer is_downstream
mark_downstream face p =
    if is_peer face p && not (is_downstream face p)
    then record p { downstream_peers = p.downstream_peers ++ (face ∷ []) }
    else p

unfoldable pub mark_upstream : FaceId → Propagation → Propagation
mark_upstream face p = record p { downstream_peers = discard_face face p.downstream_peers }

-- the loop of `propagate` over the faces of the peers: the world, and the number forwarded to
unfoldable pub propagate_to :
    {W : Type 0} → Network W → Data → Option FaceId → List FaceId → W → W × ℕ
propagate_to net d exclude_face [] w = (w, 0)
propagate_to net d exclude_face (face ∷ faces) w =
    let skipped = propagate_to net d exclude_face faces in
    let r = net.send_data face d w in
    if some face == exclude_face
    then skipped w
    else if net.has_face face w
    then (let (v, forwarded) = skipped (r.0) in (v, (if r.1 then 1 else 0) + forwarded))
    else skipped w

unfoldable pub propagate : {W : Type 0} → Network W → Data → Option FaceId → Propagation → W → W × ℕ
unfolding propagate_to
propagate net d exclude_face p w = propagate_to net d exclude_face (map (λ x. x.0) p.peers) w

-- the loop of `sync_from_peer` over the entries, for a face that is there: the packets sent, and
-- the number of subscriptions
unfoldable pub subscribe_all : List Name → List (List ℕ) × Result ℕ
unfolding Subscribe.to_bytes
subscribe_all [] = ([], ok 0)
subscribe_all (name ∷ names) =
    let rest = subscribe_all names in
    elim (Subscribe.to_bytes
      (record { name = without_content_hash name; start_from_now = false })) [
        | ok bytes ↦ (bytes ∷ rest.0, rest.1 >>= (λ n. ok (1 + n)))
        | raise e ↦ ([], raise e)
      ]

unfoldable pub mark_synced : Name → Propagation → Propagation
mark_synced producer p =
    if any (λ n. n == producer) p.synced_producers
    then p
    else record p { synced_producers = p.synced_producers ++ (producer ∷ []) }

-- `sync_from_peer`: the packets sent to the face if it is there, and the number subscribed to;
-- `manifest` is none where the manifest cannot be fetched or parsed
unfoldable pub sync_from_peer :
    Bool → Option (List Name) → FaceId → Propagation → Propagation × List (List ℕ) × Result ℕ
unfolding subscribe_all mark_synced Name.new
sync_from_peer has_face manifest face p = elim (get face p.peers) [
  | none ↦ (p, [], raise propagation_error)
  | some addr ↦ elim (root_name addr) [
    | raise e ↦ (p, [], raise e)
    | ok producer ↦ elim manifest [
      | none ↦ (mark_synced producer p, [], ok 0)
      | some names ↦
          let subscribed = subscribe_all names in
          if has_face
          then (mark_synced producer p, subscribed.0, subscribed.1)
          else (mark_synced producer p, [], ok (length names))
    ]
  ]
]

-- the head of `handle_peer_handshake`: the peer, and the route to its names
unfoldable pub register_handshake :
    PropPeer → FaceId → Propagation → Forwarder → Propagation × Result Forwarder
unfolding add_peer add_route Name.new
register_handshake peer face p f = (
  add_peer face peer.rns_addr p,
  root_name peer.rns_addr >>= (λ prefix. ok (add_route prefix face 20 f)),
)

-- `handle_peer_data`: received as solicited, and sent on unless that raises
unfoldable pub handle_peer_data :
    {W : Type 0}
    → (List ℕ → List ℕ)
    → (List ℕ → Option (List ℕ))
    → Network W
    → ℕ
    → Data
    → FaceId
    → Propagation
    → Forwarder
    → W
    → Forwarder × Result (W × ℕ)
unfolding receive_data propagate
handle_peer_data blake2b decode net clock d in_face p f w =
    let (g, failed) = receive_data blake2b decode clock d true f in
    (g, elim failed [ some e ↦ raise e | none ↦ ok (propagate net d (some in_face) p w) ])
