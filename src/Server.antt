-- ===== src/Server.antt =====
-- rns_icn/server.py: what a server answers from its cache, and the purges that it takes and makes.
-- What its faces are sent is kept in `sent`, and the cache is the forwarder's. `signer` and
-- `verifier` are none where the server has none. An exception of the network is not modelled.
pub mod Purges
pub mod Serving
mod Runs
use rns_icn.Prelude.{ℕ, ◌&&◌, Bool, true, false, not, Option, none, some, is_some}
use rns_icn.Prelude.{
  List, [], ◌∷◌, ◌++◌, map, filter, leb, ◌==◌, nat_eq, list_eq, option_eq, if◌then◌else◌,
}
use rns_icn.Prelude.{Dict, get, put}
use rns_icn.Wire.{Error, runtime_error, Result, ok, raise, ◌>>=◌}
use rns_icn.Name.{Name, name_eq, rns_addr}
use rns_icn.Packet.Interest.{Interest}
use rns_icn.Packet.Data.{Data}
use rns_icn.Packet.Data.Envelope.{sign}
use rns_icn.Packet.Invalidate
use rns_icn.Packet.Invalidate.{Invalidate, sign_purge}
use rns_icn.Pit.{FaceId}
use rns_icn.ContentStore.{ContentStore}
use rns_icn.ContentStore.Operations
use rns_icn.ContentStore.Operations.{name_hash, lookup_name, get_prefix}
use rns_icn.Forwarder.{off_floor, child_of, floor_of}

pub record Server : Type 0 where
  pub rns_addr : List ℕ
  pub cs : ContentStore
  pub faces : List FaceId
  pub next_face_id : FaceId
  pub seen_invalidations : Dict (List ℕ) ℕ
  pub sent : List (FaceId × List ℕ)

-- `face.send_raw` to each of the faces
unfoldable pub send_to : List FaceId → List ℕ → Server → Server
send_to faces raw s = record s { sent = s.sent ++ map (λ f. (f, raw)) faces }

-- `_invalidation_verifier is not None and _invalidation_verifier(inv)`
unfoldable pub passes : Option (Invalidate → Bool) → Invalidate → Bool
passes verifier i = elim verifier [ none ↦ false | some verify ↦ verify i ]

-- "seen is not None and inv.epoch <= seen"
unfoldable pub is_replay : ℕ → Option ℕ → Bool
is_replay epoch none = false
is_replay epoch (some seen) = leb epoch seen

-- "name.rns_addr == self.rns_addr"
unfoldable pub is_own : List ℕ → Name → Result Bool
unfolding rns_addr
is_own addr name = do own ← rns_addr name; ok (own == addr)

-- the sequence-walk rule: what is off the floor is served by its producer only
unfoldable pub own_or_on_floor : List ℕ → Interest → Option Data → Result (Option Data)
unfolding off_floor is_own
own_or_on_floor addr i none = ok none
own_or_on_floor addr i (some d) =
    if off_floor i.selector d
    then (is_own addr i.name >>= (λ own. ok (if own then some d else none)))
    else ok (some d)

-- `must_be_fresh`: what is not fresh is served by its producer only
unfoldable pub own_or_fresh : List ℕ → Interest → Option Data → Result (Option Data)
unfolding is_own
own_or_fresh addr i none = ok none
own_or_fresh addr i (some d) =
    if i.must_be_fresh && not d.metadata.freshness.fresh
    then (is_own addr i.name >>= (λ own. ok (if own then some d else none)))
    else ok (some d)

module _ (blake2b : List ℕ → List ℕ) where
  -- `_invalidation_is_fresh`
  unfoldable pub invalidation_is_fresh : Invalidate → Server → Result (Server × Bool)
  unfolding name_hash is_replay
  invalidation_is_fresh i s = do
    key ← name_hash blake2b i.name
    if is_replay i.epoch (get key s.seen_invalidations)
        then ok (s, false)
        else ok (record s { seen_invalidations = put key i.epoch s.seen_invalidations }, true)

  -- the purge of the cache, and the packet to the faces
  unfoldable pub purge_and_send : Invalidate → List FaceId → Server → Server × Option Error
  unfolding Operations.invalidate Invalidate.to_bytes send_to
  purge_and_send i faces s = elim (Operations.invalidate blake2b i.name i.is_prefix s.cs) [
    | raise e ↦ (s, some e)
    | ok (cs', removed) ↦ elim (Invalidate.to_bytes i) [
      | raise e ↦ (record s { cs = cs' }, some e)
      | ok raw ↦ (send_to faces raw (record s { cs = cs' }), none)
    ]
  ]

  -- what `handle_invalidate` does with a purge that is verified
  unfoldable pub take_verified : Invalidate → FaceId → Server → Server × Option Error
  unfolding invalidation_is_fresh purge_and_send
  take_verified i face s = elim (invalidation_is_fresh i s) [
    | raise e ↦ (s, some e)
    | ok (t, fresh) ↦
        if fresh then purge_and_send i (filter (λ f. not (f == face)) t.faces) t else (t, none)
  ]

  unfoldable pub handle_invalidate :
      Option (Invalidate → Bool) → Invalidate → FaceId → Server → Server × Option Error
  unfolding passes take_verified
  handle_invalidate verifier i face s =
      if passes verifier i then take_verified i face s else (s, none)

  -- what `invalidate` does with the signed purge; the answer of the guard is not looked at
  unfoldable pub purge_own : Invalidate → Server → Server × Option Error
  unfolding invalidation_is_fresh purge_and_send
  purge_own i s = elim (invalidation_is_fresh i s) [
    | raise e ↦ (s, some e)
    | ok (t, fresh) ↦ purge_and_send i t.faces t
  ]

  unfoldable pub invalidate :
      Option (List ℕ → List ℕ) → ℕ → Name → Bool → Server → Server × Option Error
  unfolding sign_purge purge_own
  invalidate signer now name prefix s = elim signer [
    | none ↦ (s, some runtime_error)
    | some sig ↦
        let unsigned : Invalidate = record {
          name = name;
          epoch = now;
          is_prefix = prefix;
          signature = none;
        } in
        elim (sign_purge blake2b sig unsigned) [ raise e ↦ (s, some e) | ok i ↦ purge_own i s ]
  ]

  -- `_maybe_sign`, at the time `now`
  unfoldable pub maybe_sign : Option (List ℕ → List ℕ) → ℕ → List ℕ → Data → Result Data
  unfolding sign is_own
  maybe_sign signer now addr d = elim signer [
    | none ↦ ok d
    | some sig ↦
        if is_some d.signature
        then ok d
        else (is_own addr d.name >>= (λ own. if own then sign blake2b sig d none now else ok d))
  ]

  abbrev pub maybe_sign_hit :
      Option (List ℕ → List ℕ) → ℕ → List ℕ → Option Data → Result (Option Data)
  maybe_sign_hit signer now addr found = elim found [
    | none ↦ ok none
    | some d ↦ maybe_sign signer now addr d >>= (λ d'. ok (some d'))
  ]

  unfoldable pub cs_lookup :
      Option (List ℕ → List ℕ) → ℕ → Interest → Server → Result (Server × Option Data)
  unfolding lookup_name get_prefix own_or_on_floor maybe_sign
  cs_lookup signer now i s =
      if i.can_be_prefix
      then (get_prefix blake2b now i.name (child_of i.selector) (floor_of i.selector) s.cs
          >>= (λ (cs', found). maybe_sign_hit signer now s.rns_addr found >>= (λ signed.
              own_or_on_floor s.rns_addr i signed >>= (λ hit. ok (record s { cs = cs' }, hit)))))
      else (lookup_name blake2b now i.name s.cs >>= (λ (cs', found).
          maybe_sign_hit signer now s.rns_addr found >>= (λ hit. ok (record s { cs = cs' }, hit))))

  -- `_serve_from_cs`
  unfoldable pub serve_from_cs :
      Option (List ℕ → List ℕ) → ℕ → Interest → Server → Result (Server × Option Data)
  unfolding cs_lookup own_or_fresh
  serve_from_cs signer now i s =
      cs_lookup signer now i s
      >>= (λ (t, found). own_or_fresh s.rns_addr i found >>= (λ hit. ok (t, hit)))
