-- ===== src/Server/Runs.antt =====
-- Concrete runs on the purges of a server, with a hash that gives the length of a list.
use rns_icn.Prelude.{ℕ, ◌≡◌, refl, Bool, true, false, Option, none, some, is_some, arith}
use rns_icn.Prelude.{List, [], ◌∷◌, length, replicate}
use rns_icn.Name
use rns_icn.Packet.Invalidate.{Invalidate}
use rns_icn.Prelude.{get}
use rns_icn.ContentStore.{new}
use rns_icn.ContentStore.Operations.{name_hash}
use rns_icn.Server.{Server, passes, handle_invalidate}
use rns_icn.Server.Purges.{takes, makes, run, handle_invalidate-replay}
use rns_icn.Packet.Interest.{Interest}
use rns_icn.ContentStore.Capacity.{inserts}
use rns_icn.ContentStore.Capacity
use rns_icn.Server.{is_own, serve_from_cs}
use rns_icn.Name.{rns_addr}
use rns_icn.Wire.{IfOk}
use rns_icn.Server.Serving.{IsFresh, IsOnFloor, serve_from_cs-IsFresh}
use rns_icn.Samples.{interest, content, addr, alice, root}

abbrev hash : List ℕ → List ℕ
hash bs = length bs ∷ []

abbrev server : Server
server = record {
  rns_addr = addr;
  cs = new 2 none [];
  faces = 100 ∷ 101 ∷ [];
  next_face_id = 102;
  seen_invalidations = [];
  sent = [];
}

abbrev purge : ℕ → Invalidate
purge epoch = record {
  name = alice;
  epoch = epoch;
  is_prefix = false;
  signature = some (replicate 64 1);
}

abbrev signed_only : Option (Invalidate → Bool)
signed_only = some (λ i. is_some i.signature)

abbrev after : Server
after =
    run hash signed_only (some (λ h. replicate 64 2))
      (takes (purge 9) 101 ∷ makes 12 root true ∷ [])
      (handle_invalidate hash signed_only (purge 7) 100 server).0

-- The purge is sent on to the other face.
handle_invalidate-sent : length (handle_invalidate hash signed_only (purge 7) 100 server).0.sent ≡ 1
unfolding handle_invalidate get
handle_invalidate-sent = refl

handle_invalidate-replay_example :
    handle_invalidate hash signed_only (purge 6) 101 after ≡ (after, none)
unfolding passes name_hash Name.to_bytes
handle_invalidate-replay_example =
    handle_invalidate-replay hash signed_only (some (λ h. replicate 64 2)) (20 ∷ []) (purge 7)
      (purge 6) 100 101 (takes (purge 9) 101 ∷ makes 12 root true ∷ []) server refl refl refl
      (omega arith)

-- A cache of another address that holds the Data that is asked for.
abbrev cache : Server
cache = record server {
  rns_addr = replicate 16 9;
  cs = Capacity.run hash (λ bs. some bs) (inserts 5 alice content ∷ []) (new 2 none []);
}

abbrev fresh_interest : Interest
fresh_interest = record interest { must_be_fresh = true }

serve_from_cs-IsFresh_example :
    IfOk
      (λ r. IsFresh fresh_interest r.1 × IsOnFloor fresh_interest r.1)
      (serve_from_cs hash none 6 fresh_interest cache)
unfolding is_own rns_addr
serve_from_cs-IsFresh_example = serve_from_cs-IsFresh hash none 6 fresh_interest cache refl
