-- ===== src/Samples.antt =====
-- Small concrete values for the runs.
use rns_icn.Prelude.{ℕ, List, [], ◌∷◌, replicate, none, some, true, false}
use rns_icn.Name.{Name, IsWire}
use rns_icn.Packet.Metadata.{DataMetadata}
use rns_icn.Packet.Data.{Data}
use rns_icn.Packet.Interest.{Interest}
use rns_icn.Packet.Selector.{latest}
use rns_icn.Prelude.{nat_beq}
use rns_icn.Pit.{FaceId, contains}
use rns_icn.OfflineQueue.{Network}
use native.Mathlib.Omega.{arith}

abbrev pub addr : List ℕ
addr = replicate 16 7

-- /<addr>/a and /<addr>/a/b
abbrev pub alice : Name
alice = record { components = addr ∷ (b'a' ∷ []) ∷ []; content_hash = none }

abbrev pub alice_b : Name
alice_b = record { components = addr ∷ (b'a' ∷ []) ∷ (b'b' ∷ []) ∷ []; content_hash = none }

abbrev pub root : Name
root = record { components = addr ∷ []; content_hash = none }

pub alice-IsWire : IsWire alice
alice-IsWire = record {
  some_component = omega arith;
  few_components = omega arith;
  short_components = omega arith;
  hash_size = tt;
}

abbrev pub interest : Interest
interest = record {
  name = alice;
  nonce = replicate 8 9;
  lifetime_ms = 4000;
  can_be_prefix = true;
  must_be_fresh = false;
  selector = some (record { min_sequence = some 5; child = latest });
  hop_limit = 16;
}

abbrev pub metadata : DataMetadata
metadata = record {
  content_hash = some (replicate 32 1);
  sequence = some 6;
  freshness = record { fresh = false; age_seconds = 30 };
  freshness_period = some 60;
  signed_at = some 1000;
  encrypted = true;
}

abbrev pub content : Data
content = record {
  name = alice;
  content = 1 ∷ 2 ∷ 3 ∷ [];
  signature = some (replicate 64 2);
  metadata = metadata;
}

-- A server whose state is the list of its faces; what is sent to face 2 raises.
abbrev pub two_faces : Network (List FaceId)
two_faces = record { has_face = λ f w. contains w f; send_data = λ f packet w. (w, nat_beq f 1) }
