-- ===== src/Client/Runs.antt =====
-- Concrete runs of the client, with ciphers that do nothing and a producer whose key is known.
use rns_icn.Prelude.{
  ℕ, zero, suc, ◌+◌, ◌≤◌, ◌≡◌, refl, true, false, Bool, Option, none, some, arith,
}
use rns_icn.Prelude.{List, [], ◌∷◌, length, replicate}
use rns_icn.Wire.{ok}
use rns_icn.Name
use rns_icn.Packet.Data.{Data}
use rns_icn.Packet.Data.Envelope.{freshness_key}
use rns_icn.Access.{Crypto}
use rns_icn.Forwarder.Streams.{Ascending}
use rns_icn.Client.{
  Client, Answer, answered, times_out, Request, exact_request, check_rollback, key_lt,
  fetch_verified,
}
use rns_icn.Client.Accepted.{Fetched, fetch_verified-Fetched}
use rns_icn.Client.Rollback.{Ends, fetch_verified-Ends, session, check_rollback-session}
use rns_icn.Client.Ranges.{fetch_range, fetch_range-Ascending}
use rns_icn.Samples.{alice, content}

abbrev crypto : Crypto ℕ
crypto = record {
  identity_hash = λ i. replicate 16 i;
  private_key = λ i. some (i ∷ []);
  encrypt_to = λ i m. m;
  decrypt_by = λ i m. some m;
  token_encrypt = λ k m. m;
  token_decrypt = λ k m. some m;
  blake2b = λ m. replicate 32 (length m);
  blake2b_64 = λ m. m;
  blake2b_keyed = λ k m. replicate 32 3;
}

abbrev recall : List ℕ → Option (List ℕ → List ℕ → Bool)
recall addr = some (λ sig hash. true)

abbrev client : Client ℕ
client = record {
  require_signature = true;
  reject_rollback = true;
  max_retries = 2;
  base_retry_delay = 500;
  max_retry_delay = 10000;
  identity = 5;
  seen_signed_key = [];
  capability_store = [];
  subscriptions = [];
}

abbrev plain : Data
plain = record content {
  metadata = record (content.metadata) { content_hash = some (replicate 32 3); encrypted = false };
}

-- the first attempt times out, the others are answered
abbrev ask : ℕ → Answer
ask zero = times_out
ask (suc k) = answered (some plain)

abbrev request : Request
request = exact_request crypto recall alice client

fetch_verified-Fetched_example :
    Fetched crypto recall 1000 request ask 0 3 client
      (fetch_verified crypto recall 1000 request ask client)
fetch_verified-Fetched_example = fetch_verified-Fetched crypto recall 1000 request ask client

fetch_verified-Ends_example :
    Ends crypto recall 2 client (fetch_verified crypto recall 1000 request ask client)
fetch_verified-Ends_example = fetch_verified-Ends crypto recall 1000 request ask client

abbrev older : Data
older = record plain { metadata = record (plain.metadata) { signed_at = some 900 } }

-- alice on the wire
abbrev alice_bytes : List ℕ
alice_bytes = 2 ∷ 16 ∷ 7 ∷ 7 ∷ 7 ∷ 7 ∷ 7 ∷ 7 ∷ 7 ∷ 7 ∷ 7 ∷ 7 ∷ 7 ∷ 7 ∷ 7 ∷ 7 ∷ 7 ∷ 7 ∷ 1 ∷ 97 ∷ []

abbrev known : Client ℕ
known = record client { seen_signed_key = (alice_bytes, (1000, 6)) ∷ [] }

check_rollback-session_example :
    check_rollback older (session crypto recall ((2000, request, ask) ∷ []) known)
    ≡ ok (session crypto recall ((2000, request, ask) ∷ []) known, false)
unfolding check_rollback Name.to_bytes freshness_key key_lt rns_icn.Prelude.get rns_icn.Prelude.put
check_rollback-session_example =
    check_rollback-session crypto recall ((2000, request, ask) ∷ []) client known plain older
      alice_bytes (1000, 6) (900, 6) refl refl refl refl refl refl refl

fetch_range-Ascending_example :
    (length (fetch_range crypto recall 1000 2 alice (λ k q. ask) 4 client).1 ≤ 2)
    × Ascending 4 (fetch_range crypto recall 1000 2 alice (λ k q. ask) 4 client).1
fetch_range-Ascending_example =
    fetch_range-Ascending crypto recall 1000 2 alice (λ k q. ask) 4 client
