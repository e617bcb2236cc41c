-- ===== src/Access/Runs.antt =====
-- Concrete runs on access control, with ciphers that do nothing and two identities.
use rns_icn.Prelude.{ℕ, ◌≡◌, refl, true, some, arith}
use rns_icn.Prelude.{List, [], ◌∷◌, length, replicate, nat_eq, list_eq}
use rns_icn.Wire.{ok}
use rns_icn.Name
use rns_icn.Name.{Name, IsWire, rns_addr, name_eq, starts_with}
use rns_icn.Access
use rns_icn.Access.{
  Crypto, Capability, signed_bytes, to_bytes, from_bytes, covers, unwrap, decrypt_content,
  derive_cek,
}
use rns_icn.Access.Control.{
  AccessRule, AccessController, allows, matching_rule, rule_for, publish_content, issue_capability,
}
use rns_icn.Access.RoundTrip.{
  Fits, unsigned, from_bytes-to_bytes_capability, signed_bytes-injective,
}
use rns_icn.Access.Delivery.{granted, decrypt_content-publish_content}
use rns_icn.Samples.{addr, alice, alice_b, alice-IsWire}

abbrev crypto : Crypto ℕ
crypto = record {
  identity_hash = λ i. replicate 16 i;
  private_key = λ i. some (i ∷ []);
  encrypt_to = λ i m. m;
  decrypt_by = λ i m. some m;
  token_encrypt = λ k m. m;
  token_decrypt = λ k m. some m;
  blake2b = λ m. replicate 32 (length m);
  blake2b_64 = λ m. m;
  blake2b_keyed = λ k m. replicate 32 3;
}

abbrev rule : AccessRule
rule = record { prefix = alice; consumers = replicate 16 5 ∷ [] }

abbrev controller : AccessController ℕ
controller = record { identity = 7; producer_addr = addr; rules = rule ∷ [] }

abbrev cap : Capability
cap = granted crypto addr alice 5 (replicate 32 3) 60 1000

cap-Fits : Fits cap
cap-Fits = record {
  producer_size = refl;
  consumer_size = refl;
  prefix_fits = alice-IsWire;
  wrapped_size = omega arith;
  issued_fits = omega arith;
  expires_fits = omega arith;
}

from_bytes-to_bytes_capability_example :
    (bs : List ℕ) × (to_bytes cap ≡ ok bs) × (from_bytes bs ≡ ok cap)
unfolding rns_addr
from_bytes-to_bytes_capability_example = from_bytes-to_bytes_capability cap cap-Fits tt refl

signed_bytes-injective_example : unsigned cap ≡ unsigned (record cap { signature = some [] })
signed_bytes-injective_example =
    signed_bytes-injective cap (record cap { signature = some [] }) cap-Fits
      (record {
        producer_size = refl;
        consumer_size = refl;
        prefix_fits = alice-IsWire;
        wrapped_size = omega arith;
        issued_fits = omega arith;
        expires_fits = omega arith;
      })
      (unfold signed_bytes Access.body in refl)

derived : derive_cek crypto 7 alice ≡ ok (replicate 32 3)
unfolding derive_cek Name.to_bytes
derived = refl

decrypt_content-publish_content_example :
    (c : Capability) × (issue_capability crypto controller alice 5 (λ m. replicate 64 1) 60 1000
      ≡ ok c)
    × (covers alice_b 1000 c ≡ true)
    × (content : List ℕ) × (publish_content crypto controller alice_b (1 ∷ 2 ∷ [])
        ≡ ok (content, true))
    × (key : List ℕ) × (unwrap crypto 5 c ≡ ok key)
    × (decrypt_content crypto content key ≡ ok (1 ∷ 2 ∷ []))
decrypt_content-publish_content_example =
    decrypt_content-publish_content crypto (λ k m. refl) (λ i m. refl) (λ k m. refl) controller rule
      alice_b 5 (λ m. replicate 64 1) (1 ∷ 2 ∷ []) 60 1000 (replicate 32 3)
      (unfold matching_rule in refl) (unfold rule_for in refl) (unfold allows in refl) derived
      cap-Fits (unfold rns_addr in refl) (λ m. refl)
