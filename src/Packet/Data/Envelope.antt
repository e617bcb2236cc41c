-- ===== src/Packet/Data/Envelope.antt =====
-- The signed envelope of `Data`: `signed_hash`, `sign`, `verify_signature`, `freshness_key` and
-- `verify_content_hash`. BLAKE2b, the signer and the validator are arguments. What is fed to the
-- hash piece by piece is one byte string.
pub mod Binding
pub mod Forgery
pub mod Signing
use rns_icn.Prelude.{ℕ, ◌≡◌, Bool, true, false, Option, none, some}
use rns_icn.Prelude.{List, [], ◌∷◌, ◌++◌, length, ◌==◌, nat_eq, list_eq, if◌then◌else◌}
use rns_icn.Wire.{Result, ok, raise, ◌>>=◌, data_error, pack, write_opt}
use rns_icn.Name
use rns_icn.Name.{Name}
use rns_icn.Packet.Metadata.{DataMetadata}
use rns_icn.Packet.Data.{Data, signature_bytes}

-- b"icn-data\x01"
abbrev pub data_domain : List ℕ
data_domain = b'i' ∷ b'c' ∷ b'n' ∷ b'-' ∷ b'd' ∷ b'a' ∷ b't' ∷ b'a' ∷ 1 ∷ []

-- a one-byte tag and a 64-bit number
unfoldable pub tagged : ℕ → ℕ → Result (List ℕ)
unfolding pack
tagged tag v = do w ← pack 8 v; ok (tag ∷ w)

unfoldable pub encrypted_tag : Bool → List ℕ
encrypted_tag false = []
encrypted_tag true = 0x03 ∷ 0x01 ∷ []

-- the tagged fields at the end of the envelope
unfoldable pub signed_fields : DataMetadata → Result (List ℕ)
unfolding tagged write_opt encrypted_tag
signed_fields m = do
  sequence ← write_opt (tagged 0x01) m.sequence
  signed_at ← write_opt (tagged 0x02) m.signed_at
  ok (sequence ++ (signed_at ++ encrypted_tag m.encrypted))

abbrev pub hash_bytes : Option (List ℕ) → List ℕ
hash_bytes none = []
hash_bytes (some h) = h

-- what `signed_hash` feeds to BLAKE2b
unfoldable pub signed_bytes : Data → Result (List ℕ)
unfolding Name.to_bytes signed_fields
signed_bytes d = do
  name ← Name.to_bytes d.name
  fields ← signed_fields d.metadata
  ok (data_domain ++ (name ++ (d.content ++ (hash_bytes d.metadata.content_hash ++ fields))))

module _ (blake2b : List ℕ → List ℕ) where
  unfoldable pub signed_hash : Data → Result (List ℕ)
  unfolding signed_bytes
  signed_hash d = do bytes ← signed_bytes d; ok (blake2b bytes)

  -- `Data.new`
  unfoldable pub new : Name → List ℕ → Data
  new name content = record {
    name = name;
    content = content;
    signature = none;
    metadata = record {
      content_hash = some (blake2b content);
      sequence = none;
      freshness = record { fresh = true; age_seconds = 0 };
      freshness_period = none;
      signed_at = none;
      encrypted = false;
    };
  }

  unfoldable pub verify_content_hash : Data → Bool
  verify_content_hash d = elim d.metadata.content_hash [
    | none ↦ true
    | some h ↦ blake2b d.content == h
  ]

  -- `verify_signature`: False without a signature
  unfoldable pub verify_signature : (List ℕ → List ℕ → Bool) → Data → Result Bool
  unfolding signed_hash
  verify_signature validator d = elim d.signature [
    | none ↦ ok false
    | some sig ↦ do h ← signed_hash d; ok (validator sig h)
  ]

-- the time that `sign` stamps: one that is set stays, then the argument, then the clock
unfoldable pub stamp : Option ℕ → Option ℕ → ℕ → ℕ
stamp (some t) arg now = t
stamp none (some t) now = t
stamp none none now = now

unfoldable pub stamped : Data → Option ℕ → ℕ → Data
unfolding stamp
stamped d signed_at now = record d {
  metadata = record (d.metadata) { signed_at = some (stamp d.metadata.signed_at signed_at now) };
}

unfoldable pub sign : (List ℕ → List ℕ) → (List ℕ → List ℕ) → Data → Option ℕ → ℕ → Result Data
unfolding signed_hash stamped
sign blake2b signer d signed_at now = do
  let d' = stamped d signed_at now
  h ← signed_hash blake2b d'
  let sig = signer h
  if length sig == signature_bytes
      then ok (record d' { signature = some sig })
      else raise data_error

-- `value or 0`
abbrev pub or_zero : Option ℕ → ℕ
or_zero none = 0
or_zero (some v) = v

unfoldable pub key_of : Option ℕ → Option ℕ → Option (ℕ × ℕ)
key_of none none = none
key_of none (some seq) = some (0, seq)
key_of (some at) seq = some (at, or_zero seq)

unfoldable pub freshness_key : Data → Option (ℕ × ℕ)
unfolding key_of
freshness_key d = elim d.signature [
  | none ↦ none
  | some _ ↦ key_of d.metadata.signed_at d.metadata.sequence
]
