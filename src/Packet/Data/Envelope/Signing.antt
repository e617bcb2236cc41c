-- ===== src/Packet/Data/Envelope/Signing.antt =====
-- What `sign` produces.
use rns_icn.Prelude.{ℕ, ◌≡◌, ◌≢◌, refl, Bool, true, Option, some, arith}
use rns_icn.Prelude.{List, length, nat_eq}
use rns_icn.Wire.{ok, raise, data_error}
use rns_icn.Packet.Data.{Data, signature_bytes}
use rns_icn.Packet.Data.Envelope.{
  signed_bytes, signed_hash, stamped, stamp, sign, verify_signature, freshness_key, or_zero,
}

signed_hash-signature :
    (blake2b : List ℕ → List ℕ) (d : Data) (s : Option (List ℕ))
    → signed_hash blake2b (record d { signature = s }) ≡ signed_hash blake2b d
unfolding signed_hash signed_bytes
signed_hash-signature blake2b d s = refl

-- Let the validator accept whatever the signer signs. If the packet can be hashed and the signer
-- returns 64 bytes, then `sign` succeeds, the packet that it returns verifies, and its freshness
-- key is the time that was stamped (one that was set stays) with the sequence number, 0 if it has
-- none.
pub verify_signature-sign :
    (blake2b signer : List ℕ → List ℕ) (validator : List ℕ → List ℕ → Bool)
    → ((m : List ℕ) → validator (signer m) m ≡ true)
    → (d : Data) (arg : Option ℕ) (now : ℕ) {h : List ℕ}
    → signed_hash blake2b (stamped d arg now) ≡ ok h
    → length (signer h) ≡ signature_bytes
    → (s : Data) × (sign blake2b signer d arg now ≡ ok s)
      × (verify_signature blake2b validator s ≡ ok true)
      × (freshness_key s ≡ some (stamp d.metadata.signed_at arg now, or_zero d.metadata.sequence))
unfolding sign verify_signature freshness_key
verify_signature-sign blake2b signer validator accepts d arg now {h} hashed size = (
  record (stamped d arg now) { signature = some (signer h) },
  rw (hashed, size),
  rw (signed_hash-signature blake2b (stamped d arg now) (some (signer h)), hashed, accepts h),
  refl,
)

-- A signer that returns another number of bytes makes `sign` raise DataError.
pub sign-raise :
    (blake2b signer : List ℕ → List ℕ) (d : Data) (arg : Option ℕ) (now : ℕ) {h : List ℕ}
    → signed_hash blake2b (stamped d arg now) ≡ ok h
    → length (signer h) ≢ signature_bytes
    → sign blake2b signer d arg now ≡ raise data_error
unfolding sign
sign-raise blake2b signer d arg now {h} hashed size = rw hashed (ground arith)
