-- ===== src/Packet/Data/Envelope/Forgery.antt =====
-- What a signature over Data is worth: two envelopes that verify under one signature.
use rns_icn.Prelude.{ℕ, ◌≡◌, ◌≢◌, refl, ◌⊎◌, Bool, true, false, Option, none, some, arith}
use rns_icn.Prelude.{List, ◌==◌, nat_eq, list_eq, Bool-cases, inl, inr, eq_of_beq, ne_of_beq}
use rns_icn.Wire.{Result, ok, raise, ◌>>=◌}
use rns_icn.Name
use rns_icn.Packet.Data.{Data}
use rns_icn.Packet.Data.Envelope.{signed_bytes, signed_hash, verify_signature}
use rns_icn.Packet.Data.Envelope.Binding.{ok-injective}

-- Two envelopes differ, and the hash takes them to the same digest.
pub record Collision (blake2b : List ℕ → List ℕ) (e f : Result (List ℕ)) : Type 0 where
  pub one : List ℕ
  pub other : List ℕ
  pub first : e ≡ ok one
  pub second : f ≡ ok other
  pub differ : one ≢ other
  pub same : blake2b one ≡ blake2b other

module _ (blake2b : List ℕ → List ℕ) (validator : List ℕ → List ℕ → Bool) where
  -- the signature and the bytes of an envelope that verifies
  unfoldable pub Verified : Option (List ℕ) → Result (List ℕ) → Type 0
  Verified signature envelope =
      (sig : List ℕ) × (bytes : List ℕ) × (signature ≡ some sig)
      × (envelope ≡ ok bytes)
      × (validator sig (blake2b bytes) ≡ true)

  -- the test of a signature, for any envelope
  pub verified_lem :
      (signature : Option (List ℕ)) (envelope : Result (List ℕ))
      → elim signature as (λ x. Result Bool) [
        | none ↦ ok false
        | some sig ↦ (envelope >>= (λ bytes. ok (blake2b bytes))) >>= (λ h. ok (validator sig h))
      ]
        ≡ ok true
      → Verified signature envelope
  unfolding Verified
  verified_lem none envelope e = cc
  verified_lem (some sig) (raise x) e = cc
  verified_lem (some sig) (ok bytes) e = (sig, bytes, refl, refl, ok-injective e)

  pub verify_signature-Verified :
      (d : Data)
      → verify_signature blake2b validator d ≡ ok true
      → Verified d.signature (signed_bytes d)
  unfolding verify_signature signed_hash
  verify_signature-Verified d e = verified_lem d.signature (signed_bytes d) e

  -- Under a validator that takes a signature for one digest only, two envelopes that verify under the
  -- same signature are the same bytes, or the hash collides.
  pub Verified-same :
      (s t : Option (List ℕ)) (e f : Result (List ℕ))
      → ((sig h k : List ℕ) → validator sig h ≡ true → validator sig k ≡ true → h ≡ k)
      → s ≡ t
      → Verified s e
      → Verified t f
      → (e ≡ f) ⊎ Collision blake2b e f
  unfolding Verified
  Verified-same s t e f one_digest same (sig, x, s_sig, e_x, x_valid)
        (tag, y, t_tag, f_y, y_valid) =
      let sigs : sig ≡ tag = ground (arith, s_sig, t_tag, same) in
      let digests : blake2b x ≡ blake2b y = one_digest tag _ _ (rw (← sigs) x_valid) y_valid in
      elim (Bool-cases (x == y)) [
        | inl t ↦ inl (rw (e_x, f_y, eq_of_beq x y t) refl)
        | inr t ↦ inr (record {
          one = x;
          other = y;
          first = e_x;
          second = f_y;
          differ = ne_of_beq x y t;
          same = digests;
        })
      ]
