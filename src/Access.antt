-- ===== src/Access.antt =====
-- rns_icn/access.py: the capability of a consumer, its wire form and signature. What RNS and hashlib
-- do stands in a `Crypto` record; `I` is the type of RNS identities.
pub mod Control
pub mod RoundTrip
pub mod Delivery
mod Runs
use rns_icn.Prelude.{ℕ, ◌+◌, Bool, true, false, not, ◌&&◌, Option, none, some, is_some}
use rns_icn.Prelude.{List, [], ◌∷◌, ◌++◌, length, ltb, ◌==◌, nat_eq, list_eq, if◌then◌else◌}
use rns_icn.Wire.{
  Result, ok, raise, ◌>>=◌, access_error, pack, slice, read_be, byte_at, read_if, write_opt,
}
use rns_icn.Name
use rns_icn.Name.{Name, rns_addr, rns_addr_bytes, starts_with}
use rns_icn.Packet.Data.{signature_bytes}

abbrev pub cek_bytes : ℕ
cek_bytes = 32

-- b"icn-content-key\x01"
abbrev pub cek_domain : List ℕ
cek_domain =
    b'i' ∷ b'c' ∷ b'n' ∷ b'-' ∷ b'c' ∷ b'o' ∷ b'n' ∷ b't' ∷ b'e' ∷ b'n' ∷ b't' ∷ b'-' ∷ b'k' ∷ b'e'
    ∷ b'y' ∷ 1 ∷ []

-- b"icn-capability\x01"
abbrev pub cap_domain : List ℕ
cap_domain =
    b'i' ∷ b'c' ∷ b'n' ∷ b'-' ∷ b'c' ∷ b'a' ∷ b'p' ∷ b'a' ∷ b'b' ∷ b'i' ∷ b'l' ∷ b'i' ∷ b't' ∷ b'y'
    ∷ 1 ∷ []

-- `Identity.hash`, `get_private_key`, `encrypt`, `decrypt`, `Token(key).encrypt` and `decrypt`, where
-- `none` is None or an exception, and BLAKE2b with digests of 32 and 64 bytes and with a key.
pub record Crypto (I : Type 0) : Type 0 where
  pub identity_hash : I → List ℕ
  pub private_key : I → Option (List ℕ)
  pub encrypt_to : I → List ℕ → List ℕ
  pub decrypt_by : I → List ℕ → Option (List ℕ)
  pub token_encrypt : List ℕ → List ℕ → List ℕ
  pub token_decrypt : List ℕ → List ℕ → Option (List ℕ)
  pub blake2b : List ℕ → List ℕ
  pub blake2b_64 : List ℕ → List ℕ
  pub blake2b_keyed : List ℕ → List ℕ → List ℕ

pub record Capability : Type 0 where
  pub producer : List ℕ
  pub consumer : List ℕ
  pub prefix : Name
  pub wrapped_cek : List ℕ
  pub issued_at : ℕ
  pub expires_at : ℕ
  pub signature : Option (List ℕ)

-- `__post_init__`
unfoldable pub post_init : Capability → Result Capability
unfolding rns_addr
post_init c =
    if not (length c.producer == rns_addr_bytes)
    then raise access_error
    else if not (length c.consumer == rns_addr_bytes)
    then raise access_error
    else (do addr ← rns_addr c.prefix; if addr == c.producer then ok c else raise access_error)

-- the fields from `producer` to `wrapped_cek`, as `signed_hash` and `to_bytes` both write them
unfoldable pub body : Capability → Result (List ℕ)
unfolding Name.to_bytes pack
body c = do
  prefix_bytes ← Name.to_bytes c.prefix
  issued_at ← pack 8 c.issued_at
  expires_at ← pack 8 c.expires_at
  prefix_len ← pack 2 (length prefix_bytes)
  wrapped_len ← pack 2 (length c.wrapped_cek)
  ok (
      c.producer
      ++ (c.consumer
          ++ (issued_at
              ++ (expires_at ++ (prefix_len ++ (prefix_bytes ++ (wrapped_len ++ c.wrapped_cek)))))))

-- what `signed_hash` feeds to BLAKE2b
unfoldable pub signed_bytes : Capability → Result (List ℕ)
unfolding body
signed_bytes c = do bytes ← body c; ok (cap_domain ++ bytes)

unfoldable pub signed_hash : (List ℕ → List ℕ) → Capability → Result (List ℕ)
unfolding signed_bytes
signed_hash blake2b c = do bytes ← signed_bytes c; ok (blake2b bytes)

unfoldable pub sign : (List ℕ → List ℕ) → (List ℕ → List ℕ) → Capability → Result Capability
unfolding signed_hash
sign blake2b signer c = do
  h ← signed_hash blake2b c
  let sig = signer h
  if length sig == signature_bytes
      then ok (record c { signature = some sig })
      else raise access_error

unfoldable pub verify_signature :
    (List ℕ → List ℕ) → (List ℕ → List ℕ → Bool) → Capability → Result Bool
unfolding signed_hash
verify_signature blake2b validator c = elim c.signature [
  | none ↦ ok false
  | some sig ↦ do h ← signed_hash blake2b c; ok (validator sig h)
]

unfoldable pub is_expired : ℕ → Capability → Bool
is_expired now c = if c.expires_at == 0 then false else ltb c.expires_at now

unfoldable pub covers : Name → ℕ → Capability → Bool
unfolding starts_with is_expired
covers name now c = starts_with name c.prefix && not (is_expired now c)

unfoldable pub to_bytes : Capability → Result (List ℕ)
unfolding body write_opt
to_bytes c = do
  bytes ← body c
  signature ← write_opt ok c.signature
  ok (bytes ++ ((if is_some c.signature then 1 else 0) ∷ signature))

-- the part of `from_bytes` up to `wrapped_cek`
unfoldable pub read_body : List ℕ → Result (Capability × List ℕ)
unfolding slice read_be Name.from_bytes
read_body bs = do
  (producer, after_producer) ← slice access_error 16 bs
  (consumer, after_consumer) ← slice access_error 16 after_producer
  (issued_at, after_issued) ← read_be access_error 8 after_consumer
  (expires_at, after_expires) ← read_be access_error 8 after_issued
  (prefix_len, after_len) ← read_be access_error 2 after_expires
  (prefix_bytes, after_prefix) ← slice access_error prefix_len after_len
  prefix ← Name.from_bytes prefix_bytes
  (wrapped_len, after_wrapped_len) ← read_be access_error 2 after_prefix
  (wrapped_cek, rest) ← slice access_error wrapped_len after_wrapped_len
  ok (
    record {
      producer = producer;
      consumer = consumer;
      prefix = prefix;
      wrapped_cek = wrapped_cek;
      issued_at = issued_at;
      expires_at = expires_at;
      signature = none;
    },
    rest,
  )

unfoldable pub from_bytes : List ℕ → Result Capability
unfolding read_body byte_at read_if slice post_init
from_bytes bs = if ltb (length bs) 50 then raise access_error else (do
  (c, after_body) ← read_body bs
  (has_sig, after_flag) ← byte_at access_error after_body
  (signature, _) ← read_if (not (has_sig == 0)) (slice access_error signature_bytes) after_flag
  post_init (record c { signature = signature }))

module _ {I : Type 0} (crypto : Crypto I) where
  -- `derive_cek`: no private key, or an empty one, is an error
  unfoldable pub derive_from : Option (List ℕ) → Name → Result (List ℕ)
  unfolding Name.to_bytes
  derive_from none prefix = raise access_error
  derive_from (some []) prefix = raise access_error
  derive_from (some (b ∷ bs)) prefix = do
    name_bytes ← Name.to_bytes prefix
    ok (crypto.blake2b_keyed (crypto.blake2b_64 (b ∷ bs)) (cek_domain ++ name_bytes))

  unfoldable pub derive_cek : I → Name → Result (List ℕ)
  unfolding derive_from
  derive_cek producer_identity prefix = derive_from (crypto.private_key producer_identity) prefix

  unfoldable pub encrypt_content : List ℕ → List ℕ → Result (List ℕ)
  encrypt_content plaintext cek =
      if length cek == cek_bytes
      then ok (crypto.token_encrypt cek plaintext)
      else raise access_error

  -- an answer that may be missing: None, or an exception that is caught
  unfoldable pub or_access_error : Option (List ℕ) → Result (List ℕ)
  or_access_error none = raise access_error
  or_access_error (some bs) = ok bs

  unfoldable pub decrypt_content : List ℕ → List ℕ → Result (List ℕ)
  unfolding or_access_error
  decrypt_content ciphertext cek =
      if length cek == cek_bytes
      then or_access_error (crypto.token_decrypt cek ciphertext)
      else raise access_error

  unfoldable pub wrap_cek : List ℕ → I → Result (List ℕ)
  wrap_cek cek recipient =
      if length cek == cek_bytes then ok (crypto.encrypt_to recipient cek) else raise access_error

  unfoldable pub unwrap_cek : List ℕ → I → Result (List ℕ)
  unfolding or_access_error
  unwrap_cek wrapped identity = do
    cek ← or_access_error (crypto.decrypt_by identity wrapped)
    if length cek == cek_bytes then ok cek else raise access_error

  -- `Capability.unwrap`
  unfoldable pub unwrap : I → Capability → Result (List ℕ)
  unfolding unwrap_cek
  unwrap identity c = unwrap_cek c.wrapped_cek identity

  -- `producer_addr if producer_addr is not None else prefix.rns_addr`
  unfoldable pub addr_or_prefix : Option (List ℕ) → Name → Result (List ℕ)
  unfolding rns_addr
  addr_or_prefix none prefix = rns_addr prefix
  addr_or_prefix (some addr) prefix = ok addr

  -- `Capability.create`, at the time `now`
  unfoldable pub create :
      Name → I → I → (List ℕ → List ℕ) → Option (List ℕ) → ℕ → ℕ → Result Capability
  unfolding derive_cek wrap_cek post_init sign addr_or_prefix
  create prefix consumer producer_identity signer producer_addr ttl_seconds now = do
    addr ← addr_or_prefix producer_addr prefix
    cek ← derive_cek producer_identity prefix
    wrapped ← wrap_cek cek consumer
    c ← post_init (record {
      producer = addr;
      consumer = crypto.identity_hash consumer;
      prefix = prefix;
      wrapped_cek = wrapped;
      issued_at = now;
      expires_at = if ltb 0 ttl_seconds then now + ttl_seconds else 0;
      signature = none;
    })
    sign crypto.blake2b signer c
