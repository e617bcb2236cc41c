-- ===== src/Packet/Runs.antt =====
-- Concrete runs on packets.
use rns_icn.Prelude.{
  ℕ, ◌≡◌, ◌++◌, refl, ◌==◌, list_eq, List, [], ◌∷◌, replicate, take, some, Bool, true, arith,
  nat_eq,
}
use rns_icn.Wire.{ok, raise, unsupported_version, be_bytes, be_value}
use rns_icn.Name
use rns_icn.Name.{Name, IsWire}
use rns_icn.Packet.Header.{PacketType, type_byte}
use rns_icn.Packet.Metadata
use rns_icn.Packet.Metadata.{DataMetadata}
use rns_icn.Packet.Data.{Data}
use rns_icn.Packet.Data.Envelope.{hash_bytes, signed_bytes}
use rns_icn.Packet.Data.Envelope.Binding.{SignedFit, signed_bytes-binds}
use rns_icn.Packet.Invalidate.{Invalidate}
use rns_icn.Packet.Peers.{read_cap_peer}
use rns_icn.Packet.Envelope
use rns_icn.Packet.Envelope.{Packet, parse_packet}
use rns_icn.Packet.Envelope.RoundTrip.{Fits, normal, parse_packet-to_bytes}
use rns_icn.Packet.Envelope.Skew.{parse_packet-skew}
use rns_icn.Samples.{alice, interest, content, metadata, alice-IsWire}

interest-Fits : Fits (Envelope.interest interest)
interest-Fits = record {
  name_fits = alice-IsWire;
  nonce_size = refl;
  lifetime_fits = omega arith;
  hop_limit_fits = omega arith;
  selector_fits = omega arith;
}

parse_packet-to_bytes_example :
    (bs : List ℕ) × (Envelope.to_bytes (Envelope.interest interest) ≡ ok bs)
    × (parse_packet bs ≡ ok (normal (Envelope.interest interest)))
parse_packet-to_bytes_example = parse_packet-to_bytes (Envelope.interest interest) interest-Fits

-- A handshake as it is on the wire.
abbrev handshake : List ℕ
handshake = 5 ∷ 1 ∷ 2 ∷ 0 ∷ 0 ∷ 0 ∷ 63 ∷ []

abbrev peer : Packet
peer = Envelope.cap_peer (record { version = 1; role = 2; features = 63 })

read_handshake : parse_packet handshake ≡ ok peer
unfolding parse_packet read_cap_peer be_value
read_handshake = refl

parse_packet-skew_example :
    parse_packet (type_byte PacketType.nack ∷ 2 ∷ replicate 20 0) ≡ raise unsupported_version
parse_packet-skew_example =
    parse_packet-skew PacketType.nack 2 (replicate 20 0) (omega arith) (omega arith)

-- A hash for the runs: the first 32 bytes.
abbrev first_bytes : List ℕ → List ℕ
first_bytes = take 32

metadata-SignedFit : SignedFit metadata
metadata-SignedFit = record { sequence_fits = omega arith; signed_at_fits = omega arith }

name_bytes : Name.to_bytes alice ≡ ok (2 ∷ 16 ∷ replicate 16 7 ++ (1 ∷ b'a' ∷ []))
unfolding Name.to_bytes
name_bytes = refl

abbrev aged : DataMetadata
aged = record metadata { freshness_period = some 90 }

aged-SignedFit : SignedFit aged
aged-SignedFit = record { sequence_fits = omega arith; signed_at_fits = omega arith }

aged-signed_bytes : signed_bytes (record content { metadata = aged }) ≡ signed_bytes content
unfolding signed_bytes
aged-signed_bytes = refl

signed_bytes-binds_example :
    (aged.sequence ≡ metadata.sequence)
    × (aged.signed_at ≡ metadata.signed_at)
    × (aged.encrypted ≡ metadata.encrypted)
signed_bytes-binds_example =
    signed_bytes-binds content aged metadata-SignedFit aged-SignedFit name_bytes refl
      aged-signed_bytes

-- The content hash and the tagged fields of `content` behind its bytes, and no metadata.
abbrev moved : Data
moved = record content {
  content =
      content.content
      ++ (hash_bytes content.metadata.content_hash
          ++ (1 ∷ replicate 7 0 ++ (6 ∷ 2 ∷ replicate 6 0 ++ (3 ∷ 232 ∷ 3 ∷ 1 ∷ []))));
  metadata = Metadata.empty;
}

moved-signed_bytes : signed_bytes moved ≡ signed_bytes content
unfolding signed_bytes be_bytes
moved-signed_bytes = refl

abbrev content_digest : List ℕ
content_digest =
    b'i' ∷ b'c' ∷ b'n' ∷ b'-' ∷ b'd' ∷ b'a' ∷ b't' ∷ b'a' ∷ 1 ∷ 2 ∷ 16 ∷ replicate 16 7
    ++ (1 ∷ b'a' ∷ 1 ∷ 2 ∷ 3 ∷ [])

-- A validator that takes every signature, for one digest only.
abbrev accept_only : List ℕ → List ℕ → List ℕ → Bool
accept_only digest sig h = h == digest

abbrev purge : Invalidate
purge = record { name = alice; epoch = 1; is_prefix = true; signature = content.signature }

-- A hash for which everything collides.
abbrev no_bytes : List ℕ → List ℕ
no_bytes bs = []
