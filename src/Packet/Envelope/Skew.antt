-- ===== src/Packet/Envelope/Skew.antt =====
-- Packets of another version than 1 are refused.
use rns_icn.Prelude.{ℕ, ◌≤◌, ◌≡◌, ◌≢◌, ap, ◌∙◌, arith}
use rns_icn.Prelude.{List, ◌∷◌, length, nat_eq, nat_beq_iff}
use rns_icn.Wire.{Error, Result, raise, ◌>>=◌, unsupported_version, parse_version}
use rns_icn.Packet.Envelope.Heads.{type_of_byte-type_byte}
use rns_icn.Wire.{interest_error, data_error, subscribe_error, invalidate_error, nack_error}
use rns_icn.Packet.Header.{PacketType, type_byte, read_type}
use rns_icn.Packet.Interest
use rns_icn.Packet.Interest.{Interest}
use rns_icn.Packet.Data
use rns_icn.Packet.Data.{Data}
use rns_icn.Packet.Subscribe
use rns_icn.Packet.Subscribe.{ApSubscribe}
use rns_icn.Packet.Peers.{read_prop_peer, read_cap_peer, has_type}
use rns_icn.Packet.Invalidate
use rns_icn.Packet.Invalidate.{Invalidate}
use rns_icn.Packet.Nack
use rns_icn.Packet.Nack.{Nack}
use rns_icn.Packet.Envelope.{
  Packet, wrap, decode, decode_or_raise, parse_packet, interest, packet_data, subscribe, peer,
  cap_peer, invalidate, nack,
}

skew :
    {A : Type 0} (e : Error) (t : PacketType) (v : ℕ) (rest : List ℕ) (k : ℕ × List ℕ → Result A)
    → v ≢ 1
    → (read_type e t (type_byte t ∷ v ∷ rest) >>= λ after. parse_version e after >>= k)
      ≡ raise unsupported_version
unfolding read_type parse_version
skew e t v rest k h = ground (arith, nat_beq_iff v 1)

wrap-raise :
    {A : Type 0} (f : A → Packet) {r : Result A} {e : Error} → r ≡ raise e → wrap f r ≡ raise e
wrap-raise f h = rw h

Interest-skew :
    (v : ℕ) (rest : List ℕ)
    → v ≢ 1
    → Interest.from_bytes (type_byte PacketType.interest ∷ v ∷ rest) ≡ raise unsupported_version
unfolding Interest.from_bytes
Interest-skew v rest h = skew interest_error PacketType.interest v rest _ h

Data-skew :
    (v : ℕ) (rest : List ℕ)
    → v ≢ 1
    → Data.from_bytes (type_byte PacketType.packet_data ∷ v ∷ rest) ≡ raise unsupported_version
unfolding Data.from_bytes
Data-skew v rest h = skew data_error PacketType.packet_data v rest _ h

Subscribe-skew :
    (v : ℕ) (rest : List ℕ)
    → v ≢ 1
    → Subscribe.from_bytes (type_byte PacketType.aps_subscribe ∷ v ∷ rest)
      ≡ raise unsupported_version
unfolding Subscribe.from_bytes
Subscribe-skew v rest h = skew subscribe_error PacketType.aps_subscribe v rest _ h

Invalidate-skew :
    (v : ℕ) (rest : List ℕ)
    → v ≢ 1
    → Invalidate.from_bytes (type_byte PacketType.invalidate ∷ v ∷ rest) ≡ raise unsupported_version
unfolding Invalidate.from_bytes
Invalidate-skew v rest h = skew invalidate_error PacketType.invalidate v rest _ h

Nack-skew :
    (v : ℕ) (rest : List ℕ)
    → v ≢ 1
    → Nack.from_bytes (type_byte PacketType.nack ∷ v ∷ rest) ≡ raise unsupported_version
unfolding Nack.from_bytes
Nack-skew v rest h = skew nack_error PacketType.nack v rest _ h

PropPeer-skew :
    (v : ℕ) (rest : List ℕ)
    → v ≢ 1
    → 17 ≤ length rest
    → read_prop_peer (type_byte PacketType.prop_peer ∷ v ∷ rest) ≡ raise unsupported_version
unfolding read_prop_peer has_type parse_version type_byte
PropPeer-skew v rest h n = ground arith

CapPeer-skew :
    (v : ℕ) (rest : List ℕ)
    → v ≢ 1
    → 17 ≤ length rest
    → read_cap_peer (type_byte PacketType.cap_peer ∷ v ∷ rest) ≡ raise unsupported_version
unfolding read_cap_peer has_type parse_version type_byte
CapPeer-skew v rest h n = ground arith

decode-skew :
    (t : PacketType) (v : ℕ) (rest : List ℕ)
    → v ≢ 1
    → 17 ≤ length rest
    → decode t (type_byte t ∷ v ∷ rest) ≡ raise unsupported_version
unfolding decode
decode-skew PacketType.interest v rest h n = wrap-raise interest (Interest-skew v rest h)
decode-skew PacketType.packet_data v rest h n = wrap-raise packet_data (Data-skew v rest h)
decode-skew PacketType.aps_subscribe v rest h n = wrap-raise subscribe (Subscribe-skew v rest h)
decode-skew PacketType.prop_peer v rest h n = wrap-raise peer (PropPeer-skew v rest h n)
decode-skew PacketType.cap_peer v rest h n = wrap-raise cap_peer (CapPeer-skew v rest h n)
decode-skew PacketType.invalidate v rest h n = wrap-raise invalidate (Invalidate-skew v rest h)
decode-skew PacketType.nack v rest h n = wrap-raise nack (Nack-skew v rest h)

-- A packet of a known type with another version byte than 1 is refused as an unsupported version,
-- given that at least 17 bytes follow (the two handshakes look at their length first).
pub parse_packet-skew :
    (t : PacketType) (v : ℕ) (rest : List ℕ)
    → v ≢ 1
    → 17 ≤ length rest
    → parse_packet (type_byte t ∷ v ∷ rest) ≡ raise unsupported_version
unfolding parse_packet
parse_packet-skew t v rest h n =
    ap (λ o. decode_or_raise o (type_byte t ∷ v ∷ rest)) (type_of_byte-type_byte t)
    ∙ decode-skew t v rest h n
