-- ===== src/Packet/Envelope.antt =====
-- `Packet` and `parse_packet` of packet.py.
pub mod Heads
pub mod Skew
pub mod RoundTrip
use rns_icn.Prelude.{ℕ, Option, none, some}
use rns_icn.Prelude.{List, [], ◌∷◌, ◌++◌, ◌==◌, nat_eq, if◌then◌else◌}
use rns_icn.Wire.{Result, ok, raise, ◌>>=◌, value_error}
use rns_icn.Packet.Header.{PacketType, type_byte}
use rns_icn.Packet.Interest
use rns_icn.Packet.Interest.{Interest}
use rns_icn.Packet.Data
use rns_icn.Packet.Data.{Data}
use rns_icn.Packet.Subscribe
use rns_icn.Packet.Subscribe.{ApSubscribe}
use rns_icn.Packet.Peers.{
  PropPeer, CapPeer, write_prop_peer, read_prop_peer, write_cap_peer, read_cap_peer,
}
use rns_icn.Packet.Invalidate
use rns_icn.Packet.Invalidate.{Invalidate}
use rns_icn.Packet.Nack
use rns_icn.Packet.Nack.{Nack}

-- The one field of `Packet` that is set.
pub data Packet : Type 0 where
  interest : Interest → Packet
  packet_data : Data → Packet
  subscribe : ApSubscribe → Packet
  peer : PropPeer → Packet
  cap_peer : CapPeer → Packet
  invalidate : Invalidate → Packet
  nack : Nack → Packet

-- The packet's own `to_bytes`.
unfoldable pub to_bytes : Packet → Result (List ℕ)
to_bytes (interest i) = Interest.to_bytes i
to_bytes (packet_data d) = Data.to_bytes d
to_bytes (subscribe s) = Subscribe.to_bytes s
to_bytes (peer p) = write_prop_peer p
to_bytes (cap_peer c) = write_cap_peer c
to_bytes (invalidate i) = Invalidate.to_bytes i
to_bytes (nack n) = Nack.to_bytes n

abbrev pub wrap {ℓ} : {A : Type ℓ} → (A → Packet) → Result A → Result Packet
wrap f r = r >>= λ a. ok (f a)

-- the tests of the `if`/`elif` chain of `parse_packet`
unfoldable pub type_of_byte : ℕ → Option PacketType
unfolding type_byte
type_of_byte b =
    if b == type_byte PacketType.interest
    then some PacketType.interest
    else if b == type_byte PacketType.packet_data
    then some PacketType.packet_data
    else if b == type_byte PacketType.aps_subscribe
    then some PacketType.aps_subscribe
    else if b == type_byte PacketType.prop_peer
    then some PacketType.prop_peer
    else if b == type_byte PacketType.cap_peer
    then some PacketType.cap_peer
    else if b == type_byte PacketType.invalidate
    then some PacketType.invalidate
    else if b == type_byte PacketType.nack
    then some PacketType.nack
    else none

-- and its branches
unfoldable pub decode : PacketType → List ℕ → Result Packet
decode PacketType.interest bs = wrap interest (Interest.from_bytes bs)
decode PacketType.packet_data bs = wrap packet_data (Data.from_bytes bs)
decode PacketType.aps_subscribe bs = wrap subscribe (Subscribe.from_bytes bs)
decode PacketType.prop_peer bs = wrap peer (read_prop_peer bs)
decode PacketType.cap_peer bs = wrap cap_peer (read_cap_peer bs)
decode PacketType.invalidate bs = wrap invalidate (Invalidate.from_bytes bs)
decode PacketType.nack bs = wrap nack (Nack.from_bytes bs)

unfoldable pub decode_or_raise : Option PacketType → List ℕ → Result Packet
unfolding decode
decode_or_raise none bs = raise value_error
decode_or_raise (some t) bs = decode t bs

unfoldable pub parse_packet : List ℕ → Result Packet
unfolding type_of_byte decode_or_raise
parse_packet [] = raise value_error
parse_packet (ptype ∷ rest) = decode_or_raise (type_of_byte ptype) (ptype ∷ rest)
