-- ===== src/Packet/Envelope/RoundTrip.antt =====
-- `parse_packet` reads back every kind of packet.
use rns_icn.Prelude.{ℕ, ◌<◌, ◌^◌, ◌≡◌, ap, ◌∙◌, arith}
use rns_icn.Prelude.{List, ◌∷◌, nat_eq}
use rns_icn.Wire.{ok}
use rns_icn.Name.{IsWire}
use rns_icn.Packet.Header.{PacketType, type_byte}
use rns_icn.Packet.Interest.RoundTrip as InterestTrip
use rns_icn.Packet.Data.RoundTrip as DataTrip
use rns_icn.Packet.Subscribe
use rns_icn.Packet.Peers.{pad_addr}
use rns_icn.Packet.Peers.RoundTrip.{read_prop_peer-write_prop_peer, read_cap_peer-write_cap_peer}
use rns_icn.Packet.Invalidate
use rns_icn.Packet.Nack
use rns_icn.Packet.Envelope.Heads.{type_of, type_of_byte-type_byte, decode-head}
use rns_icn.Packet.Envelope.{
  Packet, to_bytes, decode, decode_or_raise, parse_packet, interest, packet_data, subscribe, peer,
  cap_peer, invalidate, nack,
}

-- What the wire form of a packet can carry.
abbrev pub Fits : Packet → Type 0
Fits (interest i) = InterestTrip.Fits i
Fits (packet_data d) = DataTrip.Fits d
Fits (subscribe s) = IsWire s.name
Fits (peer p) = p.version ≡ 1
Fits (cap_peer c) = (c.version ≡ 1) × (c.role < 256) × (c.features < 2 ^ 32)
Fits (invalidate i) = Invalidate.Fits i
Fits (nack n) = IsWire n.name

-- What the wire forgets: a selector without a constraint, the age of fresh Data, and an address of
-- another size than 16 bytes.
abbrev pub normal : Packet → Packet
normal (interest i) = interest (InterestTrip.normal i)
normal (packet_data d) = packet_data (DataTrip.normal d)
normal (subscribe s) = subscribe s
normal (peer p) = peer (record p { rns_addr = pad_addr p.rns_addr })
normal (cap_peer c) = cap_peer c
normal (invalidate i) = invalidate i
normal (nack n) = nack n

decode-to_bytes :
    (p : Packet)
    → Fits p
    → (bs : List ℕ) × (to_bytes p ≡ ok bs) × (decode (type_of (normal p)) bs ≡ ok (normal p))
unfolding to_bytes decode type_of
decode-to_bytes (interest i) h =
    let (bs, e, back) = InterestTrip.interest_lem i h in (bs, e, rw back)
decode-to_bytes (packet_data d) h = let (bs, e, back) = DataTrip.data_lem d h in (bs, e, rw back)
decode-to_bytes (subscribe s) h =
    let (bs, e, back) = Subscribe.subscribe_lem s h in (bs, e, rw back)
decode-to_bytes (peer p) h =
    let (bs, e, back) = read_prop_peer-write_prop_peer p (omega arith) in
    (bs, e, rw back (ground arith))
decode-to_bytes (cap_peer c) (hv, hr, hf) =
    let (bs, e, back) = read_cap_peer-write_cap_peer c (omega arith) hr hf in
    (bs, e, rw back (ground arith))
decode-to_bytes (invalidate i) h =
    let (bs, e, back) = Invalidate.invalidate_lem i h in (bs, e, rw back)
decode-to_bytes (nack n) h = let (bs, e, back) = Nack.nack_lem n h in (bs, e, rw back)

parse_packet-decode :
    (t : PacketType) (bs rest : List ℕ)
    → bs ≡ type_byte t ∷ 1 ∷ rest
    → parse_packet bs ≡ decode t bs
unfolding parse_packet decode_or_raise
parse_packet-decode t bs rest e =
    rw e (ap (λ o. decode_or_raise o (type_byte t ∷ 1 ∷ rest)) (type_of_byte-type_byte t))

-- Every packet that fits the wire is written without an error, and `parse_packet` reads back a
-- packet of the same kind with the same fields, but for a selector without a constraint (which
-- comes back as none), the age of fresh Data (0) and a peer's address (cut or zero-filled to 16
-- bytes).
pub parse_packet-to_bytes :
    (p : Packet) → Fits p → (bs : List ℕ) × (to_bytes p ≡ ok bs) × (parse_packet bs ≡ ok (normal p))
parse_packet-to_bytes p h =
    let (bs, e, back) = decode-to_bytes p h in
    let (rest, head) = decode-head (type_of (normal p)) bs (normal p) back in
    (bs, e, parse_packet-decode (type_of (normal p)) bs rest head ∙ back)
