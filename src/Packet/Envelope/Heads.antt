-- ===== src/Packet/Envelope/Heads.antt =====
-- The first two bytes of a packet: what a decoder accepts has its type byte and version 1.
use rns_icn.Prelude.{ℕ, ◌≡◌, refl, inl, inr, arith, Bool-cases, Option, none, some}
use rns_icn.Prelude.{List, [], ◌∷◌, ◌==◌, nat_eq, nat_beq_iff}
use rns_icn.Wire.{Error, Result, ok, raise, ◌>>=◌, IfOk, parse_version}
use rns_icn.Wire.Readers.{IfOk-eq}
use rns_icn.Packet.Header.{PacketType, type_byte, read_type}
use rns_icn.Packet.Interest
use rns_icn.Packet.Interest.{Interest}
use rns_icn.Packet.Data
use rns_icn.Packet.Data.{Data}
use rns_icn.Packet.Subscribe
use rns_icn.Packet.Subscribe.{ApSubscribe}
use rns_icn.Packet.Peers.{PropPeer, CapPeer, read_prop_peer, read_cap_peer, has_type}
use rns_icn.Packet.Invalidate
use rns_icn.Packet.Invalidate.{Invalidate}
use rns_icn.Packet.Nack
use rns_icn.Packet.Nack.{Nack}
use rns_icn.Packet.Envelope.{
  Packet, wrap, type_of_byte, decode, decode_or_raise, parse_packet, interest, packet_data,
  subscribe, peer, cap_peer, invalidate, nack,
}

abbrev pub Headed : PacketType → List ℕ → Type 0
Headed t bs = (rest : List ℕ) × (bs ≡ type_byte t ∷ 1 ∷ rest)

IfOk-const {ℓ κ} : {A : Type ℓ} {P : Type κ} (r : Result A) → P → IfOk (λ a. P) r
IfOk-const (ok a) p = p
IfOk-const (raise e) p = tt

header-IfOk {ℓ} :
    {A : Type ℓ} (e : Error) (t : PacketType) (bs : List ℕ) (k : ℕ × List ℕ → Result A)
    → IfOk (λ (a : A). Headed t bs) (read_type e t bs >>= λ after. parse_version e after >>= k)
unfolding read_type parse_version
header-IfOk e t [] k = tt
header-IfOk e t (b ∷ []) k = elim (Bool-cases (b == type_byte t)) [
  | inl p ↦ rw p tt
  | inr p ↦ rw p tt
]
header-IfOk e t (b ∷ v ∷ bs) k = elim (Bool-cases (b == type_byte t)) [
  | inl p ↦ rw p (elim (Bool-cases (v == 1)) [
    | inl q ↦ rw q (IfOk-const (k (v, bs)) (bs, ground (arith, nat_beq_iff b (type_byte t))))
    | inr q ↦ rw q tt
  ])
  | inr p ↦ rw p tt
]

Interest-Headed :
    (bs : List ℕ) {i : Interest} → Interest.from_bytes bs ≡ ok i → Headed PacketType.interest bs
unfolding Interest.from_bytes
Interest-Headed bs e =
    IfOk-eq (λ i. Headed PacketType.interest bs) e (header-IfOk _ PacketType.interest bs _)

Data-Headed :
    (bs : List ℕ) {d : Data} → Data.from_bytes bs ≡ ok d → Headed PacketType.packet_data bs
unfolding Data.from_bytes
Data-Headed bs e =
    IfOk-eq (λ d. Headed PacketType.packet_data bs) e (header-IfOk _ PacketType.packet_data bs _)

Subscribe-Headed :
    (bs : List ℕ) {s : ApSubscribe}
    → Subscribe.from_bytes bs ≡ ok s
    → Headed PacketType.aps_subscribe bs
unfolding Subscribe.from_bytes
Subscribe-Headed bs e =
    IfOk-eq (λ s. Headed PacketType.aps_subscribe bs) e
      (header-IfOk _ PacketType.aps_subscribe bs _)

Invalidate-Headed :
    (bs : List ℕ) {i : Invalidate}
    → Invalidate.from_bytes bs ≡ ok i
    → Headed PacketType.invalidate bs
unfolding Invalidate.from_bytes
Invalidate-Headed bs e =
    IfOk-eq (λ i. Headed PacketType.invalidate bs) e (header-IfOk _ PacketType.invalidate bs _)

Nack-Headed : (bs : List ℕ) {n : Nack} → Nack.from_bytes bs ≡ ok n → Headed PacketType.nack bs
unfolding Nack.from_bytes
Nack-Headed bs e = IfOk-eq (λ n. Headed PacketType.nack bs) e (header-IfOk _ PacketType.nack bs _)

PropPeer-Headed :
    (bs : List ℕ) {p : PropPeer} → read_prop_peer bs ≡ ok p → Headed PacketType.prop_peer bs
unfolding read_prop_peer has_type parse_version type_byte
PropPeer-Headed [] e = cc
PropPeer-Headed (b ∷ []) e = absurd (ground arith)
PropPeer-Headed (b ∷ v ∷ bs) e = (bs, ground arith)

CapPeer-Headed :
    (bs : List ℕ) {c : CapPeer} → read_cap_peer bs ≡ ok c → Headed PacketType.cap_peer bs
unfolding read_cap_peer has_type parse_version type_byte
CapPeer-Headed [] e = cc
CapPeer-Headed (b ∷ []) e = absurd (ground arith)
CapPeer-Headed (b ∷ v ∷ bs) e = (bs, ground arith)

unfoldable pub type_of : Packet → PacketType
type_of (interest i) = PacketType.interest
type_of (packet_data d) = PacketType.packet_data
type_of (subscribe s) = PacketType.aps_subscribe
type_of (peer p) = PacketType.prop_peer
type_of (cap_peer c) = PacketType.cap_peer
type_of (invalidate i) = PacketType.invalidate
type_of (nack n) = PacketType.nack

abbrev HeadedAs : List ℕ → Packet → Type 0
HeadedAs bs p = Headed (type_of p) bs

IfOk-wrap :
    {A : Type 0} (P : Packet → Type 0) (f : A → Packet) (r : Result A)
    → ((a : A) → r ≡ ok a → P (f a))
    → IfOk P (wrap f r)
IfOk-wrap P f (ok a) k = k a refl
IfOk-wrap P f (raise e) k = tt

decode-HeadedAs : (t : PacketType) (bs : List ℕ) → IfOk (HeadedAs bs) (decode t bs)
unfolding decode type_of
decode-HeadedAs PacketType.interest bs =
    IfOk-wrap (HeadedAs bs) interest _ (λ i e. Interest-Headed bs e)
decode-HeadedAs PacketType.packet_data bs =
    IfOk-wrap (HeadedAs bs) packet_data _ (λ d e. Data-Headed bs e)
decode-HeadedAs PacketType.aps_subscribe bs =
    IfOk-wrap (HeadedAs bs) subscribe _ (λ s e. Subscribe-Headed bs e)
decode-HeadedAs PacketType.prop_peer bs =
    IfOk-wrap (HeadedAs bs) peer _ (λ p e. PropPeer-Headed bs e)
decode-HeadedAs PacketType.cap_peer bs =
    IfOk-wrap (HeadedAs bs) cap_peer _ (λ c e. CapPeer-Headed bs e)
decode-HeadedAs PacketType.invalidate bs =
    IfOk-wrap (HeadedAs bs) invalidate _ (λ i e. Invalidate-Headed bs e)
decode-HeadedAs PacketType.nack bs = IfOk-wrap (HeadedAs bs) nack _ (λ n e. Nack-Headed bs e)

decode_or_raise-HeadedAs :
    (t : Option PacketType) (bs : List ℕ) → IfOk (HeadedAs bs) (decode_or_raise t bs)
unfolding decode_or_raise
decode_or_raise-HeadedAs none bs = tt
decode_or_raise-HeadedAs (some t) bs = decode-HeadedAs t bs

parse_packet-HeadedAs : (bs : List ℕ) → IfOk (HeadedAs bs) (parse_packet bs)
unfolding parse_packet
parse_packet-HeadedAs [] = tt
parse_packet-HeadedAs (b ∷ rest) = decode_or_raise-HeadedAs (type_of_byte b) (b ∷ rest)

pub decode-head :
    (t : PacketType) (bs : List ℕ) (p : Packet) → decode t bs ≡ ok p → Headed (type_of p) bs
decode-head t bs p e = IfOk-eq (HeadedAs bs) e (decode-HeadedAs t bs)

-- Whatever `parse_packet` accepts begins with the type byte of the packet that it returns and with
-- version byte 1.
pub parse_packet-head : (bs : List ℕ) (p : Packet) → parse_packet bs ≡ ok p → Headed (type_of p) bs
parse_packet-head bs p e = IfOk-eq (HeadedAs bs) e (parse_packet-HeadedAs bs)

pub type_of_byte-type_byte : (t : PacketType) → type_of_byte (type_byte t) ≡ some t
unfolding type_of_byte type_byte
type_of_byte-type_byte PacketType.interest = refl
type_of_byte-type_byte t = refl
