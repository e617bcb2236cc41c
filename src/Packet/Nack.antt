-- ===== src/Packet/Nack.antt =====
-- `Nack` of packet.py.
use rns_icn.Prelude.{ℕ, ◌≡◌, arith}
use rns_icn.Prelude.{List, [], ◌∷◌, ◌++◌, ◌==◌, nat_eq, if◌then◌else◌}
use rns_icn.Wire.{Result, ok, raise, ◌>>=◌, nack_error, byte_at, parse_version, protocol_version}
use rns_icn.Name.{Name, IsWire}
use rns_icn.Packet.Header.{PacketType, type_byte, read_type, read_name, write_name, write_name_lem}

pub data NackReason : Type 0 where
  no_route congestion no_data : NackReason

pub record Nack : Type 0 where
  pub name : Name
  pub reason : NackReason

unfoldable pub reason_byte : NackReason → ℕ
reason_byte no_route = 0x01
reason_byte congestion = 0x02
reason_byte no_data = 0x03

-- `NackReason(b)`, whose ValueError becomes a NackError
unfoldable pub reason_of : ℕ → Result NackReason
reason_of b =
    if b == 0x01
    then ok no_route
    else if b == 0x02
    then ok congestion
    else if b == 0x03
    then ok no_data
    else raise nack_error

unfoldable pub to_bytes : Nack → Result (List ℕ)
unfolding write_name reason_byte type_byte
to_bytes n = do
  name ← write_name n.name
  ok (type_byte PacketType.nack ∷ protocol_version ∷ name ++ (reason_byte n.reason ∷ []))

unfoldable pub from_bytes : List ℕ → Result Nack
unfolding read_type parse_version read_name byte_at reason_of
from_bytes bs = do
  after_type ← read_type nack_error PacketType.nack bs
  (_, after_version) ← parse_version nack_error after_type
  (name, after_name) ← read_name nack_error after_version
  (b, _) ← byte_at nack_error after_name
  reason ← reason_of b
  ok (record { name = name; reason = reason })

reason_lem : (r : NackReason) → reason_of (reason_byte r) ≡ ok r
unfolding reason_of reason_byte
reason_lem r = ground arith

-- A NACK for a name of the wire's shape is written without an error and read back.
pub nack_lem :
    (n : Nack) → IsWire n.name → (bs : List ℕ) × (to_bytes n ≡ ok bs) × (from_bytes bs ≡ ok n)
unfolding to_bytes from_bytes
nack_lem n h =
    let (nw, n_written, n_back) = write_name_lem nack_error n.name h in
    (7 ∷ 1 ∷ nw ++ (reason_byte n.reason ∷ []), rw n_written, rw (n_back _, reason_lem n.reason))
