-- ===== src/Packet/Header.antt =====
-- What the packets of packet.py begin with: the type byte, the version byte and the name.
use rns_icn.Prelude.{ℕ, refl, arith}
use rns_icn.Prelude.{List, [], ◌∷◌, ◌++◌, length, ◌==◌, nat_eq, append_assoc, if◌then◌else◌}
use rns_icn.Wire.{
  Error, Result, ok, raise, ◌>>=◌, index_error, slice, write_varint, read_varint, Encodes,
}
use rns_icn.Wire.Readers.{slice-append}
use rns_icn.Wire.Varint.{varint_lem}
use rns_icn.Name
use rns_icn.Name.{Name, IsWire}
use rns_icn.Name.RoundTrip.{name_lem}

-- `PacketType`
pub data PacketType : Type 0 where
  interest packet_data aps_subscribe prop_peer cap_peer invalidate nack : PacketType

unfoldable pub type_byte : PacketType → ℕ
type_byte interest = 0x01
type_byte packet_data = 0x02
type_byte aps_subscribe = 0x03
type_byte prop_peer = 0x04
type_byte cap_peer = 0x05
type_byte invalidate = 0x06
type_byte nack = 0x07

-- `if data[pos] != TYPE: raise e`; `data[0]` of an empty buffer is an IndexError
unfoldable pub read_type : Error → PacketType → List ℕ → Result (List ℕ)
unfolding type_byte
read_type e t [] = raise index_error
read_type e t (b ∷ rest) = if b == type_byte t then ok rest else raise e

-- `_read_varint`, the bounds check and `Name.from_bytes` of the slice
unfoldable pub read_name : Error → List ℕ → Result (Name × List ℕ)
unfolding read_varint slice Name.from_bytes
read_name e bs = do
  (name_len, after_len) ← read_varint bs
  (name_bytes, rest) ← slice e name_len after_len
  name ← Name.from_bytes name_bytes
  ok (name, rest)

-- `_write_varint(len(name_bytes))` and `name_bytes`
unfoldable pub write_name : Name → Result (List ℕ)
unfolding write_varint Name.to_bytes
write_name n = do
  name_bytes ← Name.to_bytes n
  len ← write_varint (length name_bytes)
  ok (len ++ name_bytes)

-- A name of the wire's shape is written behind its length, and read back.
pub write_name_lem : (e : Error) (n : Name) → IsWire n → Encodes (write_name n) (read_name e) n
unfolding write_name read_name
write_name_lem e n h =
    let (bs, written, back, size) = name_lem n h in
    let (len, len_written, len_back) = varint_lem (length bs) (omega arith) in
    (
      len ++ bs,
      rw (written, len_written),
      λ rest.
          rw (append_assoc len bs rest, len_back (bs ++ rest), slice-append e bs rest refl, back),
    )
