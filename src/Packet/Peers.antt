-- ===== src/Packet/Peers.antt =====
-- `PropPeer` and `CapPeer` of packet.py: the two handshakes between servers.
pub mod RoundTrip
use rns_icn.Prelude.{ℕ, ◌+◌, ◌-◌, ◌≤◌, ◌<◌, ◌^◌, ◌≡◌, refl, ◌∙◌, Bool, true, false, arith}
use rns_icn.Prelude.{
  List, [], ◌∷◌, ◌++◌, length, take, drop, replicate, ltb, ◌==◌, nat_eq, append_assoc,
  if◌then◌else◌,
}
use rns_icn.Prelude.{length-append, length-take, length-replicate}
use rns_icn.Wire.{
  Error, Result, ok, raise, ◌>>=◌, value_error, index_error, set_flag, has_flag, append_byte,
}
use rns_icn.Wire.{parse_version, protocol_version, byte_at, pack, unpack, be_bytes}
use rns_icn.Wire.Numbers.{pack-be_bytes, unpack-be_bytes, length-be_bytes}
use rns_icn.Packet.Header.{PacketType, type_byte}

pub record PropPeer : Type 0 where
  pub version : ℕ
  pub rns_addr : List ℕ
  pub wants_sync : Bool

-- the address at 16 bytes, cut or filled up with zeros
unfoldable pub pad_addr : List ℕ → List ℕ
pad_addr addr =
    take 16 (if ltb (length addr) 16 then addr ++ replicate (16 - length addr) 0 else addr)

unfoldable pub write_prop_peer : PropPeer → Result (List ℕ)
unfolding append_byte type_byte
write_prop_peer p = do
  version ← append_byte p.version
  ok (
      type_byte PacketType.prop_peer ∷ version ∷ pad_addr p.rns_addr
      ++ (set_flag p.wants_sync 0x01 0 ∷ []))

-- `if not data or data[0] != TYPE: raise ValueError`
unfoldable pub has_type : PacketType → List ℕ → Bool
unfolding type_byte
has_type t [] = false
has_type t (b ∷ bs) = b == type_byte t

-- `data[18]`; the length was checked
unfoldable pub byte_or_raise : List ℕ → Result ℕ
byte_or_raise [] = raise index_error
byte_or_raise (b ∷ bs) = ok b

unfoldable pub read_prop_peer : List ℕ → Result PropPeer
unfolding has_type parse_version byte_or_raise
read_prop_peer bs =
    if has_type PacketType.prop_peer bs
    then (if ltb (length bs) 19 then raise value_error else (do
      (version, rest) ← parse_version value_error (drop 1 bs)
      flags ← byte_or_raise (drop 16 rest)
      ok (record { version = version; rns_addr = take 16 rest; wants_sync = has_flag flags 0x01 })))
    else raise value_error

pub record CapPeer : Type 0 where
  pub version : ℕ
  pub role : ℕ
  pub features : ℕ

unfoldable pub write_cap_peer : CapPeer → Result (List ℕ)
unfolding append_byte pack type_byte
write_cap_peer c = do
  version ← append_byte c.version
  role ← append_byte c.role
  features ← pack 4 c.features
  ok (type_byte PacketType.cap_peer ∷ version ∷ role ∷ features)

unfoldable pub read_cap_peer : List ℕ → Result CapPeer
unfolding has_type parse_version byte_at unpack
read_cap_peer bs =
    if has_type PacketType.cap_peer bs
    then (if ltb (length bs) 7 then raise value_error else (do
      (version, after_version) ← parse_version value_error (drop 1 bs)
      (role, after_role) ← byte_at index_error after_version
      features ← unpack 4 (take 4 after_role)
      ok (record { version = version; role = role; features = features })))
    else raise value_error
