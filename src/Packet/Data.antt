-- ===== src/Packet/Data.antt =====
-- `Data` of packet.py: its wire form, and the envelope that a producer signs.
pub mod RoundTrip
pub mod Envelope
use rns_icn.Prelude.{
  ℕ, ◌+◌, ◌≤◌, ◌^◌, ◌≡◌, Bool, true, false, not, ◌||◌, Option, none, some, is_some,
}
use rns_icn.Prelude.{List, [], ◌∷◌, ◌++◌, length, ◌==◌, nat_eq, list_eq, if◌then◌else◌}
use rns_icn.Wire.{Result, ok, raise, ◌>>=◌, data_error, slice, read_be, pack, set_flag, has_flag}
use rns_icn.Wire.{
  read_if, byte_at, parse_version, protocol_version, write_varint, read_varint, write_opt,
}
use rns_icn.Name
use rns_icn.Name.{Name}
use rns_icn.Packet.Header.{PacketType, type_byte, read_type, read_name, write_name}
use rns_icn.Packet.Metadata
use rns_icn.Packet.Metadata.{DataMetadata}

abbrev pub signature_bytes : ℕ
signature_bytes = 64

pub record Data : Type 0 where
  pub name : Name
  pub content : List ℕ
  pub signature : Option (List ℕ)
  pub metadata : DataMetadata

unfoldable pub has_meta : DataMetadata → Bool
has_meta m =
    is_some m.content_hash
    || (is_some m.sequence
        || (not m.freshness.fresh
            || (is_some m.freshness_period || (is_some m.signed_at || m.encrypted))))

unfoldable pub data_flags : Bool → Bool → ℕ
unfolding set_flag
data_flags meta sig = set_flag sig 0x02 (set_flag meta 0x01 0)

-- the metadata behind its length, or nothing
unfoldable pub write_metadata : Bool → DataMetadata → Result (List ℕ)
unfolding Metadata.to_bytes write_varint
write_metadata false m = ok []
write_metadata true m = do
  bytes ← Metadata.to_bytes m
  len ← write_varint (length bytes)
  ok (len ++ bytes)

unfoldable pub to_bytes : Data → Result (List ℕ)
unfolding write_name pack write_opt has_meta data_flags write_metadata type_byte
to_bytes d = do
  name ← write_name d.name
  content_len ← pack 4 (length d.content)
  metadata ← write_metadata (has_meta d.metadata) d.metadata
  signature ← write_opt ok d.signature
  ok (
      type_byte PacketType.packet_data ∷ protocol_version ∷ name
      ++ (content_len
          ++ (d.content
              ++ (data_flags (has_meta d.metadata) (is_some d.signature) ∷ metadata ++ signature))))

-- `metadata = DataMetadata()` unless the flag says that it follows
unfoldable pub read_metadata : Bool → List ℕ → Result (DataMetadata × List ℕ)
unfolding read_varint slice Metadata.from_bytes
read_metadata false bs = ok (Metadata.empty, bs)
read_metadata true bs = do
  (meta_len, after_len) ← read_varint bs
  (bytes, rest) ← slice data_error meta_len after_len
  m ← Metadata.from_bytes bytes
  ok (m, rest)

unfoldable pub from_bytes : List ℕ → Result Data
unfolding read_type parse_version read_name slice read_be byte_at has_flag read_if read_metadata
from_bytes bs = do
  after_type ← read_type data_error PacketType.packet_data bs
  (_, after_version) ← parse_version data_error after_type
  (name, after_name) ← read_name data_error after_version
  (content_len, after_len) ← read_be data_error 4 after_name
  (content, after_content) ← slice data_error content_len after_len
  (flags, after_flags) ← byte_at data_error after_content
  (metadata, after_metadata) ← read_metadata (has_flag flags 0x01) after_flags
  (signature, _) ← read_if (has_flag flags 0x02) (slice data_error signature_bytes) after_metadata
  ok (record { name = name; content = content; signature = signature; metadata = metadata })
