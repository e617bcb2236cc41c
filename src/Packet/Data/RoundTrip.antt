-- ===== src/Packet/Data/RoundTrip.antt =====
-- `Data.from_bytes` reads back what `Data.to_bytes` wrote.
use rns_icn.Prelude.{ℕ, ◌<◌, ◌^◌, ◌≡◌, refl, Bool, false, Option, none, some, arith, is_some}
use rns_icn.Prelude.{List, [], ◌∷◌, ◌++◌, length, append_assoc, Bool-cases, inl, inr}
use rns_icn.Wire.{ok, data_error, Encodes, read_if, write_opt, has_flag, slice, be_bytes}
use rns_icn.Wire.Numbers.{pack-be_bytes}
use rns_icn.Wire.Readers.{slice-append, read_be-append, optional_lem, read-end}
use rns_icn.Wire.Varint.{varint_lem}
use rns_icn.Name.{IsWire}
use rns_icn.Packet.Header.{write_name_lem}
use rns_icn.Packet.Metadata
use rns_icn.Packet.Metadata.{DataMetadata, stale_age, read_freshness}
use rns_icn.Packet.Metadata.RoundTrip
use rns_icn.Packet.Data
use rns_icn.Packet.Data.{Data, has_meta, data_flags, write_metadata, read_metadata, signature_bytes}

abbrev pub IsSignature : Option (List ℕ) → Type 0
IsSignature none = Unit
IsSignature (some s) = length s ≡ signature_bytes

-- What the wire form of a Data packet can carry.
pub record Fits (d : Data) : Type 0 where
  pub name_fits : IsWire d.name
  pub content_fits : length d.content < 2 ^ 32
  pub signature_size : IsSignature d.signature
  pub metadata_fits : RoundTrip.Fits d.metadata

-- The age of Data that is fresh does not go on the wire.
abbrev pub normal : Data → Data
normal d = record d { metadata = RoundTrip.normal d.metadata }

-- Metadata that stays off the wire says nothing.
no_meta-empty : (m : DataMetadata) → has_meta m ≡ false → RoundTrip.normal m ≡ Metadata.empty
unfolding has_meta stale_age read_freshness
no_meta-empty m h = ground arith

metadata_field_lem :
    (m : DataMetadata)
    → RoundTrip.Fits m
    → Encodes (write_metadata (has_meta m) m) (read_metadata (has_meta m)) (RoundTrip.normal m)
unfolding write_metadata read_metadata
metadata_field_lem m h = elim (Bool-cases (has_meta m)) [
  | inl e ↦
      let (bs, written, back, size) = RoundTrip.metadata_lem m h in
      let (len, len_written, len_back) = varint_lem (length bs) (omega arith) in
      (
        len ++ bs,
        rw (e, written, len_written),
        λ rest. rw (
          e,
          append_assoc len bs rest,
          len_back (bs ++ rest),
          slice-append data_error bs rest refl,
          back,
        ),
      )
  | inr e ↦ ([], rw e, λ rest. rw (e, no_meta-empty m e))
]

data_flags_lem :
    (a b : Bool) → (has_flag (data_flags a b) 0x01 ≡ a) × (has_flag (data_flags a b) 0x02 ≡ b)
unfolding data_flags has_flag
data_flags_lem a b = ground arith

signature_lem :
    (o : Option (List ℕ))
    → IsSignature o
    → Encodes (write_opt ok o) (read_if (is_some o) (slice data_error signature_bytes)) o
signature_lem o h =
    optional_lem ok (slice data_error signature_bytes) o
      (λ a e. (a, refl, λ rest. slice-append data_error a rest (rw e at h)))

-- The bytes of a Data packet, from those of its parts.
abbrev layout : Data → List ℕ → List ℕ → List ℕ → List ℕ → List ℕ
layout d name content_len metadata signature =
    2 ∷ 1 ∷ name
    ++ (content_len
        ++ (d.content
            ++ (data_flags (has_meta d.metadata) (is_some d.signature) ∷ metadata ++ signature)))

-- A Data packet whose name has the wire's shape, whose content is shorter than 2 ^ 32 bytes, whose
-- signature has 64 bytes if there is one, whose content hash has 32 and whose numbers fit 64 bits
-- is written without an error, and `from_bytes` reads it back, but for the age of Data that is
-- fresh, which comes back as 0.
pub data_lem :
    (d : Data)
    → Fits d
    → (bs : List ℕ) × (Data.to_bytes d ≡ ok bs) × (Data.from_bytes bs ≡ ok (normal d))
unfolding Data.to_bytes Data.from_bytes
data_lem d h =
    let (nw, n_written, n_back) = write_name_lem data_error d.name h.name_fits in
    let (mw, m_written, m_back) = metadata_field_lem d.metadata h.metadata_fits in
    let (sw, s_written, s_back) = signature_lem d.signature h.signature_size in
    let (f1, f2) = data_flags_lem (has_meta d.metadata) (is_some d.signature) in
    let lw = be_bytes 4 (length d.content) in
    (
      layout d nw lw mw sw,
      rw (
        n_written,
        pack-be_bytes 4 (length d.content) (omega (arith, h.content_fits)),
        m_written,
        s_written,
      ),
      rw (
        n_back _,
        read_be-append data_error 4 (length d.content) _ (omega (arith, h.content_fits)),
        slice-append data_error d.content _ refl,
        f1,
        m_back _,
        f2,
        read-end (read_if (is_some d.signature) (slice data_error 64)) d.signature sw s_back,
      ),
    )
