-- ===== src/Packet/Metadata/RoundTrip.antt =====
-- `DataMetadata.from_bytes` reads back what `DataMetadata.to_bytes` wrote.
use rns_icn.Prelude.{
  ℕ, ◌≤◌, ◌<◌, ◌^◌, ◌≡◌, refl, sym, ◌∙◌, Bool, not, Option, none, some, arith, is_some,
}
use rns_icn.Prelude.{List, ◌∷◌, ◌++◌, length, length-append}
use rns_icn.Wire.{ok, data_error, Encodes, read_if, write_opt, has_flag, slice, read_be, pack}
use rns_icn.Wire.Numbers.{length-be_bytes}
use rns_icn.Wire.Readers.{slice-append, optional_lem, number_lem, read-end}
use rns_icn.Name.{IsHash}
use rns_icn.Packet.Selector.{FitsU64, FitsU64-some}
use rns_icn.Packet.Metadata
use rns_icn.Packet.Metadata.{
  Freshness, DataMetadata, stale_age, read_freshness, metadata_flags, flags_of,
}

-- What the wire form can carry.
pub record Fits (m : DataMetadata) : Type 0 where
  pub hash_size : IsHash m.content_hash
  pub sequence_fits : FitsU64 m.sequence
  pub age_fits : m.freshness.age_seconds < 2 ^ 64
  pub period_fits : FitsU64 m.freshness_period
  pub signed_at_fits : FitsU64 m.signed_at

-- The age of Data that is fresh does not go on the wire.
abbrev pub normal : DataMetadata → DataMetadata
normal m = record m { freshness = read_freshness (stale_age m.freshness) }

hash_lem :
    (o : Option (List ℕ))
    → IsHash o
    → Encodes (write_opt ok o) (read_if (is_some o) (slice data_error 32)) o
hash_lem o h =
    optional_lem ok (slice data_error 32) o
      (λ a e. (a, refl, λ rest. slice-append data_error a rest (rw e at h)))

number_opt_lem :
    (o : Option ℕ)
    → FitsU64 o
    → Encodes (write_opt (pack 8) o) (read_if (is_some o) (read_be data_error 8)) o
number_opt_lem o h =
    optional_lem (pack 8) (read_be data_error 8) o
      (λ v e. number_lem data_error 8 v (FitsU64-some o v h e))

length-number_opt : (o : Option ℕ) (w : List ℕ) → write_opt (pack 8) o ≡ ok w → length w ≤ 8
unfolding write_opt pack
length-number_opt none w e = ground arith
length-number_opt (some v) w e = ground (arith, length-be_bytes 8 v)

length-hash : (o : Option (List ℕ)) (w : List ℕ) → IsHash o → write_opt ok o ≡ ok w → length w ≤ 32
unfolding write_opt
length-hash none w h e = ground arith
length-hash (some v) w h e = ground arith

stale_age-FitsU64 : (f : Freshness) → f.age_seconds < 2 ^ 64 → FitsU64 (stale_age f)
unfolding stale_age
stale_age-FitsU64 f h = ground arith

is_some-stale_age : (f : Freshness) → is_some (stale_age f) ≡ not f.fresh
unfolding stale_age
is_some-stale_age f = ground arith

metadata_flags_lem :
    (a b c d e f : Bool)
    → (has_flag (metadata_flags a b c d e f) 0x01 ≡ a)
      × (has_flag (metadata_flags a b c d e f) 0x02 ≡ b)
      × (has_flag (metadata_flags a b c d e f) 0x04 ≡ c)
      × (has_flag (metadata_flags a b c d e f) 0x08 ≡ d)
      × (has_flag (metadata_flags a b c d e f) 0x10 ≡ e)
      × (has_flag (metadata_flags a b c d e f) 0x20 ≡ f)
unfolding metadata_flags has_flag
metadata_flags_lem a b c d e f = ground arith

-- Metadata that fits the wire is written and read back, as `normal` has it.
pub metadata_lem :
    (m : DataMetadata)
    → Fits m
    → (bs : List ℕ) × (Metadata.to_bytes m ≡ ok bs)
      × (Metadata.from_bytes bs ≡ ok (normal m))
      × (length bs ≤ 65)
unfolding Metadata.to_bytes Metadata.from_bytes
metadata_lem m h =
    let (hw, h_written, h_back) = hash_lem m.content_hash h.hash_size in
    let (qw, q_written, q_back) = number_opt_lem m.sequence h.sequence_fits in
    let (aw, a_written, a_back) =
      number_opt_lem (stale_age m.freshness) (stale_age-FitsU64 m.freshness h.age_fits) in
    let (pw, p_written, p_back) = number_opt_lem m.freshness_period h.period_fits in
    let (tw, t_written, t_back) = number_opt_lem m.signed_at h.signed_at_fits in
    let (f1, f2, f4, f8, f16, f32) =
      metadata_flags_lem (is_some m.content_hash) (is_some m.sequence) (not m.freshness.fresh)
        (is_some m.freshness_period) (is_some m.signed_at) m.encrypted in
    (
      flags_of m ∷ hw ++ (qw ++ (aw ++ (pw ++ tw))),
      rw (h_written, q_written, a_written, p_written, t_written),
      rw (
        f1,
        h_back _,
        f2,
        q_back _,
        f4 ∙ sym (is_some-stale_age m.freshness),
        a_back _,
        f8,
        p_back _,
        f16,
        read-end (read_if (is_some m.signed_at) (read_be data_error 8)) m.signed_at tw t_back,
        f32,
      ),
      omega (
        arith,
        length-append hw (qw ++ (aw ++ (pw ++ tw))),
        length-append qw (aw ++ (pw ++ tw)),
        length-append aw (pw ++ tw),
        length-append pw tw,
        length-hash m.content_hash hw h.hash_size h_written,
        length-number_opt m.sequence qw q_written,
        length-number_opt (stale_age m.freshness) aw a_written,
        length-number_opt m.freshness_period pw p_written,
        length-number_opt m.signed_at tw t_written,
      ),
    )
