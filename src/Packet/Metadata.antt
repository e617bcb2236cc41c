-- ===== src/Packet/Metadata.antt =====
-- `Freshness` and `DataMetadata` of packet.py.
pub mod RoundTrip
use rns_icn.Prelude.{ℕ, ◌+◌, ◌≡◌, Bool, true, false, not, ◌||◌, Option, none, some, is_some}
use rns_icn.Prelude.{List, [], ◌∷◌, ◌++◌, if◌then◌else◌}
use rns_icn.Wire.{
  Result, ok, raise, ◌>>=◌, data_error, slice, read_be, pack, set_flag, has_flag, read_if,
  write_opt,
}

pub record Freshness : Type 0 where
  pub fresh : Bool
  pub age_seconds : ℕ

pub record DataMetadata : Type 0 where
  pub content_hash : Option (List ℕ)
  pub sequence : Option ℕ
  pub freshness : Freshness
  pub freshness_period : Option ℕ
  pub signed_at : Option ℕ
  pub encrypted : Bool

-- `DataMetadata()`
abbrev pub empty : DataMetadata
empty = record {
  content_hash = none;
  sequence = none;
  freshness = record { fresh = true; age_seconds = 0 };
  freshness_period = none;
  signed_at = none;
  encrypted = false;
}

-- the age, if it goes on the wire: `if not self.freshness.fresh`
unfoldable pub stale_age : Freshness → Option ℕ
stale_age f = if f.fresh then none else some f.age_seconds

-- `Freshness(fresh=True)`, or `Freshness(fresh=False, age_seconds=age)`
unfoldable pub read_freshness : Option ℕ → Freshness
read_freshness none = record { fresh = true; age_seconds = 0 }
read_freshness (some age) = record { fresh = false; age_seconds = age }

unfoldable pub metadata_flags : Bool → Bool → Bool → Bool → Bool → Bool → ℕ
unfolding set_flag
metadata_flags has_hash has_sequence stale has_period has_signed_at encrypted =
    set_flag encrypted 0x20 (
      set_flag has_signed_at 0x10 (
        set_flag has_period 0x08
          (set_flag stale 0x04 (set_flag has_sequence 0x02 (set_flag has_hash 0x01 0)))))

abbrev pub flags_of : DataMetadata → ℕ
flags_of m =
    metadata_flags (is_some m.content_hash) (is_some m.sequence) (not m.freshness.fresh)
      (is_some m.freshness_period) (is_some m.signed_at) m.encrypted

unfoldable pub to_bytes : DataMetadata → Result (List ℕ)
unfolding write_opt pack stale_age metadata_flags
to_bytes m = do
  content_hash ← write_opt ok m.content_hash
  sequence ← write_opt (pack 8) m.sequence
  age ← write_opt (pack 8) (stale_age m.freshness)
  period ← write_opt (pack 8) m.freshness_period
  signed_at ← write_opt (pack 8) m.signed_at
  ok (flags_of m ∷ content_hash ++ (sequence ++ (age ++ (period ++ signed_at))))

unfoldable pub from_bytes : List ℕ → Result DataMetadata
unfolding has_flag read_if slice read_be read_freshness
from_bytes [] = raise data_error
from_bytes (flags ∷ bs) = do
  (content_hash, after_hash) ← read_if (has_flag flags 0x01) (slice data_error 32) bs
  (sequence, after_sequence) ← read_if (has_flag flags 0x02) (read_be data_error 8) after_hash
  (age, after_age) ← read_if (has_flag flags 0x04) (read_be data_error 8) after_sequence
  (period, after_period) ← read_if (has_flag flags 0x08) (read_be data_error 8) after_age
  (signed_at, _) ← read_if (has_flag flags 0x10) (read_be data_error 8) after_period
  ok (record {
    content_hash = content_hash;
    sequence = sequence;
    freshness = read_freshness age;
    freshness_period = period;
    signed_at = signed_at;
    encrypted = has_flag flags 0x20;
  })
