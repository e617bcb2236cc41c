-- ===== src/Packet/Subscribe.antt =====
-- `APSubscribe` of packet.py.
use rns_icn.Prelude.{ℕ, ◌≡◌, refl, Bool, arith}
use rns_icn.Prelude.{List, [], ◌∷◌, ◌++◌, length, append_assoc}
use rns_icn.Wire.{
  Result, ok, raise, ◌>>=◌, subscribe_error, interest_error, slice, set_flag, has_flag,
}
use rns_icn.Wire.{byte_at, parse_version, protocol_version, read_varint}
use rns_icn.Wire.Readers.{slice-append}
use rns_icn.Wire.Varint.{varint_lem}
use rns_icn.Name
use rns_icn.Name.{Name, IsWire}
use rns_icn.Name.RoundTrip.{name_lem}
use rns_icn.Packet.Header.{PacketType, type_byte, read_type, write_name}

pub record ApSubscribe : Type 0 where
  pub name : Name
  pub start_from_now : Bool

unfoldable pub to_bytes : ApSubscribe → Result (List ℕ)
unfolding write_name set_flag type_byte
to_bytes s = do
  name ← write_name s.name
  ok (
      type_byte PacketType.aps_subscribe ∷ protocol_version ∷ name
      ++ (set_flag s.start_from_now 0x01 0 ∷ []))

-- `except InterestError as e: raise SubscribeError`
unfoldable pub rename_interest_error {ℓ} : {A : Type ℓ} → Result A → Result A
rename_interest_error (ok a) = ok a
rename_interest_error (raise interest_error) = raise subscribe_error
rename_interest_error (raise e) = raise e

-- `except Exception as e: raise SubscribeError`
unfoldable pub rename_errors {ℓ} : {A : Type ℓ} → Result A → Result A
rename_errors (ok a) = ok a
rename_errors (raise e) = raise subscribe_error

unfoldable pub from_bytes : List ℕ → Result ApSubscribe
unfolding read_type parse_version read_varint slice byte_at has_flag Name.from_bytes
    rename_interest_error rename_errors
from_bytes bs = do
  after_type ← read_type subscribe_error PacketType.aps_subscribe bs
  (_, after_version) ← parse_version subscribe_error after_type
  (name_len, after_len) ← rename_interest_error (read_varint after_version)
  (name_bytes, after_name) ← slice subscribe_error name_len after_len
  name ← rename_errors (Name.from_bytes name_bytes)
  (flags, _) ← byte_at subscribe_error after_name
  ok (record { name = name; start_from_now = has_flag flags 0x01 })

flag_lem : (b : Bool) → has_flag (set_flag b 0x01 0) 0x01 ≡ b
unfolding has_flag set_flag
flag_lem b = ground arith

-- A subscription to a name of the wire's shape is written without an error and read back.
pub subscribe_lem :
    (s : ApSubscribe)
    → IsWire s.name
    → (bs : List ℕ) × (to_bytes s ≡ ok bs) × (from_bytes bs ≡ ok s)
unfolding to_bytes write_name from_bytes
subscribe_lem s h =
    let (nb, written, back, size) = name_lem s.name h in
    let (len, len_written, len_back) = varint_lem (length nb) (omega arith) in
    (
      3 ∷ 1 ∷ (len ++ nb) ++ (set_flag s.start_from_now 0x01 0 ∷ []),
      rw (written, len_written),
      rw (
        append_assoc len nb (set_flag s.start_from_now 0x01 0 ∷ []),
        len_back (nb ++ (set_flag s.start_from_now 0x01 0 ∷ [])),
        slice-append subscribe_error nb (set_flag s.start_from_now 0x01 0 ∷ []) refl,
        back,
        flag_lem s.start_from_now,
      ),
    )
