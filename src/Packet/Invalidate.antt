-- ===== src/Packet/Invalidate.antt =====
-- `Invalidate` of packet.py: the purge packet that a producer signs.
use rns_icn.Prelude.{ℕ, ◌<◌, ◌^◌, ◌≡◌, refl, Bool, false, Option, none, some, is_some, arith}
use rns_icn.Prelude.{List, [], ◌∷◌, ◌++◌, length, ◌==◌, nat_eq, if◌then◌else◌}
use rns_icn.Wire.{
  Result, ok, raise, ◌>>=◌, invalidate_error, slice, read_be, pack, set_flag, has_flag, be_bytes,
}
use rns_icn.Wire.{read_if, byte_at, parse_version, protocol_version, write_opt}
use rns_icn.Wire.Numbers.{pack-be_bytes}
use rns_icn.Wire.Readers.{slice-append, read_be-append, optional_lem, read-end}
use rns_icn.Name
use rns_icn.Name.{Name, IsWire}
use rns_icn.Packet.Header.{PacketType, type_byte, read_type, read_name, write_name, write_name_lem}
use rns_icn.Packet.Data.{Data, signature_bytes}
use rns_icn.Packet.Data.RoundTrip.{IsSignature}

pub record Invalidate : Type 0 where
  pub name : Name
  pub epoch : ℕ
  pub is_prefix : Bool
  pub signature : Option (List ℕ)

-- b"icn-invalidate\x01"
abbrev pub invalidate_domain : List ℕ
invalidate_domain =
    b'i' ∷ b'c' ∷ b'n' ∷ b'-' ∷ b'i' ∷ b'n' ∷ b'v' ∷ b'a' ∷ b'l' ∷ b'i' ∷ b'd' ∷ b'a' ∷ b't' ∷ b'e'
    ∷ 1 ∷ []

unfoldable pub prefix_byte : Bool → ℕ
prefix_byte is_prefix = if is_prefix then 1 else 0

-- what `signed_hash` feeds to BLAKE2b
unfoldable pub purge_bytes : Invalidate → Result (List ℕ)
unfolding Name.to_bytes pack prefix_byte
purge_bytes i = do
  name ← Name.to_bytes i.name
  epoch ← pack 8 i.epoch
  ok (invalidate_domain ++ (name ++ (epoch ++ (prefix_byte i.is_prefix ∷ []))))

unfoldable pub purge_hash : (List ℕ → List ℕ) → Invalidate → Result (List ℕ)
unfolding purge_bytes
purge_hash blake2b i = do bytes ← purge_bytes i; ok (blake2b bytes)

unfoldable pub sign_purge : (List ℕ → List ℕ) → (List ℕ → List ℕ) → Invalidate → Result Invalidate
unfolding purge_hash
sign_purge blake2b signer i = do
  h ← purge_hash blake2b i
  let sig = signer h
  if length sig == signature_bytes
      then ok (record i { signature = some sig })
      else raise invalidate_error

unfoldable pub verify_purge :
    (List ℕ → List ℕ) → (List ℕ → List ℕ → Bool) → Invalidate → Result Bool
unfolding purge_hash
verify_purge blake2b validator i = elim i.signature [
  | none ↦ ok false
  | some sig ↦ do h ← purge_hash blake2b i; ok (validator sig h)
]

unfoldable pub purge_flags : Bool → Bool → ℕ
unfolding set_flag
purge_flags is_prefix signed = set_flag signed 0x02 (set_flag is_prefix 0x01 0)

unfoldable pub to_bytes : Invalidate → Result (List ℕ)
unfolding write_name pack purge_flags write_opt type_byte
to_bytes i = do
  name ← write_name i.name
  epoch ← pack 8 i.epoch
  signature ← write_opt ok i.signature
  ok (
      type_byte PacketType.invalidate ∷ protocol_version ∷ name
      ++ (epoch ++ (purge_flags i.is_prefix (is_some i.signature) ∷ signature)))

unfoldable pub from_bytes : List ℕ → Result Invalidate
unfolding read_type parse_version read_name slice read_be byte_at has_flag read_if
from_bytes bs = do
  after_type ← read_type invalidate_error PacketType.invalidate bs
  (_, after_version) ← parse_version invalidate_error after_type
  (name, after_name) ← read_name invalidate_error after_version
  (epoch, after_epoch) ← read_be invalidate_error 8 after_name
  (flags, after_flags) ← byte_at invalidate_error after_epoch
  (signature, _) ←
      read_if (has_flag flags 0x02) (slice invalidate_error signature_bytes) after_flags
  ok (record { name = name; epoch = epoch; is_prefix = has_flag flags 0x01; signature = signature })

-- What the wire form can carry.
pub record Fits (i : Invalidate) : Type 0 where
  pub name_fits : IsWire i.name
  pub epoch_fits : i.epoch < 2 ^ 64
  pub signature_size : IsSignature i.signature

purge_flags_lem :
    (a b : Bool) → (has_flag (purge_flags a b) 0x01 ≡ a) × (has_flag (purge_flags a b) 0x02 ≡ b)
unfolding purge_flags has_flag
purge_flags_lem a b = ground arith

-- A purge whose name has the wire's shape, whose epoch fits 64 bits and whose signature has 64
-- bytes if there is one is written without an error and read back.
pub invalidate_lem :
    (i : Invalidate) → Fits i → (bs : List ℕ) × (to_bytes i ≡ ok bs) × (from_bytes bs ≡ ok i)
unfolding to_bytes from_bytes
invalidate_lem i h =
    let (nw, n_written, n_back) = write_name_lem invalidate_error i.name h.name_fits in
    let (sw, s_written, s_back) =
      optional_lem ok (slice invalidate_error signature_bytes) i.signature (λ a e.
        (a, refl, λ rest. slice-append invalidate_error a rest (rw e at h.signature_size))) in
    let (f1, f2) = purge_flags_lem i.is_prefix (is_some i.signature) in
    (
      6 ∷ 1 ∷ nw ++ (be_bytes 8 i.epoch ++ (purge_flags i.is_prefix (is_some i.signature) ∷ sw)),
      rw (n_written, pack-be_bytes 8 i.epoch (omega (arith, h.epoch_fits)), s_written),
      rw (
        n_back _,
        read_be-append invalidate_error 8 i.epoch _ (omega (arith, h.epoch_fits)),
        f2,
        read-end (read_if (is_some i.signature) (slice invalidate_error 64)) i.signature sw s_back,
        f1,
      ),
    )
