-- ===== src/Wire.antt =====
-- The byte level of rns_icn/packet.py and rns_icn/name.py: the exceptions as values, what the
-- code uses of Python's `struct`, the varint, and the cursor `pos` over a buffer. A byte string is
-- a list of numbers, and a reader is handed `data[pos:]` in place of `data` and `pos`.
pub mod Numbers
pub mod Readers
pub mod Varint
use Prim.Native.Nat.{bit_and, bit_or}
use rns_icn.Prelude.{
  ℕ, zero, suc, ◌+◌, ◌*◌, ◌/◌, ◌%◌, ◌^◌, ◌<◌, ◌≡◌, Bool, true, false, not, Option, none, some,
}
use rns_icn.Prelude.{List, [], ◌∷◌, ◌++◌, length, take, drop, leb, ltb, ◌==◌, if◌then◌else◌}
use rns_icn.Prelude.{nat_eq}

-- The exception classes of packet.py, name.py, chunker.py and assembler.py, three of Python that
-- these raise, and `out_of_fuel` for a loop that does not end.
pub data Error : Type 0 where
  name_error interest_error data_error subscribe_error : Error
  invalidate_error nack_error unsupported_version : Error
  value_error index_error struct_error : Error
  empty_content missing_chunk hash_mismatch integrity_error signature_error out_of_fuel : Error
  access_error discovery_error propagation_error runtime_error timeout_error overflow_error : Error

pub data Result {ℓ} (A : Type ℓ) : Type ℓ where
  ok : A → Result A
  raise : Error → Result A

infixl 5 ◌>>=◌
abbrev pub ◌>>=◌ {ℓ κ} : {A : Type ℓ} {B : Type κ} → Result A → (A → Result B) → Result B
ok a >>= f = f a
raise e >>= f = raise e

abbrev pub IsByte : ℕ → Type 0
IsByte b = b < 256

-- The `w` big-endian bytes of `v`.
unfoldable pub be_bytes : ℕ → ℕ → List ℕ
be_bytes zero v = []
be_bytes (suc w) v = be_bytes w (v / 256) ++ ((v % 256) ∷ [])

unfoldable pub be_value_from : ℕ → List ℕ → ℕ
be_value_from acc [] = acc
be_value_from acc (b ∷ bs) = be_value_from (acc * 256 + b) bs

unfoldable pub be_value : List ℕ → ℕ
unfolding be_value_from
be_value = be_value_from 0

-- `struct.pack(">B|H|I|Q", v)` at `w` bytes
unfoldable pub pack : ℕ → ℕ → Result (List ℕ)
pack w v = if ltb v (256 ^ w) then ok (be_bytes w v) else raise struct_error

-- `struct.unpack(…, bs)[0]`: the buffer has the format's size, or it raises
unfoldable pub unpack : ℕ → List ℕ → Result ℕ
unpack w bs = if length bs == w then ok (be_value bs) else raise struct_error

-- `buf.append(n)`
unfoldable pub append_byte : ℕ → Result ℕ
append_byte n = if ltb n 256 then ok n else raise value_error

-- `if pos >= len(data): raise e`, then `data[pos]` and `pos += 1`
unfoldable pub byte_at : Error → List ℕ → Result (ℕ × List ℕ)
byte_at e [] = raise e
byte_at e (b ∷ rest) = ok (b, rest)

-- `if pos + n > len(data): raise e`, then `data[pos:pos + n]` and `pos += n`
unfoldable pub slice : Error → ℕ → List ℕ → Result (List ℕ × List ℕ)
slice e n bs = if leb n (length bs) then ok (take n bs, drop n bs) else raise e

-- the same, with the slice unpacked as a big-endian number
unfoldable pub read_be : Error → ℕ → List ℕ → Result (ℕ × List ℕ)
read_be e n bs = do (s, rest) ← slice e n bs; v ← unpack n s; ok (v, rest)

abbrev pub protocol_version : ℕ
protocol_version = 1

-- `SUPPORTED_VERSIONS` holds 1 alone.
unfoldable pub parse_version : Error → List ℕ → Result (ℕ × List ℕ)
unfolding byte_at
parse_version e bs = do
  (version, rest) ← byte_at e bs
  if version == protocol_version then ok (version, rest) else raise unsupported_version

-- `_write_varint`
unfoldable pub write_varint : ℕ → Result (List ℕ)
unfolding pack
write_varint value =
    if ltb value 0xfd
    then pack 1 value
    else if leb value 0xffff
    then (do w ← pack 2 value; ok (0xfd ∷ w))
    else if leb value 0xffff_ffff
    then (do w ← pack 4 value; ok (0xfe ∷ w))
    else (do w ← pack 8 value; ok (0xff ∷ w))

-- `struct.unpack(…, data[offset + 1: offset + 1 + w])`: a short slice is not checked here.
unfoldable pub unpack_slice : ℕ → List ℕ → Result (ℕ × List ℕ)
unfolding unpack
unpack_slice w bs = do v ← unpack w (take w bs); ok (v, drop w bs)

-- `_read_varint`, which raises `InterestError` whatever the packet is
unfoldable pub read_varint : List ℕ → Result (ℕ × List ℕ)
unfolding unpack_slice
read_varint [] = raise interest_error
read_varint (b ∷ rest) =
    if ltb b 0xfd
    then ok (b, rest)
    else if b == 0xfd
    then unpack_slice 2 rest
    else if b == 0xfe
    then unpack_slice 4 rest
    else unpack_slice 8 rest

-- `if test: flags |= mask`
unfoldable pub set_flag : Bool → ℕ → ℕ → ℕ
set_flag test mask flags = if test then bit_or flags mask else flags

-- `bool(flags & mask)`
unfoldable pub has_flag : ℕ → ℕ → Bool
has_flag flags mask = not (bit_and flags mask == 0)

-- `if flags & mask: …`, for a field that is there or not
unfoldable pub read_if {ℓ} :
    {A : Type ℓ} → Bool → (List ℕ → Result (A × List ℕ)) → List ℕ → Result (Option A × List ℕ)
read_if false read bs = ok (none, bs)
read_if true read bs = do (a, rest) ← read bs; ok (some a, rest)

-- `if field is not None: buf.extend(…)`
unfoldable pub write_opt {ℓ} : {A : Type ℓ} → (A → Result (List ℕ)) → Option A → Result (List ℕ)
write_opt write none = ok []
write_opt write (some a) = write a

-- What is written by `r` is read back by `parse` as `a`, whatever follows it.
abbrev pub Encodes {ℓ} :
    {A : Type ℓ} → Result (List ℕ) → (List ℕ → Result (A × List ℕ)) → A → Type ℓ
Encodes r parse a = (w : List ℕ) × (r ≡ ok w) × ((rest : List ℕ) → parse (w ++ rest) ≡ ok (a, rest))

-- `P` holds of the result, if there is one.
abbrev pub IfOk {ℓ κ} : {A : Type ℓ} → (A → Type κ) → Result A → Type κ
IfOk P (ok a) = P a
IfOk P (raise e) = Unit
