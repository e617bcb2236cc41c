-- ===== src/Wire/Varint.antt =====
-- The varint is read back, in the shortest of its four forms.
use rns_icn.Prelude.{ℕ, ◌^◌, ◌<◌, ◌≡◌, ◌∙◌, ap, arith, Bool-cases, inl, inr, nat_eq}
use rns_icn.Prelude.{
  List, [], ◌∷◌, ◌++◌, take, drop, take-append, drop-append, leb, ltb, if◌then◌else◌,
}
use mathlib.Core.Path.{subst}
use rns_icn.Wire.{be_bytes, ok, pack, unpack_slice, write_varint, read_varint, Encodes}
use rns_icn.Wire.Numbers.{length-be_bytes, unpack-be_bytes, pack-be_bytes}

take-be_bytes : (w v : ℕ) (rest : List ℕ) → take w (be_bytes w v ++ rest) ≡ be_bytes w v
take-be_bytes w v rest =
    subst (λ (n : ℕ). take n (be_bytes w v ++ rest) ≡ be_bytes w v) (length-be_bytes w v)
      (take-append (be_bytes w v) rest)

drop-be_bytes : (w v : ℕ) (rest : List ℕ) → drop w (be_bytes w v ++ rest) ≡ rest
drop-be_bytes w v rest =
    subst (λ (n : ℕ). drop n (be_bytes w v ++ rest) ≡ rest) (length-be_bytes w v)
      (drop-append (be_bytes w v) rest)

unpack_slice-append :
    (w v : ℕ) (rest : List ℕ) → v < 256 ^ w → unpack_slice w (be_bytes w v ++ rest) ≡ ok (v, rest)
unfolding unpack_slice
unpack_slice-append w v rest h =
    rw (take-be_bytes w v rest, drop-be_bytes w v rest, unpack-be_bytes w v h)

-- the four forms
abbrev form : ℕ → List ℕ
form v =
    if ltb v 0xfd
    then v ∷ []
    else if leb v 0xffff
    then 0xfd ∷ be_bytes 2 v
    else if leb v 0xffff_ffff
    then 0xfe ∷ be_bytes 4 v
    else 0xff ∷ be_bytes 8 v

one_byte : (v : ℕ) → v < 256 → pack 1 v ≡ ok (v ∷ [])
unfolding be_bytes
one_byte v h = pack-be_bytes 1 v h ∙ ap (λ (n : ℕ). ok (n ∷ [])) (omega arith)

write_varint-form : (v : ℕ) → v < 2 ^ 64 → write_varint v ≡ ok (form v)
unfolding write_varint
write_varint-form v h =
    ground (arith, one_byte v, pack-be_bytes 2 v, pack-be_bytes 4 v, pack-be_bytes 8 v)

read_varint-form :
    (v : ℕ) (rest : List ℕ) → v < 2 ^ 64 → read_varint (form v ++ rest) ≡ ok (v, rest)
unfolding read_varint
read_varint-form v rest h = elim (Bool-cases (ltb v 0xfd)) [
  | inl a ↦ rw (a, a)
  | inr a ↦ elim (Bool-cases (leb v 0xffff)) [
    | inl b ↦ rw (a, b) (unpack_slice-append 2 v rest (ground arith))
    | inr b ↦ elim (Bool-cases (leb v 0xffff_ffff)) [
      | inl c ↦ rw (a, b, c) (unpack_slice-append 4 v rest (ground arith))
      | inr c ↦ rw (a, b, c) (unpack_slice-append 8 v rest (omega arith))
    ]
  ]
]

-- Every number below 2 ^ 64 is written, and read back whatever follows it.
pub varint_lem : (v : ℕ) → v < 2 ^ 64 → Encodes (write_varint v) read_varint v
varint_lem v h = (form v, write_varint-form v h, λ rest. read_varint-form v rest h)
