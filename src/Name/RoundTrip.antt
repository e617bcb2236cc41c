-- ===== src/Name/RoundTrip.antt =====
-- `Name.from_bytes` reads back what `Name.to_bytes` wrote.
use rns_icn.Prelude.{ℕ, ◌*◌, ◌≤◌, ◌<◌, ◌≡◌, refl, Option, none, some, arith}
use rns_icn.Prelude.{List, [], ◌∷◌, ◌++◌, length, length-append, All, nat_eq, append_assoc}
use rns_icn.Wire.{ok, raise, name_error}
use rns_icn.Wire.Readers.{slice-append, slice_self}
use rns_icn.Name
use rns_icn.Name.{
  Name, IsHash, IsWire, read_components, read_content_hash, write_components, write_content_hash,
}

-- The bytes of the components: their number is bounded, and they are read back.
components_lem :
    (cs : List (List ℕ))
    → All (λ c. length c ≤ 255) cs
    → (w : List ℕ) × (write_components cs ≡ ok w)
      × (length w ≤ 256 * length cs)
      × ((rest : List ℕ) → read_components (length cs) (w ++ rest) ≡ ok (cs, rest))
unfolding write_components read_components
components_lem [] h = ([], refl, omega arith, λ rest. refl)
components_lem (c ∷ cs) (hc, hcs) =
    let (w, written, size, back) = components_lem cs hcs in
    (
      length c ∷ c ++ w,
      ground arith,
      omega (arith, length-append c w),
      λ rest. rw (append_assoc c w rest, slice-append name_error c (w ++ rest) refl, back rest),
    )

content_hash_lem :
    (h : Option (List ℕ)) → IsHash h → read_content_hash (write_content_hash h) ≡ ok h
unfolding write_content_hash read_content_hash
content_hash_lem none k = refl
content_hash_lem (some h) k = rw (slice_self name_error h k)

length-write_content_hash : (h : Option (List ℕ)) → IsHash h → length (write_content_hash h) ≤ 33
unfolding write_content_hash
length-write_content_hash none k = omega arith
length-write_content_hash (some h) k = omega arith

-- The same with the size of the encoding, which the packets need for their length prefix.
pub name_lem :
    (n : Name)
    → IsWire n
    → (bs : List ℕ) × (Name.to_bytes n ≡ ok bs) × (Name.from_bytes bs ≡ ok n) × (length bs ≤ 8226)
unfolding Name.to_bytes Name.from_bytes
name_lem n h =
    let (w, written, size, back) = components_lem n.components h.short_components in
    (
      length n.components ∷ w ++ write_content_hash n.content_hash,
      rw written (ground arith),
      rw (back (write_content_hash n.content_hash), content_hash_lem n.content_hash h.hash_size)
          (ground arith),
      omega (
        arith,
        length-append w (write_content_hash n.content_hash),
        length-write_content_hash n.content_hash h.hash_size,
      ),
    )

-- Every name with 1 to 32 components of at most 255 bytes, and a content hash of 32 bytes if it
-- has one, is written without an error, and `from_bytes` reads the same name back.
pub from_bytes-to_bytes :
    (n : Name) → IsWire n → (bs : List ℕ) × (Name.to_bytes n ≡ ok bs) × (Name.from_bytes bs ≡ ok n)
from_bytes-to_bytes n h = let (bs, written, back, _) = name_lem n h in (bs, written, back)

-- A name with 33 to 255 components, each of at most 255 bytes, is written without an error, and
-- `from_bytes` refuses what was written.
pub from_bytes-to_bytes_too_many :
    (n : Name)
    → 32 < length n.components
    → length n.components ≤ 255
    → All (λ c. length c ≤ 255) n.components
    → (bs : List ℕ) × (Name.to_bytes n ≡ ok bs) × (Name.from_bytes bs ≡ raise name_error)
unfolding Name.to_bytes Name.from_bytes
from_bytes-to_bytes_too_many n many few short =
    let (w, written, size, back) = components_lem n.components short in
    (
      length n.components ∷ w ++ write_content_hash n.content_hash,
      rw written (ground arith),
      ground arith,
    )
