-- ===== src/Name.antt =====
-- rns_icn/name.py: names, their wire form and the prefix order.
pub mod RoundTrip
pub mod Canonical
pub mod Prefix
pub mod Longest
pub mod Text
mod Runs
use rns_icn.Prelude.{
  ℕ, zero, suc, ◌+◌, ◌≤◌, ◌≡◌, ◌↔◌, Bool, true, false, ◌&&◌, ◌||◌, Option, none, some,
}
use rns_icn.Prelude.{
  List, [], ◌∷◌, ◌++◌, length, All, ltb, ◌==◌, nat_eq, list_eq, option_eq, list_beq_iff,
  option_beq_iff, HasEq, if◌then◌else◌, arith,
}
use rns_icn.Wire.{
  Result, Error, ok, raise, ◌>>=◌, name_error, index_error, append_byte, byte_at, slice,
}

abbrev pub hash_discriminator : ℕ
hash_discriminator = 0xff

abbrev pub max_components : ℕ
max_components = 32

abbrev pub rns_addr_bytes : ℕ
rns_addr_bytes = 16

abbrev pub content_hash_bytes : ℕ
content_hash_bytes = 32

pub record Name : Type 0 where
  pub components : List (List ℕ)
  pub content_hash : Option (List ℕ)

-- `Name.__init__`, its two checks included
unfoldable pub new : List ℕ → List (List ℕ) → Option (List ℕ) → Result Name
new rns_addr path none =
    if length rns_addr == rns_addr_bytes
    then ok (record { components = rns_addr ∷ path; content_hash = none })
    else raise name_error
new rns_addr path (some h) =
    if length rns_addr == rns_addr_bytes
    then (if length h == content_hash_bytes
        then ok (record { components = rns_addr ∷ path; content_hash = some h })
        else raise name_error)
    else raise name_error

-- the `for` loop of `Name.from_bytes`
unfoldable pub read_components : ℕ → List ℕ → Result (List (List ℕ) × List ℕ)
unfolding byte_at slice
read_components zero bs = ok ([], bs)
read_components (suc count) bs = do
  (clen, after_len) ← byte_at name_error bs
  (comp, after_comp) ← slice name_error clen after_len
  (comps, rest) ← read_components count after_comp
  ok (comp ∷ comps, rest)

-- its optional content hash
unfoldable pub read_content_hash : List ℕ → Result (Option (List ℕ))
unfolding slice
read_content_hash [] = ok none
read_content_hash (b ∷ bs) =
    if b == hash_discriminator
    then (do (h, _) ← slice name_error content_hash_bytes bs; ok (some h))
    else ok none

unfoldable pub from_bytes : List ℕ → Result Name
unfolding read_components read_content_hash
from_bytes [] = raise name_error
from_bytes (count ∷ bs) = if (count == 0) || ltb max_components count then raise name_error else (do
  (comps, rest) ← read_components count bs
  h ← read_content_hash rest
  ok (record { components = comps; content_hash = h }))

-- the `for` loop of `Name.to_bytes`
unfoldable pub write_components : List (List ℕ) → Result (List ℕ)
unfolding append_byte
write_components [] = ok []
write_components (comp ∷ comps) = do
  b ← append_byte (length comp)
  rest ← write_components comps
  ok (b ∷ comp ++ rest)

unfoldable pub write_content_hash : Option (List ℕ) → List ℕ
write_content_hash none = []
write_content_hash (some h) = hash_discriminator ∷ h

unfoldable pub to_bytes : Name → Result (List ℕ)
unfolding append_byte write_components write_content_hash
to_bytes n = do
  count ← append_byte (length n.components)
  comps ← write_components n.components
  ok (count ∷ comps ++ write_content_hash n.content_hash)

-- `with_content_hash`
unfoldable pub with_content_hash : Name → List ℕ → Result Name
with_content_hash n h =
    if length h == content_hash_bytes
    then ok (record n { content_hash = some h })
    else raise name_error

abbrev pub without_content_hash : Name → Name
without_content_hash n = record n { content_hash = none }

-- `Name.__eq__`
abbrev pub name_beq : Name → Name → Bool
name_beq a b = a.components == b.components && a.content_hash == b.content_hash

pub name_beq_iff : (a b : Name) → (name_beq a b ≡ true) ↔ (a ≡ b)
name_beq_iff a b =
    ground
      (arith, list_beq_iff a.components b.components, option_beq_iff a.content_hash b.content_hash)

instance abbrev pub name_eq : HasEq Name
name_eq = record { same = name_beq; agrees = name_beq_iff }

-- `all(a == b for a, b in zip(xs, ys))`
unfoldable pub all_equal : List (List ℕ) → List (List ℕ) → Bool
all_equal [] ys = true
all_equal (x ∷ xs) [] = true
all_equal (x ∷ xs) (y ∷ ys) = x == y && all_equal xs ys

unfoldable pub starts_with : Name → Name → Bool
unfolding all_equal
starts_with n prefix =
    if ltb (length n.components) (length prefix.components)
    then false
    else all_equal n.components prefix.components

-- `is_prefix_of`
unfoldable pub is_prefix_of : Name → Name → Bool
unfolding starts_with
is_prefix_of n other = starts_with other n

-- `rns_addr`
unfoldable pub rns_addr : Name → Result (List ℕ)
rns_addr n = elim n.components [ [] ↦ raise index_error | addr ∷ path ↦ ok addr ]

-- `is_root`
unfoldable pub is_root : Name → Bool
is_root n = length n.components == 1

abbrev pub IsHash : Option (List ℕ) → Type 0
IsHash none = Unit
IsHash (some h) = length h ≡ content_hash_bytes

-- What the wire form can carry.
pub record IsWire (n : Name) : Type 0 where
  pub some_component : 1 ≤ length n.components
  pub few_components : length n.components ≤ max_components
  pub short_components : All (λ c. length c ≤ 255) n.components
  pub hash_size : IsHash n.content_hash
