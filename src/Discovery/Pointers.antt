-- ===== src/Discovery/Pointers.antt =====
-- What the reserved names and the pointers promise.
use rns_icn.Prelude.{ℕ, ◌≡◌, refl, true, Option, none}
use rns_icn.Prelude.{List, [], ◌∷◌, ◌++◌, length, nat_eq}
use rns_icn.Wire.{ok}
use rns_icn.Name
use rns_icn.Name.{Name, IsWire, rns_addr, starts_with}
use rns_icn.Name.RoundTrip.{name_lem}
use rns_icn.Name.Prefix.{starts_with_iff}
use rns_icn.Discovery.{
  meta_label, meta_name, is_reserved_at, is_reserved_label, is_reserved, encode_meta, decode_meta,
}

-- A pointer to a name of the wire's shape is written without an error and read back.
pub decode_meta-encode_meta :
    (target : Name)
    → IsWire target
    → (bs : List ℕ) × (encode_meta target ≡ ok bs) × (decode_meta bs ≡ ok target)
unfolding encode_meta decode_meta
decode_meta-encode_meta target h =
    let (bs, written, back, _) = name_lem target h in (1 ∷ bs, rw written, rw back)

is_reserved_at-append :
    (cs : List (List ℕ)) (label : List ℕ)
    → is_reserved_at (cs ++ (label ∷ [])) ≡ ok (is_reserved_label label)
unfolding is_reserved_at
is_reserved_at-append [] label = refl
is_reserved_at-append (c ∷ []) label = refl
is_reserved_at-append (c ∷ d ∷ cs) label = is_reserved_at-append (d ∷ cs) label

-- Under a prefix with an address of 16 bytes `meta_name` gives a reserved name that starts with the
-- prefix; so the pointer lies in the collection, and a child selector passes it over.
pub meta_name-is_reserved :
    (addr : List ℕ) (path : List (List ℕ)) (h : Option (List ℕ))
    → length addr ≡ 16
    → (n : Name) × (meta_name (record { components = addr ∷ path; content_hash = h }) ≡ ok n)
      × (is_reserved n ≡ ok true)
      × (starts_with n (record { components = addr ∷ path; content_hash = h }) ≡ true)
unfolding meta_name rns_addr Name.new is_reserved is_reserved_label
meta_name-is_reserved addr path h size = (
  record { components = addr ∷ path ++ (meta_label ∷ []); content_hash = none },
  rw size,
  is_reserved_at-append (addr ∷ path) meta_label,
  (starts_with_iff _ _).1 (meta_label ∷ [], refl),
)
