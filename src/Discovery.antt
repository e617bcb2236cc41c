-- ===== src/Discovery.antt =====
-- rns_icn/discovery.py: the reserved names, and the pointer to the latest version.
pub mod Pointers
use rns_icn.Prelude.{ℕ, Bool, true, false, Option, none, some}
use rns_icn.Prelude.{List, [], ◌∷◌, ◌++◌, drop, ◌==◌, nat_eq, if◌then◌else◌}
use rns_icn.Wire.{Result, ok, raise, ◌>>=◌, index_error, discovery_error}
use rns_icn.Name
use rns_icn.Name.{Name, rns_addr}

-- b"\x00m"
abbrev pub meta_label : List ℕ
meta_label = 0 ∷ b'm' ∷ []

-- b"\x00c"
abbrev pub catalog_label : List ℕ
catalog_label = 0 ∷ b'c' ∷ []

abbrev pub meta_fmt : ℕ
meta_fmt = 1

-- `Name(prefix.rns_addr, [*prefix.components[1:], label])`
unfoldable pub child_name : Name → List ℕ → Result Name
unfolding rns_addr Name.new
child_name prefix label = do
  addr ← rns_addr prefix
  Name.new addr (drop 1 prefix.components ++ (label ∷ [])) none

unfoldable pub meta_name : Name → Result Name
unfolding child_name
meta_name prefix = child_name prefix meta_label

unfoldable pub catalog_name : Name → Result Name
unfolding child_name
catalog_name prefix = child_name prefix catalog_label

-- `len(last) > 0 and last[0] == 0x00`
unfoldable pub is_reserved_label : List ℕ → Bool
is_reserved_label [] = false
is_reserved_label (b ∷ bs) = b == 0

-- at the components; `components[-1]` of an empty list is an IndexError
unfoldable pub is_reserved_at : List (List ℕ) → Result Bool
unfolding is_reserved_label
is_reserved_at [] = raise index_error
is_reserved_at (c ∷ []) = ok (is_reserved_label c)
is_reserved_at (c ∷ d ∷ cs) = is_reserved_at (d ∷ cs)

unfoldable pub is_reserved : Name → Result Bool
unfolding is_reserved_at
is_reserved name = is_reserved_at name.components

unfoldable pub encode_meta : Name → Result (List ℕ)
unfolding Name.to_bytes
encode_meta target = do bytes ← Name.to_bytes target; ok (meta_fmt ∷ bytes)

-- `except Exception as e: raise DiscoveryError`
unfoldable pub rename_errors {ℓ} : {A : Type ℓ} → Result A → Result A
rename_errors (ok a) = ok a
rename_errors (raise e) = raise discovery_error

unfoldable pub decode_meta : List ℕ → Result Name
unfolding rename_errors Name.from_bytes
decode_meta [] = raise discovery_error
decode_meta (b ∷ bs) =
    if b == meta_fmt then rename_errors (Name.from_bytes bs) else raise discovery_error
