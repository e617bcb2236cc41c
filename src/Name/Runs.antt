-- ===== src/Name/Runs.antt =====
-- Concrete runs on names.
use rns_icn.Prelude.{ℕ, ◌≡◌, ◌++◌, ◌↔◌, refl, List, [], ◌∷◌, replicate, none, true, arith}
use rns_icn.Wire.{ok}
use rns_icn.Name
use rns_icn.Name.{Name, IsWire, starts_with, all_equal}
use rns_icn.Name.RoundTrip.{from_bytes-to_bytes}
use rns_icn.Name.Canonical.{to_bytes-from_bytes}
use rns_icn.Name.Prefix.{Extends, starts_with_iff, starts_with-linear}
use rns_icn.Samples.{alice, alice_b, root, alice-IsWire}

from_bytes-to_bytes_example :
    (bs : List ℕ) × (Name.to_bytes alice ≡ ok bs) × (Name.from_bytes bs ≡ ok alice)
from_bytes-to_bytes_example = from_bytes-to_bytes alice alice-IsWire

abbrev long_name : Name
long_name = record { components = replicate 33 []; content_hash = none }

-- One component, and a byte that is not read.
abbrev buffer : List ℕ
buffer = 1 ∷ 2 ∷ 5 ∷ 6 ∷ 3 ∷ []

abbrev buffer_name : Name
buffer_name = record { components = (5 ∷ 6 ∷ []) ∷ []; content_hash = none }

read_buffer : Name.from_bytes buffer ≡ ok buffer_name
unfolding Name.from_bytes
read_buffer = refl

to_bytes-from_bytes_example :
    IsWire buffer_name
    × ((w rest : List ℕ) × (Name.to_bytes buffer_name ≡ ok w) × (buffer ≡ w ++ rest))
to_bytes-from_bytes_example = to_bytes-from_bytes buffer buffer_name (omega arith) read_buffer

starts_with_iff_example :
    (starts_with alice_b alice ≡ true) ↔ Extends alice_b.components alice.components
starts_with_iff_example = starts_with_iff alice_b alice

starts_with-linear_example : starts_with alice root ≡ true
unfolding starts_with
starts_with-linear_example = starts_with-linear alice_b root alice refl refl (omega arith)
