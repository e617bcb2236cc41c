-- ===== src/Packet/Selector.antt =====
-- `InterestSelector` of packet.py.
use rns_icn.Prelude.{
  ℕ, ◌<◌, ◌^◌, ◌≡◌, Bool, true, false, not, ◌&&◌, Option, none, some, is_some, arith,
}
use rns_icn.Prelude.{List, [], ◌∷◌, nat_eq, if◌then◌else◌}
use rns_icn.Wire.{
  Result, ok, raise, ◌>>=◌, interest_error, read_be, pack, Encodes, set_flag, has_flag, read_if,
  write_opt,
}
use rns_icn.Wire.Readers.{optional_lem, number_lem}

pub data ChildSelector : Type 0 where
  child_none latest oldest : ChildSelector

pub record InterestSelector : Type 0 where
  pub min_sequence : Option ℕ
  pub child : ChildSelector

abbrev pub is_latest : ChildSelector → Bool
is_latest latest = true
is_latest _ = false

abbrev pub is_oldest : ChildSelector → Bool
is_oldest oldest = true
is_oldest _ = false

unfoldable pub is_empty : InterestSelector → Bool
is_empty s = not (is_some s.min_sequence) && (not (is_latest s.child) && not (is_oldest s.child))

unfoldable pub selector_flags : InterestSelector → ℕ
unfolding set_flag
selector_flags s =
    set_flag (is_oldest s.child) 0x04
      (set_flag (is_latest s.child) 0x02 (set_flag (is_some s.min_sequence) 0x01 0))

unfoldable pub to_bytes : InterestSelector → Result (List ℕ)
unfolding selector_flags pack write_opt
to_bytes s = do
  min_sequence ← write_opt (pack 8) s.min_sequence
  ok (selector_flags s ∷ min_sequence)

unfoldable pub read_child : ℕ → ChildSelector
unfolding has_flag
read_child flags =
    if has_flag flags 0x02 then latest else if has_flag flags 0x04 then oldest else child_none

-- The number of bytes consumed is what is missing from the rest.
unfoldable pub from_bytes : List ℕ → Result (InterestSelector × List ℕ)
unfolding has_flag read_if read_be read_child
from_bytes [] = raise interest_error
from_bytes (flags ∷ bs) =
    if has_flag flags 0x02 && has_flag flags 0x04 then raise interest_error else (do
      (min_sequence, rest) ← read_if (has_flag flags 0x01) (read_be interest_error 8) bs
      ok (record { min_sequence = min_sequence; child = read_child flags }, rest))

abbrev pub FitsU64 : Option ℕ → Type 0
FitsU64 none = Unit
FitsU64 (some v) = v < 2 ^ 64

pub FitsU64-some : (o : Option ℕ) (v : ℕ) → FitsU64 o → o ≡ some v → v < 256 ^ 8
FitsU64-some none v h e = cc
FitsU64-some (some u) v h e = ground arith

flags_lem :
    (s : InterestSelector)
    → (has_flag (selector_flags s) 0x01 ≡ is_some s.min_sequence)
      × (read_child (selector_flags s) ≡ s.child)
      × (has_flag (selector_flags s) 0x02 && has_flag (selector_flags s) 0x04 ≡ false)
unfolding selector_flags has_flag read_child
flags_lem s = ground arith

-- A selector whose sequence number fits 64 bits is read back.
pub selector_lem :
    (s : InterestSelector) → FitsU64 s.min_sequence → Encodes (to_bytes s) from_bytes s
unfolding to_bytes from_bytes
selector_lem s h =
    let (has_min, child, one_child) = flags_lem s in
    let (w, written, back) =
      optional_lem (pack 8) (read_be interest_error 8) s.min_sequence
        (λ v e. number_lem interest_error 8 v (FitsU64-some s.min_sequence v h e)) in
    (selector_flags s ∷ w, rw written, λ rest. rw (one_child, has_min, back rest, child))
