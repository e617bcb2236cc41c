-- ===== src/Name/Text.antt =====
-- `Name.__str__` of name.py. A text is the list of its code points, and `decode` is Python's UTF-8
-- decoder, `none` where it raises.
use rns_icn.Prelude.{ℕ, ◌+◌, ◌/◌, ◌%◌, Option, none, some}
use rns_icn.Prelude.{List, [], ◌∷◌, ◌++◌, length, ltb, ◌==◌, nat_eq, if◌then◌else◌}
use rns_icn.Name.{Name, rns_addr_bytes}

abbrev hex_digit : ℕ → ℕ
hex_digit d = if ltb d 10 then 48 + d else 87 + d

-- `bytes.hex()`
unfoldable pub hex : List ℕ → List ℕ
hex [] = []
hex (b ∷ bs) = hex_digit (b / 16) ∷ hex_digit (b % 16) ∷ hex bs

module _ (decode : List ℕ → Option (List ℕ)) where
  unfoldable pub decode_or_hex : List ℕ → List ℕ
  unfolding hex
  decode_or_hex comp = elim (decode comp) [ none ↦ hex comp | some text ↦ text ]

  -- the parts, each behind its "/"
  unfoldable pub rest_text : List (List ℕ) → List ℕ
  unfolding decode_or_hex
  rest_text [] = []
  rest_text (comp ∷ comps) = b'/' ∷ decode_or_hex comp ++ rest_text comps

  unfoldable pub parts_text : List (List ℕ) → List ℕ
  unfolding rest_text hex
  parts_text [] = b'/' ∷ []
  parts_text (addr ∷ comps) =
      b'/' ∷ (if length addr == rns_addr_bytes then hex addr else decode_or_hex addr)
      ++ rest_text comps

  unfoldable pub hash_text : Option (List ℕ) → List ℕ
  unfolding hex
  hash_text none = []
  hash_text (some h) = b'?' ∷ b'h' ∷ b'a' ∷ b's' ∷ b'h' ∷ b'=' ∷ hex h

  unfoldable pub to_string : Name → List ℕ
  unfolding parts_text hash_text
  to_string n = parts_text n.components ++ hash_text n.content_hash
