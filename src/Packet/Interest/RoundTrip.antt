-- ===== src/Packet/Interest/RoundTrip.antt =====
-- `Interest.from_bytes` reads back what `Interest.to_bytes` wrote.
use rns_icn.Prelude.{ℕ, ◌≤◌, ◌<◌, ◌^◌, ◌%◌, ◌≡◌, refl, Bool, true, Option, none, some, arith}
use rns_icn.Prelude.{List, [], ◌∷◌, ◌++◌, length, nat_eq, Bool-cases, inl, inr}
use rns_icn.Wire.{ok, interest_error, Encodes, read_if, has_flag, be_bytes}
use rns_icn.Wire.Numbers.{pack-be_bytes}
use rns_icn.Wire.Readers.{slice-append, read_be-append}
use rns_icn.Name.{IsWire}
use rns_icn.Packet.Header.{write_name_lem}
use rns_icn.Packet.Selector
use rns_icn.Packet.Selector.{InterestSelector, FitsU64, selector_lem}
use rns_icn.Packet.Interest
use rns_icn.Packet.Interest.{
  Interest, wire_selector, write_selector, has_selector, interest_flags, read_hop_limit, post_init,
}

abbrev pub FitsSelector : Option InterestSelector → Type 0
FitsSelector none = Unit
FitsSelector (some s) = FitsU64 s.min_sequence

-- What the wire form of an Interest can carry.
pub record Fits (i : Interest) : Type 0 where
  pub name_fits : IsWire i.name
  pub nonce_size : length i.nonce ≡ 8
  pub lifetime_fits : i.lifetime_ms < 2 ^ 32
  pub hop_limit_fits : i.hop_limit ≤ 255
  pub selector_fits : FitsSelector i.selector

-- The Interest with its selector left out if that carries no constraint.
abbrev pub normal : Interest → Interest
normal i = record i { selector = wire_selector i.selector }

wire_selector-FitsSelector :
    (o : Option InterestSelector) → FitsSelector o → FitsSelector (wire_selector o)
unfolding wire_selector
wire_selector-FitsSelector none h = tt
wire_selector-FitsSelector (some s) h = elim (Bool-cases (Selector.is_empty s)) [
  | inl e ↦ rw e tt
  | inr e ↦ rw e h
]

write_selector_lem :
    (o : Option InterestSelector)
    → FitsSelector o
    → Encodes (write_selector o) (read_if (has_selector o) Selector.from_bytes) o
unfolding write_selector read_if
write_selector_lem none h = ([], refl, λ rest. refl)
write_selector_lem (some s) h =
    let (w, written, back) = selector_lem s h in (w, written, λ rest. rw (back rest))

interest_flags_lem :
    (a b c : Bool)
    → (has_flag (interest_flags a b c) 0x01 ≡ a)
      × (has_flag (interest_flags a b c) 0x02 ≡ b)
      × (has_flag (interest_flags a b c) 0x04 ≡ c)
      × (has_flag (interest_flags a b c) 0x08 ≡ true)
unfolding interest_flags has_flag
interest_flags_lem a b c = ground arith

post_init_lem : (i : Interest) → length i.nonce ≡ 8 → i.hop_limit ≤ 255 → post_init i ≡ ok i
unfolding post_init
post_init_lem i h k = ground arith

small_mod : (n : ℕ) → n ≤ 255 → n % 256 ≡ n
small_mod n h = omega arith

-- The bytes of an Interest, from those of its name, its lifetime and its selector.
abbrev layout : Interest → List ℕ → List ℕ → List ℕ → List ℕ
layout i name lifetime selector =
    1 ∷ 1 ∷ name
    ++ (i.nonce
        ++ (lifetime
            ++ (interest_flags i.can_be_prefix i.must_be_fresh
                    (has_selector (wire_selector i.selector))
                  ∷ selector
                ++ ((i.hop_limit % 256) ∷ []))))

-- An Interest whose name has the wire's shape, whose nonce has 8 bytes, whose lifetime fits 32
-- bits, whose hop limit is at most 255 and whose minimal sequence number fits 64 bits is written
-- without an error, and `from_bytes` reads it back, but for a selector without a constraint,
-- which comes back as no selector.
pub interest_lem :
    (i : Interest)
    → Fits i
    → (bs : List ℕ) × (Interest.to_bytes i ≡ ok bs) × (Interest.from_bytes bs ≡ ok (normal i))
unfolding Interest.to_bytes Interest.from_bytes
interest_lem i h =
    let (nw, n_written, n_back) = write_name_lem interest_error i.name h.name_fits in
    let sel = wire_selector i.selector in
    let (sw, s_written, s_back) =
      write_selector_lem sel (wire_selector-FitsSelector i.selector h.selector_fits) in
    let (f1, f2, f4, f8) = interest_flags_lem i.can_be_prefix i.must_be_fresh (has_selector sel) in
    let lw = be_bytes 4 i.lifetime_ms in
    (
      layout i nw lw sw,
      rw (n_written, pack-be_bytes 4 i.lifetime_ms (ground arith), s_written),
      rw
          (
            n_back _,
            slice-append interest_error i.nonce _ h.nonce_size,
            read_be-append interest_error 4 i.lifetime_ms _ (ground arith),
            f4,
            s_back _,
            f8,
            f1,
            f2,
            small_mod i.hop_limit h.hop_limit_fits,
          )
          (post_init_lem (normal i) h.nonce_size h.hop_limit_fits),
    )
