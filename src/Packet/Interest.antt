-- ===== src/Packet/Interest.antt =====
-- `Interest` of packet.py: the record, the checks of its constructor, and its wire form.
pub mod RoundTrip
use rns_icn.Prelude.{
  ℕ, ◌+◌, ◌≤◌, ◌<◌, ◌^◌, ◌%◌, ◌≡◌, Bool, true, false, not, ◌||◌, Option, none, some,
}
use rns_icn.Prelude.{List, [], ◌∷◌, ◌++◌, length, ltb, ◌==◌, nat_eq, if◌then◌else◌}
use rns_icn.Wire.{
  Error, Result, ok, raise, ◌>>=◌, interest_error, slice, read_be, pack, set_flag, has_flag,
}
use rns_icn.Wire.{read_if, byte_at, parse_version, protocol_version}
use rns_icn.Name.{Name}
use rns_icn.Packet.Header.{PacketType, type_byte, read_type, read_name, write_name}
use rns_icn.Packet.Selector
use rns_icn.Packet.Selector.{InterestSelector, FitsU64}

abbrev pub default_hop_limit : ℕ
default_hop_limit = 16

pub record Interest : Type 0 where
  pub name : Name
  pub nonce : List ℕ
  pub lifetime_ms : ℕ
  pub can_be_prefix : Bool
  pub must_be_fresh : Bool
  pub selector : Option InterestSelector
  pub hop_limit : ℕ

-- `__post_init__`
unfoldable pub post_init : Interest → Result Interest
post_init i =
    if not (length i.nonce == 8)
    then raise interest_error
    else if ltb 0xff i.hop_limit
    then raise interest_error
    else ok i

-- An empty selector stays off the wire.
unfoldable pub wire_selector : Option InterestSelector → Option InterestSelector
unfolding Selector.is_empty
wire_selector none = none
wire_selector (some s) = if Selector.is_empty s then none else some s

unfoldable pub interest_flags : Bool → Bool → Bool → ℕ
unfolding set_flag
interest_flags can_be_prefix must_be_fresh has_selector =
    set_flag true 0x08
      (set_flag has_selector 0x04 (set_flag must_be_fresh 0x02 (set_flag can_be_prefix 0x01 0)))

unfoldable pub write_selector : Option InterestSelector → Result (List ℕ)
unfolding Selector.to_bytes
write_selector none = ok []
write_selector (some s) = Selector.to_bytes s

abbrev pub has_selector : Option InterestSelector → Bool
has_selector none = false
has_selector (some s) = true

unfoldable pub to_bytes : Interest → Result (List ℕ)
unfolding write_name pack interest_flags wire_selector write_selector type_byte
to_bytes i = do
  name ← write_name i.name
  lifetime ← pack 4 i.lifetime_ms
  let sel = wire_selector i.selector
  selector ← write_selector sel
  ok (
      type_byte PacketType.interest ∷ protocol_version ∷ name
      ++ (i.nonce
          ++ (lifetime
              ++ (interest_flags i.can_be_prefix i.must_be_fresh (has_selector sel) ∷ selector
                  ++ ((i.hop_limit % 256) ∷ [])))))

-- `hop_limit = DEFAULT_HOP_LIMIT` unless the flag says that a byte follows
unfoldable pub read_hop_limit : Bool → List ℕ → Result (ℕ × List ℕ)
unfolding byte_at
read_hop_limit false bs = ok (default_hop_limit, bs)
read_hop_limit true bs = byte_at interest_error bs

unfoldable pub from_bytes : List ℕ → Result Interest
unfolding read_type parse_version read_name slice read_be byte_at has_flag read_if
    Selector.from_bytes read_hop_limit post_init
from_bytes bs = do
  after_type ← read_type interest_error PacketType.interest bs
  (_, after_version) ← parse_version interest_error after_type
  (name, after_name) ← read_name interest_error after_version
  (nonce, after_nonce) ← slice interest_error 8 after_name
  (lifetime_ms, after_lifetime) ← read_be interest_error 4 after_nonce
  (flags, after_flags) ← byte_at interest_error after_lifetime
  (selector, after_selector) ← read_if (has_flag flags 0x04) Selector.from_bytes after_flags
  (hop_limit, _) ← read_hop_limit (has_flag flags 0x08) after_selector
  post_init (record {
    name = name;
    nonce = nonce;
    lifetime_ms = lifetime_ms;
    can_be_prefix = has_flag flags 0x01;
    must_be_fresh = has_flag flags 0x02;
    selector = selector;
    hop_limit = hop_limit;
  })
