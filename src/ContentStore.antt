-- ===== src/ContentStore.antt =====
-- rns_icn/content_store.py: the cache of Data. The two SQL tables are a dictionary from the primary
-- key to the row, and a list of pairs; SQLite orders rows of equal time as it likes, here they keep
-- the order of the table. The JSON of a row is a record. A transaction that raises leaves no trace.
pub mod Operations
pub mod Rows
pub mod Capacity
pub mod RoundTrip
pub mod Queries
mod Runs
use rns_icn.Prelude.{
  ℕ, ◌+◌, ◌-◌, ◌||◌, ◌&&◌, Bool, true, false, not, Option, none, some, is_some, nat_beq,
}
use rns_icn.Prelude.{
  List, [], ◌∷◌, ◌++◌, map, length, take, drop, filter, any, ltb, leb, ◌==◌, nat_eq, list_eq,
  pair_eq, if◌then◌else◌,
}
use rns_icn.Prelude.{Dict, get, put, erase, sort}
use rns_icn.Wire.{Result, ok, raise, ◌>>=◌}
use rns_icn.Name
use rns_icn.Name.{Name, rns_addr, without_content_hash}
use rns_icn.Name.Text.{to_string}
use rns_icn.Packet.Metadata.{DataMetadata}
use rns_icn.Packet.Data.{Data}

-- `metadata_json`
pub record StoredMetadata : Type 0 where
  pub content_hash : List ℕ
  pub sequence : Option ℕ
  pub fresh : Bool
  pub age_seconds : ℕ
  pub freshness_period : Option ℕ
  pub signed_at : Option ℕ
  pub encrypted : Bool
  pub signature : Option (List ℕ)

-- a row of the table `content`, whose primary key `name_hash` is the key of the dictionary
pub record Row : Type 0 where
  pub name_bytes : List ℕ
  pub content_bytes : List ℕ
  pub content_hash : List ℕ
  pub sequence : Option ℕ
  pub freshness : ℕ
  pub age_seconds : ℕ
  pub freshness_period : Option ℕ
  pub metadata : StoredMetadata
  pub inserted_at : ℕ
  pub expires_at : Option ℕ
  pub size_bytes : ℕ

pub record ContentStore : Type 0 where
  pub content : Dict (List ℕ) Row
  pub name_prefixes : List (List ℕ × List ℕ)
  pub max_entries : ℕ
  pub default_ttl : Option ℕ
  pub prefix_ttls : Dict (List ℕ) ℕ
  pub hits : ℕ
  pub misses : ℕ

-- `__init__`: `max(1, max_entries)`
abbrev pub new : ℕ → Option ℕ → Dict (List ℕ) ℕ → ContentStore
new max_entries default_ttl prefix_ttls = record {
  content = [];
  name_prefixes = [];
  max_entries = if max_entries == 0 then 1 else max_entries;
  default_ttl = default_ttl;
  prefix_ttls = prefix_ttls;
  hits = 0;
  misses = 0;
}

-- `s.startswith(prefix)`
unfoldable pub text_starts_with : List ℕ → List ℕ → Bool
text_starts_with s [] = true
text_starts_with [] (c ∷ cs) = false
text_starts_with (d ∷ ds) (c ∷ cs) = d == c && text_starts_with ds cs

-- the loop of `_compute_ttl`
unfoldable pub first_ttl : List ℕ → Option ℕ → List (List ℕ × ℕ) → Option ℕ
unfolding text_starts_with
first_ttl text default_ttl [] = default_ttl
first_ttl text default_ttl ((prefix, ttl) ∷ ttls) =
    if text_starts_with text prefix then some ttl else first_ttl text default_ttl ttls

-- `_compute_ttl`: the longest prefix first
unfoldable pub compute_ttl : (List ℕ → Option (List ℕ)) → Name → ContentStore → Option ℕ
unfolding first_ttl sort to_string
compute_ttl decode name s =
    first_ttl (to_string decode name) s.default_ttl
      (sort (λ p q. leb (length (q.0)) (length (p.0))) s.prefix_ttls)

-- `_calculate_expires_at`
unfoldable pub calculate_expires_at : ℕ → Option ℕ → Option ℕ
calculate_expires_at inserted_at none = none
calculate_expires_at inserted_at (some ttl) = if ttl == 0 then none else some (inserted_at + ttl)

-- the two DELETE statements
unfoldable pub delete_row : List ℕ → ContentStore → ContentStore
delete_row name_hash s = record s {
  content = erase name_hash s.content;
  name_prefixes = filter (λ p. not (p.1 == name_hash)) s.name_prefixes;
}

unfoldable pub delete_rows : List (List ℕ) → ContentStore → ContentStore
unfolding delete_row
delete_rows [] s = s
delete_rows (h ∷ hs) s = delete_rows hs (delete_row h s)

abbrev pub older : List ℕ × Row → List ℕ × Row → Bool
older p q = leb p.1.inserted_at q.1.inserted_at

-- the keys of the `count` oldest rows
unfoldable pub oldest_keys : ℕ → ContentStore → List (List ℕ)
unfolding sort
oldest_keys count s = map (λ p. p.0) (take count (sort older s.content))

-- `_evict_lru_internal`: the store, and the number evicted
unfoldable pub evict_internal : ℕ → ContentStore → ContentStore × ℕ
unfolding oldest_keys delete_rows
evict_internal count s = (delete_rows (oldest_keys count s) s, length (oldest_keys count s))

-- `evict_lru`
unfoldable pub evict_lru : ℕ → ContentStore → ContentStore × ℕ
unfolding evict_internal
evict_lru target_count s = evict_internal (length s.content - target_count) s

-- "expires_at IS NOT NULL AND expires_at <= now"
unfoldable pub has_expired : ℕ → Row → Bool
has_expired now row = elim row.expires_at [ none ↦ false | some t ↦ leb t now ]

unfoldable pub expired_keys : ℕ → ContentStore → List (List ℕ)
unfolding has_expired
expired_keys now s = map (λ p. p.0) (filter (λ p. has_expired now (p.1)) s.content)

-- `_purge_expired_internal` and `purge_expired`
unfoldable pub purge_expired : ℕ → ContentStore → ContentStore × ℕ
unfolding expired_keys delete_rows
purge_expired now s = (delete_rows (expired_keys now s) s, length (expired_keys now s))

-- the beginnings of a list, the empty one first
unfoldable pub inits {ℓ} : {A : Type ℓ} → List A → List (List A)
inits [] = [] ∷ []
inits (x ∷ xs) = [] ∷ map (λ ys. x ∷ ys) (inits xs)

-- `data.metadata.content_hash or blake2b(content_bytes)`
unfoldable pub or_computed : Option (List ℕ) → List ℕ → List ℕ
or_computed none computed = computed
or_computed (some []) computed = computed
or_computed (some (b ∷ bs)) computed = b ∷ bs

-- `bytes.fromhex(sig_hex) if sig_hex else None`
unfoldable pub parse_signature : StoredMetadata → Option (List ℕ)
parse_signature m = elim m.signature [
  | none ↦ none
  | some [] ↦ none
  | some (b ∷ bs) ↦ some (b ∷ bs)
]

-- `freshness_period is None or age < freshness_period`
unfoldable pub within_period : Option ℕ → ℕ → Bool
within_period none age = true
within_period (some period) age = ltb age period

-- the column, and what the JSON says if it is NULL
unfoldable pub period_of : Option ℕ → StoredMetadata → Option ℕ
period_of none m = m.freshness_period
period_of (some p) m = some p

-- `_parse_metadata`, at the age `max(0, now - inserted_at)`
unfoldable pub parse_metadata : ℕ → StoredMetadata → Option ℕ → DataMetadata
unfolding within_period period_of
parse_metadata age m column = record {
  content_hash = some m.content_hash;
  sequence = m.sequence;
  freshness = record {
    fresh = m.fresh && within_period (period_of column m) age;
    age_seconds = age;
  };
  freshness_period = period_of column m;
  signed_at = m.signed_at;
  encrypted = m.encrypted;
}
