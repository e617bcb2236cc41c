-- ===== src/ContentStore/Operations.antt =====
-- The operations of `ContentStore` that hash a name. An operation that raises returns no store: the one
-- it was given stays, but for the expired rows that it may have deleted first, which the next deletes.
-- The clock `now`, which every purge binds too, is taken to be below 2^63.
use rns_icn.Prelude.{
  ℕ, ◌+◌, ◌-◌, ◌^◌, ◌||◌, ◌&&◌, Bool, true, false, not, Option, none, some, is_some,
}
use rns_icn.Prelude.{
  List, [], ◌∷◌, ◌++◌, map, length, drop, filter, any, ltb, leb, ◌==◌, nat_eq, list_eq, pair_eq,
  if◌then◌else◌,
}
use rns_icn.Prelude.{Dict, get, put, sort}
use rns_icn.Wire.{Result, ok, raise, overflow_error, ◌>>=◌}
use rns_icn.Name
use rns_icn.Name.{Name, name_eq, rns_addr, without_content_hash}
use rns_icn.Packet.Selector.{ChildSelector, is_latest, is_oldest}
use rns_icn.Packet.Data.{Data}
use rns_icn.Discovery.{is_reserved}
use rns_icn.ContentStore.{
  StoredMetadata, Row, ContentStore, compute_ttl, calculate_expires_at, delete_row, evict_internal,
  purge_expired, inits, or_computed, parse_signature, parse_metadata,
}

abbrev pub hit : ContentStore → ContentStore
hit s = record s { hits = s.hits + 1 }

abbrev pub miss : ContentStore → ContentStore
miss s = record s { misses = s.misses + 1 }

-- the upsert, and the prefixes of the name in place of those that were there
unfoldable pub upsert : List ℕ → Row → List (List ℕ) → ContentStore → ContentStore
upsert key row hashes s = record s {
  content = put key row s.content;
  name_prefixes = filter (λ p. not (p.1 == key)) s.name_prefixes ++ map (λ h. (h, key)) hashes;
}

-- "LRU eviction if over capacity"
unfoldable pub trim : ContentStore → ContentStore
unfolding evict_internal
trim s =
    if ltb s.max_entries (length s.content)
    then (evict_internal (length s.content - s.max_entries) s).0
    else s

-- the Data of a row, under its stored name, at the time `now`
abbrev pub data_of : ℕ → Name → Row → Data
data_of now stored_name row = record {
  name = stored_name;
  content = row.content_bytes;
  signature = parse_signature row.metadata;
  metadata = parse_metadata (now - row.inserted_at) row.metadata row.freshness_period;
}

-- A number that `sqlite3` binds to a statement is an integer of 64 bits with a sign: a larger one is
-- an OverflowError.
unfoldable pub binds : List ℕ → Result (Unit {0})
binds numbers = if any (leb (2 ^ 63)) numbers then raise overflow_error else ok tt

abbrev pub given : Option ℕ → List ℕ
given none = []
given (some n) = n ∷ []

-- the numbers of the INSERT
abbrev pub numbers_of : Row → List ℕ
numbers_of row =
    given row.sequence
    ++ (row.age_seconds
        ∷ (given row.freshness_period
            ++ (row.inserted_at ∷ (given row.expires_at ++ (row.size_bytes ∷ [])))))

-- the number of the query: the bound is a parameter with a child selector only
abbrev pub query_numbers : ChildSelector → Option ℕ → List ℕ
query_numbers child min_sequence =
    if is_latest child || is_oldest child then given min_sequence else []

-- "c.sequence IS NOT NULL [AND c.sequence >= ?]"
unfoldable pub ranks : Option ℕ → Row → Bool
ranks min_sequence row = elim row.sequence [
  | none ↦ false
  | some seq ↦ elim min_sequence [ none ↦ true | some floor ↦ leb floor seq ]
]

-- the WHERE clause beside the prefix: a child selector wants a sequence, and only then is
-- `min_sequence` looked at
unfoldable pub qualifies : ChildSelector → Option ℕ → Row → Bool
unfolding ranks
qualifies child min_sequence row =
    if is_latest child || is_oldest child then ranks min_sequence row else true

abbrev pub sequence_of : Row → ℕ
sequence_of row = elim row.sequence [ none ↦ 0 | some seq ↦ seq ]

-- the ORDER BY clause
unfoldable pub row_before : ChildSelector → Row → Row → Bool
row_before child a b =
    let newer = leb b.inserted_at a.inserted_at in
    if is_latest child
    then (if sequence_of a == sequence_of b then newer else ltb (sequence_of b) (sequence_of a))
    else if is_oldest child
    then (if sequence_of a == sequence_of b then newer else ltb (sequence_of a) (sequence_of b))
    else newer

-- the rows of the query
unfoldable pub select_rows : List ℕ → ChildSelector → Option ℕ → ContentStore → List Row
unfolding sort qualifies row_before
select_rows prefix_hash child min_sequence s = sort (row_before child) (
    map (λ p. p.1)
      (filter
        (λ p.
          any (λ e. e == (prefix_hash, p.0)) s.name_prefixes && qualifies child min_sequence p.1)
        s.content))

-- "child is not ChildSelector.NONE and _is_reserved_name(stored_name)"
unfoldable pub passes_over : ChildSelector → Name → Result Bool
unfolding is_reserved
passes_over child stored_name =
    if is_latest child || is_oldest child then is_reserved stored_name else ok false

abbrev pub counted : Option Data → ContentStore → ContentStore × Option Data
counted none s = (miss s, none)
counted (some d) s = (hit s, some d)

-- the names under the prefix
unfoldable pub keys_under : List ℕ → ContentStore → List (List ℕ)
keys_under prefix_hash s = map (λ p. p.1) (filter (λ p. p.0 == prefix_hash) s.name_prefixes)

-- the rows that the statements of a loop delete, one by one
unfoldable pub delete_counted : List (List ℕ) → ContentStore → ContentStore × ℕ
unfolding delete_row
delete_counted [] s = (s, 0)
delete_counted (h ∷ hs) s =
    let (left, removed) = delete_counted hs (delete_row h s) in
    (left, (if is_some (get h s.content) then 1 else 0) + removed)

module _ (blake2b : List ℕ → List ℕ) where
  -- `_name_hash` and `_prefix_hash`
  unfoldable pub name_hash : Name → Result (List ℕ)
  unfolding Name.to_bytes
  name_hash name = do bytes ← Name.to_bytes name; ok (blake2b bytes)

  -- the hashes of `Name(components[0], p)`, for each `p`
  unfoldable pub prefix_hashes : List ℕ → List (List (List ℕ)) → Result (List (List ℕ))
  unfolding name_hash Name.new
  prefix_hashes addr [] = ok []
  prefix_hashes addr (p ∷ ps) = do
    prefix ← Name.new addr p none
    h ← name_hash prefix
    hs ← prefix_hashes addr ps
    ok (h ∷ hs)

  -- what `json.dumps` is given
  abbrev pub stored_metadata : Data → StoredMetadata
  stored_metadata d = record {
    content_hash = or_computed d.metadata.content_hash (blake2b d.content);
    sequence = d.metadata.sequence;
    fresh = d.metadata.freshness.fresh;
    age_seconds = if d.metadata.freshness.fresh then 0 else d.metadata.freshness.age_seconds;
    freshness_period = d.metadata.freshness_period;
    signed_at = d.metadata.signed_at;
    encrypted = d.metadata.encrypted;
    signature = d.signature;
  }

  abbrev pub new_row : List ℕ → Data → ℕ → Option ℕ → Row
  new_row name_bytes d now ttl = record {
    name_bytes = name_bytes;
    content_bytes = d.content;
    content_hash = or_computed d.metadata.content_hash (blake2b d.content);
    sequence = d.metadata.sequence;
    freshness = if d.metadata.freshness.fresh then 1 else 0;
    age_seconds = if d.metadata.freshness.fresh then 0 else d.metadata.freshness.age_seconds;
    freshness_period = d.metadata.freshness_period;
    metadata = stored_metadata d;
    inserted_at = now;
    expires_at = calculate_expires_at now ttl;
    size_bytes = length d.content;
  }

  unfoldable pub insert :
      (List ℕ → Option (List ℕ)) → ℕ → Name → Data → ContentStore → Result ContentStore
  unfolding Name.to_bytes binds rns_addr prefix_hashes upsert trim
  insert decode now pinned d s = do
    let name = without_content_hash pinned
    name_bytes ← Name.to_bytes name
    let row = new_row name_bytes d now (compute_ttl decode name s)
    _ ← binds (numbers_of row)
    addr ← rns_addr name
    hashes ← prefix_hashes addr (inits (drop 1 name.components))
    ok (trim (upsert (blake2b name_bytes) row hashes s))

  -- `_verify_content`
  unfoldable pub verify_content : Row → Bool
  verify_content row = blake2b row.content_bytes == row.metadata.content_hash

  -- `pin is not None and blake2b(content_bytes) != pin` fails
  unfoldable pub pin_holds : Option (List ℕ) → Row → Bool
  pin_holds none row = true
  pin_holds (some h) row = blake2b row.content_bytes == h

  -- `get`, with the row at hand
  unfoldable pub answer :
      ℕ → Option (List ℕ) → Option Row → ContentStore → Result (ContentStore × Option Data)
  unfolding verify_content pin_holds Name.from_bytes parse_metadata parse_signature
  answer now pin none s = ok (miss s, none)
  answer now pin (some row) s = Name.from_bytes row.name_bytes >>= (λ stored_name.
      if verify_content row && pin_holds pin row
      then ok (hit s, some (data_of now stored_name row))
      else ok (miss s, none))

  unfoldable pub lookup_name : ℕ → Name → ContentStore → Result (ContentStore × Option Data)
  unfolding answer name_hash purge_expired
  lookup_name now name s = do
    let purged = (purge_expired now s).0
    h ← name_hash (without_content_hash name)
    answer now name.content_hash (get h purged.content) purged

  -- the loop over the rows
  unfoldable pub first_valid : ℕ → ChildSelector → List Row → Result (Option Data)
  unfolding passes_over verify_content Name.from_bytes parse_metadata parse_signature
  first_valid now child [] = ok none
  first_valid now child (row ∷ rows) =
      let rest = first_valid now child rows in
      Name.from_bytes row.name_bytes >>= (λ stored_name.
        passes_over child stored_name >>= (λ reserved.
          if reserved
          then rest
          else if verify_content row
          then ok (some (data_of now stored_name row))
          else rest))

  unfoldable pub get_prefix :
      ℕ → Name → ChildSelector → Option ℕ → ContentStore → Result (ContentStore × Option Data)
  unfolding name_hash purge_expired binds select_rows first_valid
  get_prefix now prefix child min_sequence s = do
    let purged = (purge_expired now s).0
    h ← name_hash prefix
    _ ← binds (query_numbers child min_sequence)
    found ← first_valid now child (select_rows h child min_sequence purged)
    ok (counted found purged)

  -- `remove`: whether the entry was there
  unfoldable pub remove : Name → ContentStore → Result (ContentStore × Bool)
  unfolding name_hash delete_row
  remove name s = do h ← name_hash name; ok (delete_row h s, is_some (get h s.content))

  unfoldable pub invalidate : Name → Bool → ContentStore → Result (ContentStore × ℕ)
  unfolding name_hash keys_under delete_counted
  invalidate name prefix s = do
    h ← name_hash name
    ok (delete_counted (if prefix then keys_under h s else h ∷ []) s)

  unfoldable pub contains : Name → ContentStore → Result Bool
  unfolding name_hash
  contains name s = do h ← name_hash name; ok (is_some (get h s.content))

unfoldable pub size_bytes : Dict (List ℕ) Row → ℕ
size_bytes [] = 0
size_bytes ((key, row) ∷ d) = row.size_bytes + size_bytes d
