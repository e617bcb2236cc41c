-- ===== src/ContentStore/Capacity.antt =====
-- Whatever is done to a content store, it stays well-formed and within its capacity.
use rns_icn.Prelude.{ℕ, ◌+◌, ◌-◌, ◌&&◌, Bool, Option, none, some, arith}
use rns_icn.Prelude.{
  List, [], ◌∷◌, length, drop, nat_eq, list_eq, if◌then◌else◌, Bool-cases, inl, inr,
}
use rns_icn.Prelude.{get, length-erase}
use rns_icn.Wire.{Result, ok, raise, ◌>>=◌, IfOk}
use rns_icn.Wire.Readers.{>>=-IfOk, >>=-IfOk_eq, IfOk-true}
use rns_icn.Name
use rns_icn.Name.{Name, rns_addr, without_content_hash}
use rns_icn.Packet.Selector.{ChildSelector}
use rns_icn.Packet.Data.{Data}
use rns_icn.ContentStore.{
  Row, ContentStore, inits, delete_row, delete_rows, purge_expired, expired_keys, evict_lru,
  compute_ttl,
}
use rns_icn.ContentStore.Operations.{
  binds, numbers_of, query_numbers, new_row, insert, prefix_hashes, name_hash, lookup_name, answer,
  verify_content, pin_holds, get_prefix, select_rows, first_valid, counted, remove, keys_under,
  delete_counted, invalidate,
}
use rns_icn.ContentStore.Rows.{
  IsBounded, delete_row-IsValid, evict_internal-size, trim-IsBounded, upsert-IsValid,
}

delete_row-IsBounded : (h : List ℕ) (s : ContentStore) → IsBounded s → IsBounded (delete_row h s)
delete_row-IsBounded h s (v, b) =
    (delete_row-IsValid h s v, unfold delete_row in omega (arith, length-erase h s.content))

delete_rows-IsBounded :
    (hs : List (List ℕ)) (s : ContentStore) → IsBounded s → IsBounded (delete_rows hs s)
unfolding delete_rows
delete_rows-IsBounded [] s v = v
delete_rows-IsBounded (h ∷ hs) s v =
    delete_rows-IsBounded hs (delete_row h s) (delete_row-IsBounded h s v)

delete_counted-IsBounded :
    (hs : List (List ℕ)) (s : ContentStore) → IsBounded s → IsBounded (delete_counted hs s).0
unfolding delete_counted
delete_counted-IsBounded [] s v = v
delete_counted-IsBounded (h ∷ hs) s v =
    delete_counted-IsBounded hs (delete_row h s) (delete_row-IsBounded h s v)

pub purge_expired-IsBounded :
    (now : ℕ) (s : ContentStore) → IsBounded s → IsBounded (purge_expired now s).0
unfolding purge_expired
purge_expired-IsBounded now s v = delete_rows-IsBounded (expired_keys now s) s v

-- the calls of a client, with the clock at each
pub data Call : Type 0 where
  inserts : ℕ → Name → Data → Call
  gets : ℕ → Name → Call
  gets_prefix : ℕ → Name → ChildSelector → Option ℕ → Call
  removes : Name → Call
  invalidates : Name → Bool → Call
  purges : ℕ → Call
  evicts : ℕ → Call

module _ (blake2b : List ℕ → List ℕ) (decode : List ℕ → Option (List ℕ)) where
  -- the store after a call
  unfoldable pub call : Call → ContentStore → Result ContentStore
  unfolding insert lookup_name get_prefix remove invalidate purge_expired evict_lru
  call (inserts now name d) s = insert blake2b decode now name d s
  call (gets now name) s = do (t, _) ← lookup_name blake2b now name s; ok t
  call (gets_prefix now name child floor) s = do
    (t, _) ← get_prefix blake2b now name child floor s
    ok t
  call (removes name) s = do (t, _) ← remove blake2b name s; ok t
  call (invalidates name prefix) s = do (t, _) ← invalidate blake2b name prefix s; ok t
  call (purges now) s = ok (purge_expired now s).0
  call (evicts target) s = ok (evict_lru target s).0

  -- the store after a row of calls; one that raises leaves it, but for the expired rows that it
  -- may have deleted, which the next call deletes
  unfoldable pub run : List Call → ContentStore → ContentStore
  unfolding call
  run [] s = s
  run (c ∷ cs) s = run cs (elim (call c s) [ ok t ↦ t | raise e ↦ s ])

  pub insert-IsBounded :
      (now : ℕ) (name : Name) (d : Data) (s : ContentStore)
      → IsBounded s
      → IfOk IsBounded (insert blake2b decode now name d s)
  unfolding insert
  insert-IsBounded now name d s (v, b) =
      let plain = without_content_hash name in
      >>=-IfOk _ (Name.to_bytes plain) _ (IfOk-true (Name.to_bytes plain)) (λ bytes _.
        let row = new_row blake2b bytes d now (compute_ttl decode plain s) in
        >>=-IfOk_eq _ (binds (numbers_of row)) _ (λ _ _.
          >>=-IfOk _ (rns_addr plain) _ (IfOk-true (rns_addr plain)) (λ addr _.
            let prefixes = prefix_hashes blake2b addr (inits (drop 1 name.components)) in
            >>=-IfOk _ prefixes _ (IfOk-true prefixes)
              (λ hashes _. trim-IsBounded _ (upsert-IsValid (blake2b bytes) row hashes s v)))))

  counts-IsBounded :
      (s : ContentStore) (hits misses : ℕ)
      → IsBounded s
      → IsBounded (record s { hits = hits; misses = misses })
  counts-IsBounded s hits misses (v, b) =
      (record { keys = v.keys; indexed = v.indexed; room = v.room }, b)

  pub answer-IsBounded :
      (now : ℕ) (pin : Option (List ℕ)) (o : Option Row) (s : ContentStore)
      → IsBounded s
      → IfOk (λ r. IsBounded r.0) (answer blake2b now pin o s)
  unfolding answer
  answer-IsBounded now pin none s v = counts-IsBounded s s.hits (s.misses + 1) v
  answer-IsBounded now pin (some row) s v =
      >>=-IfOk _ (Name.from_bytes row.name_bytes) _ (IfOk-true (Name.from_bytes row.name_bytes))
        (λ n _. elim (Bool-cases (verify_content blake2b row && pin_holds blake2b pin row)) [
          | inl t ↦ rw t (counts-IsBounded s (s.hits + 1) s.misses v)
          | inr t ↦ rw t (counts-IsBounded s s.hits (s.misses + 1) v)
        ])

  pub counted-IsBounded :
      (o : Option Data) (s : ContentStore) → IsBounded s → IsBounded (counted o s).0
  counted-IsBounded none s v = counts-IsBounded s s.hits (s.misses + 1) v
  counted-IsBounded (some d) s v = counts-IsBounded s (s.hits + 1) s.misses v

  hashed :
      {A : Type 0} (name : Name) (f : List ℕ → Result (ContentStore × A))
      → ((h : List ℕ) → IfOk (λ p. IsBounded p.0) (f h))
      → IfOk (λ p. IsBounded p.0) (name_hash blake2b name >>= f)
  hashed name f k =
      >>=-IfOk _ (name_hash blake2b name) f (IfOk-true (name_hash blake2b name)) (λ h _. k h)

  pub lookup_name-IsBounded :
      (now : ℕ) (name : Name) (s : ContentStore)
      → IsBounded s
      → IfOk (λ p. IsBounded p.0) (lookup_name blake2b now name s)
  unfolding lookup_name
  lookup_name-IsBounded now name s v =
      let purged = (purge_expired now s).0 in
      hashed (without_content_hash name) _ (λ h.
        answer-IsBounded now name.content_hash (get h purged.content) purged
          (purge_expired-IsBounded now s v))

  pub get_prefix-IsBounded :
      (now : ℕ) (name : Name) (child : ChildSelector) (floor : Option ℕ) (s : ContentStore)
      → IsBounded s
      → IfOk (λ p. IsBounded p.0) (get_prefix blake2b now name child floor s)
  unfolding get_prefix
  get_prefix-IsBounded now name child floor s v =
      let purged = (purge_expired now s).0 in
      hashed name _ (λ h.
        let found = first_valid blake2b now child (select_rows h child floor purged) in
        >>=-IfOk_eq _ (binds (query_numbers child floor)) _ (λ _ _.
          >>=-IfOk _ found _ (IfOk-true found)
            (λ o _. counted-IsBounded o purged (purge_expired-IsBounded now s v))))

  store_of :
      {A : Type 0} (r : Result (ContentStore × A))
      → IfOk (λ p. IsBounded p.0) r
      → IfOk IsBounded (r >>= (λ p. ok (p.0)))
  store_of r k = >>=-IfOk {P = λ p. IsBounded p.0} IsBounded r (λ p. ok (p.0)) k (λ p v. v)

  call-IsBounded : (c : Call) (s : ContentStore) → IsBounded s → IfOk IsBounded (call c s)
  unfolding call
  call-IsBounded (inserts now name d) s v = insert-IsBounded now name d s v
  call-IsBounded (gets now name) s v =
      store_of (lookup_name blake2b now name s) (lookup_name-IsBounded now name s v)
  call-IsBounded (gets_prefix now name child floor) s v =
      store_of (get_prefix blake2b now name child floor s)
        (get_prefix-IsBounded now name child floor s v)
  call-IsBounded (removes name) s v =
      unfold remove in store_of _ (hashed name _ (λ h. delete_row-IsBounded h s v))
  call-IsBounded (invalidates name prefix) s v =
      unfold invalidate in
      store_of _ (
        hashed name _
          (λ h. delete_counted-IsBounded (if prefix then keys_under h s else h ∷ []) s v))
  call-IsBounded (purges now) s v = purge_expired-IsBounded now s v
  call-IsBounded (evicts target) s (v, b) =
      let (w, size, max) = evict_internal-size (length s.content - target) s v in
      unfold evict_lru in (w, omega arith)

  -- A store that is well-formed (distinct keys, an index that points only at stored rows, a positive
  -- capacity) and within its capacity stays so through any calls of `insert`, `get`, `get_prefix`,
  -- `remove`, `invalidate`, `purge_expired` and `evict_lru`, at any times, those that raise included.
  pub run-IsBounded : (calls : List Call) (s : ContentStore) → IsBounded s → IsBounded (run calls s)
  unfolding run
  run-IsBounded [] s v = v
  run-IsBounded (c ∷ cs) s v = run-IsBounded cs _ (kept (call c s) (call-IsBounded c s v))
    where
      kept :
          (r : Result ContentStore)
          → IfOk IsBounded r
          → IsBounded (elim r [ ok t ↦ t | raise e ↦ s ])
      kept (ok t) h = h
      kept (raise e) h = v
