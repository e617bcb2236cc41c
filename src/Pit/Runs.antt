-- ===== src/Pit/Runs.antt =====
-- Concrete runs on the Pending Interest Table.
use rns_icn.Prelude.{
  ◌≡◌, ◌≤◌, ◌+◌, refl, [], ◌∷◌, length, none, some, true, arith, ◌==◌, nat_eq, list_eq, pair_eq,
  if◌then◌else◌, All, get, put, Distinct,
}
use rns_icn.Wire.{ok}
use rns_icn.Name.{Name, name_eq}
use rns_icn.Pit
use rns_icn.Pit.{
  Pit, PitEntry, FaceId, find, expiry, inserted, aggregated, fresh_entry, contains, add_face,
  evict_nearest_expiry, insert_or_aggregate, record_nonce, check_loop, purge_expired,
}
use rns_icn.Pit.Behaviour.{evict_nearest_expiry_lem}
use rns_icn.Pit.Sessions.{Call, run, run-IsValid}
use rns_icn.Samples.{alice, alice_b, interest}

abbrev entry : PitEntry
entry = fresh_entry 100 3 interest 4000

-- One pending Interest, in a table for two.
abbrev table : Pit
table = record (Pit.new 60000 2 2) { entries = (alice, entry) ∷ [] }

table-entry : find alice table ≡ some entry
unfolding get
table-entry = refl

run-IsValid_example :
    (q : Pit) × (run
        (Call.insert 0 alice 1 interest 4000 ∷ Call.nonce 0 1 (9 ∷ []) ∷ [])
        (Pit.new 60000 2 2)
      ≡ ok q)
    × Distinct q.entries
    × Distinct q.nonce_tracker
    × (length q.entries ≤ 2)
    × (length q.nonce_tracker ≤ 2)
run-IsValid_example =
    run-IsValid 60000 2 2 (Call.insert 0 alice 1 interest 4000 ∷ Call.nonce 0 1 (9 ∷ []) ∷ [])
      (omega arith) (omega arith)

nothing_pending : (e : PitEntry) → find alice_b table ≡ some e → e.satisfied ≡ true
unfolding get
nothing_pending e h = cc

evict_nearest_expiry_lem_example :
    (name : Name) × (e : PitEntry) × (find name table ≡ some e)
    × All (λ y. e.expires_at ≤ expiry y) table.entries
    × ((other : Name)
        → find other (evict_nearest_expiry table)
          ≡ (if name == other then none else find other table))
    × ((evict_nearest_expiry table).evictions ≡ 0 + 1)
evict_nearest_expiry_lem_example = evict_nearest_expiry_lem table (alice, entry) [] refl (tt, tt)

abbrev noted : Pit
noted = record table { nonce_tracker = ((1, 9 ∷ []), 60000) ∷ [] }

note : record_nonce 0 1 (9 ∷ []) table ≡ ok noted
unfolding record_nonce put
note = refl
