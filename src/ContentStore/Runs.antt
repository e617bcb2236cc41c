-- ===== src/ContentStore/Runs.antt =====
-- Concrete runs of the content store, with a hash that gives the length of a list in 32 copies.
use rns_icn.Prelude.{ℕ, Option, none, some, arith}
use rns_icn.Prelude.{List, [], ◌∷◌, length, replicate}
use rns_icn.Wire.{IfOk}
use rns_icn.Name
use rns_icn.Name.{Name}
use rns_icn.Packet.Selector.{latest}
use rns_icn.Packet.Data.{Data}
use rns_icn.ContentStore.{ContentStore, new, purge_expired}
use rns_icn.ContentStore.Operations.{lookup_name, get_prefix}
use rns_icn.ContentStore.Rows.{IsValid, IsBounded}
use rns_icn.ContentStore.Capacity.{inserts, evicts, run, run-IsBounded}
use rns_icn.ContentStore.Queries.{Answers, AnswersPrefix, lookup_name-Answers, get_prefix-Chosen}
use rns_icn.Samples.{alice, root, content}

abbrev hash : List ℕ → List ℕ
hash bs = replicate 32 (length bs)

-- `bytes.decode` of ASCII
abbrev ascii : List ℕ → Option (List ℕ)
ascii bs = some bs

abbrev plain : Data
plain = record content { metadata = record content.metadata { content_hash = none } }

abbrev empty : ContentStore
empty = new 2 (some 100) []

empty-IsValid : IsValid empty
empty-IsValid = record { keys = tt; indexed = tt; room = omega arith }

run-IsBounded_example :
    IsBounded (run hash ascii (inserts 5 alice plain ∷ inserts 6 root plain ∷ evicts 1 ∷ []) empty)
run-IsBounded_example =
    run-IsBounded hash ascii (inserts 5 alice plain ∷ inserts 6 root plain ∷ evicts 1 ∷ []) empty
      (empty-IsValid, omega arith)

abbrev filled : ContentStore
filled = run hash ascii (inserts 5 alice plain ∷ inserts 6 root plain ∷ []) empty

lookup_name-Answers_example :
    IfOk (Answers hash none (purge_expired 7 filled).0) (lookup_name hash 7 alice filled)
lookup_name-Answers_example = lookup_name-Answers hash 7 alice filled

get_prefix-Chosen_example :
    IfOk
      (AnswersPrefix hash 7 root latest (some 6) (purge_expired 7 filled).0)
      (get_prefix hash 7 root latest (some 6) filled)
get_prefix-Chosen_example = get_prefix-Chosen hash 7 root latest (some 6) filled
