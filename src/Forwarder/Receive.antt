-- ===== src/Forwarder/Receive.antt =====
-- What arrives at the forwarder: `receive_nack`, `receive_data`, and the timeout of a future.
use rns_icn.Prelude.{ℕ, zero, suc, ◌-◌, ◌||◌, Bool, true, false, Option, none, some, is_some}
use rns_icn.Prelude.{List, [], ◌∷◌, ◌++◌, length, take, drop, nat_eq, list_eq, if◌then◌else◌}
use rns_icn.Prelude.{Dict, get, put, erase}
use rns_icn.Wire.{Error, Result, ok, raise, ◌>>=◌}
use rns_icn.Name
use rns_icn.Name.{Name, name_eq, rns_addr}
use rns_icn.Packet.Data.{Data}
use rns_icn.Pit
use rns_icn.Pit.{Pit, FaceId, satisfy}
use rns_icn.ContentStore.Operations.{insert}
use rns_icn.Forwarder.{Forwarder, Reply, timed_out, nacked, arrived, pit_key, forget}

-- `if not fut.done(): fut.set_result(…)`
unfoldable pub set_result : Reply → ℕ → Dict ℕ Reply → Dict ℕ Reply
set_result reply fut futures = if is_some (get fut futures) then futures else put fut reply futures

unfoldable pub set_results : Reply → List ℕ → Dict ℕ Reply → Dict ℕ Reply
unfolding set_result
set_results reply [] futures = futures
set_results reply (fut ∷ futs) futures = set_results reply futs (set_result reply fut futures)

-- the timeout of `asyncio.wait_for`
unfoldable pub expire : ℕ → Forwarder → Forwarder
unfolding set_result
expire fut f = record f { futures = set_result timed_out fut f.futures }

-- `self._pit_notifiers.pop(name, [])`
abbrev pub waiters : Name → Forwarder → List ℕ
waiters name f = elim (get name f.notifiers) [ none ↦ [] | some futs ↦ futs ]

-- `_notify_waiters`, and the loop of `receive_nack`
unfoldable pub notify_waiters : Name → Reply → Forwarder → Forwarder
unfolding set_results
notify_waiters name reply f = record f {
  notifiers = erase name f.notifiers;
  futures = set_results reply (waiters name f) f.futures;
}

unfoldable pub receive_nack : Name → Forwarder → Forwarder
unfolding notify_waiters pit_key
receive_nack name f = notify_waiters (pit_key name) nacked f

-- "entry is not None and entry.interest.can_be_prefix"
unfoldable pub asks_for_prefix : Name → Pit → Bool
asks_for_prefix name p = elim (Pit.find name p) [
  | none ↦ false
  | some entry ↦ entry.interest.can_be_prefix
]

-- the loop of `receive_data` over `range(i, 0, -1)`: the nearest ancestor that asked for a prefix
unfoldable pub find_ancestor : ℕ → Name → Pit → Result (Option Name)
unfolding rns_addr Name.new asks_for_prefix
find_ancestor zero name p = ok none
find_ancestor (suc i) name p =
    let further = find_ancestor i name p in
    rns_addr name >>= (λ addr.
      Name.new addr (drop 1 (take (suc i) name.components)) none
      >>= (λ candidate. if asks_for_prefix candidate p then ok (some candidate) else further))

-- the name under which the Data matches a pending Interest, and whether it does
unfoldable pub match_pending : Name → Pit → Result (Name × Bool)
unfolding find_ancestor
match_pending name p =
    if is_some (Pit.find name p)
    then ok (name, true)
    else (find_ancestor (length name.components - 1) name p
        >>= (λ found. ok (elim found [ none ↦ (name, false) | some ancestor ↦ (ancestor, true) ])))

-- the end of `receive_data`
unfoldable pub observe : Name → Data → Forwarder → Forwarder
observe name d f = record (forget name f) {
  observed = if f.has_callback then f.observed ++ (d ∷ []) else f.observed;
}

module _ (blake2b : List ℕ → List ℕ) (decode : List ℕ → Option (List ℕ)) where
  -- `self.cs.insert(data.name, data)`, which may raise
  unfoldable pub cache : ℕ → Data → Bool → Forwarder → Result Forwarder
  unfolding insert
  cache clock d false f = ok f
  cache clock d true f = do
    cs ← insert blake2b decode clock d.name d f.cs
    ok (record f { cs = cs })

  -- the Data that matches under `name`, or does not
  unfoldable pub deliver : ℕ → Data → Bool → Name × Bool → Forwarder → Forwarder × Option Error
  unfolding notify_waiters cache satisfy observe
  deliver clock d unsolicited (name, matched) f =
      let told =
        if matched
        then notify_waiters name (arrived d) (record f { pit = (satisfy name f.pit).0 })
        else f in
      elim (cache clock d (matched || unsolicited) told) [
        | raise e ↦ (told, some e)
        | ok cached ↦ (observe name d cached, none)
      ]

  -- `receive_data`: the state it leaves, and the exception if it raises
  unfoldable pub receive_data : ℕ → Data → Bool → Forwarder → Forwarder × Option Error
  unfolding match_pending deliver pit_key
  receive_data clock d unsolicited f = elim (match_pending (pit_key d.name) f.pit) [
    | raise e ↦ (f, some e)
    | ok m ↦ deliver clock d unsolicited m f
  ]
