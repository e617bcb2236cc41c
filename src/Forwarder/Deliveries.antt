-- ===== src/Forwarder/Deliveries.antt =====
-- Who gets the Data that arrives, and when it is cached.
use rns_icn.Prelude.{
  ℕ, zero, suc, ◌-◌, ◌≤◌, ◌<◌, ◌≡◌, refl, sym, ap, ◌∙◌, Bool, true, false, ◌||◌, ◌⊎◌, Option, none,
  some, arith,
}
use rns_icn.Prelude.{
  List, [], ◌∷◌, length, take, drop, ◌==◌, nat_eq, list_eq, if◌then◌else◌, if-ind, Option-cases,
  inl, inr,
}
use rns_icn.Prelude.{Dict, get, Distinct, get-put, get-erase}
use rns_icn.Wire.{Error, index_error, Result, ok, raise, IfOk}
use rns_icn.Wire.Readers.{Result-ind, >>=-IfOk, >>=-IfOk_eq, IfOk-eq, IfOk-map}
use rns_icn.Name
use rns_icn.Name.{Name, name_eq, rns_addr}
use rns_icn.Packet.Data.{Data}
use rns_icn.Packet.Data.Envelope.Binding.{ok-injective}
use rns_icn.Pit.{Pit, PitEntry, find}
use rns_icn.Forwarder.{Forwarder, Reply, pit_key}
use rns_icn.Forwarder.Receive.{
  set_result, set_results, waiters, notify_waiters, asks_for_prefix, find_ancestor, match_pending,
  observe, cache, deliver, receive_data,
}

-- `fut in futs`
abbrev pub contains : ℕ → List ℕ → Bool
contains fut [] = false
contains fut (x ∷ xs) = x == fut || contains fut xs

-- what a future is done with: the first reply stays
abbrev pub first_reply : Bool → Reply → Option Reply → Option Reply
first_reply waits r none = if waits then some r else none
first_reply waits r (some q) = some q

get-set_result :
    (r : Reply) (x fut : ℕ) (d : Dict ℕ Reply)
    → get fut (set_result r x d) ≡ first_reply (x == fut) r (get fut d)
unfolding set_result
get-set_result r x fut d = ground (arith, get-put x fut r d)

get-set_results :
    (r : Reply) (futs : List ℕ) (fut : ℕ) (d : Dict ℕ Reply)
    → get fut (set_results r futs d) ≡ first_reply (contains fut futs) r (get fut d)
unfolding set_results
get-set_results r [] fut d = ground arith
get-set_results r (x ∷ xs) fut d =
    ground (arith, get-set_results r xs fut (set_result r x d), get-set_result r x fut d)

-- Resolving the notifiers of a name (by Data or by a NACK): every future that waits under the name
-- and was not done is done with the reply, each other future is as it was, and, the names of the
-- notifiers being distinct, no future waits under the name any more and other names keep theirs.
pub notify_waiters-get :
    (name : Name) (r : Reply) (f : Forwarder)
    → Distinct f.notifiers
    → ((fut : ℕ)
        → get fut (notify_waiters name r f).futures
          ≡ first_reply (contains fut (waiters name f)) r (get fut f.futures))
      × ((other : Name)
          → get other (notify_waiters name r f).notifiers
            ≡ (if name == other then none else get other f.notifiers))
unfolding notify_waiters
notify_waiters-get name r f h = (
  λ fut. get-set_results r (waiters name f) fut f.futures,
  λ other. get-erase name other f.notifiers h,
)

-- A pending Interest that the Data answers: one for its own name, or one for a proper prefix of it
-- that can be a prefix.
abbrev pub Pending : Name → Pit → Name → Type 0
Pending key p n =
    (e : PitEntry) × (find n p ≡ some e)
    × ((n ≡ key)
        ⊎ ((e.interest.can_be_prefix ≡ true)
            × ((k : ℕ) × (0 < k)
                × (k < length key.components)
                × (n.components ≡ take k key.components))))

abbrev IfFound : (Name → Type 0) → Option Name → Type 0
IfFound P none = Unit
IfFound P (some n) = P n

-- An ancestor of the key in the table, with at most `i` components.
abbrev Ancestor : ℕ → Name → Pit → Name → Type 0
Ancestor i key p n =
    (e : PitEntry) × (find n p ≡ some e)
    × (e.interest.can_be_prefix ≡ true)
    × ((k : ℕ) × (0 < k) × (k ≤ i) × (n.components ≡ take k key.components))

false-not-true : false ≡ true → ⊥
false-not-true e = cc

asks_for_prefix-entry :
    (n : Name) (p : Pit)
    → asks_for_prefix n p ≡ true
    → (e : PitEntry) × (find n p ≡ some e) × (e.interest.can_be_prefix ≡ true)
unfolding asks_for_prefix
asks_for_prefix-entry n p h = elim (Option-cases (find n p)) [
  | inl e ↦ absurd (false-not-true (rw (e, asks_for_prefix) at h))
  | inr (x, e) ↦ (x, e, rw (e, asks_for_prefix) at h)
]

new-components :
    (addr : List ℕ) (path : List (List ℕ))
    → IfOk (λ n. n.components ≡ addr ∷ path) (Name.new addr path none)
unfolding Name.new
new-components addr path =
    if-ind (IfOk (λ n. n.components ≡ addr ∷ path)) (length addr == 16) _ _ (λ _. refl) (λ _. tt)

ok-not-raise : {A : Type 0} {a : A} {e : Error} → ok a ≡ raise e → ⊥
ok-not-raise p = cc

take-root :
    (key : Name) (i : ℕ) (addr : List ℕ)
    → rns_addr key ≡ ok addr
    → addr ∷ drop 1 (take (suc i) key.components) ≡ take (suc i) key.components
unfolding rns_addr
take-root key i addr h = go key.components h
  where
    go :
        (cs : List (List ℕ))
        → (elim cs as (λ c. Result (List ℕ)) [ [] ↦ raise index_error | a ∷ path ↦ ok a ]) ≡ ok addr
        → addr ∷ drop 1 (take (suc i) cs) ≡ take (suc i) cs
    go [] e = absurd (ok-not-raise (sym e))
    go (c ∷ cs) e = ap (λ a. a ∷ take i cs) (sym (ok-injective e))

Ancestor-up :
    (i : ℕ) (key : Name) (p : Pit) (o : Option Name)
    → IfFound (Ancestor i key p) o
    → IfFound (Ancestor (suc i) key p) o
Ancestor-up i key p none h = h
Ancestor-up i key p (some n) (e, found, prefix, (k, pos, le, parts)) =
    (e, found, prefix, (k, pos, omega arith, parts))

find_ancestor-Ancestor :
    (i : ℕ) (key : Name) (p : Pit) → IfOk (IfFound (Ancestor i key p)) (find_ancestor i key p)
unfolding find_ancestor
find_ancestor-Ancestor zero key p = tt
find_ancestor-Ancestor (suc i) key p = >>=-IfOk_eq _ (rns_addr key) _ (λ addr root.
    >>=-IfOk {P = λ n. n.components ≡ addr ∷ drop 1 (take (suc i) key.components)} _
      (Name.new addr (drop 1 (take (suc i) key.components)) none) _
      (new-components addr (drop 1 (take (suc i) key.components)))
      (λ n parts.
        if-ind (IfOk (IfFound (Ancestor (suc i) key p))) (asks_for_prefix n p) _ _
          (λ t.
            let (e, found, prefix) = asks_for_prefix-entry n p t in
            (
              e,
              found,
              prefix,
              (suc i, omega arith, omega arith, parts ∙ take-root key i addr root),
            ))
          (λ _.
            IfOk-map _ (find_ancestor i key p) (find_ancestor-Ancestor i key p)
              (Ancestor-up i key p))))

-- What was matched is pending.
abbrev Matched : Name → Pit → Name × Bool → Type 0
Matched key p (n, matched) = matched ≡ true → Pending key p n

Matched-by :
    (key : Name) (p : Pit) (o : Option Name)
    → IfFound (Ancestor (length key.components - 1) key p) o
    → Matched key p (elim o [ none ↦ (key, false) | some ancestor ↦ (ancestor, true) ])
Matched-by key p none h = λ t. absurd (false-not-true t)
Matched-by key p (some n) (e, found, prefix, (k, pos, le, parts)) =
    λ t. (e, found, inr (prefix, (k, pos, omega arith, parts)))

match_pending-Matched : (key : Name) (p : Pit) → IfOk (Matched key p) (match_pending key p)
unfolding match_pending
match_pending-Matched key p = elim (Option-cases (find key p)) [
  | inr (e, found) ↦ rw (found, match_pending) (λ t. (e, found, inl refl))
  | inl e ↦
      rw (e, match_pending)
        (>>=-IfOk {P = IfFound (Ancestor (length key.components - 1) key p)} (Matched key p)
          (find_ancestor (length key.components - 1) key p) _
          (find_ancestor-Ancestor (length key.components - 1) key p) (λ o h. Matched-by key p o h))
]

-- The cache, the futures and the notifiers are as they were.
abbrev pub Untouched : Forwarder → Forwarder → Type 0
Untouched f g = (g.cs ≡ f.cs) × (g.futures ≡ f.futures) × (g.notifiers ≡ f.notifiers)

module _ (blake2b : List ℕ → List ℕ) (decode : List ℕ → Option (List ℕ)) where
  -- Unsolicited Data does nothing: when `receive_data` runs without `cache_unsolicited`, then there
  -- is a pending Interest that the Data answers (one for its name without the hash, or one
  -- that can be a prefix, for a proper prefix of that), or the cache, the futures and
  -- the notifiers are as they were.
  pub receive_data-solicited :
      (clock : ℕ) (d : Data) (f : Forwarder)
      → ((n : Name) × Pending (pit_key d.name) f.pit n)
        ⊎ Untouched f (receive_data blake2b decode clock d false f).0
  unfolding receive_data
  receive_data-solicited clock d f =
      Result-ind
        (λ (r : Forwarder × Option Error).
          ((n : Name) × Pending (pit_key d.name) f.pit n) ⊎ Untouched f r.0)
        (match_pending (pit_key d.name) f.pit) _ _
        (λ (n, matched) e. go n matched (
          IfOk-eq (Matched (pit_key d.name) f.pit) e
            (match_pending-Matched (pit_key d.name) f.pit)))
        (λ _ _. inr (refl, refl, refl))
    where
      go :
          (n : Name) (matched : Bool)
          → Matched (pit_key d.name) f.pit (n, matched)
          → ((n : Name) × Pending (pit_key d.name) f.pit n)
            ⊎ Untouched f (deliver blake2b decode clock d false (n, matched) f).0
      go n true h = inl (n, h refl)
      go n false h = inr (unfold deliver cache observe in (refl, refl, refl))
