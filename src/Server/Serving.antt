-- ===== src/Server/Serving.antt =====
-- What a server that is not the producer answers from its cache.
use rns_icn.Prelude.{ℕ, ◌≡◌, ◌&&◌, Bool, false, not, Option, none, some, arith}
use rns_icn.Prelude.{List, if-ind}
use rns_icn.Wire.{ok, IfOk}
use rns_icn.Wire.Readers.{>>=-IfOk, >>=-IfOk_eq}
use rns_icn.Packet.Interest.{Interest}
use rns_icn.Packet.Data.{Data}
use rns_icn.ContentStore.Operations.{lookup_name, get_prefix}
use rns_icn.Forwarder.{off_floor, child_of, floor_of}
use rns_icn.Server.{
  Server, is_own, own_or_fresh, own_or_on_floor, maybe_sign_hit, cs_lookup, serve_from_cs,
}

-- Data for an Interest that must be fresh is fresh.
unfoldable pub IsFresh : Interest → Option Data → Type 0
IsFresh i none = Unit
IsFresh i (some d) = (i.must_be_fresh && not d.metadata.freshness.fresh) ≡ false

-- Data for a prefix Interest that asks for the oldest from a floor on is at the floor.
unfoldable pub IsOnFloor : Interest → Option Data → Type 0
IsOnFloor i none = Unit
IsOnFloor i (some d) = (i.can_be_prefix && off_floor i.selector d) ≡ false

own_or_fresh-IsFresh :
    (addr : List ℕ) (i : Interest) (found : Option Data)
    → is_own addr i.name ≡ ok false
    → IsOnFloor i found
    → IfOk (λ hit. IsFresh i hit × IsOnFloor i hit) (own_or_fresh addr i found)
unfolding own_or_fresh IsFresh IsOnFloor
own_or_fresh-IsFresh addr i none other q = (tt, tt)
own_or_fresh-IsFresh addr i (some d) other q =
    if-ind (IfOk (λ hit. IsFresh i hit × IsOnFloor i hit))
      (i.must_be_fresh && not d.metadata.freshness.fresh) _ _ (λ _. rw other (tt, tt)) (λ t. (t, q))

and_right : (a b : Bool) → b ≡ false → (a && b) ≡ false
and_right a b h = ground arith

and_off : (a b : Bool) → a ≡ false → (a && b) ≡ false
and_off a b h = ground arith

own_or_on_floor-IsOnFloor :
    (addr : List ℕ) (i : Interest) (found : Option Data)
    → is_own addr i.name ≡ ok false
    → IfOk (IsOnFloor i) (own_or_on_floor addr i found)
unfolding own_or_on_floor IsOnFloor
own_or_on_floor-IsOnFloor addr i none other = tt
own_or_on_floor-IsOnFloor addr i (some d) other =
    if-ind (IfOk (IsOnFloor i)) (off_floor i.selector d) _ _ (λ _. rw other tt)
      (λ t. and_right i.can_be_prefix (off_floor i.selector d) t)

not_prefix : (i : Interest) (hit : Option Data) → i.can_be_prefix ≡ false → IsOnFloor i hit
unfolding IsOnFloor
not_prefix i none p = tt
not_prefix i (some d) p = and_off i.can_be_prefix (off_floor i.selector d) p

cs_lookup-IsOnFloor :
    (blake2b : List ℕ → List ℕ) (signer : Option (List ℕ → List ℕ)) (now : ℕ) (i : Interest)
    (s : Server)
    → is_own s.rns_addr i.name ≡ ok false
    → IfOk (λ r. IsOnFloor i r.1) (cs_lookup blake2b signer now i s)
unfolding cs_lookup
cs_lookup-IsOnFloor blake2b signer now i s other =
    let floor : Server × Option Data → Type 0 = λ r. IsOnFloor i r.1 in
    if-ind (IfOk floor) i.can_be_prefix _ _
      (λ _.
        >>=-IfOk_eq floor
          (get_prefix blake2b now i.name (child_of i.selector) (floor_of i.selector) s.cs) _
          (λ (cs', found) _.
            >>=-IfOk_eq floor (maybe_sign_hit blake2b signer now s.rns_addr found) _ (λ signed _.
              >>=-IfOk {P = IsOnFloor i} floor (own_or_on_floor s.rns_addr i signed) _
                (own_or_on_floor-IsOnFloor s.rns_addr i signed other) (λ hit h. h))))
      (λ p. >>=-IfOk_eq floor (lookup_name blake2b now i.name s.cs) _ (λ (cs', found) _.
        >>=-IfOk_eq floor (maybe_sign_hit blake2b signer now s.rns_addr found) _
          (λ hit _. not_prefix i hit p)))

-- A server whose address is not the one that the name of an Interest begins with serves no Data
-- from its cache that is not fresh, if the Interest must be fresh, and none off the floor, if it is a
-- prefix Interest that selects the oldest Data at or above a floor.
pub serve_from_cs-IsFresh :
    (blake2b : List ℕ → List ℕ) (signer : Option (List ℕ → List ℕ)) (now : ℕ) (i : Interest)
    (s : Server)
    → is_own s.rns_addr i.name ≡ ok false
    → IfOk (λ r. IsFresh i r.1 × IsOnFloor i r.1) (serve_from_cs blake2b signer now i s)
unfolding serve_from_cs
serve_from_cs-IsFresh blake2b signer now i s other =
    let served : Server × Option Data → Type 0 = λ r. IsFresh i r.1 × IsOnFloor i r.1 in
    >>=-IfOk {P = λ r. IsOnFloor i r.1} served (cs_lookup blake2b signer now i s) _
      (cs_lookup-IsOnFloor blake2b signer now i s other)
      (λ (t, found) q.
        >>=-IfOk {P = λ hit. IsFresh i hit × IsOnFloor i hit} served
          (own_or_fresh s.rns_addr i found) _ (own_or_fresh-IsFresh s.rns_addr i found other q)
          (λ hit h. h))
