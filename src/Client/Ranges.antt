-- ===== src/Client/Ranges.antt =====
-- The calls of the client that are made of several fetches: `fetch_latest` and `fetch_range`.
use rns_icn.Prelude.{
  ℕ, zero, suc, ◌+◌, ◌≤◌, ◌≡◌, refl, ◌&&◌, Bool, true, false, Option, none, some, arith,
}
use rns_icn.Prelude.{
  List, [], ◌∷◌, length, ltb, ltb-false→le, ◌==◌, nat_eq, list_eq, if◌then◌else◌, if-ind,
}
use rns_icn.Wire.{Result, ok, raise, ◌>>=◌, discovery_error}
use rns_icn.Name.{Name, rns_addr, starts_with}
use rns_icn.Packet.Selector.{InterestSelector, latest, oldest}
use rns_icn.Packet.Data.{Data}
use rns_icn.Access.{Crypto}
use rns_icn.Discovery.{meta_name, decode_meta}
use rns_icn.Forwarder.Streams.{Ascending}
use rns_icn.Client.{Client, Answer, Request, exact_request, fetch_verified}

-- "target.rns_addr != prefix.rns_addr or not target.starts_with(prefix)" is an escape
unfoldable pub stays_under : Name → Name → Result Bool
unfolding rns_addr starts_with
stays_under target prefix = do
  a ← rns_addr target
  b ← rns_addr prefix
  ok (a == b && starts_with target prefix)

-- "except discovery.DiscoveryError": a malformed pointer is as none
unfoldable pub pointer_target : Data → Result (Option Name)
unfolding decode_meta
pointer_target meta = elim (decode_meta meta.content) [
  | ok target ↦ ok (some target)
  | raise discovery_error ↦ ok none
  | raise e ↦ raise e
]

-- the target that is fetched: the pointer's, if it does not escape the prefix
unfoldable pub safe_target : Name → Option Data → Result (Option Name)
unfolding pointer_target stays_under
safe_target prefix none = ok none
safe_target prefix (some meta) = do
  target ← pointer_target meta
  elim target [
    | none ↦ ok none
    | some t ↦ stays_under t prefix >>= (λ fine. ok (if fine then some t else none))
  ]

module _ {I : Type 0} (crypto : Crypto I) (recall : List ℕ → Option (List ℕ → List ℕ → Bool))
    (now : ℕ) where
  abbrev pub meta_request : Name → Client I → Request
  meta_request name c = record {
    name = name;
    must_be_fresh = true;
    can_be_prefix = false;
    selector = none;
    require = true;
    raise_on_failure = false;
    retries = c.max_retries;
  }

  abbrev pub prefix_request : Name → InterestSelector → Client I → Request
  prefix_request prefix selector c = record {
    name = prefix;
    must_be_fresh = false;
    can_be_prefix = true;
    selector = some selector;
    require = c.require_signature;
    raise_on_failure = false;
    retries = c.max_retries;
  }

  -- the second fetch of `fetch_latest`: the pointer's target, or the best effort
  unfoldable pub follow :
      Name → (Request → ℕ → Answer) → Option Name → Client I → Client I × Result (Option Data)
  unfolding fetch_verified
  follow prefix network none c =
      let q = prefix_request prefix (record { min_sequence = none; child = latest }) c in
      let r = fetch_verified crypto recall now q (network q) c in (r.0, r.2)
  follow prefix network (some target) c =
      let r =
        fetch_verified crypto recall now (exact_request crypto recall target c)
          (network (exact_request crypto recall target c)) c in
      (r.0, r.2)

  -- after the pointer was fetched, or not
  unfoldable pub after_meta :
      Name
      → (Request → ℕ → Answer)
      → Client I × List ℕ × Result (Option Data)
      → Client I × Result (Option Data)
  unfolding safe_target follow
  after_meta prefix network (c, delays, raise e) = (c, raise e)
  after_meta prefix network (c, delays, ok meta) = elim (safe_target prefix meta) [
    | raise e ↦ (c, raise e)
    | ok target ↦ follow prefix network target c
  ]

  unfoldable pub fetch_latest :
      Name → (Request → ℕ → Answer) → Client I → Client I × Result (Option Data)
  unfolding meta_name fetch_verified after_meta
  fetch_latest prefix network c = elim (meta_name prefix) [
    | raise e ↦ (c, raise e)
    | ok name ↦
        after_meta prefix network
          (fetch_verified crypto recall now (meta_request name c) (network (meta_request name c)) c)
  ]

  -- an edition with a sequence at or above the floor is yielded, another ends the loop
  unfoldable pub edition :
      ℕ → Data → Option ℕ → Client I → (ℕ → Client I → Client I × List Data) → Client I × List Data
  edition min_seq d none c more = (c, [])
  edition min_seq d (some seq) c more =
      let rest = more (seq + 1) c in if ltb seq min_seq then (c, []) else (rest.0, d ∷ rest.1)

  -- one round of `fetch_range` has fetched: the loop ends, or goes on above the sequence
  unfoldable pub next_edition :
      ℕ
      → Client I × List ℕ × Result (Option Data)
      → (ℕ → Client I → Client I × List Data)
      → Client I × List Data
  unfolding edition
  next_edition min_seq (c, delays, raise e) more = (c, [])
  next_edition min_seq (c, delays, ok none) more = (c, [])
  next_edition min_seq (c, delays, ok (some d)) more = edition min_seq d d.metadata.sequence c more

  -- `fetch_range` for at most `max_items` editions; without that bound, its first rounds
  unfoldable pub fetch_range :
      ℕ → Name → (ℕ → Request → ℕ → Answer) → ℕ → Client I → Client I × List Data
  unfolding next_edition fetch_verified
  fetch_range zero prefix network min_seq c = (c, [])
  fetch_range (suc items) prefix network min_seq c =
      let q = prefix_request prefix (record { min_sequence = some min_seq; child = oldest }) c in
      next_edition min_seq (fetch_verified crypto recall now q (network items q) c)
        (fetch_range items prefix network)

  Walks : ℕ → ℕ → List Data → Type 0
  Walks floor items ds = (length ds ≤ items) × Ascending floor ds

  edition-Walks :
      (floor items : ℕ) (d : Data) (o : Option ℕ) (c : Client I)
      (more : ℕ → Client I → Client I × List Data)
      → d.metadata.sequence ≡ o
      → ((n : ℕ) (c : Client I) → Walks n items (more n c).1)
      → Walks floor (suc items) (edition floor d o c more).1
  unfolding edition Walks
  edition-Walks floor items d none c more e h = (omega arith, tt)
  edition-Walks floor items d (some seq) c more e h =
      if-ind (λ (r : Client I × List Data). Walks floor (suc items) r.1) (ltb seq floor) _ _
        (λ _. (omega arith, tt))
        (λ t.
          (omega (arith, (h (seq + 1) c).0), (seq, e, ltb-false→le seq floor t, (h (seq + 1) c).1)))

  next_edition-Walks :
      (floor items : ℕ) (r : Client I × List ℕ × Result (Option Data))
      (more : ℕ → Client I → Client I × List Data)
      → ((n : ℕ) (c : Client I) → Walks n items (more n c).1)
      → Walks floor (suc items) (next_edition floor r more).1
  unfolding next_edition Walks
  next_edition-Walks floor items (c, ds, raise e) more h = (omega arith, tt)
  next_edition-Walks floor items (c, ds, ok none) more h = (omega arith, tt)
  next_edition-Walks floor items (c, ds, ok (some d)) more h =
      edition-Walks floor items d d.metadata.sequence c more refl h

  -- `fetch_range` yields at most `max_items` editions, each with a sequence, from `start_sequence`
  -- on in strictly ascending order, whatever the network answers.
  pub fetch_range-Ascending :
      (items : ℕ) (prefix : Name) (network : ℕ → Request → ℕ → Answer) (min_seq : ℕ) (c : Client I)
      → (length (fetch_range items prefix network min_seq c).1 ≤ items)
        × Ascending min_seq (fetch_range items prefix network min_seq c).1
  unfolding fetch_range Walks
  fetch_range-Ascending zero prefix network min_seq c = (omega arith, tt)
  fetch_range-Ascending (suc items) prefix network min_seq c =
      let q = prefix_request prefix (record { min_sequence = some min_seq; child = oldest }) c in
      next_edition-Walks min_seq items (fetch_verified crypto recall now q (network items q) c)
        (fetch_range items prefix network) (λ n d. fetch_range-Ascending items prefix network n d)
