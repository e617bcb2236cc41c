-- ===== src/Forwarder/Runs.antt =====
-- Concrete runs of the forwarder, over a table of 4 Interests and 4 nonces and a cache of 2 Data.
use rns_icn.Prelude.{ℕ, ◌-◌, ◌<◌, ◌⊎◌, ◌≡◌, refl, true, false, Option, none, some, arith}
use rns_icn.Prelude.{List, [], ◌∷◌, length, replicate, get, nat_eq, ◌==◌, if◌then◌else◌}
use rns_icn.Wire.{IfOk}
use rns_icn.Name.{Name, name_eq}
use rns_icn.Packet.Selector.{oldest}
use rns_icn.Packet.Interest.{Interest}
use rns_icn.Packet.Data.{Data}
use rns_icn.Pit
use rns_icn.Fib.{Fib}
use rns_icn.ContentStore
use rns_icn.ContentStore.Queries.{IfSome}
use rns_icn.Forwarder.{Forwarder, timed_out, nacked, returns, pit_key, express, forward, check_cs}
use rns_icn.Forwarder.Receive.{waiters, notify_waiters, receive_data}
use rns_icn.Forwarder.Sends.{Sends, forward-Sends, drive, IsDone, drive-IsDone}
use rns_icn.Forwarder.Loops.{express_twice, check_cs-floor}
use rns_icn.Forwarder.Deliveries.{
  contains, first_reply, notify_waiters-get, Pending, Untouched, receive_data-solicited,
}
use rns_icn.Forwarder.Validity.{
  IsValid, Event, expresses, receives, registers, withdraws, routes, react_all, react_all-IsValid,
}
use rns_icn.Samples.{alice, interest, content}

abbrev hash : List ℕ → List ℕ
hash bs = replicate 32 (length bs)

abbrev ascii : List ℕ → Option (List ℕ)
ascii bs = some bs

abbrev routed : Fib
routed = (alice, (3, 10) ∷ (4, 20) ∷ []) ∷ []

abbrev forwarder : Forwarder
forwarder = record {
  cs = ContentStore.new 2 none [];
  fib = [];
  pit = Pit.new 10000 4 4;
  strategy = record {
    failures = [];
    backoff_base = 5000;
    max_backoff = 60000;
    stale_while_revalidate = 0;
  };
  faces = 3 ∷ 4 ∷ [];
  notifiers = (alice, 0 ∷ 1 ∷ []) ∷ [];
  revalidating = [];
  bg_tasks = [];
  has_callback = false;
  next_future = 2;
  futures = [];
  sent = [];
  observed = [];
}

forwarder-IsValid : IsValid forwarder
forwarder-IsValid = (
  record {
    names = tt;
    nonces = tt;
    bounded = omega arith;
    bounded_nonces = omega arith;
    room = omega arith;
    nonce_room = omega arith;
  },
  (tt, tt),
  (record { keys = tt; indexed = tt; room = omega arith }, omega arith),
)

abbrev events : List Event
events =
    routes alice 3 10
    ∷ expresses 0 0 (replicate 8 1) interest 1
    ∷ receives 1 content true
    ∷ registers 9
    ∷ withdraws 3
    ∷ []

react_all-IsValid_example : IsValid (react_all hash ascii events forwarder)
react_all-IsValid_example = react_all-IsValid hash ascii events forwarder forwarder-IsValid

forward-Sends_example :
    ((interest.hop_limit ≡ 0)
      × (forward 0 interest 1 (3 ∷ 4 ∷ []) forwarder ≡ (forwarder, returns none)))
    ⊎ ((0 < interest.hop_limit)
        × Sends
            (record interest { hop_limit = interest.hop_limit - 1 })
            (3 ∷ 4 ∷ [])
            forwarder
            (forward 0 interest 1 (3 ∷ 4 ∷ []) forwarder))
forward-Sends_example = forward-Sends 0 interest 1 (3 ∷ 4 ∷ []) forwarder

drive-IsDone_example :
    IsDone (drive 0 (timed_out ∷ nacked ∷ []) (forward 0 interest 1 (3 ∷ 4 ∷ []) forwarder)).1
drive-IsDone_example =
    drive-IsDone 0 interest 1 (3 ∷ 4 ∷ []) (timed_out ∷ nacked ∷ []) forwarder (omega arith)

express_twice_example :
    express hash 70 0 [] interest 1 (express hash 0 0 [] interest 1 forwarder).0
    ≡ ((express hash 0 0 [] interest 1 forwarder).0, returns none)
express_twice_example =
    express_twice hash 0 0 [] interest 1 forwarder 70 0 [] interest (forwarder-IsValid.0) refl

abbrev walk : Interest
walk = record interest { selector = some (record { min_sequence = some 5; child = oldest }) }

check_cs-floor_example :
    IfOk (λ r. IfSome (λ d. d.metadata.sequence ≡ some 5) r.1) (check_cs hash 0 walk forwarder.cs)
check_cs-floor_example =
    check_cs-floor hash 0 walk forwarder.cs (record { min_sequence = some 5; child = oldest }) 5
      refl refl refl refl

notify_waiters-get_example :
    ((fut : ℕ)
      → get fut (notify_waiters alice nacked forwarder).futures
        ≡ first_reply (contains fut (waiters alice forwarder)) nacked (get fut forwarder.futures))
    × ((other : Name)
        → get other (notify_waiters alice nacked forwarder).notifiers
          ≡ (if alice == other then none else get other forwarder.notifiers))
notify_waiters-get_example = notify_waiters-get alice nacked forwarder (tt, tt)

receive_data-solicited_example :
    ((n : Name) × Pending (pit_key content.name) forwarder.pit n)
    ⊎ Untouched forwarder (receive_data hash ascii 1 content false forwarder).0
receive_data-solicited_example = receive_data-solicited hash ascii 1 content forwarder

-- a producer that has every sequence
abbrev every : Interest → ℕ → ℕ × Option Data
every i s = (
  s,
  some (record content {
    metadata = record (content.metadata) {
      sequence = elim i.selector [ none ↦ none | some sel ↦ sel.min_sequence ];
    };
  }),
)
