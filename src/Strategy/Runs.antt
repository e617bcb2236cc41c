-- ===== src/Strategy/Runs.antt =====
-- Concrete runs on the forwarding strategy.
use rns_icn.Prelude.{◌≡◌, refl, [], ◌∷◌, none, some, false, arith, nat_eq, get}
use rns_icn.Fib.{Faces}
use rns_icn.Strategy.{BestRoute, FailureRecord, is_in_backoff, decide}
use rns_icn.Strategy.Backoff.{is_in_backoff-ends}
use rns_icn.Strategy.Decisions.{Explains, decide-Explains}
use rns_icn.Samples.{interest}

abbrev failed : FailureRecord
failed = record { last_failure = 500; consecutive_failures = 2 }

abbrev strategy : BestRoute
strategy = record {
  failures = (1, failed) ∷ [];
  backoff_base = 1000;
  max_backoff = 30000;
  stale_while_revalidate = 0;
}

abbrev faces : Faces
faces = (1, 10) ∷ (2, 20) ∷ []

-- Face 1 is in backoff, so that the Interest goes to face 2.
decide-Explains_example :
    Explains 600 strategy interest faces none none (decide 600 strategy interest faces none none)
decide-Explains_example = decide-Explains 600 strategy interest faces none none

get-failed : get 1 strategy.failures ≡ some failed
unfolding get
get-failed = refl

is_in_backoff-ends_example : is_in_backoff 31000 strategy 1 ≡ false
is_in_backoff-ends_example = is_in_backoff-ends 31000 strategy 1 failed get-failed (omega arith)
