-- ===== src/Strategy.antt =====
-- rns_icn/strategy.py: `BestRoute`. The clock is the argument `now`; the times of the backoff are
-- whole milliseconds (the source has seconds as floats). The clock never goes back, so that the
-- difference `now - last_failure` is not negative.
pub mod Backoff
pub mod Decisions
mod Runs
use rns_icn.Prelude.{
  ℕ, ◌+◌, ◌-◌, ◌*◌, ◌^◌, ◌≤◌, min, Bool, true, false, ◌&&◌, not, Option, none, some,
}
use rns_icn.Prelude.{List, [], ◌∷◌, ltb, leb, ◌==◌, nat_eq, if◌then◌else◌}
use rns_icn.Prelude.{Dict, get, put, erase}
use rns_icn.Pit.{FaceId, PitEntry}
use rns_icn.Fib.{Faces}
use rns_icn.Packet.Interest.{Interest}
use rns_icn.Packet.Selector.{InterestSelector}
use rns_icn.Packet.Metadata.{DataMetadata}
use rns_icn.Packet.Data.{Data}

pub data StrategyDecision : Type 0 where
  serve_from_cache serve_stale_revalidate suppress_aggregate forward_to no_route : StrategyDecision

-- `_FailureRecord`
pub record FailureRecord : Type 0 where
  pub last_failure : ℕ
  pub consecutive_failures : ℕ

pub record BestRoute : Type 0 where
  pub failures : Dict FaceId FailureRecord
  pub backoff_base : ℕ
  pub max_backoff : ℕ
  pub stale_while_revalidate : ℕ

-- `consecutive_failures` of `setdefault(face, _FailureRecord())`
unfoldable pub failures_of : Option FailureRecord → ℕ
failures_of none = 0
failures_of (some r) = r.consecutive_failures

unfoldable pub record_failure : ℕ → FaceId → BestRoute → BestRoute
unfolding failures_of
record_failure now face s = record s {
  failures =
      put face
        (record {
          last_failure = now;
          consecutive_failures = failures_of (get face s.failures) + 1;
        })
        s.failures;
}

unfoldable pub record_success : FaceId → BestRoute → BestRoute
record_success face s = record s { failures = erase face s.failures }

unfoldable pub backoff : BestRoute → ℕ → ℕ
backoff s failures = min (s.backoff_base * 2 ^ min failures 6) s.max_backoff

-- the end of `_is_in_backoff`, at the record of the face
unfoldable pub backs_off : ℕ → BestRoute → Option FailureRecord → Bool
unfolding backoff
backs_off now s none = false
backs_off now s (some r) = ltb (now - r.last_failure) (backoff s r.consecutive_failures)

unfoldable pub is_in_backoff : ℕ → BestRoute → FaceId → Bool
unfolding backs_off
is_in_backoff now s face = backs_off now s (get face s.failures)

-- `sequence is not None and sequence >= floor`
unfoldable pub reaches : Option ℕ → ℕ → Bool
reaches none floor = false
reaches (some sequence) floor = leb floor sequence

unfoldable pub floor_satisfied : Option ℕ → Data → Bool
unfolding reaches
floor_satisfied none d = true
floor_satisfied (some floor) d = reaches d.metadata.sequence floor

-- `_sequence_satisfied`
unfoldable pub sequence_satisfied : Option InterestSelector → Data → Bool
unfolding floor_satisfied
sequence_satisfied none d = true
sequence_satisfied (some sel) d = floor_satisfied sel.min_sequence d

-- `_selector_satisfied`
unfoldable pub selector_satisfied : Interest → Data → Bool
unfolding sequence_satisfied
selector_satisfied i d =
    if i.must_be_fresh && not d.metadata.freshness.fresh
    then false
    else sequence_satisfied i.selector d

-- `_first_usable_face`
unfoldable pub first_usable_face : ℕ → BestRoute → Faces → Option FaceId
first_usable_face now s [] = none
first_usable_face now s ((face, cost) ∷ faces) =
    if is_in_backoff now s face then first_usable_face now s faces else some face

unfoldable pub usable_faces : ℕ → BestRoute → Faces → List FaceId
usable_faces now s [] = []
usable_faces now s ((face, cost) ∷ faces) =
    if is_in_backoff now s face then usable_faces now s faces else face ∷ usable_faces now s faces

unfoldable pub within_period : ℕ → ℕ → Option ℕ → Bool
within_period swr age none = false
within_period swr age (some period) = if swr == 0 then false else ltb age (period + swr)

-- `_within_swr_window`
unfoldable pub within_swr_window : BestRoute → Data → Bool
unfolding within_period
within_swr_window s d =
    within_period s.stale_while_revalidate d.metadata.freshness.age_seconds
      d.metadata.freshness_period

-- the cache hit that is acceptable: serve it, and refresh it if it is stale and may be
unfoldable pub serve : BestRoute → Data → Option FaceId → StrategyDecision × Option FaceId
serve s d none = (serve_from_cache, none)
serve s d (some face) =
    if not d.metadata.freshness.fresh && within_swr_window s d
    then (serve_stale_revalidate, some face)
    else (serve_from_cache, none)

unfoldable pub route : Option FaceId → StrategyDecision × Option FaceId
route none = (no_route, none)
route (some face) = (forward_to, some face)

-- no acceptable cache hit: an Interest that is pending is joined
unfoldable pub forward_or_join : Option PitEntry → Option FaceId → StrategyDecision × Option FaceId
unfolding route
forward_or_join none face = route face
forward_or_join (some entry) face =
    if entry.satisfied then route face else (suppress_aggregate, none)

unfoldable pub decide :
    ℕ
    → BestRoute
    → Interest
    → Faces
    → Option PitEntry
    → Option Data
    → StrategyDecision × Option FaceId
unfolding serve forward_or_join
decide now s i fib_faces pit_hit none = forward_or_join pit_hit (first_usable_face now s fib_faces)
decide now s i fib_faces pit_hit (some d) =
    if selector_satisfied i d
    then serve s d (first_usable_face now s fib_faces)
    else forward_or_join pit_hit (first_usable_face now s fib_faces)
