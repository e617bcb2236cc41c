-- ===== src/Strategy/Backoff.antt =====
-- The backoff of a face after failures.
use rns_icn.Prelude.{ℕ, ◌+◌, ◌-◌, ◌≤◌, ◌≡◌, false, some, arith}
use rns_icn.Prelude.{
  ltb, le→ltb-false, ◌==◌, nat_eq, eq_refl, if◌then◌else◌, Bool-cases, inl, inr, get, Distinct,
  get-put, get-erase,
}
use rns_icn.Pit.{FaceId}
use rns_icn.Strategy.{
  BestRoute, FailureRecord, failures_of, record_failure, record_success, backoff, backs_off,
  is_in_backoff,
}

pub backoff-le-max : (s : BestRoute) (n : ℕ) → backoff s n ≤ s.max_backoff
unfolding backoff
backoff-le-max s n = omega arith

-- A face is used again at the latest when the longest backoff has passed since its last failure.
pub is_in_backoff-ends :
    (now : ℕ) (s : BestRoute) (face : FaceId) (r : FailureRecord)
    → get face s.failures ≡ some r
    → r.last_failure + s.max_backoff ≤ now
    → is_in_backoff now s face ≡ false
unfolding is_in_backoff backs_off
is_in_backoff-ends now s face r e h = rw e (
    le→ltb-false (now - r.last_failure) (backoff s r.consecutive_failures)
      (omega (arith, backoff-le-max s r.consecutive_failures)))

-- After a failure at `now` the face is in backoff for the backoff of one failure more, capped at
-- the maximum; the other faces are as before.
pub is_in_backoff-record_failure :
    (now later : ℕ) (face other : FaceId) (s : BestRoute)
    → is_in_backoff later (record_failure now face s) other ≡ (
        if face == other
        then ltb (later - now) (backoff s (failures_of (get face s.failures) + 1))
        else is_in_backoff later s other)
unfolding is_in_backoff record_failure
is_in_backoff-record_failure now later face other s =
    rw (get-put face other _ s.failures)
      (elim (Bool-cases (face == other)) [ inl t ↦ rw t | inr f ↦ rw f ])

-- After a success the face is not in backoff, and its next failure counts as the first; the other
-- faces are as before. The failures are kept under distinct faces.
pub is_in_backoff-record_success :
    (now : ℕ) (face other : FaceId) (s : BestRoute)
    → Distinct s.failures
    → (is_in_backoff now (record_success face s) other
        ≡ (if face == other then false else is_in_backoff now s other))
      × (failures_of (get face (record_success face s).failures) ≡ 0)
unfolding is_in_backoff record_success failures_of backs_off
is_in_backoff-record_success now face other s h = (
  ground (arith, get-erase face other s.failures h),
  rw (get-erase face face s.failures h, eq_refl face),
)
