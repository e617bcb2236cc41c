-- ===== src/Forwarder.antt =====
-- rns_icn/forwarder.py: the forwarding engine over the table of pending Interests, the routes, the
-- strategy (`BestRoute`, the default) and the cache. A coroutine runs up to the point where it
-- awaits a future; the outcome says where it stopped. A future is a number, and `futures` holds
-- those that are done. What a face is sent is kept in `sent`, what the observer is given in
-- `observed`. The clock is `now`, in milliseconds for the PIT and the strategy; the cache has its
-- own clock in seconds. An exception of the network is not modelled.
pub mod Receive
pub mod Streams
pub mod Sends
pub mod Loops
pub mod Deliveries
pub mod Validity
mod Runs
use rns_icn.Prelude.{
  ℕ, zero, suc, ◌+◌, ◌-◌, ◌*◌, ◌||◌, ◌&&◌, Bool, true, false, not, Option, none, some, is_some,
  nat_beq,
}
use rns_icn.Prelude.{
  List, [], ◌∷◌, ◌++◌, length, filter, any, ◌==◌, nat_eq, list_eq, option_eq, if◌then◌else◌,
}
use rns_icn.Prelude.{Dict, get, put, erase}
use rns_icn.Wire.{Error, Result, ok, raise, ◌>>=◌}
use rns_icn.Name.{Name, name_eq, without_content_hash}
use rns_icn.Packet.Selector.{InterestSelector, ChildSelector, child_none, is_oldest}
use rns_icn.Packet.Interest
use rns_icn.Packet.Interest.{Interest}
use rns_icn.Packet.Data.{Data}
use rns_icn.Pit
use rns_icn.Pit.{Pit, FaceId, check_loop, record_nonce, insert_or_aggregate, set_out_face}
use rns_icn.Fib
use rns_icn.Fib.{Fib, Faces, remove_all_for_face}
use rns_icn.Strategy.{
  BestRoute, StrategyDecision, serve_from_cache, serve_stale_revalidate, suppress_aggregate,
  forward_to, no_route, decide, usable_faces, record_failure, record_success,
}
use rns_icn.ContentStore.{ContentStore}
use rns_icn.ContentStore.Operations.{lookup_name, get_prefix}

-- How a future was done: the `_NACK` sentinel, Data, or the timeout of `wait_for`.
pub data Reply : Type 0 where
  timed_out nacked : Reply
  arrived : Data → Reply

-- the task of `_schedule_revalidation`
pub record Task : Type 0 where
  pub interest : Interest
  pub in_face : FaceId
  pub out_face : FaceId

pub record Forwarder : Type 0 where
  pub cs : ContentStore
  pub fib : Fib
  pub pit : Pit
  pub strategy : BestRoute
  pub faces : List FaceId
  pub notifiers : Dict Name (List ℕ)
  pub revalidating : List Name
  pub bg_tasks : List Task
  pub has_callback : Bool
  pub next_future : ℕ
  pub futures : Dict ℕ Reply
  pub sent : List (FaceId × List ℕ)
  pub observed : List Data

-- where a forward waits: `_forward_one` on a future, and the next hops that are left to try
pub record Wait : Type 0 where
  pub future : ℕ
  pub name : Name
  pub interest : Interest
  pub in_face : FaceId
  pub out_face : FaceId
  pub rest : List FaceId

pub data Outcome : Type 0 where
  returns : Option Data → Outcome
  fails : Error → Outcome
  joins : ℕ → Outcome
  awaits : Wait → Outcome

-- `set_data_callback`
abbrev pub set_data_callback : Bool → Forwarder → Forwarder
set_data_callback callback f = record f { has_callback = callback }

-- `face_id in self._faces`
unfoldable pub is_registered : FaceId → Forwarder → Bool
is_registered face f = any (λ g. g == face) f.faces

-- `self._faces[face.id()] = face`
unfoldable pub register_face : FaceId → Forwarder → Forwarder
unfolding is_registered
register_face face f =
    if is_registered face f then f else record f { faces = f.faces ++ (face ∷ []) }

unfoldable pub unregister_face : FaceId → Forwarder → Forwarder
unregister_face face f = record f { faces = filter (λ g. not (g == face)) f.faces }

unfoldable pub add_route : Name → FaceId → ℕ → Forwarder → Forwarder
add_route prefix face cost f = record f { fib = Fib.insert prefix face cost f.fib }

unfoldable pub withdraw_face : FaceId → Forwarder → Forwarder
unfolding unregister_face
withdraw_face face f = unregister_face face (record f { fib = (remove_all_for_face face f.fib).0 })

-- `name.without_content_hash() if name.content_hash else name`
unfoldable pub pit_key : Name → Name
pit_key name = elim name.content_hash [
  | none ↦ name
  | some [] ↦ name
  | some (b ∷ bs) ↦ without_content_hash name
]

-- `self._pit_notifiers.setdefault(name, []).append(fut)`, for a new future
unfoldable pub new_future : Name → Forwarder → Forwarder
new_future name f = record f {
  notifiers =
      put name (elim (get name f.notifiers) [ none ↦ [] | some fs ↦ fs ] ++ (f.next_future ∷ []))
        f.notifiers;
  next_future = f.next_future + 1;
}

-- `_failover_candidates`, for a strategy that has `usable_faces`
unfoldable pub failover_candidates : ℕ → Faces → Option FaceId → Forwarder → List FaceId
failover_candidates now fib_faces primary f = elim (usable_faces now f.strategy fib_faces) [
  | [] ↦ elim primary [ none ↦ [] | some face ↦ face ∷ [] ]
  | face ∷ faces ↦ face ∷ faces
]

abbrev pub forget : Name → Forwarder → Forwarder
forget name f = record f { pit = (Pit.remove name f.pit).0 }

-- the head of `_forward_one`: the PIT entry and its out-face
unfoldable pub enter_pit : ℕ → Interest → FaceId → FaceId → Forwarder → Forwarder
unfolding pit_key
enter_pit now i in_face out_face f = record f {
  pit =
      set_out_face (pit_key i.name) out_face
        (insert_or_aggregate now (pit_key i.name) in_face i i.lifetime_ms f.pit).0;
}

-- the send of `_forward_one` over a registered face, up to the future
unfoldable pub send_and_wait :
    Interest → FaceId → FaceId → List FaceId → Forwarder → Forwarder × Outcome
unfolding new_future pit_key
send_and_wait i in_face out_face rest f = elim (Interest.to_bytes i) [
  | raise e ↦ (f, fails e)
  | ok bytes ↦ (
    new_future (pit_key i.name) (record f { sent = f.sent ++ ((out_face, bytes) ∷ []) }),
    awaits (record {
      future = f.next_future;
      name = pit_key i.name;
      interest = i;
      in_face = in_face;
      out_face = out_face;
      rest = rest;
    }),
  )
]

-- the loop of `_forward` over the next hops, up to the first future
unfoldable pub try_faces : ℕ → Interest → FaceId → List FaceId → Forwarder → Forwarder × Outcome
unfolding enter_pit is_registered send_and_wait
try_faces now i in_face [] f = (f, returns none)
try_faces now i in_face (out_face ∷ rest) f =
    let entered = enter_pit now i in_face out_face f in
    let skipped = try_faces now i in_face rest (forget (pit_key i.name) entered) in
    if is_registered out_face f then send_and_wait i in_face out_face rest entered else skipped

-- `_forward`
unfoldable pub forward : ℕ → Interest → FaceId → List FaceId → Forwarder → Forwarder × Outcome
unfolding try_faces
forward now i in_face out_faces f =
    if i.hop_limit == 0
    then (f, returns none)
    else try_faces now (record i { hop_limit = i.hop_limit - 1 }) in_face out_faces f

-- the PIT entry is dropped and the failure recorded
abbrev pub give_up : ℕ → Wait → Forwarder → Forwarder
give_up now w f = record (forget w.name f) { strategy = record_failure now w.out_face f.strategy }

-- the rest of `_forward_one` once its future is done, and of the loop
unfoldable pub settle : ℕ → Wait → Reply → Forwarder → Forwarder × Outcome
unfolding try_faces
settle now w (arrived d) f =
    (forget w.name (record f { strategy = record_success w.out_face f.strategy }), returns (some d))
settle now w _ f = try_faces now w.interest w.in_face w.rest (give_up now w f)

unfoldable pub resume : ℕ → Wait → Forwarder → Forwarder × Outcome
unfolding settle
resume now w f = elim (get w.future f.futures) [ none ↦ (f, awaits w) | some r ↦ settle now w r f ]

-- what an aggregated waiter of `express` returns
unfoldable pub joined : Reply → Option Data
joined (arrived d) = some d
joined _ = none

-- `_schedule_revalidation`, with the nonce of `os.urandom(8)`
unfoldable pub schedule_revalidation : List ℕ → Interest → FaceId → FaceId → Forwarder → Forwarder
schedule_revalidation nonce i in_face out_face f =
    if any (λ n. n == i.name) f.revalidating then f else record f {
      revalidating = i.name ∷ f.revalidating;
      bg_tasks =
          f.bg_tasks
          ++ (record {
            interest = record i { nonce = nonce; must_be_fresh = true };
            in_face = in_face;
            out_face = out_face;
          }
              ∷ []);
    }

-- `_run` up to its first future, and its `finally`
unfoldable pub run_task : ℕ → Task → Forwarder → Forwarder × Outcome
unfolding forward
run_task now t f = forward now t.interest t.in_face (t.out_face ∷ []) f

unfoldable pub task_done : Name → Forwarder → Forwarder
task_done name f = record f {
  revalidating = filter (λ n. not (n == name)) f.revalidating;
  bg_tasks = filter (λ t. not (t.interest.name == name)) f.bg_tasks;
}

-- the selector, or what stands for none
abbrev pub child_of : Option InterestSelector → ChildSelector
child_of none = child_none
child_of (some s) = s.child

abbrev pub floor_of : Option InterestSelector → Option ℕ
floor_of none = none
floor_of (some s) = s.min_sequence

-- the sequence-walk rule: "oldest at or above the floor" is answered from the cache only at the floor
unfoldable pub off_floor : Option InterestSelector → Data → Bool
off_floor sel d =
    is_oldest (child_of sel)
    && (is_some (floor_of sel) && not (d.metadata.sequence == floor_of sel))

unfoldable pub walk_rule : Option InterestSelector → Option Data → Option Data
unfolding off_floor
walk_rule sel none = none
walk_rule sel (some d) = if off_floor sel d then none else some d

abbrev pub faces_or_none : Option Faces → Faces
faces_or_none none = []
faces_or_none (some fs) = fs

module _ (blake2b : List ℕ → List ℕ) where
  -- step 2 of `express`: the cache
  unfoldable pub check_cs : ℕ → Interest → ContentStore → Result (ContentStore × Option Data)
  unfolding lookup_name get_prefix walk_rule
  check_cs clock i cs =
      if i.can_be_prefix
      then (get_prefix blake2b clock i.name (child_of i.selector) (floor_of i.selector) cs
          >>= (λ (cs', found). ok (cs', walk_rule i.selector found)))
      else lookup_name blake2b clock i.name cs

  -- the branches of `express` on the decision
  unfoldable pub act :
      ℕ
      → List ℕ
      → Interest
      → FaceId
      → Faces
      → Option Data
      → StrategyDecision × Option FaceId
      → Forwarder
      → Forwarder × Outcome
  unfolding schedule_revalidation new_future failover_candidates forward
  act now nonce i in_face fib_faces cs_hit (serve_from_cache, face) f = (f, returns cs_hit)
  act now nonce i in_face fib_faces cs_hit (serve_stale_revalidate, none) f = (f, returns cs_hit)
  act now nonce i in_face fib_faces cs_hit (serve_stale_revalidate, some face) f =
      (schedule_revalidation nonce i in_face face f, returns cs_hit)
  act now nonce i in_face fib_faces cs_hit (suppress_aggregate, face) f =
      (new_future i.name f, joins f.next_future)
  act now nonce i in_face fib_faces cs_hit (forward_to, face) f =
      forward now i in_face (failover_candidates now fib_faces face f) f
  act now nonce i in_face fib_faces cs_hit (no_route, face) f = (f, returns none)

  -- steps 3 to 5, once the cache has answered
  unfoldable pub route_or_serve :
      ℕ → List ℕ → Interest → FaceId → Option Data → Forwarder → Forwarder × Outcome
  unfolding act
  route_or_serve now nonce i in_face cs_hit f =
      let fib_faces = faces_or_none (Fib.lookup i.name f.fib) in
      act now nonce i in_face fib_faces cs_hit
        (decide now f.strategy i fib_faces (Pit.find i.name f.pit) cs_hit) f

  unfoldable pub after_nonce : ℕ → ℕ → List ℕ → Interest → FaceId → Forwarder → Forwarder × Outcome
  unfolding check_cs route_or_serve
  after_nonce now clock nonce i in_face f = elim (check_cs clock i f.cs) [
    | raise e ↦ (f, fails e)
    | ok (cs, cs_hit) ↦ route_or_serve now nonce i in_face cs_hit (record f { cs = cs })
  ]

  -- `express`, up to its first future; `nonce` is for a revalidation
  unfoldable pub express : ℕ → ℕ → List ℕ → Interest → FaceId → Forwarder → Forwarder × Outcome
  unfolding after_nonce
  express now clock nonce i in_face f =
      if check_loop in_face i.nonce f.pit
      then (f, returns none)
      else elim (record_nonce now in_face i.nonce f.pit) [
        | raise e ↦ (f, fails e)
        | ok pit ↦ after_nonce now clock nonce i in_face (record f { pit = pit })
      ]
