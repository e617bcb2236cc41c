-- ===== src/Forwarder/Validity.antt =====
-- Whatever happens to the forwarder, its three tables stay well-formed and within their limits.
use rns_icn.Prelude.{
  ℕ, ◌-◌, ◌||◌, Bool, true, false, Option, none, some, Option-cases, inl, inr, if-ind,
}
use rns_icn.Prelude.{List, [], ◌∷◌, any, ◌==◌, nat_eq, if◌then◌else◌, get}
use rns_icn.Wire.{Error, IfOk}
use rns_icn.Wire.Readers.{>>=-IfOk, IfOk-eq, Result-ind}
use rns_icn.Name.{Name, name_eq}
use rns_icn.Packet.Interest
use rns_icn.Packet.Interest.{Interest}
use rns_icn.Packet.Data.{Data}
use rns_icn.Pit
use rns_icn.Pit.{FaceId, check_loop, record_nonce, insert_or_aggregate, satisfy, update}
use rns_icn.Pit.Valid
use rns_icn.Pit.Valid.{insert_or_aggregate-IsValid, set_out_face-IsValid, satisfy-IsValid}
use rns_icn.Pit.Shrinking.{remove-IsValid, record_nonce-IsValid}
use rns_icn.Fib
use rns_icn.Fib.{Faces}
use rns_icn.Fib.Changes
use rns_icn.Fib.Changes.{insert-IsValid, remove_all_for_face-IsValid}
use rns_icn.Strategy.{
  StrategyDecision, serve_from_cache, serve_stale_revalidate, suppress_aggregate, forward_to,
  no_route,
}
use rns_icn.ContentStore.{ContentStore}
use rns_icn.ContentStore.Rows.{IsBounded}
use rns_icn.ContentStore.Operations.{get_prefix, insert}
use rns_icn.ContentStore.Capacity.{lookup_name-IsBounded, get_prefix-IsBounded, insert-IsBounded}
use rns_icn.Forwarder.{
  Forwarder, Reply, timed_out, nacked, arrived, Task, Wait, Outcome, register_face, withdraw_face,
  unregister_face, add_route, is_registered, pit_key, failover_candidates, forget, enter_pit,
  new_future, send_and_wait, try_faces, forward, settle, resume, schedule_revalidation, run_task,
  task_done, check_cs, act, route_or_serve, after_nonce, express, child_of, floor_of,
}
use rns_icn.Forwarder.Receive.{
  expire, notify_waiters, receive_nack, match_pending, observe, cache, deliver, receive_data,
}

-- The three tables are well-formed.
abbrev pub IsValid : Forwarder → Type 0
IsValid f = Pit.Valid.IsValid f.pit × Fib.Changes.IsValid f.fib × IsBounded f.cs

forget-IsValid : (name : Name) (f : Forwarder) → IsValid f → IsValid (forget name f)
forget-IsValid name f (p, r, c) = (remove-IsValid name f.pit p, r, c)

enter_pit-IsValid :
    (now : ℕ) (i : Interest) (in_face out_face : FaceId) (f : Forwarder)
    → IsValid f
    → IsValid (enter_pit now i in_face out_face f)
unfolding enter_pit
enter_pit-IsValid now i in_face out_face f (p, r, c) = (
  set_out_face-IsValid (pit_key i.name) out_face _
      (insert_or_aggregate-IsValid now (pit_key i.name) in_face i i.lifetime_ms f.pit p),
  r,
  c,
)

send_and_wait-IsValid :
    (i : Interest) (in_face out_face : FaceId) (rest : List FaceId) (f : Forwarder)
    → IsValid f
    → IsValid (send_and_wait i in_face out_face rest f).0
unfolding send_and_wait new_future
send_and_wait-IsValid i in_face out_face rest f v =
    Result-ind (λ (r : Forwarder × Outcome). IsValid r.0) (Interest.to_bytes i) _ _ (λ _ _. v)
      (λ _ _. v)

try_faces-IsValid :
    (now : ℕ) (i : Interest) (in_face : FaceId) (faces : List FaceId) (f : Forwarder)
    → IsValid f
    → IsValid (try_faces now i in_face faces f).0
unfolding try_faces
try_faces-IsValid now i in_face [] f v = v
try_faces-IsValid now i in_face (face ∷ rest) f v =
    let entered = enter_pit-IsValid now i in_face face f v in
    if-ind (λ (r : Forwarder × Outcome). IsValid r.0) (is_registered face f) _ _
      (λ _. send_and_wait-IsValid i in_face face rest (enter_pit now i in_face face f) entered)
      (λ _.
        try_faces-IsValid now i in_face rest _
          (forget-IsValid (pit_key i.name) (enter_pit now i in_face face f) entered))

forward-IsValid :
    (now : ℕ) (i : Interest) (in_face : FaceId) (faces : List FaceId) (f : Forwarder)
    → IsValid f
    → IsValid (forward now i in_face faces f).0
unfolding forward
forward-IsValid now i in_face faces f v =
    if-ind (λ (r : Forwarder × Outcome). IsValid r.0) (i.hop_limit == 0) _ _ (λ _. v)
      (λ _. try_faces-IsValid now (record i { hop_limit = i.hop_limit - 1 }) in_face faces f v)

settle-IsValid :
    (now : ℕ) (w : Wait) (r : Reply) (f : Forwarder) → IsValid f → IsValid (settle now w r f).0
unfolding settle
settle-IsValid now w (arrived d) f v = forget-IsValid w.name f v
settle-IsValid now w timed_out f v =
    try_faces-IsValid now w.interest w.in_face w.rest _ (forget-IsValid w.name f v)
settle-IsValid now w nacked f v =
    try_faces-IsValid now w.interest w.in_face w.rest _ (forget-IsValid w.name f v)

schedule_revalidation-IsValid :
    (nonce : List ℕ) (i : Interest) (in_face out_face : FaceId) (f : Forwarder)
    → IsValid f
    → IsValid (schedule_revalidation nonce i in_face out_face f)
unfolding schedule_revalidation
schedule_revalidation-IsValid nonce i in_face out_face f v =
    if-ind IsValid (any (λ n. n == i.name) f.revalidating) _ _ (λ _. v) (λ _. v)

resume-IsValid : (now : ℕ) (w : Wait) (f : Forwarder) → IsValid f → IsValid (resume now w f).0
unfolding resume
resume-IsValid now w f v = elim (Option-cases (get w.future f.futures)) [
  | inl e ↦ rw (e, resume) v
  | inr (r, e) ↦ rw (e, resume) (settle-IsValid now w r f v)
]

register_face-IsValid : (face : FaceId) (f : Forwarder) → IsValid f → IsValid (register_face face f)
unfolding register_face
register_face-IsValid face f v = if-ind IsValid (is_registered face f) _ _ (λ _. v) (λ _. v)

withdraw_face-IsValid : (face : FaceId) (f : Forwarder) → IsValid f → IsValid (withdraw_face face f)
unfolding withdraw_face unregister_face
withdraw_face-IsValid face f (p, r, c) = (p, remove_all_for_face-IsValid face f.fib r, c)

add_route-IsValid :
    (prefix : Name) (face : FaceId) (cost : ℕ) (f : Forwarder)
    → IsValid f
    → IsValid (add_route prefix face cost f)
unfolding add_route
add_route-IsValid prefix face cost f (p, r, c) = (p, insert-IsValid prefix face cost f.fib r, c)

notify_waiters-IsValid :
    (name : Name) (r : Reply) (f : Forwarder) → IsValid f → IsValid (notify_waiters name r f)
unfolding notify_waiters
notify_waiters-IsValid name r f v = v

module _ (blake2b : List ℕ → List ℕ) where
  act-IsValid :
      (now : ℕ) (nonce : List ℕ) (i : Interest) (in_face : FaceId) (fib_faces : Faces)
      (cs_hit : Option Data) (decision : StrategyDecision × Option FaceId) (f : Forwarder)
      → IsValid f
      → IsValid (act blake2b now nonce i in_face fib_faces cs_hit decision f).0
  unfolding act new_future
  act-IsValid now nonce i in_face fib_faces cs_hit (serve_from_cache, face) f v = v
  act-IsValid now nonce i in_face fib_faces cs_hit (serve_stale_revalidate, none) f v = v
  act-IsValid now nonce i in_face fib_faces cs_hit (serve_stale_revalidate, some face) f v =
      schedule_revalidation-IsValid nonce i in_face face f v
  act-IsValid now nonce i in_face fib_faces cs_hit (suppress_aggregate, face) f v = v
  act-IsValid now nonce i in_face fib_faces cs_hit (forward_to, face) f v =
      forward-IsValid now i in_face (failover_candidates now fib_faces face f) f v
  act-IsValid now nonce i in_face fib_faces cs_hit (no_route, face) f v = v

  check_cs-IsBounded :
      (clock : ℕ) (i : Interest) (cs : ContentStore)
      → IsBounded cs
      → IfOk (λ r. IsBounded r.0) (check_cs blake2b clock i cs)
  unfolding check_cs
  check_cs-IsBounded clock i cs c =
      if-ind (IfOk (λ r. IsBounded r.0)) i.can_be_prefix _ _
        (λ _.
          let asked =
            get_prefix blake2b clock i.name (child_of i.selector) (floor_of i.selector) cs in
          >>=-IfOk {P = λ r. IsBounded r.0} _ asked _
            (get_prefix-IsBounded blake2b (λ bs. some bs) clock i.name (child_of i.selector)
              (floor_of i.selector) cs c)
            (λ r b. b))
        (λ _. lookup_name-IsBounded blake2b (λ bs. some bs) clock i.name cs c)

  express-IsValid :
      (now clock : ℕ) (nonce : List ℕ) (i : Interest) (in_face : FaceId) (f : Forwarder)
      → IsValid f
      → IsValid (express blake2b now clock nonce i in_face f).0
  unfolding express after_nonce route_or_serve
  express-IsValid now clock nonce i in_face f (p, r, c) =
      if-ind (λ (r : Forwarder × Outcome). IsValid r.0) (check_loop in_face i.nonce f.pit) _ _
        (λ _. (p, r, c))
        (λ _.
          let (q, made, valid) = record_nonce-IsValid now in_face i.nonce f.pit p in
          rw made (
            Result-ind (λ (r : Forwarder × Outcome). IsValid r.0) (check_cs blake2b clock i f.cs) _
              _
              (λ (cs, hit) e.
                let bounded = IfOk-eq (λ r. IsBounded r.0) e (check_cs-IsBounded clock i f.cs c) in
                act-IsValid now nonce i in_face _ hit _ (record f { pit = q; cs = cs })
                  (valid, r, bounded))
              (λ _ _. (valid, r, c))))

module _ (blake2b : List ℕ → List ℕ) (decode : List ℕ → Option (List ℕ)) where
  cache-IsValid :
      (clock : ℕ) (d : Data) (b : Bool) (f : Forwarder)
      → IsValid f
      → IfOk IsValid (cache blake2b decode clock d b f)
  unfolding cache
  cache-IsValid clock d false f v = v
  cache-IsValid clock d true f (p, r, c) =
      >>=-IfOk _ (insert blake2b decode clock d.name d f.cs) _
        (insert-IsBounded blake2b decode clock d.name d f.cs c) (λ cs b. (p, r, b))

  observe-IsValid :
      (name : Name) (d : Data) (f : Forwarder) → IsValid f → IsValid (observe name d f)
  unfolding observe
  observe-IsValid name d f v = forget-IsValid name f v

  deliver-IsValid :
      (clock : ℕ) (d : Data) (unsolicited : Bool) (m : Name × Bool) (f : Forwarder)
      → IsValid f
      → IsValid (deliver blake2b decode clock d unsolicited m f).0
  unfolding deliver
  deliver-IsValid clock d unsolicited (name, matched) f (p, r, c) =
      let answered : Forwarder = record f { pit = (satisfy name f.pit).0 } in
      let told : Forwarder = if matched then notify_waiters name (arrived d) answered else f in
      let valid : IsValid told =
        if-ind IsValid matched _ _
          (λ _.
            notify_waiters-IsValid name (arrived d) answered (satisfy-IsValid name f.pit p, r, c))
          (λ _. (p, r, c)) in
      Result-ind (λ (r : Forwarder × Option Error). IsValid r.0)
        (cache blake2b decode clock d (matched || unsolicited) told) _ _
        (λ cached e.
          observe-IsValid name d cached
            (IfOk-eq IsValid e (cache-IsValid clock d (matched || unsolicited) told valid)))
        (λ _ _. valid)

  receive_data-IsValid :
      (clock : ℕ) (d : Data) (unsolicited : Bool) (f : Forwarder)
      → IsValid f
      → IsValid (receive_data blake2b decode clock d unsolicited f).0
  unfolding receive_data
  receive_data-IsValid clock d unsolicited f v =
      Result-ind (λ (r : Forwarder × Option Error). IsValid r.0)
        (match_pending (pit_key d.name) f.pit) _ _
        (λ m _. deliver-IsValid clock d unsolicited m f v) (λ _ _. v)

-- What happens to a forwarder: its calls, the resumption of a forward that waits, a task.
pub data Event : Type 0 where
  expresses : ℕ → ℕ → List ℕ → Interest → FaceId → Event
  resumes : ℕ → Wait → Event
  runs_task : ℕ → Task → Event
  finishes : Name → Event
  expires : ℕ → Event
  receives : ℕ → Data → Bool → Event
  receives_nack : Name → Event
  registers withdraws : FaceId → Event
  routes : Name → FaceId → ℕ → Event

module _ (blake2b : List ℕ → List ℕ) (decode : List ℕ → Option (List ℕ)) where
  unfoldable pub react : Event → Forwarder → Forwarder
  unfolding express resume run_task task_done expire receive_data receive_nack register_face
      withdraw_face add_route
  react (expresses now clock nonce i face) f = (express blake2b now clock nonce i face f).0
  react (resumes now w) f = (resume now w f).0
  react (runs_task now t) f = (run_task now t f).0
  react (finishes name) f = task_done name f
  react (expires fut) f = expire fut f
  react (receives clock d unsolicited) f = (receive_data blake2b decode clock d unsolicited f).0
  react (receives_nack name) f = receive_nack name f
  react (registers face) f = register_face face f
  react (withdraws face) f = withdraw_face face f
  react (routes prefix face cost) f = add_route prefix face cost f

  unfoldable pub react_all : List Event → Forwarder → Forwarder
  unfolding react
  react_all [] f = f
  react_all (e ∷ es) f = react_all es (react e f)

  react-IsValid : (e : Event) (f : Forwarder) → IsValid f → IsValid (react e f)
  unfolding react
  react-IsValid (expresses now clock nonce i face) f v =
      express-IsValid blake2b now clock nonce i face f v
  react-IsValid (resumes now w) f v = resume-IsValid now w f v
  react-IsValid (runs_task now t) f v =
      unfold run_task in forward-IsValid now t.interest t.in_face (t.out_face ∷ []) f v
  react-IsValid (finishes name) f v = unfold task_done in v
  react-IsValid (expires fut) f v = unfold expire in v
  react-IsValid (receives clock d unsolicited) f v =
      receive_data-IsValid blake2b decode clock d unsolicited f v
  react-IsValid (receives_nack name) f v =
      unfold receive_nack in notify_waiters-IsValid (pit_key name) nacked f v
  react-IsValid (registers face) f v = register_face-IsValid face f v
  react-IsValid (withdraws face) f v = withdraw_face-IsValid face f v
  react-IsValid (routes prefix face cost) f v = add_route-IsValid prefix face cost f v

  -- Whatever happens to a forwarder, in whatever order and at whatever times, its table of pending
  -- Interests, its routes and its cache stay well-formed and within their limits: distinct names and
  -- nonces within the two caps, distinct prefixes whose faces are distinct and in the order of their
  -- costs, and a cache of distinct keys, with no dangling index entry, within its capacity.
  pub react_all-IsValid : (es : List Event) (f : Forwarder) → IsValid f → IsValid (react_all es f)
  unfolding react_all
  react_all-IsValid [] f v = v
  react_all-IsValid (e ∷ es) f v = react_all-IsValid es (react e f) (react-IsValid e f v)
