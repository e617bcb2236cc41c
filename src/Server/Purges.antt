-- ===== src/Server/Purges.antt =====
-- The replay guard of purges: what a server has handled does not come again.
use rns_icn.Prelude.{ℕ, ◌≤◌, ◌≡◌, refl, sym, Bool, true, false, Option, none, some, arith}
use rns_icn.Prelude.{
  List, [], ◌∷◌, leb, leb→le, le→leb, ◌==◌, nat_eq, list_eq, if-ind, Bool-cases, inl, inr, eq_refl,
  eq_of_beq,
}
use rns_icn.Prelude.{Dict, get, put, get-put}
use mathlib.Core.Path.{subst}
use rns_icn.Wire.{Error, ok, raise, IfOk}
use rns_icn.Wire.Readers.{IfOk-true, IfOk-eq, >>=-IfOk, Result-ind}
use rns_icn.Name.{Name}
use rns_icn.Packet.Invalidate
use rns_icn.Packet.Invalidate.{Invalidate, sign_purge}
use rns_icn.Pit.{FaceId}
use rns_icn.ContentStore.Operations
use rns_icn.ContentStore.Operations.{name_hash}
use rns_icn.Server.{
  Server, send_to, passes, is_replay, invalidation_is_fresh, purge_and_send, take_verified,
  handle_invalidate, purge_own, invalidate,
}

-- The epoch recorded for a key is there, and not below `epoch`.
pub record Seen (key : List ℕ) (epoch : ℕ) (seen : Dict (List ℕ) ℕ) : Type 0 where
  pub last : ℕ
  pub recorded : get key seen ≡ some last
  pub late : epoch ≤ last

-- what a server does about purges: it takes one from a face, or makes one
pub data Step : Type 0 where
  takes : Invalidate → FaceId → Step
  makes : ℕ → Name → Bool → Step

later :
    (n m last : ℕ) (seen : Option ℕ)
    → seen ≡ some last
    → is_replay m seen ≡ false
    → n ≤ last
    → n ≤ m
unfolding is_replay
later n m last seen e t h = let u : leb m last ≡ false = (rw e at t) in ground arith

Seen-put :
    (k key : List ℕ) (n m : ℕ) (d : Dict (List ℕ) ℕ)
    → Seen key n d
    → is_replay m (get k d) ≡ false
    → Seen key n (put k m d)
unfolding is_replay
Seen-put k key n m d h t = elim (Bool-cases (k == key)) [
  | inl same ↦ record {
    last = m;
    recorded = rw (get-put k key m d, same) refl;
    late = later n m h.last (get k d) (rw (eq_of_beq k key same) h.recorded) t h.late;
  }
  | inr other ↦ record {
    last = h.last;
    recorded = rw (get-put k key m d, other) h.recorded;
    late = h.late;
  }
]

replayed :
    (key : List ℕ) (n : ℕ) (d : Dict (List ℕ) ℕ) → is_replay n (get key d) ≡ true → Seen key n d
unfolding is_replay
replayed key n d t = go (get key d) refl t
  where
    go : (seen : Option ℕ) → get key d ≡ seen → is_replay n seen ≡ true → Seen key n d
    go (some last) e t = record { last = last; recorded = e; late = leb→le n last t }
    go none e t = cc

module _ (blake2b : List ℕ → List ℕ) (verifier : Option (Invalidate → Bool))
    (signer : Option (List ℕ → List ℕ)) where
  unfoldable pub step : Step → Server → Server
  unfolding handle_invalidate invalidate
  step (takes i face) s = (handle_invalidate blake2b verifier i face s).0
  step (makes now name prefix) s = (invalidate blake2b signer now name prefix s).0

  unfoldable pub run : List Step → Server → Server
  unfolding step
  run [] s = s
  run (c ∷ cs) s = run cs (step c s)

  purge_and_send-seen :
      (i : Invalidate) (faces : List FaceId) (s : Server)
      → (purge_and_send blake2b i faces s).0.seen_invalidations ≡ s.seen_invalidations
  unfolding purge_and_send send_to
  purge_and_send-seen i faces s =
      Result-ind (λ (r : Server × Option Error). r.0.seen_invalidations ≡ s.seen_invalidations)
        (Operations.invalidate blake2b i.name i.is_prefix s.cs) _ _
        (λ (cs', removed) _.
          Result-ind (λ (r : Server × Option Error). r.0.seen_invalidations ≡ s.seen_invalidations)
            (Invalidate.to_bytes i) _ _ (λ raw _. refl) (λ e _. refl))
        (λ e _. refl)

  Seen-purge_and_send :
      (key : List ℕ) (n : ℕ) (i : Invalidate) (faces : List FaceId) (s : Server)
      → Seen key n s.seen_invalidations
      → Seen key n (purge_and_send blake2b i faces s).0.seen_invalidations
  Seen-purge_and_send key n i faces s h = subst (Seen key n) (sym (purge_and_send-seen i faces s)) h

  -- a guard that answers keeps the epoch recorded for every key, or raises it
  Seen-invalidation_is_fresh :
      (key : List ℕ) (n : ℕ) (i : Invalidate) (s : Server)
      → Seen key n s.seen_invalidations
      → IfOk (λ r. Seen key n r.0.seen_invalidations) (invalidation_is_fresh blake2b i s)
  unfolding invalidation_is_fresh
  Seen-invalidation_is_fresh key n i s h =
      >>=-IfOk _ (name_hash blake2b i.name) _ (IfOk-true (name_hash blake2b i.name)) (λ k _.
        elim (Bool-cases (is_replay i.epoch (get k s.seen_invalidations))) [
          | inl t ↦ rw t h
          | inr t ↦ rw t (Seen-put k key n i.epoch s.seen_invalidations h t)
        ])

  abbrev Kept : List ℕ → ℕ → Server × Option Error → Type 0
  Kept key n r = Seen key n r.0.seen_invalidations

  Seen-take_verified :
      (key : List ℕ) (n : ℕ) (i : Invalidate) (face : FaceId) (s : Server)
      → IfOk (λ r. Seen key n r.0.seen_invalidations) (invalidation_is_fresh blake2b i s)
      → ((e : Error)
          → invalidation_is_fresh blake2b i s ≡ raise e
          → Seen key n s.seen_invalidations)
      → Kept key n (take_verified blake2b i face s)
  unfolding take_verified
  Seen-take_verified key n i face s h failed =
      Result-ind (Kept key n) (invalidation_is_fresh blake2b i s) _ _
        (λ (t, fresh) e.
          let kept = IfOk-eq (λ (r : Server × Bool). Seen key n r.0.seen_invalidations) e h in
          if-ind (Kept key n) fresh _ _ (λ _. Seen-purge_and_send key n i _ t kept) (λ _. kept))
        failed

  Seen-handle_invalidate :
      (key : List ℕ) (n : ℕ) (i : Invalidate) (face : FaceId) (s : Server)
      → Seen key n s.seen_invalidations
      → Kept key n (handle_invalidate blake2b verifier i face s)
  unfolding handle_invalidate
  Seen-handle_invalidate key n i face s h =
      if-ind (Kept key n) (passes verifier i) _ _
        (λ _. Seen-take_verified key n i face s (Seen-invalidation_is_fresh key n i s h) (λ e _. h))
        (λ _. h)

  Seen-purge_own :
      (key : List ℕ) (n : ℕ) (i : Invalidate) (s : Server)
      → Seen key n s.seen_invalidations
      → Kept key n (purge_own blake2b i s)
  unfolding purge_own
  Seen-purge_own key n i s h =
      Result-ind (Kept key n) (invalidation_is_fresh blake2b i s) _ _
        (λ (t, fresh) e. Seen-purge_and_send key n i t.faces t (
          IfOk-eq (λ (r : Server × Bool). Seen key n r.0.seen_invalidations) e
            (Seen-invalidation_is_fresh key n i s h)))
        (λ e _. h)

  Seen-invalidate :
      (key : List ℕ) (n now : ℕ) (name : Name) (prefix : Bool) (s : Server)
      → Seen key n s.seen_invalidations
      → Kept key n (invalidate blake2b signer now name prefix s)
  unfolding invalidate
  Seen-invalidate key n now name prefix s h =
      elim signer as (λ o. Kept key n (invalidate blake2b o now name prefix s)) [
        | none ↦ h
        | some sig ↦
            Result-ind (Kept key n)
              (sign_purge blake2b sig
                (record { name = name; epoch = now; is_prefix = prefix; signature = none }))
              (λ i. purge_own blake2b i s) (λ e. (s, some e)) (λ i _. Seen-purge_own key n i s h)
              (λ e _. h)
      ]

  Seen-run :
      (key : List ℕ) (n : ℕ) (steps : List Step) (s : Server)
      → Seen key n s.seen_invalidations
      → Seen key n (run steps s).seen_invalidations
  unfolding run step
  Seen-run key n [] s h = h
  Seen-run key n (takes i face ∷ steps) s h =
      Seen-run key n steps _ (Seen-handle_invalidate key n i face s h)
  Seen-run key n (makes now name prefix ∷ steps) s h =
      Seen-run key n steps _ (Seen-invalidate key n now name prefix s h)

  invalidation_is_fresh-Seen :
      (key : List ℕ) (i : Invalidate) (s : Server)
      → name_hash blake2b i.name ≡ ok key
      → (r : Server × Bool) × (invalidation_is_fresh blake2b i s ≡ ok r)
        × Seen key i.epoch r.0.seen_invalidations
  unfolding invalidation_is_fresh
  invalidation_is_fresh-Seen key i s k =
      elim (Bool-cases (is_replay i.epoch (get key s.seen_invalidations))) [
        | inl t ↦ ((s, false), rw (k, t) refl, replayed key i.epoch s.seen_invalidations t)
        | inr t ↦ (
          (record s { seen_invalidations = put key i.epoch s.seen_invalidations }, true),
          rw (k, t) refl,
          record {
            last = i.epoch;
            recorded = rw (get-put key key i.epoch s.seen_invalidations, eq_refl key) refl;
            late = omega arith;
          },
        )
      ]

  -- a verified purge is recorded, at its epoch or a later one
  handle_invalidate-Seen :
      (key : List ℕ) (i : Invalidate) (face : FaceId) (s : Server)
      → passes verifier i ≡ true
      → name_hash blake2b i.name ≡ ok key
      → Seen key i.epoch (handle_invalidate blake2b verifier i face s).0.seen_invalidations
  unfolding handle_invalidate
  handle_invalidate-Seen key i face s p k =
      let (r, e, seen) = invalidation_is_fresh-Seen key i s k in
      rw p (Seen-take_verified key i.epoch i face s (rw e seen) (λ x failed. cc))

  invalidation_is_fresh-replay :
      (key : List ℕ) (i : Invalidate) (s : Server)
      → name_hash blake2b i.name ≡ ok key
      → Seen key i.epoch s.seen_invalidations
      → invalidation_is_fresh blake2b i s ≡ ok (s, false)
  unfolding invalidation_is_fresh
  invalidation_is_fresh-replay key i s k h =
      let old : is_replay i.epoch (get key s.seen_invalidations) ≡ true =
        unfold is_replay in rw h.recorded (le→leb i.epoch h.last h.late) in
      rw (k, old) refl

  handle_invalidate-Seen_replay :
      (key : List ℕ) (i : Invalidate) (face : FaceId) (s : Server)
      → name_hash blake2b i.name ≡ ok key
      → Seen key i.epoch s.seen_invalidations
      → handle_invalidate blake2b verifier i face s ≡ (s, none)
  unfolding handle_invalidate take_verified
  handle_invalidate-Seen_replay key i face s k h =
      if-ind (λ r. r ≡ (s, none)) (passes verifier i) _ _
        (λ _. rw (take_verified, invalidation_is_fresh-replay key i s k h) refl) (λ _. refl)

  -- A purge is not replayed: once a server has handled a verified purge whose name can be hashed, then,
  -- whatever purges it takes and makes in between, a purge of the same name with the same or an
  -- earlier epoch changes nothing, sends nothing and does not raise.
  pub handle_invalidate-replay :
      (key : List ℕ) (i j : Invalidate) (face again : FaceId) (steps : List Step) (s : Server)
      → passes verifier i ≡ true
      → name_hash blake2b i.name ≡ ok key
      → j.name ≡ i.name
      → j.epoch ≤ i.epoch
      → let t = run steps (handle_invalidate blake2b verifier i face s).0 in
        handle_invalidate blake2b verifier j again t ≡ (t, none)
  handle_invalidate-replay key i j face again steps s p k same le =
      let seen = Seen-run key i.epoch steps _ (handle_invalidate-Seen key i face s p k) in
      handle_invalidate-Seen_replay key j again _ (rw same k)
        (record { last = seen.last; recorded = seen.recorded; late = ground (arith, seen.late) })
