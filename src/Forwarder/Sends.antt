-- ===== src/Forwarder/Sends.antt =====
-- What a forward sends, and that failover ends.
use rns_icn.Prelude.{ℕ, suc, ◌-◌, ◌≤◌, ◌<◌, ◌≡◌, refl, sym, none, arith}
use rns_icn.Prelude.{
  List, [], ◌∷◌, ◌++◌, length, All, append-nil, ◌==◌, nat_eq, if-ind, Bool-cases, inl, inr, ◌⊎◌,
  nat_beq_iff,
}
use rns_icn.Wire.{ok}
use rns_icn.Wire.Readers.{Result-ind}
use rns_icn.Packet.Interest
use rns_icn.Packet.Interest.{Interest}
use rns_icn.Pit.{FaceId}
use rns_icn.Forwarder.{
  Forwarder, Reply, timed_out, nacked, arrived, Wait, Outcome, returns, fails, joins, awaits,
  is_registered, pit_key, forget, enter_pit, new_future, send_and_wait, try_faces, forward, settle,
  give_up,
}

abbrev pub Waits : Interest → List FaceId → Outcome → Type 0
Waits i faces (awaits w) = (length w.rest < length faces) × (w.interest ≡ i)
Waits i faces _ = Unit

-- Where a forward over `faces` stops: it has sent nothing, or the Interest once; if it waits, the
-- faces that are left to try are fewer.
abbrev pub Sends : Interest → List FaceId → Forwarder → Forwarder × Outcome → Type 0
Sends i faces f (g, o) =
    (s : List (FaceId × List ℕ)) × (g.sent ≡ f.sent ++ s)
    × (length s ≤ 1)
    × All (λ p. Interest.to_bytes i ≡ ok p.1) s
    × Waits i faces o

send_and_wait-Sends :
    (i : Interest) (in_face out_face : FaceId) (rest : List FaceId) (f : Forwarder)
    → Sends i (out_face ∷ rest) f (send_and_wait i in_face out_face rest f)
unfolding send_and_wait new_future
send_and_wait-Sends i in_face out_face rest f =
    Result-ind (Sends i (out_face ∷ rest) f) (Interest.to_bytes i) _ _
      (λ bytes e. ((out_face, bytes) ∷ [], refl, omega arith, (e, tt), (omega arith, refl)))
      (λ x e. ([], sym (append-nil f.sent), omega arith, tt, tt))

Sends-cons :
    (i : Interest) (face : FaceId) (rest : List FaceId) (f : Forwarder) (r : Forwarder × Outcome)
    → Sends i rest f r
    → Sends i (face ∷ rest) f r
Sends-cons i face rest f (g, awaits w) (s, e, n, a, (l, q)) = (s, e, n, a, (omega arith, q))
Sends-cons i face rest f (g, returns d) h = h
Sends-cons i face rest f (g, fails x) h = h
Sends-cons i face rest f (g, joins k) h = h

try_faces-Sends :
    (now : ℕ) (i : Interest) (in_face : FaceId) (faces : List FaceId) (f : Forwarder)
    → Sends i faces f (try_faces now i in_face faces f)
unfolding try_faces enter_pit
try_faces-Sends now i in_face [] f = ([], sym (append-nil f.sent), omega arith, tt, tt)
try_faces-Sends now i in_face (face ∷ rest) f =
    let entered = enter_pit now i in_face face f in
    let skipped = forget (pit_key i.name) entered in
    if-ind (Sends i (face ∷ rest) f) (is_registered face f) _ _
      (λ _. send_and_wait-Sends i in_face face rest entered)
      (λ _.
        Sends-cons i face rest f (try_faces now i in_face rest skipped)
          (try_faces-Sends now i in_face rest skipped))

-- `_forward` sends nothing at hop limit 0. Otherwise it sends at most one packet before it first
-- waits, which is the Interest with its hop limit one less, and when it waits it has fewer next hops
-- left than it began with.
pub forward-Sends :
    (now : ℕ) (i : Interest) (in_face : FaceId) (faces : List FaceId) (f : Forwarder)
    → ((i.hop_limit ≡ 0) × (forward now i in_face faces f ≡ (f, returns none)))
      ⊎ ((0 < i.hop_limit)
          × Sends
              (record i { hop_limit = i.hop_limit - 1 })
              faces
              f
              (forward now i in_face faces f))
unfolding forward
forward-Sends now i in_face faces f = elim (Bool-cases (i.hop_limit == 0)) [
  | inl t ↦ rw t (inl ((nat_beq_iff i.hop_limit 0).0 t, refl))
  | inr t ↦
      let j = record i { hop_limit = i.hop_limit - 1 } in
      rw (t, forward) (inr (ground arith, try_faces-Sends now j in_face faces f))
]

-- The replies, in order, to the futures that a forward waits for.
unfoldable pub drive : ℕ → List Reply → Forwarder × Outcome → Forwarder × Outcome
unfolding settle
drive now [] r = r
drive now (x ∷ xs) (f, awaits w) = drive now xs (settle now w x f)
drive now (x ∷ xs) (f, o) = (f, o)

abbrev pub IsDone : Outcome → Type 0
IsDone (awaits w) = ⊥
IsDone _ = Unit

-- A measure of what is left: one more than the next hops, or nothing.
abbrev left : Outcome → ℕ
left (awaits w) = suc (length w.rest)
left _ = 0

Sends-left :
    (i : Interest) (faces : List FaceId) (f : Forwarder) (r : Forwarder × Outcome)
    → Sends i faces f r
    → left r.1 ≤ length faces
Sends-left i faces f (g, awaits w) (s, e, n, a, (l, q)) = omega arith
Sends-left i faces f (g, returns d) h = omega arith
Sends-left i faces f (g, fails d) h = omega arith
Sends-left i faces f (g, joins d) h = omega arith

try_faces-left :
    (now : ℕ) (i : Interest) (in_face : FaceId) (faces : List FaceId) (f : Forwarder)
    → left (try_faces now i in_face faces f).1 ≤ length faces
try_faces-left now i in_face faces f =
    Sends-left i faces f (try_faces now i in_face faces f) (try_faces-Sends now i in_face faces f)

settle-left :
    (now : ℕ) (w : Wait) (r : Reply) (f : Forwarder) → left (settle now w r f).1 ≤ length w.rest
unfolding settle
settle-left now w (arrived d) f = omega arith
settle-left now w timed_out f = try_faces-left now w.interest w.in_face w.rest (give_up now w f)
settle-left now w nacked f = try_faces-left now w.interest w.in_face w.rest (give_up now w f)

drive-left :
    (now : ℕ) (replies : List Reply) (f : Forwarder) (o : Outcome)
    → left o ≤ length replies
    → IsDone (drive now replies (f, o)).1
unfolding drive
drive-left now [] f (awaits w) h = absurd (omega arith)
drive-left now [] f (returns d) h = tt
drive-left now [] f (fails d) h = tt
drive-left now [] f (joins d) h = tt
drive-left now (x ∷ xs) f (returns d) h = tt
drive-left now (x ∷ xs) f (fails d) h = tt
drive-left now (x ∷ xs) f (joins d) h = tt
drive-left now (x ∷ xs) f (awaits w) h =
    let r = settle now w x f in drive-left now xs r.0 r.1 (omega (arith, settle-left now w x f))

-- Failover ends: a forward over some next hops no longer waits after as many replies (Data, NACK or
-- timeout, in any order) as there are next hops.
pub drive-IsDone :
    (now : ℕ) (i : Interest) (in_face : FaceId) (faces : List FaceId) (replies : List Reply)
    (f : Forwarder)
    → length faces ≤ length replies
    → IsDone (drive now replies (forward now i in_face faces f)).1
unfolding forward
drive-IsDone now i in_face faces replies f h =
    if-ind (λ (r : Forwarder × Outcome). IsDone (drive now replies r).1) (i.hop_limit == 0) _ _
      (λ _. drive-left now replies f (returns none) (omega arith))
      (λ _.
        let j = record i { hop_limit = i.hop_limit - 1 } in
        let r = try_faces now j in_face faces f in
        drive-left now replies r.0 r.1 (omega (arith, try_faces-left now j in_face faces f)))
