-- ===== src/Forwarder/Streams.antt =====
-- The consumer calls of the forwarder: `fetch_latest`, `fetch_oldest` and `stream_fetch`.
use rns_icn.Prelude.{
  ℕ, zero, suc, ◌+◌, ◌≤◌, ◌≡◌, refl, Bool, true, false, Option, none, some, arith,
}
use rns_icn.Prelude.{List, [], ◌∷◌, length, leb, le→leb, if◌then◌else◌}
use mathlib.Core.Path.{subst}
use rns_icn.Name.{Name}
use rns_icn.Packet.Selector.{InterestSelector, ChildSelector, child_none, latest, oldest}
use rns_icn.Packet.Interest.{Interest, default_hop_limit}
use rns_icn.Packet.Data.{Data}
use rns_icn.Pit.{FaceId}
use rns_icn.Forwarder.{Forwarder, Outcome, express}

abbrev pub prefix_interest : List ℕ → Name → ℕ → Bool → InterestSelector → Interest
prefix_interest nonce name lifetime_ms must_be_fresh selector = record {
  name = name;
  nonce = nonce;
  lifetime_ms = lifetime_ms;
  can_be_prefix = true;
  must_be_fresh = must_be_fresh;
  selector = some selector;
  hop_limit = default_hop_limit;
}

module _ (blake2b : List ℕ → List ℕ) (now clock : ℕ) (nonce fresh : List ℕ) where
  -- `_fetch_child`
  unfoldable pub fetch_child :
      Name → ChildSelector → FaceId → ℕ → Bool → Forwarder → Forwarder × Outcome
  unfolding express
  fetch_child name child in_face lifetime_ms must_be_fresh f =
      express blake2b now clock fresh
        (prefix_interest nonce name lifetime_ms must_be_fresh
          (record { min_sequence = none; child = child }))
        in_face f

  unfoldable pub fetch_latest : Name → FaceId → ℕ → Bool → Forwarder → Forwarder × Outcome
  unfolding fetch_child
  fetch_latest name = fetch_child name latest

  unfoldable pub fetch_oldest : Name → FaceId → ℕ → Bool → Forwarder → Forwarder × Outcome
  unfolding fetch_child
  fetch_oldest name = fetch_child name oldest

-- "data.metadata.sequence is not None and data.metadata.sequence >= min_seq"
unfoldable pub advance : ℕ → Option ℕ → ℕ
advance min_seq none = min_seq
advance min_seq (some seq) = if leb min_seq seq then seq + 1 else min_seq

-- the floor after an answer
unfoldable pub floor_after : ℕ → Option Data → ℕ
unfolding advance
floor_after min_seq none = min_seq
floor_after min_seq (some d) = advance min_seq d.metadata.sequence

-- `if data is None: break`, or one Data more than the rest of the loop
unfoldable pub yielded {ℓ} : {S : Type ℓ} → S × Option Data → S × List Data → S × List Data
yielded (t, none) rest = (t, [])
yielded (t, some d) (u, ds) = (u, d ∷ ds)

-- `stream_fetch` over an `express` that runs to its end, from a state to what it returns. The
-- number of rounds is `max_segments`; without one the loop may go on for ever, and these are its
-- first rounds.
module _ {S : Type 0} (ask : Interest → S → S × Option Data) (nonce : ℕ → List ℕ) where
  unfoldable pub stream_fetch : ℕ → Name → ℕ → ℕ → S → S × List Data
  unfolding floor_after yielded
  stream_fetch zero name lifetime_ms min_seq s = (s, [])
  stream_fetch (suc rounds) name lifetime_ms min_seq s =
      let r =
        ask
          (prefix_interest (nonce rounds) name lifetime_ms false
            (record { min_sequence = some min_seq; child = child_none }))
          s in
      yielded r (stream_fetch rounds name lifetime_ms (floor_after min_seq r.1) r.0)

-- Sequences from a floor on, each greater than the one before.
abbrev pub Ascending : ℕ → List Data → Type 0
Ascending floor [] = Unit
Ascending floor (d ∷ ds) =
    (q : ℕ) × (d.metadata.sequence ≡ some q) × (floor ≤ q) × Ascending (q + 1) ds

-- An answer at or above the floor that was asked for.
abbrev pub Honours : ℕ → Option Data → Type 0
Honours floor none = Unit
Honours floor (some d) = (q : ℕ) × (d.metadata.sequence ≡ some q) × (floor ≤ q)

yielded-Ascending :
    {S : Type 0} (rounds floor : ℕ) (r : S × Option Data) (rest : S × List Data)
    → Honours floor r.1
    → (length rest.1 ≤ rounds) × Ascending (floor_after floor r.1) rest.1
    → (length (yielded r rest).1 ≤ suc rounds) × Ascending floor (yielded r rest).1
unfolding yielded floor_after advance
yielded-Ascending rounds floor (t, none) rest h k = (omega arith, tt)
yielded-Ascending rounds floor (t, some d) rest (q, e, le) (short, k) =
    (omega arith, (q, e, le, subst (λ m. Ascending m rest.1) (rw (e, le→leb floor q le) refl) k))

module _ {S : Type 0} (ask : Interest → S → S × Option Data) (nonce : ℕ → List ℕ) where
  -- Where every answer has a sequence at or above the Interest's floor, `stream_fetch` yields at
  -- most `max_segments` Data, at or above `start_sequence`, in strictly ascending order of sequence.
  pub stream_fetch-Ascending :
      (rounds : ℕ) (name : Name) (lifetime_ms min_seq : ℕ) (s : S)
      → ((n : List ℕ) (m : ℕ) (t : S)
          → Honours m
              (ask
                (prefix_interest n name lifetime_ms false
                  (record { min_sequence = some m; child = child_none }))
                t).1)
      → (length (stream_fetch ask nonce rounds name lifetime_ms min_seq s).1 ≤ rounds)
        × Ascending min_seq (stream_fetch ask nonce rounds name lifetime_ms min_seq s).1
  unfolding stream_fetch
  stream_fetch-Ascending zero name lifetime_ms min_seq s h = (omega arith, tt)
  stream_fetch-Ascending (suc rounds) name lifetime_ms min_seq s h =
      let r =
        ask
          (prefix_interest (nonce rounds) name lifetime_ms false
            (record { min_sequence = some min_seq; child = child_none }))
          s in
      yielded-Ascending rounds min_seq r
        (stream_fetch ask nonce rounds name lifetime_ms (floor_after min_seq r.1) r.0)
        (h (nonce rounds) min_seq s)
        (stream_fetch-Ascending rounds name lifetime_ms (floor_after min_seq r.1) r.0 h)
