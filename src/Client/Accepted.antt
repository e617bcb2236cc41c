-- ===== src/Client/Accepted.antt =====
-- What `_fetch_verified` returns has passed every check.
use rns_icn.Prelude.{
  ℕ, zero, suc, ◌+◌, ◌<◌, ◌≡◌, refl, sym, ap, ◌∙◌, ◌&&◌, Bool, true, false, ◌⊎◌, Option, none, some,
  arith,
}
use rns_icn.Prelude.{
  List, [], if-ind, if◌then◌else◌, inl, inr, ◌==◌, list_eq, nat_eq, option_eq, eq_of_beq,
}
use rns_icn.Wire.{Error, Result, ok, raise}
use rns_icn.Wire.Readers.{Result-ind}
use mathlib.Core.Path.{subst}
use rns_icn.Packet.Data.{Data}
use rns_icn.Packet.Data.Envelope.{verify_content_hash}
use rns_icn.Access.{Crypto}
use rns_icn.Client.{
  Client, Answer, no_link, times_out, raises, answered, Verdict, accepted, rejected, broken,
  Request, meets_pin, check_signature, check_rollback, maybe_decrypt, open_data, verify, judge,
  finish_attempt, attempts, fetch_verified, last_error, give_up,
}

-- a hash that, if it is there, was compared
matches :
    (o : Option (List ℕ)) (h : List ℕ)
    → elim o as (λ x. Bool) [ none ↦ true | some x ↦ h == x ] ≡ true
    → (o ≡ none) ⊎ (o ≡ some h)
matches none h t = inl refl
matches (some x) h t = inr (ap some (sym (eq_of_beq h x t)))

agrees :
    (o m : Option (List ℕ))
    → elim o as (λ x. Bool) [ none ↦ true | some h ↦ m == some h ] ≡ true
    → (o ≡ none) ⊎ (o ≡ m)
agrees none m t = inl refl
agrees (some h) m t = inr (sym (eq_of_beq m (some h) t))

module _ {I : Type 0} (crypto : Crypto I) (recall : List ℕ → Option (List ℕ → List ℕ → Bool))
    (now : ℕ) (q : Request) where
  -- The hash that the Data declares, if any, is that of its content, which is the one that the
  -- request pins, if any; and the signature passes.
  pub record Checked (d : Data) : Type 0 where
    pub declared :
        (d.metadata.content_hash ≡ none)
        ⊎ (d.metadata.content_hash ≡ some (crypto.blake2b d.content))
    pub pinned :
        (q.name.content_hash ≡ none) ⊎ (q.name.content_hash ≡ some (crypto.blake2b d.content))
    pub signed : check_signature crypto recall q.require d ≡ ok true

  -- the client after Data that meets the hashes: it is put before `check_rollback` if its signature passes
  unfoldable pub recorded : Result Bool → Data → Client I → Client I
  recorded (ok true) d c = elim (check_rollback d c) [ ok r ↦ r.0 | raise e ↦ c ]
  recorded (ok false) d c = c
  recorded (raise e) d c = c

  -- the client after an answer: what is not checked leaves it as it was
  unfoldable pub after : Answer → Client I → Client I
  unfolding recorded
  after (answered (some d)) c =
      if verify_content_hash crypto.blake2b d && meets_pin q.name d
      then recorded (check_signature crypto recall q.require d) d c
      else c
  after (answered none) c = c
  after no_link c = c
  after times_out c = c
  after (raises e) c = c

  -- the client after `n` answers from the attempt `first` on
  unfoldable pub client_at : (ℕ → Answer) → ℕ → ℕ → Client I → Client I
  unfolding after
  client_at ask first zero c = c
  client_at ask first (suc n) c = client_at ask (first + 1) n (after (ask first) c)

  declared_lem :
      (d : Data)
      → verify_content_hash crypto.blake2b d ≡ true
      → (d.metadata.content_hash ≡ none)
        ⊎ (d.metadata.content_hash ≡ some (crypto.blake2b d.content))
  unfolding verify_content_hash
  declared_lem d h = matches d.metadata.content_hash (crypto.blake2b d.content) h

  pinned_lem :
      (d : Data)
      → verify_content_hash crypto.blake2b d ≡ true
      → meets_pin q.name d ≡ true
      → (q.name.content_hash ≡ none) ⊎ (q.name.content_hash ≡ some (crypto.blake2b d.content))
  unfolding meets_pin
  pinned_lem d h m = elim (agrees q.name.content_hash d.metadata.content_hash m) [
    | inl e ↦ inl e
    | inr e ↦ elim (declared_lem d h) [ inl f ↦ inl (e ∙ f) | inr f ↦ inr (e ∙ f) ]
  ]

  -- The Data passes, is no rollback, and is opened; or the client is the one after the answer.
  abbrev pub Passes : Data → Client I → Client I × Verdict → Type 0
  Passes d c (c', accepted out) =
      Checked d
      × (check_rollback d c ≡ ok (c', true))
      × (maybe_decrypt crypto recall now d c' ≡ ok out)
  Passes d c (c', v) = c' ≡ after (answered (some d)) c

  split : (a b : Bool) → a && b ≡ true → (a ≡ true) × (b ≡ true)
  split a b h = ground arith

  -- the end of the pipeline, for Data that is checked
  open_data-Passes :
      (d : Data) (c c' : Client I) (fine : Bool)
      → Checked d
      → check_rollback d c ≡ ok (c', fine)
      → after (answered (some d)) c ≡ c'
      → Passes d c (open_data crypto recall now d (c', fine))
  unfolding open_data
  open_data-Passes d c c' false checked e kept = sym kept
  open_data-Passes d c c' true checked e kept =
      Result-ind (λ v. Passes d c (c', v)) (maybe_decrypt crypto recall now d c') _ _
        (λ out opened. (checked, e, opened)) (λ _ _. sym kept)

  recorded-ok :
      (d : Data) (c : Client I) (r : Client I × Bool)
      → check_rollback d c ≡ ok r
      → recorded (ok true) d c ≡ r.0
  unfolding recorded
  recorded-ok d c r e = rw (recorded, e) refl

  recorded-raise :
      (d : Data) (c : Client I) (x : Error)
      → check_rollback d c ≡ raise x
      → recorded (ok true) d c ≡ c
  unfolding recorded
  recorded-raise d c x e = rw (recorded, e) refl

  verify-Passes : (d : Data) (c : Client I) → Passes d c (verify crypto recall now q d c)
  unfolding verify
  verify-Passes d c =
      if-ind (Passes d c) (verify_content_hash crypto.blake2b d && meets_pin q.name d) _ _
        (λ t.
          signed (check_signature crypto recall q.require d) refl (split _ _ t)
            (unfold after in rw t refl))
        (λ t. unfold after in rw t refl)
    where
      signed :
          (r : Result Bool)
          → check_signature crypto recall q.require d ≡ r
          → (verify_content_hash crypto.blake2b d ≡ true) × (meets_pin q.name d ≡ true)
          → after (answered (some d)) c ≡ recorded r d c
          → Passes d c (elim r as (λ x. Client I × Verdict) [
            | raise e ↦ (c, broken e)
            | ok false ↦ (c, rejected)
            | ok true ↦ elim (check_rollback d c) as (λ x. Client I × Verdict) [
              | raise e ↦ (c, broken e)
              | ok r ↦ open_data crypto recall now d r
            ]
          ])
      signed (raise e) s h kept = sym (kept ∙ unfold recorded in refl)
      signed (ok false) s h kept = sym (kept ∙ unfold recorded in refl)
      signed (ok true) s (hash, pin) kept =
          let checked : Checked d = record {
            declared = declared_lem d hash;
            pinned = pinned_lem d hash pin;
            signed = s;
          } in
          Result-ind (Passes d c) (check_rollback d c) _ _
            (λ (c', fine) e.
              open_data-Passes d c c' fine checked e (kept ∙ recorded-ok d c (c', fine) e))
            (λ x e. sym (kept ∙ recorded-raise d c x e))

  -- What a fetch returns, from the attempt `first` on with the client `c`: Data that answered one of
  -- the attempts, was checked, was no rollback for the client that the answers before it left, and was
  -- opened; and the client returned is the one that has recorded it.
  abbrev pub Fetched :
      (ℕ → Answer) → ℕ → ℕ → Client I → Client I × List ℕ × Result (Option Data) → Type 0
  Fetched ask first last c (c', delays, ok (some out)) =
      (k : ℕ) × (n : ℕ) × (k ≡ first + n)
      × (k < last)
      × (d : Data) × (ask k ≡ answered (some d))
      × Checked d
      × (check_rollback d (client_at ask first n c) ≡ ok (c', true))
      × (maybe_decrypt crypto recall now d c' ≡ ok out)
  Fetched ask first last c _ = Unit

  later :
      (ask : ℕ → Answer) (first last : ℕ) (c next c' : Client I) (ds ds' : List ℕ)
      (r : Result (Option Data))
      → next ≡ after (ask first) c
      → Fetched ask (first + 1) last next (c', ds, r)
      → Fetched ask first last c (c', ds', r)
  unfolding client_at
  later ask first last c next c' ds ds' (raise e) same h = tt
  later ask first last c next c' ds ds' (ok none) same h = tt
  later ask first last c next c' ds ds' (ok (some out)) same
        (k, n, at, lt, d, e, checked, rb, opened) =
      let kept =
        subst (λ x. check_rollback d (client_at ask (first + 1) n x) ≡ ok (c', true)) same rb in
      (k, suc n, omega arith, lt, d, e, checked, kept, opened)

  -- the attempt's own verdict
  judged :
      (ask : ℕ → Answer) (first last : ℕ) (a : Answer) (delay : List ℕ) (d : Data) (c : Client I)
      (v : Client I × Verdict) (rest : Client I × List ℕ × Result (Option Data))
      → ask first ≡ answered (some d)
      → first < last
      → Passes d c v
      → Fetched ask (first + 1) last v.0 rest
      → Fetched ask first last c (finish_attempt crypto recall a delay v rest)
  unfolding finish_attempt client_at
  judged ask first last a delay d c (c', accepted out) rest e lt (checked, rb, opened) h =
      (first, 0, omega arith, lt, d, e, checked, rb, opened)
  judged ask first last a delay d c (c', rejected) (c'', ds, r) e lt p h =
      later ask first last c c' c'' ds [] r (p ∙ ap (λ x. after x c) (sym e)) h
  judged ask first last a delay d c (c', broken x) (c'', ds, r) e lt p h =
      later ask first last c c' c'' ds [] r (p ∙ ap (λ x. after x c) (sym e)) h

  finish_attempt-Fetched :
      (ask : ℕ → Answer) (first last : ℕ) (a : Answer) (delay : List ℕ) (c : Client I)
      (rest : Client I × List ℕ × Result (Option Data))
      → ask first ≡ a
      → first < last
      → Fetched ask (first + 1) last (judge crypto recall now q a c).0 rest
      → Fetched ask first last c
          (finish_attempt crypto recall a delay (judge crypto recall now q a c) rest)
  unfolding finish_attempt judge after
  finish_attempt-Fetched ask first last no_link delay c (c'', ds, r) e lt h =
      later ask first last c c c'' ds [] r (ap (λ x. after x c) (sym e)) h
  finish_attempt-Fetched ask first last times_out delay c (c'', ds, r) e lt h =
      later ask first last c c c'' ds [] r (ap (λ x. after x c) (sym e)) h
  finish_attempt-Fetched ask first last (raises x) delay c (c'', ds, r) e lt h =
      later ask first last c c c'' ds [] r (ap (λ x. after x c) (sym e)) h
  finish_attempt-Fetched ask first last (answered none) delay c (c'', ds, r) e lt h =
      later ask first last c c c'' ds [] r (ap (λ x. after x c) (sym e)) h
  finish_attempt-Fetched ask first last (answered (some d)) delay c rest e lt h =
      judged ask first last (answered (some d)) delay d c (verify crypto recall now q d c) rest e lt
        (verify-Passes d c) h

  give_up-Fetched :
      (ask : ℕ → Answer) (first last : ℕ) (e : Option Error) (c : Client I)
      → Fetched ask first last c (c, [], give_up crypto recall q e)
  unfolding give_up
  give_up-Fetched ask first last none c = tt
  give_up-Fetched ask first last (some x) c =
      if-ind (λ r. Fetched ask first last c (c, [], r)) q.raise_on_failure _ _ (λ _. tt) (λ _. tt)

  attempts-Fetched :
      (ask : ℕ → Answer) (remaining first : ℕ) (e : Option Error) (c : Client I)
      → Fetched ask first
          (first + remaining)
          c
          (attempts crypto recall now q ask remaining first e c)
  unfolding attempts
  attempts-Fetched ask zero first e c = give_up-Fetched ask first (first + zero) e c
  attempts-Fetched ask (suc remaining) first e c =
      let r = judge crypto recall now q (ask first) c in
      let ih =
        attempts-Fetched ask remaining (first + 1) (last_error crypto recall (ask first) r.1 e)
          r.0 in
      finish_attempt-Fetched ask first (first + suc remaining) (ask first) _ c _ refl (omega arith)
        (subst
          (λ n. Fetched ask (first + 1) n r.0 (
            attempts crypto recall now q ask remaining (first + 1)
              (last_error crypto recall (ask first) r.1 e) r.0))
          (omega arith) ih)

  -- Data that `_fetch_verified` returns comes from the answer to one of its `max_retries + 1`
  -- attempts. The hash that it declares, if any, is that of its content; so is the hash that the request
  -- pins, if any; its signature passes the policy of the request; and it is no rollback for the client
  -- that the answers before it left: the one of the call, with the keys of those among them that
  -- passed the same checks. What is returned is that Data, opened with a capability if one
  -- fits, and the client that has recorded its key.
  pub fetch_verified-Fetched :
      (ask : ℕ → Answer) (c : Client I)
      → Fetched ask 0 (q.retries + 1) c (fetch_verified crypto recall now q ask c)
  unfolding fetch_verified
  fetch_verified-Fetched ask c =
      subst (λ n. Fetched ask 0 n c (attempts crypto recall now q ask (q.retries + 1) 0 none c))
        (omega arith) (attempts-Fetched ask (q.retries + 1) 0 none c)
