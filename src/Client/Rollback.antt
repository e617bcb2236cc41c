-- ===== src/Client/Rollback.antt =====
-- The protection against rollback over a whole session, and the delays of a fetch.
use rns_icn.Prelude.{
  ℕ, zero, suc, ◌+◌, ◌-◌, ◌≤◌, ◌≡◌, refl, sym, ap, ◌∙◌, not, ◌&&◌, Bool, true, false, Option, none,
  some, arith,
}
use rns_icn.Prelude.{
  List, [], ◌∷◌, ◌++◌, length, All, All-append, length-append, ltb, ltb→lt, ◌==◌, nat_eq, list_eq,
  if◌then◌else◌, if-ind, Bool-cases, inl, inr, get, put, get-put, eq_of_beq, eq_refl,
}
use rns_icn.Wire.{Error, Result, ok, raise, ◌>>=◌, IfOk}
use rns_icn.Wire.Readers.{Result-ind, >>=-IfOk, IfOk-true, IfOk-eq}
use rns_icn.Name
use mathlib.Core.Path.{subst}
use rns_icn.Packet.Data.{Data}
use rns_icn.Packet.Data.Envelope.Binding.{ok-injective}
use rns_icn.Packet.Data.Envelope.{freshness_key, verify_content_hash}
use rns_icn.Access.{Crypto}
use rns_icn.Client.{
  Client, Answer, no_link, times_out, raises, answered, Verdict, accepted, rejected, broken,
  Request, meets_pin, check_signature, key_lt, remember, check_rollback, open_data, verify, judge,
  finish_attempt, attempts, fetch_verified, last_error, retry_delay, delays_after,
}

-- What was known of a name is known of it, or something newer.
abbrev pub NotOlder : Option (ℕ × ℕ) → Option (ℕ × ℕ) → Type 0
NotOlder none o = Unit
NotOlder (some k) none = ⊥
NotOlder (some k) (some l) = key_lt l k ≡ false

key_lt_asym : (k l : ℕ × ℕ) → key_lt k l ≡ true → key_lt l k ≡ false
unfolding key_lt
key_lt_asym (a, b) (c, d) h = ground arith

key_lt_self : (k : ℕ × ℕ) → key_lt k k ≡ false
unfolding key_lt
key_lt_self (a, b) = ground arith

key_lt_trans : (k l m : ℕ × ℕ) → key_lt l k ≡ false → key_lt m l ≡ false → key_lt m k ≡ false
unfolding key_lt
key_lt_trans (a, b) (c, d) (e, f) h i = ground arith

-- older than something at least as new as the other
key_lt-old : (k l m : ℕ × ℕ) → key_lt m l ≡ true → key_lt k l ≡ false → key_lt m k ≡ true
unfolding key_lt
key_lt-old (a, b) (c, d) (e, f) h i = ground arith

NotOlder-own : (o : Option (ℕ × ℕ)) → NotOlder o o
NotOlder-own none = tt
NotOlder-own (some k) = key_lt_self k

NotOlder-trans : (o p r : Option (ℕ × ℕ)) → NotOlder o p → NotOlder p r → NotOlder o r
NotOlder-trans none p r h i = tt
NotOlder-trans (some k) (some l) (some m) h i = key_lt_trans k l m h i
NotOlder-trans (some k) (some l) none h i = i
NotOlder-trans (some k) none r h i = absurd h

module _ {I : Type 0} where
  -- A later state of the client: the same configuration, and no name forgotten or rolled back.
  pub record Later (c c' : Client I) : Type 0 where
    pub same_policy : c'.reject_rollback ≡ c.reject_rollback
    pub same_base : c'.base_retry_delay ≡ c.base_retry_delay
    pub same_cap : c'.max_retry_delay ≡ c.max_retry_delay
    pub grows : (n : List ℕ) → NotOlder (get n c.seen_signed_key) (get n c'.seen_signed_key)

  Later-own : (c : Client I) → Later c c
  Later-own c = record {
    same_policy = refl;
    same_base = refl;
    same_cap = refl;
    grows = λ n. NotOlder-own (get n c.seen_signed_key);
  }

  Later-trans : (c d e : Client I) → Later c d → Later d e → Later c e
  Later-trans c d e h i = record {
    same_policy = cc;
    same_base = cc;
    same_cap = cc;
    grows = λ n. NotOlder-trans _ _ _ (h.grows n) (i.grows n);
  }

  stored-NotOlder :
      (n m : List ℕ) (key : ℕ × ℕ) (c : Client I)
      → NotOlder (get n c.seen_signed_key) (some key)
      → NotOlder (get m c.seen_signed_key) (get m (put n key c.seen_signed_key))
  stored-NotOlder n m key c h = rw (get-put n m key c.seen_signed_key) (elim (Bool-cases (n == m)) [
    | inl t ↦ rw t (rw (← eq_of_beq n m t) h)
    | inr t ↦ rw t (NotOlder-own (get m c.seen_signed_key))
  ])

  remember-Later :
      (n : List ℕ) (key : ℕ × ℕ) (o : Option (ℕ × ℕ)) (c : Client I)
      → get n c.seen_signed_key ≡ o
      → Later c (remember n key o c).0
  unfolding remember
  remember-Later n key none c e = record {
    same_policy = refl;
    same_base = refl;
    same_cap = refl;
    grows = λ m. stored-NotOlder n m key c (rw e tt);
  }
  remember-Later n key (some previous) c e =
      if-ind (λ (r : Client I × Bool). Later c r.0) (key_lt key previous) _ _ (λ _. Later-own c)
        (λ _.
          if-ind (λ (r : Client I × Bool). Later c r.0) (key_lt previous key) _ _
            (λ t. record {
              same_policy = refl;
              same_base = refl;
              same_cap = refl;
              grows = λ m. stored-NotOlder n m key c (rw e (key_lt_asym previous key t));
            })
            (λ _. Later-own c))

  check_rollback-Later : (d : Data) (c : Client I) → IfOk (λ r. Later c r.0) (check_rollback d c)
  unfolding check_rollback
  check_rollback-Later d c =
      if-ind (IfOk (λ r. Later c r.0)) (not c.reject_rollback) _ _ (λ _. Later-own c)
        (λ _. go (freshness_key d))
    where
      go :
          (o : Option (ℕ × ℕ))
          → IfOk
              (λ r. Later c r.0)
              (elim o as (λ x. Result (Client I × Bool)) [
                | none ↦ ok (c, true)
                | some key ↦
                    Name.to_bytes d.name >>= (λ n. ok (remember n key (get n c.seen_signed_key) c))
              ])
      go none = Later-own c
      go (some key) =
          >>=-IfOk _ (Name.to_bytes d.name) _ (IfOk-true (Name.to_bytes d.name))
            (λ n _. remember-Later n key (get n c.seen_signed_key) c refl)

  -- What passed is known from then on.
  Knows : List ℕ → ℕ × ℕ → Client I × Bool → Type 0
  Knows n key (c, fine) = fine ≡ true → NotOlder (some key) (get n c.seen_signed_key)

  put-Knows :
      (n : List ℕ) (key : ℕ × ℕ) (c : Client I)
      → NotOlder (some key) (get n (put n key c.seen_signed_key))
  put-Knows n key c = rw (get-put n n key c.seen_signed_key, eq_refl n) (key_lt_self key)

  remember-Knows :
      (n : List ℕ) (key : ℕ × ℕ) (o : Option (ℕ × ℕ)) (c : Client I)
      → get n c.seen_signed_key ≡ o
      → Knows n key (remember n key o c)
  unfolding remember Knows
  remember-Knows n key none c e = λ _. put-Knows n key c
  remember-Knows n key (some previous) c e =
      if-ind (Knows n key) (key_lt key previous) _ _ (λ _ f. cc)
        (λ older.
          if-ind (Knows n key) (key_lt previous key) _ _ (λ _ _. put-Knows n key c) (λ t _. rw e t))

  check_rollback_lem :
      (d : Data) (c : Client I) (n : List ℕ) (key : ℕ × ℕ)
      → c.reject_rollback ≡ true
      → freshness_key d ≡ some key
      → Name.to_bytes d.name ≡ ok n
      → check_rollback d c ≡ ok (remember n key (get n c.seen_signed_key) c)
  unfolding check_rollback
  check_rollback_lem d c n key policy k name = simp (policy, k, name) refl

  remember-old :
      (n : List ℕ) (k l : ℕ × ℕ) (o : Option (ℕ × ℕ)) (c : Client I)
      → NotOlder (some k) o
      → key_lt l k ≡ true
      → remember n l o c ≡ (c, false)
  unfolding remember
  remember-old n k l none c h old = absurd h
  remember-old n k l (some m) c h old = rw (key_lt-old m k l old h) refl

module _ {I : Type 0} (crypto : Crypto I) (recall : List ℕ → Option (List ℕ → List ℕ → Bool)) where
  open_data-Later :
      (now : ℕ) (d : Data) (r : Client I × Bool) → (open_data crypto recall now d r).0 ≡ r.0
  unfolding open_data
  open_data-Later now d (c, false) = refl
  open_data-Later now d (c, true) = refl

  verify-Later :
      (now : ℕ) (q : Request) (d : Data) (c : Client I) → Later c (verify crypto recall now q d c).0
  unfolding verify
  verify-Later now q d c =
      if-ind (λ (v : Client I × Verdict). Later c v.0)
        (verify_content_hash crypto.blake2b d && meets_pin q.name d) _ _
        (λ _. signed (check_signature crypto recall q.require d)) (λ _. Later-own c)
    where
      signed :
          (r : Result Bool)
          → Later c
              (elim r as (λ x. Client I × Verdict) [
                | raise e ↦ (c, broken e)
                | ok false ↦ (c, rejected)
                | ok true ↦ elim (check_rollback d c) as (λ x. Client I × Verdict) [
                  | raise e ↦ (c, broken e)
                  | ok r ↦ open_data crypto recall now d r
                ]
              ]).0
      signed (raise e) = Later-own c
      signed (ok false) = Later-own c
      signed (ok true) =
          Result-ind (λ (v : Client I × Verdict). Later c v.0) (check_rollback d c) _ _
            (λ r e.
              rw (open_data-Later now d r)
                (IfOk-eq (λ r. Later c r.0) e (check_rollback-Later d c)))
            (λ _ _. Later-own c)

  judge-Later :
      (now : ℕ) (q : Request) (a : Answer) (c : Client I)
      → Later c (judge crypto recall now q a c).0
  unfolding judge
  judge-Later now q no_link c = Later-own c
  judge-Later now q times_out c = Later-own c
  judge-Later now q (raises e) c = Later-own c
  judge-Later now q (answered none) c = Later-own c
  judge-Later now q (answered (some d)) c = verify-Later now q d c

  abbrev Delays : ℕ → ℕ → List ℕ → Type 0
  Delays n cap ds = (length ds ≤ n) × All (λ t. t ≤ cap) ds

  -- a later client, and delays within their number and cap
  pub record Ends (n : ℕ) (c : Client I) (r : Client I × List ℕ × Result (Option Data))
      : Type 0 where
    pub later : Later c r.0
    pub number : length r.1 ≤ n
    pub small : All (λ t. t ≤ c.max_retry_delay) r.1

  delays_after-Delays :
      (a : Answer) (v : Verdict) (n cap : ℕ) (ds : List ℕ)
      → Delays n cap ds
      → Delays n cap (delays_after crypto recall a v ds)
  unfolding delays_after
  delays_after-Delays (answered none) v n cap ds h = h
  delays_after-Delays (answered (some d)) (broken x) n cap ds h = h
  delays_after-Delays (answered (some d)) rejected n cap ds h = (omega arith, tt)
  delays_after-Delays (answered (some d)) (accepted e) n cap ds h = (omega arith, tt)
  delays_after-Delays no_link (broken x) n cap ds h = h
  delays_after-Delays no_link rejected n cap ds h = (omega arith, tt)
  delays_after-Delays no_link (accepted e) n cap ds h = (omega arith, tt)
  delays_after-Delays times_out (broken x) n cap ds h = h
  delays_after-Delays times_out rejected n cap ds h = (omega arith, tt)
  delays_after-Delays times_out (accepted e) n cap ds h = (omega arith, tt)
  delays_after-Delays (raises y) (broken x) n cap ds h = h
  delays_after-Delays (raises y) rejected n cap ds h = (omega arith, tt)
  delays_after-Delays (raises y) (accepted e) n cap ds h = (omega arith, tt)

  joined :
      (c c' c'' : Client I) (m n : ℕ) (es ds : List ℕ) (r : Result (Option Data))
      → Later c c'
      → Delays m c.max_retry_delay es
      → Ends n c' (c'', ds, r)
      → Ends (m + n) c (c'', es ++ ds, r)
  joined c c' c'' m n es ds r later (short, small) k = record {
    later = Later-trans c c' c'' later k.later;
    number = omega (arith, length-append es ds, k.number);
    small = All-append (λ t. t ≤ c.max_retry_delay) es ds small (rw (← later.same_cap) k.small);
  }

  finish_attempt-Ends :
      (a : Answer) (c : Client I) (m n : ℕ) (delay : List ℕ) (v : Client I × Verdict)
      (rest : Client I × List ℕ × Result (Option Data))
      → Later c v.0
      → Delays m c.max_retry_delay delay
      → Ends n v.0 rest
      → Ends (m + n) c (finish_attempt crypto recall a delay v rest)
  unfolding finish_attempt
  finish_attempt-Ends a c m n delay (c', accepted d) rest later h k = record {
    later = later;
    number = omega arith;
    small = tt;
  }
  finish_attempt-Ends a c m n delay (c', rejected) (c'', ds, r) later h k =
      joined c c' c'' m n (delays_after crypto recall a rejected delay) ds r later
        (delays_after-Delays a rejected m c.max_retry_delay delay h) k
  finish_attempt-Ends a c m n delay (c', broken x) (c'', ds, r) later h k =
      joined c c' c'' m n (delays_after crypto recall a (broken x) delay) ds r later
        (delays_after-Delays a (broken x) m c.max_retry_delay delay h) k

  backoff-Delays :
      (c : Client I) (q : Request) (attempt : ℕ)
      → Delays
          (q.retries - attempt - (q.retries - suc attempt))
          c.max_retry_delay
          (if ltb attempt q.retries then retry_delay c attempt ∷ [] else [])
  unfolding retry_delay
  backoff-Delays c q attempt =
      if-ind (Delays (q.retries - attempt - (q.retries - suc attempt)) c.max_retry_delay)
        (ltb attempt q.retries) _ _
        (λ t. (omega (arith, ltb→lt attempt q.retries t), (omega arith, tt)))
        (λ _. (omega arith, tt))

  attempts-Ends :
      (now : ℕ) (q : Request) (ask : ℕ → Answer) (remaining attempt : ℕ) (e : Option Error)
      (c : Client I)
      → Ends (q.retries - attempt) c (attempts crypto recall now q ask remaining attempt e c)
  unfolding attempts
  attempts-Ends now q ask zero attempt e c = record {
    later = Later-own c;
    number = omega arith;
    small = tt;
  }
  attempts-Ends now q ask (suc remaining) attempt e c =
      let r = judge crypto recall now q (ask attempt) c in
      let rest =
        attempts crypto recall now q ask remaining (attempt + 1)
          (last_error crypto recall (ask attempt) r.1 e) r.0 in
      subst
        (λ n. Ends n c (
          finish_attempt crypto recall (ask attempt)
            (if ltb attempt q.retries then retry_delay c attempt ∷ [] else []) r rest))
        (omega arith)
        (finish_attempt-Ends (ask attempt) c (q.retries - attempt - (q.retries - suc attempt))
          (q.retries - (attempt + 1)) _ r rest (judge-Later now q (ask attempt) c)
          (backoff-Delays c q attempt)
          (attempts-Ends now q ask remaining (attempt + 1)
            (last_error crypto recall (ask attempt) r.1 e) r.0))

  -- A fetch makes at most `max_retries` pauses, each at most `max_retry_delay`, and leaves a client
  -- with the same policy, in which no name's newest authenticated key has become older.
  pub fetch_verified-Ends :
      (now : ℕ) (q : Request) (ask : ℕ → Answer) (c : Client I)
      → Ends q.retries c (fetch_verified crypto recall now q ask c)
  unfolding fetch_verified
  fetch_verified-Ends now q ask c =
      subst (λ n. Ends n c (attempts crypto recall now q ask (q.retries + 1) 0 none c))
        (omega arith) (attempts-Ends now q ask (q.retries + 1) 0 none c)

  -- a session: fetches one after the other
  unfoldable pub session : List (ℕ × Request × (ℕ → Answer)) → Client I → Client I
  unfolding fetch_verified
  session [] c = c
  session ((now, q, ask) ∷ fetches) c = session fetches (fetch_verified crypto recall now q ask c).0

  session-Later :
      (fetches : List (ℕ × Request × (ℕ → Answer))) (c : Client I) → Later c (session fetches c)
  unfolding session
  session-Later [] c = Later-own c
  session-Later ((now, q, ask) ∷ fetches) c =
      let next = (fetch_verified crypto recall now q ask c).0 in
      Later-trans c next (session fetches next) (fetch_verified-Ends now q ask c).later
        (session-Later fetches next)

  -- Once Data passed the rollback check, under `reject_rollback`, with some (signed_at, sequence),
  -- signed Data for the same name with a smaller one is refused, after any further fetches.
  pub check_rollback-session :
      (fetches : List (ℕ × Request × (ℕ → Answer))) (c c' : Client I) (d e : Data) (n : List ℕ)
      (k l : ℕ × ℕ)
      → c.reject_rollback ≡ true
      → check_rollback d c ≡ ok (c', true)
      → freshness_key d ≡ some k
      → Name.to_bytes d.name ≡ ok n
      → freshness_key e ≡ some l
      → Name.to_bytes e.name ≡ ok n
      → key_lt l k ≡ true
      → check_rollback e (session fetches c') ≡ ok (session fetches c', false)
  unfolding Knows
  check_rollback-session fetches c c' d e n k l policy passed kd nd ke ne old =
      let later = session-Later fetches c' in
      let first : Later c c' =
        IfOk-eq (λ (r : Client I × Bool). Later c r.0) passed (check_rollback-Later d c) in
      let knows : NotOlder (some k) (get n c'.seen_signed_key) =
        subst (Knows n k) (ok-injective (sym (check_rollback_lem d c n k policy kd nd) ∙ passed))
          (remember-Knows n k (get n c.seen_signed_key) c refl) refl in
      let still = NotOlder-trans (some k) _ _ knows (later.grows n) in
      check_rollback_lem e (session fetches c') n l
        (later.same_policy ∙ (first.same_policy ∙ policy)) ke ne
      ∙ ap ok (remember-old n k l _ (session fetches c') still old)
