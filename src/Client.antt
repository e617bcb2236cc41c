-- ===== src/Client.antt =====
-- rns_icn/client.py: the consumer. What the network answers to an Interest is an argument, and so
-- are `RNS.Identity.recall(…).validate` (`recall`) and the ciphers (`Crypto`). Delays are in
-- milliseconds. Logging, metrics and the set-up of links are left out.
pub mod Accepted
pub mod Rollback
pub mod Ranges
mod Runs
use rns_icn.Prelude.{
  ℕ, zero, suc, ◌+◌, ◌*◌, ◌^◌, min, Bool, true, false, not, ◌&&◌, ◌||◌, Option, none, some,
}
use rns_icn.Prelude.{List, [], ◌∷◌, ◌++◌, ltb, ◌==◌, nat_eq, list_eq, option_eq, if◌then◌else◌}
use rns_icn.Prelude.{Dict, get, put}
use rns_icn.Wire.{
  Error, Result, ok, raise, ◌>>=◌, value_error, runtime_error, timeout_error, access_error,
}
use rns_icn.Name
use rns_icn.Name.{Name, name_eq, rns_addr, starts_with}
use rns_icn.Packet.Selector.{InterestSelector, latest}
use rns_icn.Packet.Data.{Data}
use rns_icn.Packet.Data.Envelope
use rns_icn.Packet.Data.Envelope.{verify_content_hash, freshness_key}
use rns_icn.Access
use rns_icn.Access.{Crypto, Capability, covers, unwrap, decrypt_content}
use rns_icn.Discovery.{meta_name, decode_meta}

-- the part of `ClientConfig` that is read here, and the state
pub record Client (I : Type 0) : Type 0 where
  pub require_signature : Bool
  pub reject_rollback : Bool
  pub max_retries : ℕ
  pub base_retry_delay : ℕ
  pub max_retry_delay : ℕ
  pub identity : I
  pub seen_signed_key : Dict (List ℕ) (ℕ × ℕ)
  pub capability_store : Dict (List ℕ) (List Capability)
  pub subscriptions : List Name

-- the comparison of two pairs
unfoldable pub key_lt : ℕ × ℕ → ℕ × ℕ → Bool
key_lt (a, b) (c, d) = ltb a c || (a == c && ltb b d)

-- what an attempt of `_fetch_verified` gets: no link, a timeout, an exception, or what `express` returns
pub data Answer : Type 0 where
  no_link times_out : Answer
  raises : Error → Answer
  answered : Option Data → Answer

-- what becomes of an answer: `return`, `continue` with an error, or an exception
pub data Verdict : Type 0 where
  accepted : Data → Verdict
  rejected : Verdict
  broken : Error → Verdict

pub record Request : Type 0 where
  pub name : Name
  pub must_be_fresh : Bool
  pub can_be_prefix : Bool
  pub selector : Option InterestSelector
  pub require : Bool
  pub raise_on_failure : Bool
  pub retries : ℕ

-- "previous is None or key > previous" stores the key
unfoldable pub remember :
    {I : Type 0} → List ℕ → ℕ × ℕ → Option (ℕ × ℕ) → Client I → Client I × Bool
unfolding key_lt
remember name_key key none c =
    (record c { seen_signed_key = put name_key key c.seen_signed_key }, true)
remember name_key key (some previous) c =
    if key_lt key previous
    then (c, false)
    else if key_lt previous key
    then (record c { seen_signed_key = put name_key key c.seen_signed_key }, true)
    else (c, true)

-- `_check_rollback`: the client, and whether the Data passes
unfoldable pub check_rollback : {I : Type 0} → Data → Client I → Result (Client I × Bool)
unfolding remember freshness_key Name.to_bytes
check_rollback d c = if not c.reject_rollback then ok (c, true) else elim (freshness_key d) [
  | none ↦ ok (c, true)
  | some key ↦
      Name.to_bytes d.name
      >>= (λ name_key. ok (remember name_key key (get name_key c.seen_signed_key) c))
]

-- `_load_capabilities`, on the capabilities that could be read
unfoldable pub load_capabilities : {I : Type 0} → List Capability → Client I → Client I
load_capabilities [] c = c
load_capabilities (cap ∷ caps) c = load_capabilities caps (record c {
  capability_store =
      put cap.producer
        (elim (get cap.producer c.capability_store) [ none ↦ [] | some held ↦ held ] ++ (cap ∷ []))
        c.capability_store;
})

-- the backoff before the next attempt
unfoldable pub retry_delay : {I : Type 0} → Client I → ℕ → ℕ
retry_delay c attempt = min (c.base_retry_delay * 2 ^ attempt) c.max_retry_delay

-- "result.metadata.content_hash != name.content_hash", for a pinned name
unfoldable pub meets_pin : Name → Data → Bool
meets_pin name d = elim name.content_hash [
  | none ↦ true
  | some h ↦ d.metadata.content_hash == some h
]

module _ {I : Type 0} (crypto : Crypto I) (recall : List ℕ → Option (List ℕ → List ℕ → Bool)) where
  -- `_check_signature`: False stands for the ValueError that it returns
  unfoldable pub check_signature : Bool → Data → Result Bool
  unfolding Envelope.verify_signature rns_addr
  check_signature require d = elim d.signature [
    | none ↦ ok (not require)
    | some sig ↦ rns_addr d.name >>= (λ addr. elim (recall addr) [
      | none ↦ ok (not require)
      | some validate ↦ Envelope.verify_signature crypto.blake2b validate d
    ])
  ]

  -- "validators is not None and not any(…)" refuses the capability
  unfoldable pub authorised : Capability → Result Bool
  unfolding Access.verify_signature
  authorised cap = elim (recall cap.producer) [
    | none ↦ ok true
    | some validate ↦ Access.verify_signature crypto.blake2b validate cap
  ]

  -- the plaintext Data
  abbrev pub decrypted : Data → List ℕ → Data
  decrypted d plaintext = record d {
    content = plaintext;
    signature = none;
    metadata = record (d.metadata) {
      content_hash = some (crypto.blake2b plaintext);
      encrypted = false;
    };
  }

  -- "except access.AccessError: continue"
  unfoldable pub or_continue : Data → Result (List ℕ) → Result Data → Result Data
  or_continue d (ok plaintext) rest = ok (decrypted d plaintext)
  or_continue d (raise access_error) rest = rest
  or_continue d (raise e) rest = raise e

  -- the loop over the capabilities
  unfoldable pub try_capabilities : ℕ → I → Data → List Capability → Result Data
  unfolding or_continue authorised covers unwrap decrypt_content
  try_capabilities now identity d [] = ok d
  try_capabilities now identity d (cap ∷ caps) =
      let rest = try_capabilities now identity d caps in
      if not (covers d.name now cap)
      then rest
      else (authorised cap >>= (λ valid.
          if valid
          then or_continue d
              (unwrap crypto identity cap >>= (λ cek. decrypt_content crypto d.content cek)) rest
          else rest))

  unfoldable pub maybe_decrypt : ℕ → Data → Client I → Result Data
  unfolding try_capabilities rns_addr
  maybe_decrypt now d c =
      if not d.metadata.encrypted
      then ok d
      else (rns_addr d.name >>= (λ addr. elim (get addr c.capability_store) [
        | none ↦ ok d
        | some caps ↦ try_capabilities now c.identity d caps
      ]))

  -- the end of the pipeline
  unfoldable pub open_data : ℕ → Data → Client I × Bool → Client I × Verdict
  unfolding maybe_decrypt
  open_data now d (c, false) = (c, rejected)
  open_data now d (c, true) =
      (c, elim (maybe_decrypt now d c) [ ok out ↦ accepted out | raise e ↦ broken e ])

  -- the checks of `_fetch_verified` on an answer, in their order
  unfoldable pub verify : ℕ → Request → Data → Client I → Client I × Verdict
  unfolding verify_content_hash meets_pin check_signature check_rollback open_data
  verify now q d c =
      if verify_content_hash crypto.blake2b d && meets_pin q.name d
      then elim (check_signature q.require d) [
        | raise e ↦ (c, broken e)
        | ok false ↦ (c, rejected)
        | ok true ↦ elim (check_rollback d c) [ raise e ↦ (c, broken e) | ok r ↦ open_data now d r ]
      ]
      else (c, rejected)

  unfoldable pub judge : ℕ → Request → Answer → Client I → Client I × Verdict
  unfolding verify
  judge now q no_link c = (c, broken runtime_error)
  judge now q times_out c = (c, broken timeout_error)
  judge now q (raises e) c = (c, broken e)
  judge now q (answered none) c = (c, rejected)
  judge now q (answered (some d)) c = verify now q d c

  -- the error that an attempt leaves: none if `express` returned none
  unfoldable pub last_error : Answer → Verdict → Option Error → Option Error
  last_error (answered none) v e = e
  last_error a (broken x) e = some x
  last_error a rejected e = some value_error
  last_error a (accepted d) e = e

  -- the delay after an attempt: `continue` skips it, and there is none after the last
  unfoldable pub delays_after : Answer → Verdict → List ℕ → List ℕ
  delays_after (answered none) v delay = delay
  delays_after a (broken x) delay = delay
  delays_after a v delay = []

  -- "if last_error and raise_on_failure: raise last_error"
  unfoldable pub give_up : Request → Option Error → Result (Option Data)
  give_up q none = ok none
  give_up q (some e) = if q.raise_on_failure then raise e else ok none

  -- an attempt that succeeds ends the loop
  unfoldable pub finish_attempt :
      Answer
      → List ℕ
      → Client I × Verdict
      → Client I × List ℕ × Result (Option Data)
      → Client I × List ℕ × Result (Option Data)
  unfolding delays_after
  finish_attempt a delay (c, accepted d) rest = (c, [], ok (some d))
  finish_attempt a delay (c, rejected) (c', delays, r) =
      (c', delays_after a rejected delay ++ delays, r)
  finish_attempt a delay (c, broken x) (c', delays, r) =
      (c', delays_after a (broken x) delay ++ delays, r)

  -- the loop over the attempts: the client, the delays slept, and the result
  unfoldable pub attempts :
      ℕ
      → Request
      → (ℕ → Answer)
      → ℕ
      → ℕ
      → Option Error
      → Client I
      → Client I × List ℕ × Result (Option Data)
  unfolding judge last_error finish_attempt give_up retry_delay
  attempts now q ask zero attempt e c = (c, [], give_up q e)
  attempts now q ask (suc remaining) attempt e c =
      let r = judge now q (ask attempt) c in
      let delay = if ltb attempt q.retries then retry_delay c attempt ∷ [] else [] in
      finish_attempt (ask attempt) delay r
        (attempts now q ask remaining (attempt + 1) (last_error (ask attempt) r.1 e) r.0)

  -- `_fetch_verified`: `max_retries + 1` attempts
  unfoldable pub fetch_verified :
      ℕ → Request → (ℕ → Answer) → Client I → Client I × List ℕ × Result (Option Data)
  unfolding attempts
  fetch_verified now q ask c = attempts now q ask (q.retries + 1) 0 none c

  abbrev pub exact_request : Name → Client I → Request
  exact_request name c = record {
    name = name;
    must_be_fresh = false;
    can_be_prefix = false;
    selector = none;
    require = c.require_signature;
    raise_on_failure = true;
    retries = c.max_retries;
  }

  unfoldable pub fetch :
      ℕ → Name → (ℕ → Answer) → Client I → Client I × List ℕ × Result (Option Data)
  unfolding fetch_verified
  fetch now name ask c = fetch_verified now (exact_request name c) ask c

  -- `_dispatch_push`: the client, and the callbacks that are called, by their position
  unfoldable pub dispatch_push : ℕ → Data → List Name → ℕ → Client I → Client I × List (ℕ × Data)
  unfolding starts_with verify_content_hash check_signature check_rollback maybe_decrypt
  dispatch_push now d [] k c = (c, [])
  dispatch_push now d (prefix ∷ prefixes) k c =
      let rest = dispatch_push now d prefixes (k + 1) in
      if not (starts_with d.name prefix)
      then rest c
      else let v =
          verify now
            (record (exact_request d.name c) { name = record (d.name) { content_hash = none } }) d
            c in
        elim v.1 as (λ x. Client I × List (ℕ × Data)) [
          | accepted out ↦ let (c', calls) = rest v.0 in (c', (k, out) ∷ calls)
          | rejected ↦ (v.0, [])
          | broken e ↦ (v.0, [])
        ]
