-- ===== src/Access/Delivery.antt =====
-- From the access rule to the reader: what a consumer with a capability can read, and who gets one.
use rns_icn.Prelude.{
  ℕ, ◌≡◌, ◌+◌, refl, sym, ap, ◌∙◌, true, false, Option, none, some, arith, inl, inr,
}
use rns_icn.Prelude.{
  List, [], ◌∷◌, ◌++◌, length, In, here, there, ◌==◌, nat_eq, list_eq, eq_refl, if◌then◌else◌, ltb,
  Bool-cases,
}
use mathlib.Core.Path.{subst}
use rns_icn.Wire.{ok, IfOk}
use rns_icn.Wire.Readers.{>>=-IfOk, IfOk-true, IfOk-map, IfOk-eq}
use rns_icn.Name
use rns_icn.Name.{Name, name_eq, name_beq_iff, rns_addr, starts_with}
use rns_icn.Name.Longest.{longest_match-Found, Found}
use rns_icn.Packet.Data.{signature_bytes}
use rns_icn.Access.RoundTrip.{Fits, body_lem}
use rns_icn.Access.{
  covers, is_expired, Crypto, Capability, signed_bytes, signed_hash, sign, post_init, derive_cek,
  derive_from, cap_domain, decrypt_content, wrap_cek, unwrap, create, addr_or_prefix,
}
use rns_icn.Access.Control.{
  AccessRule, AccessController, allows, matching_rule, rule_for, encrypt_under, publish_content,
  issue_under, issue_capability,
}

-- `matching_rule` is a longest-prefix match: if it returns a rule, the name starts with the rule's
-- prefix and no rule with a longer prefix matches; if it returns none, no rule's prefix matches.
pub matching_rule-Found :
    (name : Name) (rules : List AccessRule)
    → Found (λ r. r.prefix) name rules (matching_rule name rules)
unfolding matching_rule
matching_rule-Found name rules = longest_match-Found (λ r. r.prefix) name rules

-- The first rule for exactly the prefix.
rule_for-In :
    (prefix : Name) (rules : List AccessRule) (r : AccessRule)
    → rule_for prefix rules ≡ some r
    → In r rules × (r.prefix ≡ prefix)
unfolding rule_for
rule_for-In prefix [] r e = cc
rule_for-In prefix (x ∷ xs) r e = elim (Bool-cases (x.prefix == prefix)) [
  | inl t ↦
      let same : x ≡ r = ground arith in
      (
        here (sym same),
        ap (λ (y : AccessRule). y.prefix) (sym same) ∙ (name_beq_iff x.prefix prefix).0 t,
      )
  | inr t ↦ let (m, p) = rule_for-In prefix xs r (rw t at e) in (there m, p)
]

-- The capability that a producer makes out, before it is signed.
abbrev pub granted : {I : Type 0} → Crypto I → List ℕ → Name → I → List ℕ → ℕ → ℕ → Capability
granted crypto addr prefix consumer cek ttl now = record {
  producer = addr;
  consumer = crypto.identity_hash consumer;
  prefix = prefix;
  wrapped_cek = crypto.encrypt_to consumer cek;
  issued_at = now;
  expires_at = if ltb 0 ttl then now + ttl else 0;
  signature = none;
}

module _ {I : Type 0} (crypto : Crypto I) where
  -- A capability with these fields, unsigned as yet.
  abbrev Grants : Name → I → Capability → Type 0
  Grants prefix consumer c = (c.prefix ≡ prefix) × (c.consumer ≡ crypto.identity_hash consumer)

  post_init-keeps : (P : Capability → Type 0) (c : Capability) → P c → IfOk P (post_init c)
  unfolding post_init
  post_init-keeps P c g = elim (Bool-cases (length c.producer == 16)) [
    | inr t ↦ rw t tt
    | inl t ↦ rw t (elim (Bool-cases (length c.consumer == 16)) [
      | inr u ↦ rw u tt
      | inl u ↦ rw u (
          >>=-IfOk _ (rns_addr c.prefix) _ (IfOk-true (rns_addr c.prefix))
            (λ addr _. elim (Bool-cases (addr == c.producer)) [ inl v ↦ rw v g | inr v ↦ rw v tt ]))
    ])
  ]

  sign-Grants :
      (prefix : Name) (consumer : I) (signer : List ℕ → List ℕ) (c : Capability)
      → Grants prefix consumer c
      → IfOk (Grants prefix consumer) (sign crypto.blake2b signer c)
  unfolding sign
  sign-Grants prefix consumer signer c g =
      >>=-IfOk _ (signed_hash crypto.blake2b c) _ (IfOk-true (signed_hash crypto.blake2b c)) (λ h _.
        elim (Bool-cases (length (signer h) == signature_bytes)) [
          | inl t ↦ rw t g
          | inr t ↦ rw t tt
        ])

  create-Grants :
      (prefix : Name) (consumer identity : I) (signer : List ℕ → List ℕ) (addr : List ℕ)
      (ttl now : ℕ)
      → IfOk
          (Grants prefix consumer)
          (create crypto prefix consumer identity signer (some addr) ttl now)
  unfolding create addr_or_prefix
  create-Grants prefix consumer identity signer addr ttl now =
      >>=-IfOk _ (derive_cek crypto identity prefix) _
        (IfOk-true (derive_cek crypto identity prefix))
        (λ cek _.
          >>=-IfOk _ (wrap_cek crypto cek consumer) _ (IfOk-true (wrap_cek crypto cek consumer))
            (λ wrapped _.
              let c : Capability = record (granted crypto addr prefix consumer cek ttl now) {
                wrapped_cek = wrapped;
              } in
              >>=-IfOk {P = Grants prefix consumer} (Grants prefix consumer) (post_init c)
                (sign crypto.blake2b signer)
                (post_init-keeps (Grants prefix consumer) c (refl, refl))
                (λ d g. sign-Grants prefix consumer signer d g)))

  -- A capability is issued only to a consumer that a rule for exactly the prefix lists, and it is
  -- for that prefix and that consumer.
  pub issue_capability-Grants :
      (a : AccessController I) (prefix : Name) (consumer : I) (signer : List ℕ → List ℕ)
      (ttl now : ℕ)
      → IfOk
          (λ c.
            ((r : AccessRule) × In r a.rules
              × (r.prefix ≡ prefix)
              × (allows r (crypto.identity_hash consumer) ≡ true))
            × Grants prefix consumer c)
          (issue_capability crypto a prefix consumer signer ttl now)
  unfolding issue_capability issue_under
  issue_capability-Grants a prefix consumer signer ttl now = go (rule_for prefix a.rules) refl
    where
      go :
          (o : Option AccessRule)
          → rule_for prefix a.rules ≡ o
          → IfOk
              (λ c.
                ((r : AccessRule) × In r a.rules
                  × (r.prefix ≡ prefix)
                  × (allows r (crypto.identity_hash consumer) ≡ true))
                × Grants prefix consumer c)
              (issue_under crypto a o prefix consumer signer ttl now)
      go none e = tt
      go (some r) e = elim (Bool-cases (allows r (crypto.identity_hash consumer))) [
        | inr t ↦ rw t tt
        | inl t ↦
            let (m, p) = rule_for-In prefix a.rules r e in
            rw t (
              IfOk-map _
                (create crypto prefix consumer a.identity signer (some a.producer_addr) ttl now)
                (create-Grants prefix consumer a.identity signer a.producer_addr ttl now)
                (λ c g. ((r, m, p, t), g)))
      ]

not_expired :
    {I : Type 0} (crypto : Crypto I) (addr : List ℕ) (prefix : Name) (consumer : I) (cek : List ℕ)
    (ttl now : ℕ) (s : Option (List ℕ))
    → is_expired now (record (granted crypto addr prefix consumer cek ttl now) { signature = s })
      ≡ false
unfolding is_expired
not_expired crypto addr prefix consumer cek ttl now s = ground arith

module _ {I : Type 0} (crypto : Crypto I)
    (cek_size : (k m : List ℕ) → length (crypto.blake2b_keyed k m) ≡ 32)
    (unwraps : (i : I) (m : List ℕ) → crypto.decrypt_by i (crypto.encrypt_to i m) ≡ some m)
    (decrypts : (k m : List ℕ) → crypto.token_decrypt k (crypto.token_encrypt k m) ≡ some m) where
  derived_size :
      (i : I) (prefix : Name) (cek : List ℕ) → derive_cek crypto i prefix ≡ ok cek → length cek ≡ 32
  unfolding derive_cek
  derived_size i prefix cek e = IfOk-eq (λ k. length k ≡ 32) e (go (crypto.private_key i))
    where
      go : (o : Option (List ℕ)) → IfOk (λ k. length k ≡ 32) (derive_from crypto o prefix)
      go none = unfold derive_from in tt
      go (some []) = unfold derive_from in tt
      go (some (b ∷ bs)) =
          unfold derive_from in
          >>=-IfOk _ (Name.to_bytes prefix) _ (IfOk-true (Name.to_bytes prefix))
            (λ n _. cek_size _ _)

  -- Let a name's longest matching rule list a consumer, and be the first rule for its prefix; let
  -- the prefix's key be derived and the prefix be the producer's, the signer give 64 bytes, and the capability
  -- fit the wire. Where the ciphers decrypt what they encrypt, and the keyed hash has 32 bytes,
  -- `issue_capability` succeeds, content published under the name is encrypted, the capability
  -- covers the name at the time of issue, and with it the consumer gets the plaintext back.
  pub decrypt_content-publish_content :
      (a : AccessController I) (rule : AccessRule) (name : Name) (consumer : I)
      (signer : List ℕ → List ℕ) (plaintext : List ℕ) (ttl now : ℕ) (cek : List ℕ)
      → matching_rule name a.rules ≡ some rule
      → rule_for rule.prefix a.rules ≡ some rule
      → allows rule (crypto.identity_hash consumer) ≡ true
      → derive_cek crypto a.identity rule.prefix ≡ ok cek
      → Fits (granted crypto a.producer_addr rule.prefix consumer cek ttl now)
      → rns_addr rule.prefix ≡ ok a.producer_addr
      → ((m : List ℕ) → length (signer m) ≡ signature_bytes)
      → (c : Capability) × (issue_capability crypto a rule.prefix consumer signer ttl now ≡ ok c)
        × (covers name now c ≡ true)
        × (content : List ℕ) × (publish_content crypto a name plaintext ≡ ok (content, true))
        × (key : List ℕ) × (unwrap crypto consumer c ≡ ok key)
        × (decrypt_content crypto content key ≡ ok plaintext)
  unfolding issue_capability publish_content encrypt_under unwrap decrypt_content
  decrypt_content-publish_content a rule name consumer signer plaintext ttl now cek matched first
        listed derived fits root size =
      let (w, written, _, _) =
        body_lem (granted crypto a.producer_addr rule.prefix consumer cek ttl now) fits in
      let cek_fits = derived_size a.identity rule.prefix cek derived in
      let sig : List ℕ = signer (crypto.blake2b (cap_domain ++ w)) in
      (
        record (granted crypto a.producer_addr rule.prefix consumer cek ttl now) {
          signature = some sig;
        },
        unfold issue_under create addr_or_prefix wrap_cek post_init sign signed_hash signed_bytes in
            rw (
              first,
              listed,
              derived,
              cek_fits,
              fits.producer_size,
              fits.consumer_size,
              root,
              eq_refl a.producer_addr,
              written,
              size (crypto.blake2b (cap_domain ++ w)),
            ),
        unfold covers in
            rw (
              (subst (Found (λ r. r.prefix) name a.rules) matched
                  (matching_rule-Found name a.rules)).1,
              not_expired crypto a.producer_addr rule.prefix consumer cek ttl now (some sig),
            ),
        crypto.token_encrypt cek plaintext,
        rw (matched, derived, cek_fits),
        cek,
        rw (unwraps consumer cek, cek_fits),
        rw (cek_fits, decrypts cek plaintext),
      )
