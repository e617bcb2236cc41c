-- ===== src/Access/Control.antt =====
-- `AccessRule` and `AccessController` of access.py.
use rns_icn.Prelude.{Bool, true, false, Option, none, some, is_some, ◌==◌, list_eq, nat_eq, ℕ}
use rns_icn.Prelude.{List, [], ◌∷◌, any, if◌then◌else◌}
use rns_icn.Wire.{Result, ok, raise, ◌>>=◌, access_error}
use rns_icn.Name.{Name, name_eq}
use rns_icn.Name.Longest.{longest_match}
use rns_icn.Access.{Crypto, Capability, derive_cek, encrypt_content, create}

-- `consumers` is a set; only membership is asked.
pub record AccessRule : Type 0 where
  pub prefix : Name
  pub consumers : List (List ℕ)

unfoldable pub allows : AccessRule → List ℕ → Bool
allows rule consumer_hash = any (λ c. c == consumer_hash) rule.consumers

pub record AccessController (I : Type 0) : Type 0 where
  pub identity : I
  pub producer_addr : List ℕ
  pub rules : List AccessRule

unfoldable pub matching_rule : Name → List AccessRule → Option AccessRule
unfolding longest_match
matching_rule name rules = longest_match (λ r. r.prefix) name none rules

unfoldable pub is_restricted : Name → List AccessRule → Bool
unfolding matching_rule
is_restricted name rules = is_some (matching_rule name rules)

-- `next((r for r in self.rules if r.prefix == prefix), None)`
unfoldable pub rule_for : Name → List AccessRule → Option AccessRule
rule_for prefix [] = none
rule_for prefix (r ∷ rs) = if r.prefix == prefix then some r else rule_for prefix rs

module _ {I : Type 0} (crypto : Crypto I) where
  unfoldable pub encrypt_under : I → Option AccessRule → List ℕ → Result (List ℕ × Bool)
  unfolding derive_cek encrypt_content
  encrypt_under identity none plaintext = ok (plaintext, false)
  encrypt_under identity (some rule) plaintext = do
    cek ← derive_cek crypto identity rule.prefix
    content ← encrypt_content crypto plaintext cek
    ok (content, true)

  -- `AccessController.encrypt_content`
  unfoldable pub publish_content : AccessController I → Name → List ℕ → Result (List ℕ × Bool)
  unfolding matching_rule encrypt_under
  publish_content a name plaintext = encrypt_under a.identity (matching_rule name a.rules) plaintext

  unfoldable pub issue_under :
      AccessController I
      → Option AccessRule
      → Name
      → I
      → (List ℕ → List ℕ)
      → ℕ
      → ℕ
      → Result Capability
  unfolding allows create
  issue_under a none prefix consumer signer ttl_seconds now = raise access_error
  issue_under a (some rule) prefix consumer signer ttl_seconds now =
      if allows rule (crypto.identity_hash consumer)
      then create crypto prefix consumer a.identity signer (some a.producer_addr) ttl_seconds now
      else raise access_error

  unfoldable pub issue_capability :
      AccessController I → Name → I → (List ℕ → List ℕ) → ℕ → ℕ → Result Capability
  unfolding rule_for issue_under
  issue_capability a prefix consumer signer ttl_seconds now =
      issue_under a (rule_for prefix a.rules) prefix consumer signer ttl_seconds now
