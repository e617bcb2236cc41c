-- ===== src/Name/Prefix.antt =====
-- `starts_with` is the prefix order on the components.
use rns_icn.Prelude.{ℕ, ◌≤◌, ◌≡◌, ◌↔◌, refl, ap, ◌∙◌, sym, true, arith}
use rns_icn.Prelude.{
  List, [], ◌∷◌, ◌++◌, length, length-append, nat_eq, list_eq, list_beq_iff, append-nil,
  append_assoc,
}
use rns_icn.Name.{Name, all_equal, starts_with}

-- The components of the prefix, and more behind them.
abbrev pub Extends : List (List ℕ) → List (List ℕ) → Type 0
Extends xs ps = (tail : List (List ℕ)) × (xs ≡ ps ++ tail)

all_equal-Extends :
    (xs ps : List (List ℕ)) → length ps ≤ length xs → all_equal xs ps ≡ true → Extends xs ps
unfolding all_equal
all_equal-Extends xs [] h e = (xs, refl)
all_equal-Extends [] (p ∷ ps) h e = absurd (omega arith)
all_equal-Extends (x ∷ xs) (p ∷ ps) h e =
    let (tail, k) = all_equal-Extends xs ps (omega arith) (ground arith) in
    (tail, ground (arith, list_beq_iff x p))

all_equal-append : (ps tail : List (List ℕ)) → all_equal (ps ++ tail) ps ≡ true
unfolding all_equal
all_equal-append [] [] = refl
all_equal-append [] (t ∷ tail) = refl
all_equal-append (p ∷ ps) tail = ground (arith, list_beq_iff p p, all_equal-append ps tail)

-- A name starts with a prefix exactly when its components are those of the prefix with more
-- behind them; the content hashes play no part.
pub starts_with_iff :
    (n prefix : Name) → (starts_with n prefix ≡ true) ↔ Extends n.components prefix.components
unfolding starts_with
starts_with_iff n prefix = (
  λ h. all_equal-Extends n.components prefix.components (ground arith) (ground arith),
  λ (tail, e). rw e (
      ground
        (arith, all_equal-append prefix.components tail, length-append prefix.components tail)),
)

pub starts_with_refl : (n : Name) → starts_with n n ≡ true
starts_with_refl n = (starts_with_iff n n).1 ([], sym (append-nil n.components))

pub starts_with_trans :
    (a b c : Name) → starts_with a b ≡ true → starts_with b c ≡ true → starts_with a c ≡ true
starts_with_trans a b c p q =
    let (s, e) = (starts_with_iff a b).0 p in
    let (t, f) = (starts_with_iff b c).0 q in
    (starts_with_iff a c).1 (t ++ s, e ∙ ap (λ xs. xs ++ s) f ∙ append_assoc c.components t s)

pub starts_with-length :
    (n prefix : Name) → starts_with n prefix ≡ true → length prefix.components ≤ length n.components
unfolding starts_with
starts_with-length n prefix h = ground arith

Extends-linear :
    (xs ps qs : List (List ℕ))
    → Extends xs ps
    → Extends xs qs
    → length ps ≤ length qs
    → Extends qs ps
Extends-linear xs [] qs p q h = (qs, refl)
Extends-linear xs (a ∷ ps) [] p q h = absurd (omega arith)
Extends-linear [] (a ∷ ps) (b ∷ qs) (s, e) q h = cc
Extends-linear (x ∷ xs) (a ∷ ps) (b ∷ qs) (s, e) (t, f) h =
    let (u, k) = Extends-linear xs ps qs (s, ground arith) (t, ground arith) (omega arith) in
    (u, ground arith)

-- Two prefixes of one name: the shorter one is a prefix of the other.
pub starts_with-linear :
    (n p q : Name)
    → starts_with n p ≡ true
    → starts_with n q ≡ true
    → length p.components ≤ length q.components
    → starts_with q p ≡ true
starts_with-linear n p q hp hq h = (starts_with_iff q p).1 (
    Extends-linear n.components p.components q.components ((starts_with_iff n p).0 hp)
      ((starts_with_iff n q).0 hq) h)
