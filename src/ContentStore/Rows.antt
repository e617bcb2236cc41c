-- ===== src/ContentStore/Rows.antt =====
-- The rows of the content store and its index of prefixes: what every operation keeps.
use rns_icn.Prelude.{
  ℕ, zero, suc, ◌+◌, ◌-◌, ◌≤◌, ◌<◌, ◌≡◌, ◌≢◌, refl, sym, ap, Bool, true, not, is_some, arith,
}
use rns_icn.Prelude.{
  List, [], ◌∷◌, map, length, take, filter, All, All-append, length-take, min, ltb, ◌==◌, nat_eq,
  list_eq, HasEq, eq_refl, Bool-cases, inl, inr, ltb-false→le,
}
use rns_icn.Prelude.{
  Dict, get, put, erase, Distinct, Distinct-put, Distinct-erase, get-put, get-erase, length-erase,
  sort, length-sort, All-sort, Pairwise, Pairwise-sort,
}
use rns_icn.ContentStore.{
  Row, ContentStore, delete_row, delete_rows, oldest_keys, older, evict_internal,
}
use rns_icn.ContentStore.Operations.{upsert, trim}

-- A store within its capacity, whose index points at rows that are there.
pub record IsValid (s : ContentStore) : Type 0 where
  pub keys : Distinct s.content
  pub indexed : All (λ p. is_some (get (p.1) s.content) ≡ true) s.name_prefixes
  pub room : 0 < s.max_entries

abbrev pub IsBounded : ContentStore → Type 0
IsBounded s = IsValid s × (length s.content ≤ s.max_entries)

module _ {A : Type 0} where
  pub All-take : (P : A → Type 0) (n : ℕ) (xs : List A) → All P xs → All P (take n xs)
  All-take P zero xs h = tt
  All-take P (suc n) [] h = tt
  All-take P (suc n) (x ∷ xs) (p, h) = (p, All-take P n xs h)

  Pairwise-take :
      (R : A → A → Type 0) (n : ℕ) (xs : List A) → Pairwise R xs → Pairwise R (take n xs)
  Pairwise-take R zero xs h = tt
  Pairwise-take R (suc n) [] h = tt
  Pairwise-take R (suc n) (x ∷ xs) (h, k) = (All-take (R x) n xs h, Pairwise-take R n xs k)

  pub All-map :
      {B : Type 0} (P : B → Type 0) (f : A → B) (xs : List A)
      → All (λ x. P (f x)) xs
      → All P (map f xs)
  All-map P f [] h = tt
  All-map P f (x ∷ xs) (p, h) = (p, All-map P f xs h)

  pub All-imp : {P Q : A → Type 0} (f : (x : A) → P x → Q x) (xs : List A) → All P xs → All Q xs
  All-imp f [] h = tt
  All-imp f (x ∷ xs) (p, h) = (f x p, All-imp f xs h)

  All-both : (P Q : A → Type 0) (xs : List A) → All P xs → All Q xs → All (λ x. P x × Q x) xs
  All-both P Q [] p q = tt
  All-both P Q (x ∷ xs) (a, p) (b, q) = ((a, b), All-both P Q xs p q)

  length-map : {B : Type 0} (f : A → B) (xs : List A) → length (map f xs) ≡ length xs
  length-map f [] = refl
  length-map f (x ∷ xs) = ap suc (length-map f xs)

  pub All-filter :
      (P : A → Type 0) (p : A → Bool) (xs : List A)
      → All P xs
      → All (λ x. P x × (p x ≡ true)) (filter p xs)
  All-filter P p [] h = tt
  All-filter P p (x ∷ xs) (px, h) = elim (Bool-cases (p x)) [
    | inl t ↦ rw t ((px, t), All-filter P p xs h)
    | inr t ↦ rw t (All-filter P p xs h)
  ]

pub apart : {K : Type 0} ⦃e : HasEq K⦄ (j k : K) → not (j == k) ≡ true → j ≢ k
apart ⦃e = e⦄ j k h p = ground (arith, e.agrees j k)

module _ {K V : Type 0} ⦃e : HasEq K⦄ where
  unfoldable erase_all : List K → Dict K V → Dict K V
  erase_all [] d = d
  erase_all (k ∷ ks) d = erase_all ks (erase k d)

  Apart : K × V → K × V → Type 0
  Apart p q = q.0 ≢ p.0

  Distinct-Pairwise : (d : Dict K V) → Distinct d → Pairwise Apart d
  unfolding Apart
  Distinct-Pairwise [] h = tt
  Distinct-Pairwise ((k, v) ∷ d) (f, h) = (f, Distinct-Pairwise d h)

  keys-Pairwise : (d : Dict K V) → Pairwise Apart d → Pairwise (λ j k. k ≢ j) (map (λ p. p.0) d)
  unfolding Apart
  keys-Pairwise [] h = tt
  keys-Pairwise ((k, v) ∷ d) (f, h) = (All-map (λ j. j ≢ k) (λ p. p.0) d f, keys-Pairwise d h)

  abbrev pub Holds : Dict K V → K → Type 0
  Holds d k = is_some (get k d) ≡ true

  Holds-cons : (p : K × V) (d : Dict K V) (k : K) → Holds d k → Holds (p ∷ d) k
  unfolding get
  Holds-cons (j, v) d k h = ground arith

  Holds-own : (d : Dict K V) → All (λ p. Holds d (p.0)) d
  unfolding get
  Holds-own [] = tt
  Holds-own ((k, v) ∷ d) =
      (ground (arith, e.agrees k k), All-imp (λ p h. Holds-cons (k, v) d (p.0) h) d (Holds-own d))

  pub Holds-erase : (k j : K) (d : Dict K V) → Distinct d → j ≢ k → Holds d j → Holds (erase k d) j
  Holds-erase k j d h n p = ground (arith, get-erase k j d h, e.agrees k j)

  -- Erasing keys that are there, and distinct, takes away as many entries.
  length-erase_all :
      (ks : List K) (d : Dict K V)
      → Distinct d
      → Pairwise (λ j k. k ≢ j) ks
      → All (Holds d) ks
      → length (erase_all ks d) + length ks ≡ length d
  unfolding erase_all
  length-erase_all [] d h p q = omega arith
  length-erase_all (k ∷ ks) d h (f, p) (here_, q) =
      let still =
        All-imp {P = λ j. (j ≢ k) × Holds d j} (λ j (n, t). Holds-erase k j d h n t) ks
          (All-both (λ j. j ≢ k) (Holds d) ks f q) in
      ground
        (arith, length-erase k d, length-erase_all ks (erase k d) (Distinct-erase k d h) p still)

pub delete_row-IsValid : (h : List ℕ) (s : ContentStore) → IsValid s → IsValid (delete_row h s)
unfolding delete_row
delete_row-IsValid h s v = record {
  keys = Distinct-erase h s.content v.keys;
  indexed =
      All-imp (λ p (held, other). Holds-erase h (p.1) s.content v.keys (apart (p.1) h other) held) _
        (All-filter (λ p. Holds s.content (p.1)) (λ p. not (p.1 == h)) s.name_prefixes v.indexed);
  room = v.room;
}

pub delete_rows-IsValid :
    (hs : List (List ℕ)) (s : ContentStore) → IsValid s → IsValid (delete_rows hs s)
unfolding delete_rows
delete_rows-IsValid [] s v = v
delete_rows-IsValid (h ∷ hs) s v =
    delete_rows-IsValid hs (delete_row h s) (delete_row-IsValid h s v)

delete_rows-content :
    (hs : List (List ℕ)) (s : ContentStore)
    → ((delete_rows hs s).content ≡ erase_all hs s.content)
      × ((delete_rows hs s).max_entries ≡ s.max_entries)
unfolding delete_rows delete_row erase_all
delete_rows-content [] s = (refl, refl)
delete_rows-content (h ∷ hs) s = delete_rows-content hs (delete_row h s)

oldest_keys-Hold :
    (n : ℕ) (s : ContentStore)
    → IsValid s
    → All (Holds s.content) (oldest_keys n s)
      × Pairwise (λ j k. k ≢ j) (oldest_keys n s)
      × (length (oldest_keys n s) ≡ min n (length s.content))
unfolding oldest_keys Apart
oldest_keys-Hold n s v =
    let sorted = sort older s.content in
    (
      All-map (Holds s.content) (λ p. p.0) (take n sorted)
          (All-take (λ p. Holds s.content (p.0)) n sorted
            (All-sort older (λ p. Holds s.content (p.0)) s.content (Holds-own s.content))),
      keys-Pairwise (take n sorted) (
          Pairwise-take Apart n sorted (
            Pairwise-sort older Apart (λ a b x p. x (sym p)) s.content
              (Distinct-Pairwise s.content v.keys))),
      omega (
        arith,
        length-map (λ p. p.0) (take n sorted),
        length-take n sorted,
        length-sort older s.content,
      ),
    )

-- Evicting the oldest `n` rows leaves all but `n`.
pub evict_internal-size :
    (n : ℕ) (s : ContentStore)
    → IsValid s
    → IsValid (evict_internal n s).0
      × (length (evict_internal n s).0.content ≡ length s.content - n)
      × ((evict_internal n s).0.max_entries ≡ s.max_entries)
unfolding evict_internal
evict_internal-size n s v =
    let ks = oldest_keys n s in
    let (held, apart_, size) = oldest_keys-Hold n s v in
    let (content, max) = delete_rows-content ks s in
    (
      delete_rows-IsValid ks s v,
      rw content (omega (arith, length-erase_all ks s.content v.keys apart_ held, size)),
      max,
    )

pub trim-IsBounded : (s : ContentStore) → IsValid s → IsBounded (trim s)
unfolding trim
trim-IsBounded s v = elim (Bool-cases (ltb s.max_entries (length s.content))) [
  | inr t ↦ rw t (v, ltb-false→le s.max_entries (length s.content) t)
  | inl t ↦
      let (valid, size, max) = evict_internal-size (length s.content - s.max_entries) s v in
      rw t (valid, omega arith)
]

Holds-put : (k j : List ℕ) (r : Row) (d : Dict (List ℕ) Row) → Holds d j → Holds (put k r d) j
Holds-put k j r d h = ground (arith, get-put k j r d)

Holds-put_self : (k : List ℕ) (r : Row) (d : Dict (List ℕ) Row) → Holds (put k r d) k
Holds-put_self k r d = rw (get-put k k r d, eq_refl k) refl

pub upsert-IsValid :
    (key : List ℕ) (row : Row) (hashes : List (List ℕ)) (s : ContentStore)
    → IsValid s
    → IsValid (upsert key row hashes s)
unfolding upsert
upsert-IsValid key row hashes s v = record {
  keys = Distinct-put key row s.content v.keys;
  indexed =
      All-append _ (filter (λ p. not (p.1 == key)) s.name_prefixes) (map (λ h. (h, key)) hashes)
        (All-imp (λ p (held, other). Holds-put key (p.1) row s.content held) _
          (All-filter (λ p. Holds s.content (p.1)) (λ p. not (p.1 == key)) s.name_prefixes
            v.indexed))
        (All-map _ (λ h. (h, key)) hashes (All-always hashes));
  room = v.room;
}
  where
    All-always : (hs : List (List ℕ)) → All (λ h. Holds (put key row s.content) key) hs
    All-always [] = tt
    All-always (h ∷ hs) = (Holds-put_self key row s.content, All-always hs)
