-- ===== src/ContentStore/Queries.antt =====
-- What the two queries of the content store answer.
use rns_icn.Prelude.{
  ℕ, ◌+◌, ◌≤◌, ◌≡◌, refl, sym, ap, ◌∙◌, Bool, true, false, ◌&&◌, Option, none, some, arith,
}
use rns_icn.Prelude.{
  List, [], ◌∷◌, map, filter, any, All, In, here, there, leb→le, ◌==◌, nat_eq, list_eq, pair_eq,
  Bool-cases, inl, inr,
}
use rns_icn.Prelude.{get, Pairwise, sort-Pairwise}
use rns_icn.Wire.{ok, IfOk}
use rns_icn.Wire.Readers.{>>=-IfOk, >>=-IfOk_eq, IfOk-true, IfOk-map}
use rns_icn.Name
use rns_icn.Name.{Name, without_content_hash}
use rns_icn.Packet.Selector.{ChildSelector, child_none, latest, oldest}
use rns_icn.Packet.Data.{Data}
use rns_icn.ContentStore.{Row, ContentStore, purge_expired, parse_metadata}
use rns_icn.ContentStore.Operations.{
  data_of, verify_content, pin_holds, answer, name_hash, lookup_name, qualifies, sequence_of, binds,
  query_numbers, row_before, select_rows, passes_over, first_valid, counted, get_prefix,
}
use rns_icn.ContentStore.Rows.{All-imp}

-- Data whose declared hash is that of its content
abbrev pub Intact : (List ℕ → List ℕ) → Data → Type 0
Intact blake2b d = d.metadata.content_hash ≡ some (blake2b d.content)

abbrev pub Pinned : (List ℕ → List ℕ) → Option (List ℕ) → Data → Type 0
Pinned blake2b none d = Unit
Pinned blake2b (some h) d = blake2b d.content ≡ h

-- one query more: a hit with an answer, or a miss without
abbrev pub Counted : ContentStore → ContentStore → Option Data → Type 0
Counted s t none = (t.hits ≡ s.hits) × (t.misses ≡ s.misses + 1)
Counted s t (some d) = (t.hits ≡ s.hits + 1) × (t.misses ≡ s.misses)

abbrev pub IfSome : (Data → Type 0) → Option Data → Type 0
IfSome P none = Unit
IfSome P (some d) = P d

and_both : (a b : Bool) → a && b ≡ true → (a ≡ true) × (b ≡ true)
and_both a b h = ground arith

module _ (blake2b : List ℕ → List ℕ) where
  verify_content-Intact :
      (now : ℕ) (n : Name) (row : Row)
      → verify_content blake2b row ≡ true
      → Intact blake2b (data_of now n row)
  unfolding verify_content parse_metadata
  verify_content-Intact now n row h =
      ap some (sym ((list_eq.agrees (blake2b row.content_bytes) row.metadata.content_hash).0 h))

  pin_holds-Pinned :
      (now : ℕ) (pin : Option (List ℕ)) (n : Name) (row : Row)
      → pin_holds blake2b pin row ≡ true
      → Pinned blake2b pin (data_of now n row)
  unfolding pin_holds
  pin_holds-Pinned now none n row h = tt
  pin_holds-Pinned now (some p) n row h = (list_eq.agrees (blake2b row.content_bytes) p).0 h

  abbrev pub Answers : Option (List ℕ) → ContentStore → ContentStore × Option Data → Type 0
  Answers pin s (t, o) = Counted s t o × IfSome (λ d. Intact blake2b d × Pinned blake2b pin d) o

  answer-Answers :
      (now : ℕ) (pin : Option (List ℕ)) (o : Option Row) (s : ContentStore)
      → IfOk (Answers pin s) (answer blake2b now pin o s)
  unfolding answer
  answer-Answers now pin none s = ((refl, refl), tt)
  answer-Answers now pin (some row) s =
      >>=-IfOk _ (Name.from_bytes row.name_bytes) _ (IfOk-true (Name.from_bytes row.name_bytes))
        (λ n _. elim (Bool-cases (verify_content blake2b row && pin_holds blake2b pin row)) [
          | inl t ↦
              let (intact, pinned) =
                and_both (verify_content blake2b row) (pin_holds blake2b pin row) t in
              rw t (
                (refl, refl),
                (verify_content-Intact now n row intact, pin_holds-Pinned now pin n row pinned),
              )
          | inr t ↦ rw t ((refl, refl), tt)
        ])

  -- What `get` returns, if it does not raise: one more hit and Data whose declared content hash is
  -- that of its content, and equals the request's pin if there is one; or one more miss and none.
  pub lookup_name-Answers :
      (now : ℕ) (name : Name) (s : ContentStore)
      → IfOk (Answers name.content_hash (purge_expired now s).0) (lookup_name blake2b now name s)
  unfolding lookup_name
  lookup_name-Answers now name s =
      let h = name_hash blake2b (without_content_hash name) in
      let purged = (purge_expired now s).0 in
      >>=-IfOk _ h _ (IfOk-true h)
        (λ k _. answer-Answers now name.content_hash (get k purged.content) purged)

  -- A row that a query for a child may answer with, under its stored name.
  abbrev pub Servable : ChildSelector → Row → Name → Type 0
  Servable child row n =
      (Name.from_bytes row.name_bytes ≡ ok n)
      × (passes_over child n ≡ ok false)
      × (verify_content blake2b row ≡ true)

  -- The answer is that of a servable row before all the others, or there is no servable row.
  abbrev pub Chosen : (Row → Row → Type 0) → ℕ → ChildSelector → List Row → Option Data → Type 0
  Chosen R now child rows none = All (λ r. (n : Name) → Servable child r n → ⊥) rows
  Chosen R now child rows (some d) =
      (r : Row) × (n : Name) × In r rows
      × Servable child r n
      × (d ≡ data_of now n r)
      × All (λ q. (m : Name) → Servable child q m → R r q) rows

  Chosen-skip :
      (R : Row → Row → Type 0) (now : ℕ) (child : ChildSelector) (row : Row) (rows : List Row)
      (o : Option Data)
      → ((n : Name) → Servable child row n → ⊥)
      → Chosen R now child rows o
      → Chosen R now child (row ∷ rows) o
  Chosen-skip R now child row rows none never h = (never, h)
  Chosen-skip R now child row rows (some d) never (r, n, m, s, e, all) =
      (r, n, there m, s, e, ((λ k p. absurd (never k p)), all))

  first_valid-Chosen :
      (R : Row → Row → Type 0) (own : (r : Row) → R r r) (now : ℕ) (child : ChildSelector)
      (rows : List Row)
      → Pairwise R rows
      → IfOk (Chosen R now child rows) (first_valid blake2b now child rows)
  unfolding first_valid
  first_valid-Chosen R own now child [] p = tt
  first_valid-Chosen R own now child (row ∷ rows) (first, p) =
      let skip : ((n : Name) → Servable child row n → ⊥)
          → IfOk (Chosen R now child (row ∷ rows)) (first_valid blake2b now child rows) =
        λ never.
          IfOk-map (Chosen R now child (row ∷ rows)) (first_valid blake2b now child rows)
            (first_valid-Chosen R own now child rows p)
            (λ o h. Chosen-skip R now child row rows o never h) in
      >>=-IfOk_eq _ (Name.from_bytes row.name_bytes) _ (λ n named.
        >>=-IfOk_eq _ (passes_over child n) _ (λ reserved over. elim (Bool-cases reserved) [
          | inl t ↦ rw t (skip (λ m (named_, over_, _). cc))
          | inr f ↦ rw f (elim (Bool-cases (verify_content blake2b row)) [
            | inl t ↦ rw t (
              row,
              n,
              here refl,
              (named, over ∙ ap ok f, t),
              refl,
              ((λ m _. own row), All-imp (λ q h m _. h) rows first),
            )
            | inr g ↦ rw g (skip (λ m (_, _, valid). cc))
          ])
        ]))

-- How the three selectors rank rows: the newest, the highest sequence, or the lowest.
abbrev pub Ranked : ChildSelector → Row → Row → Type 0
Ranked child_none a b = b.inserted_at ≤ a.inserted_at
Ranked latest a b = sequence_of b ≤ sequence_of a
Ranked oldest a b = sequence_of a ≤ sequence_of b

Ranked-own : (child : ChildSelector) (a : Row) → Ranked child a a
Ranked-own child_none a = omega arith
Ranked-own latest a = omega arith
Ranked-own oldest a = omega arith

Ranked-trans :
    (child : ChildSelector) (a b c : Row) → Ranked child a b → Ranked child b c → Ranked child a c
Ranked-trans child_none a b c p q = omega arith
Ranked-trans latest a b c p q = omega arith
Ranked-trans oldest a b c p q = omega arith

row_before-Ranked :
    (child : ChildSelector) (a b : Row) → row_before child a b ≡ true → Ranked child a b
unfolding row_before
row_before-Ranked child_none a b h = leb→le b.inserted_at a.inserted_at h
row_before-Ranked latest a b h = ground arith
row_before-Ranked oldest a b h = ground arith

row_before-false-Ranked :
    (child : ChildSelector) (a b : Row) → row_before child a b ≡ false → Ranked child b a
unfolding row_before
row_before-false-Ranked child_none a b h = ground arith
row_before-false-Ranked latest a b h = ground arith
row_before-false-Ranked oldest a b h = ground arith

select_rows-Ranked :
    (h : List ℕ) (child : ChildSelector) (floor : Option ℕ) (s : ContentStore)
    → Pairwise (Ranked child) (select_rows h child floor s)
unfolding select_rows
select_rows-Ranked h child floor s =
    sort-Pairwise (row_before child) (Ranked child) (row_before-Ranked child)
      (row_before-false-Ranked child) (Ranked-trans child)
      (map (λ p. p.1)
        (filter (λ p. any (λ e. e == (h, p.0)) s.name_prefixes && qualifies child floor p.1)
          s.content))

module _ (blake2b : List ℕ → List ℕ) where
  abbrev pub AnswersPrefix :
      ℕ → Name → ChildSelector → Option ℕ → ContentStore → ContentStore × Option Data → Type 0
  AnswersPrefix now prefix child floor s (t, o) =
      (h : List ℕ) × (name_hash blake2b prefix ≡ ok h)
      × Chosen blake2b (Ranked child) now child (select_rows h child floor s) o
      × Counted s t o

  counted-AnswersPrefix :
      (now : ℕ) (prefix : Name) (child : ChildSelector) (floor : Option ℕ) (s : ContentStore)
      (h : List ℕ) (o : Option Data)
      → name_hash blake2b prefix ≡ ok h
      → Chosen blake2b (Ranked child) now child (select_rows h child floor s) o
      → AnswersPrefix now prefix child floor s (counted o s)
  counted-AnswersPrefix now prefix child floor s h none e c = (h, e, c, (refl, refl))
  counted-AnswersPrefix now prefix child floor s h (some d) e c = (h, e, c, (refl, refl))

  -- What `get_prefix` returns, if it does not raise. Data, and one hit more: that of a row the query
  -- selects, whose content has the stored hash and, for `latest` and `oldest`, whose name is not
  -- reserved; among all such rows it has the highest sequence for `latest`, the lowest for `oldest`,
  -- and the newest time of insertion without a child selector. None, and one miss more: no selected
  -- row is such.
  pub get_prefix-Chosen :
      (now : ℕ) (prefix : Name) (child : ChildSelector) (floor : Option ℕ) (s : ContentStore)
      → IfOk
          (AnswersPrefix now prefix child floor (purge_expired now s).0)
          (get_prefix blake2b now prefix child floor s)
  unfolding get_prefix
  get_prefix-Chosen now prefix child floor s =
      let purged = (purge_expired now s).0 in
      >>=-IfOk_eq _ (name_hash blake2b prefix) _ (λ h hashed.
        let rows = select_rows h child floor purged in
        >>=-IfOk_eq _ (binds (query_numbers child floor)) _ (λ _ _.
          >>=-IfOk {P = Chosen blake2b (Ranked child) now child rows} _
            (first_valid blake2b now child rows) _
            (first_valid-Chosen blake2b (Ranked child) (Ranked-own child) now child rows
              (select_rows-Ranked h child floor purged))
            (λ o chosen. counted-AnswersPrefix now prefix child floor purged h o hashed chosen)))
