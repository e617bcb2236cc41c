-- ===== src/Fib/Lookup.antt =====
-- `lookup` is a longest-prefix match.
use rns_icn.Prelude.{◌≡◌, refl, sym, true, ◌&&◌, Option, none, some}
use rns_icn.Prelude.{[], ◌∷◌, In, if◌then◌else◌}
use mathlib.Core.Path.{subst}
use rns_icn.Name.{Name, starts_with}
use rns_icn.Name.Longest.{longest_match, longest_match-Found, NoMatch, Found, Longest}
use rns_icn.Fib.{Fib, Faces, FibEntry, best_entry, is_better, faces_of, lookup}

-- The loop of `lookup` is the loop for the longest matching prefix.
best_entry-longest_match :
    (name : Name) (best : Option FibEntry) (fib : Fib)
    → best_entry name best fib ≡ longest_match (λ e. e.0) name best fib
unfolding best_entry longest_match
best_entry-longest_match name best [] = refl
best_entry-longest_match name none ((q, faces) ∷ es) =
    best_entry-longest_match name (if starts_with name q && true then some (q, faces) else none) es
best_entry-longest_match name (some (p, old)) ((q, faces) ∷ es) =
    best_entry-longest_match name
      (if starts_with name q && is_better q (some (p, old)) then some (q, faces) else some (p, old))
      es

-- What `lookup` returns: nothing if no prefix of the table is one of the name, and otherwise the
-- faces of an entry whose prefix is one of the name, of which there is none longer.
abbrev pub IsLongestMatch : Name → Fib → Option Faces → Type 0
IsLongestMatch name fib none = NoMatch (λ e. e.0) name fib
IsLongestMatch name fib (some faces) =
    (q : Name) × In (q, faces) fib
    × (starts_with name q ≡ true)
    × Longest (λ e. e.0) name (q, faces) fib

-- `lookup` is a longest-prefix match: if it returns faces, they are those of an entry of the table
-- whose prefix the name starts with, and no other such prefix of the table is longer; if it returns
-- none, the name starts with no prefix of the table.
pub lookup-IsLongestMatch : (name : Name) (fib : Fib) → IsLongestMatch name fib (lookup name fib)
unfolding lookup faces_of
lookup-IsLongestMatch name fib = named (best_entry name none fib) (
    subst (Found (λ e. e.0) name fib) (sym (best_entry-longest_match name none fib))
      (longest_match-Found (λ e. e.0) name fib))
  where
    named :
        (o : Option FibEntry) → Found (λ e. e.0) name fib o → IsLongestMatch name fib (faces_of o)
    named none h = h
    named (some (q, faces)) (m, match, longest) = (q, m, match, longest)
