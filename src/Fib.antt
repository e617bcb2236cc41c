-- ===== src/Fib.antt =====
-- rns_icn/fib.py: the Forwarding Information Base. An entry is a prefix with its faces and their
-- costs; `faces` is a list of pairs with distinct faces, so it is read and written as a dictionary.
pub mod Faces
pub mod Changes
pub mod Routes
pub mod Lookup
mod Runs
use rns_icn.Prelude.{ℕ, ◌+◌, ◌≤◌, ◌≡◌, Bool, true, false, ◌&&◌, ◌||◌, not, Option, none, some}
use rns_icn.Prelude.{List, [], ◌∷◌, ◌++◌, length, filter, leb, ltb, ◌==◌, nat_eq, if◌then◌else◌}
use rns_icn.Prelude.{Dict, get, put}
use rns_icn.Name.{Name, name_eq, starts_with}
use rns_icn.Pit.{FaceId}

abbrev pub Faces : Type 0
Faces = Dict FaceId ℕ

-- `FibEntry`
abbrev pub FibEntry : Type 0
FibEntry = Name × Faces

abbrev pub Fib : Type 0
Fib = List FibEntry

-- `faces.sort(key=cost)`, which is stable
unfoldable pub insert_by_cost : FaceId × ℕ → Faces → Faces
insert_by_cost x [] = x ∷ []
insert_by_cost x (y ∷ ys) = if leb x.1 y.1 then x ∷ y ∷ ys else y ∷ insert_by_cost x ys

unfoldable pub sort_faces : Faces → Faces
unfolding insert_by_cost
sort_faces [] = []
sort_faces (x ∷ xs) = insert_by_cost x (sort_faces xs)

unfoldable pub insert : Name → FaceId → ℕ → Fib → Fib
unfolding sort_faces
insert prefix face cost [] = (prefix, (face, cost) ∷ []) ∷ []
insert prefix face cost ((q, faces) ∷ es) =
    if q == prefix
    then (q, sort_faces (put face cost faces)) ∷ es
    else (q, faces) ∷ insert prefix face cost es

-- `[(f, c) for f, c in entry.faces if f != face]`
unfoldable pub without_face : FaceId → Faces → Faces
without_face face [] = []
without_face face ((f, c) ∷ fs) =
    if f == face then without_face face fs else (f, c) ∷ without_face face fs

-- `if entry.faces: new_entries.append(entry)`
unfoldable pub keep_entry : Name → Faces → Fib → Fib
keep_entry q [] es = es
keep_entry q (x ∷ xs) es = (q, x ∷ xs) ∷ es

abbrev pub related : Name → Name → Bool
related prefix q = starts_with q prefix || starts_with prefix q

unfoldable pub remove_face : Name → FaceId → Fib → Fib
unfolding without_face keep_entry
remove_face prefix face [] = []
remove_face prefix face ((q, faces) ∷ es) =
    let rest = remove_face prefix face es in
    if related prefix q then keep_entry q (without_face face faces) rest else (q, faces) ∷ rest

unfoldable pub remove_prefix : Name → Fib → Fib
remove_prefix prefix fib = filter (λ e. not (starts_with e.0 prefix)) fib

-- The entries that are left, and the number of prefixes from which the face was withdrawn.
unfoldable pub remove_all_for_face : FaceId → Fib → Fib × ℕ
unfolding without_face keep_entry
remove_all_for_face face [] = ([], 0)
remove_all_for_face face ((q, faces) ∷ es) =
    let (rest, withdrawn) = remove_all_for_face face es in
    let left = without_face face faces in
    (keep_entry q left rest, if length left == length faces then withdrawn else withdrawn + 1)

-- `best is None or entry.prefix.len() > best.prefix.len()`
unfoldable pub is_better : Name → Option FibEntry → Bool
is_better q none = true
is_better q (some (p, faces)) = ltb (length p.components) (length q.components)

-- the loop of `lookup`
unfoldable pub best_entry : Name → Option FibEntry → Fib → Option FibEntry
unfolding is_better
best_entry name best [] = best
best_entry name best ((q, faces) ∷ es) =
    best_entry name (if starts_with name q && is_better q best then some (q, faces) else best) es

unfoldable pub faces_of : Option FibEntry → Option Faces
faces_of none = none
faces_of (some (q, faces)) = some faces

unfoldable pub lookup : Name → Fib → Option Faces
unfolding best_entry faces_of
lookup name fib = faces_of (best_entry name none fib)
