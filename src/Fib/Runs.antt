-- ===== src/Fib/Runs.antt =====
-- Concrete runs on the Forwarding Information Base.
use rns_icn.Prelude.{◌≡◌, ◌&&◌, refl, [], ◌∷◌, none, some, arith, nat_eq, nat_beq, if◌then◌else◌}
use rns_icn.Name.{name_eq, starts_with}
use rns_icn.Fib.{Fib, related, remove_face, lookup}
use rns_icn.Fib.Changes.{IsValid}
use rns_icn.Fib.Routes.{route, route-remove_face}
use rns_icn.Fib.Lookup.{IsLongestMatch, lookup-IsLongestMatch}
use rns_icn.Samples.{alice, alice_b, root}

abbrev table : Fib
table = (root, (1, 10) ∷ (2, 20) ∷ []) ∷ (alice, (3, 10) ∷ []) ∷ []

table-IsValid : IsValid table
table-IsValid = (
  (((λ e. ground arith), tt), (tt, tt)),
  (
    ((((λ e. omega arith), tt), (tt, tt)), ((omega arith, tt), (tt, tt)), (λ e. cc)),
    (((tt, tt), (tt, tt), (λ e. cc)), tt),
  ),
)

lookup-alice_b : lookup alice_b table ≡ some ((3, 10) ∷ [])
unfolding lookup starts_with
lookup-alice_b = refl

lookup-IsLongestMatch_example : IsLongestMatch alice_b table (lookup alice_b table)
lookup-IsLongestMatch_example = lookup-IsLongestMatch alice_b table

route-remove_face_example :
    route root 1 (remove_face alice 1 table)
    ≡ (if nat_beq 1 1 && related alice root then none else route root 1 table)
route-remove_face_example = route-remove_face alice 1 table root 1 table-IsValid
