-- ===== src/Propagation/Runs.antt =====
-- Concrete runs on the peers of a server.
use rns_icn.Prelude.{◌≡◌, refl, none, some}
use rns_icn.Prelude.{[], ◌∷◌, replicate}
use rns_icn.Prelude.{erase}
use rns_icn.Wire.{ok}
use rns_icn.Name.{name_eq}
use rns_icn.Pit.{contains}
use rns_icn.Propagation.{Propagation, empty, propagate}
use rns_icn.Propagation.Peers.{
  IsValid, adds, removes, marks_downstream, apply_all, apply_all-IsValid, propagate-erase,
}
use rns_icn.Samples.{content, two_faces}

abbrev three_peers : Propagation
three_peers = record empty {
  peers = (1, replicate 16 7) ∷ (2, replicate 16 8) ∷ (3, replicate 16 9) ∷ [];
  downstream_peers = 2 ∷ [];
}

-- Data from the second peer is sent to the first only: the third has no face.
propagate_once : (propagate two_faces content (some 2) three_peers (1 ∷ 2 ∷ [])).1 ≡ 1
unfolding propagate contains
propagate_once = refl

apply_all-IsValid_example :
    (q : Propagation) × (apply_all
        (adds 1 (replicate 16 7) ∷ marks_downstream 1 ∷ adds 2 (replicate 16 8) ∷ removes 1 ∷ [])
        empty
      ≡ ok q)
    × IsValid q
apply_all-IsValid_example =
    apply_all-IsValid
      (adds 1 (replicate 16 7) ∷ marks_downstream 1 ∷ adds 2 (replicate 16 8) ∷ removes 1 ∷ [])

propagate-erase_example :
    propagate two_faces content (some 1) three_peers (1 ∷ 2 ∷ [])
    ≡ propagate two_faces content none
        (record three_peers { peers = (2, replicate 16 8) ∷ (3, replicate 16 9) ∷ [] })
        (1 ∷ 2 ∷ [])
unfolding erase
propagate-erase_example =
    propagate-erase two_faces content 1 three_peers (1 ∷ 2 ∷ [])
      (((λ e. cc), ((λ e. cc), tt)), (((λ e. cc), tt), (tt, tt)))
